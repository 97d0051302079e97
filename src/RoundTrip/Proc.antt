-- ===== src/RoundTrip/Proc.antt =====
-- agent/src/proc.c, the process groups, against the branch `TF_TYPE_PROC` of the parser.
use trace_fox.Base.{
  ℕ, suc, ◌+◌, ◌*◌, ◌≤◌, ◌≡◌, refl, sym, some, List, [], ◌∷◌, ◌++◌, map, append-nil, append_assoc,
  arith, le→leb, le→ltb_false, length, drop, All, length-append, take_all,
}
use trace_fox.Bytes.{byte, be16, be32, IsU16, IsU32, from_be-be16, from_be-be32}
use trace_fox.Proc.{ProcGroupEntry}
use trace_fox.Proc.Push.{group_bytes, groups_bytes, proc_payload}
use trace_fox.Protocol.{ProcGroup, parsed, Result}
use trace_fox.Protocol.Decode.{name_of, byte_at, unpack, single, fields}
use trace_fox.Protocol.Handlers.{parse_proc, proc_group}
use trace_fox.Protocol.Frame.{handle_entry}
use trace_fox.Protocol.Segment.{Holds, slice-Holds, drop-Holds, le-Holds, Holds-append, Holds-next}

-- The name is an array of sixteen bytes, and the fields fit the widths in which they are stored.
pub record IsGroup (g : ProcGroupEntry) : Type 0 where
  pub name_size : length g.name ≡ 16
  pub inst : IsU16 g.inst_count
  pub cpu : IsU16 g.cpu_pct_x10
  pub rss : IsU32 g.rss_kb_sum

-- What the server sees of a group.
abbrev pub group_of : ProcGroupEntry → ProcGroup
group_of g = record {
  name = name_of g.name;
  inst_count = g.inst_count;
  cpu_x10 = g.cpu_pct_x10;
  rss_kb_sum = g.rss_kb_sum;
}

abbrev counts : ProcGroupEntry → List ℕ
counts g = be16 g.inst_count ++ be16 g.cpu_pct_x10

group_layout : (g : ProcGroupEntry) → group_bytes g ≡ g.name ++ (counts g ++ be32 g.rss_kb_sum)
unfolding group_bytes
group_layout g = simp append_assoc

length-group_bytes : (g : ProcGroupEntry) → IsGroup g → length (group_bytes g) ≡ 24
length-group_bytes g v =
    rw (group_layout g)
      (omega (arith, v.name_size, length-append g.name (counts g ++ be32 g.rss_kb_sum)))

pub length-groups_bytes :
    (gs : List ProcGroupEntry) → All IsGroup gs → length (groups_bytes gs) ≡ 24 * length gs
unfolding groups_bytes
length-groups_bytes [] v = refl
length-groups_bytes (g ∷ gs) (v, vs) = omega (
  arith,
  length-append (group_bytes g) (groups_bytes gs),
  length-group_bytes g v,
  length-groups_bytes gs vs,
)

unpack-counts :
    (g : ProcGroupEntry)
    → IsGroup g
    → unpack (2 ∷ 2 ∷ []) (counts g) ≡ parsed (g.inst_count ∷ g.cpu_pct_x10 ∷ [])
unfolding unpack fields
unpack-counts g v = rw (from_be-be16 g.inst_count v.inst, from_be-be16 g.cpu_pct_x10 v.cpu)

unpack-rss :
    (g : ProcGroupEntry)
    → IsGroup g
    → unpack (4 ∷ []) (be32 g.rss_kb_sum) ≡ parsed (g.rss_kb_sum ∷ [])
unfolding unpack fields
unpack-rss g v = rw (from_be-be32 g.rss_kb_sum v.rss)

group_round :
    (g : ProcGroupEntry) (p : ℕ) (val rest : List ℕ)
    → IsGroup g
    → Holds val p (group_bytes g) rest
    → (proc_group val p ≡ parsed (group_of g)) × (p + 24 ≤ length val)
unfolding proc_group single
group_round g p val rest v h =
    let name_size = v.name_size in
    let tail = counts g ++ (be32 g.rss_kb_sum ++ rest) in
    let at_name : drop p val ≡ g.name ++ tail = rw (group_layout g, append_assoc) at h in
    let at_counts : drop (p + 16) val ≡ tail =
      drop-Holds val p (p + 16) g.name tail at_name (omega arith) in
    let at_rss : drop (p + 20) val ≡ be32 g.rss_kb_sum ++ rest =
      drop-Holds val (p + 16) (p + 20) (counts g) (be32 g.rss_kb_sum ++ rest) at_counts
        (omega arith) in
    let room : p + 24 ≤ length val =
      le-Holds val (p + 20) (p + 24) (be32 g.rss_kb_sum) rest at_rss (omega arith) (omega arith) in
    (
      rw (
        slice-Holds val (p + 16) (p + 20) (counts g) (be32 g.rss_kb_sum ++ rest) at_counts
            (omega arith),
        slice-Holds val (p + 20) (p + 24) (be32 g.rss_kb_sum) rest at_rss (omega arith),
        slice-Holds val p (p + 16) g.name tail at_name (omega arith),
        unpack-counts g v,
        unpack-rss g v,
      ),
      room,
    )

parse_proc-groups :
    (gs : List ProcGroupEntry) (val : List ℕ) (p : ℕ) (rest : List ℕ)
    → All IsGroup gs
    → Holds val p (groups_bytes gs) rest
    → parse_proc (length gs) val p ≡ parsed (map group_of gs)
unfolding groups_bytes parse_proc
parse_proc-groups [] val p rest valid h = refl
parse_proc-groups (g ∷ gs) val p rest (valid, others) h =
    let (one, room) =
      group_round g p val (groups_bytes gs ++ rest) valid
        (Holds-append val p (group_bytes g) (groups_bytes gs) rest h) in
    rw (
      le→ltb_false (length val) (p + 24) room,
      one,
      parse_proc-groups gs val (p + 24) rest others (
          Holds-next val p (p + 24) (group_bytes g) (groups_bytes gs) rest h
            (omega (arith, length-group_bytes g valid))),
    )

-- The server reads from the payload of at most eight groups exactly these groups, in order, and
-- changes nothing else of the result.
pub proc_roundtrip :
    (gs : List ProcGroupEntry) (r : Result)
    → length gs ≤ 8
    → All IsGroup gs
    → handle_entry 7 (proc_payload gs) r
      ≡ parsed (record r { proc_groups = some (map group_of gs) })
unfolding handle_entry proc_payload byte_at
proc_roundtrip gs r few v =
    let size : byte (length gs) ≡ length gs = omega arith in
    rw (
      take_all 8 gs few,
      le→leb 1 (suc (length (groups_bytes gs))) (omega arith),
      size,
      parse_proc-groups gs (length gs ∷ groups_bytes gs) 1 [] v
          (sym (append-nil (groups_bytes gs))),
    )

pub length-proc_payload :
    (gs : List ProcGroupEntry)
    → length gs ≤ 8
    → All IsGroup gs
    → length (proc_payload gs) ≡ 1 + 24 * length gs
unfolding proc_payload
length-proc_payload gs few v = rw (take_all 8 gs few) (omega (arith, length-groups_bytes gs v))
