-- ===== src/RoundTrip/Threads/Entries.antt =====
-- The busiest threads and the counters of a group against their readers in the parser.
use trace_fox.Base.{
  ℕ, ◌+◌, ◌*◌, ◌≤◌, ◌≡◌, refl, List, [], ◌∷◌, ◌++◌, map, append_assoc, arith, le→ltb_false, length,
  drop, All, length-append,
}
use trace_fox.Bytes.{be16, be32, IsU16, IsU32, from_be-be16, from_be-be32}
use trace_fox.Proc.{ThreadTopEntry}
use trace_fox.Proc.Push.{top_entry_bytes, top_entries_bytes, state_bytes}
use trace_fox.Protocol.{TopThread, parsed}
use trace_fox.Protocol.Decode.{name_of, unpack, single, fields}
use trace_fox.Protocol.Handlers.{parse_states, top_thread, parse_top}
use trace_fox.Protocol.Segment.{Holds, slice-Holds, drop-Holds, le-Holds, Holds-append, Holds-next}

pub record IsTop (e : ThreadTopEntry) : Type 0 where
  pub name_size : length e.name ≡ 16
  pub inst : IsU16 e.inst_count
  pub cpu : IsU16 e.cpu_pct_x10
  pub pid : IsU32 e.pid
  pub tid : IsU32 e.tid

-- What the server sees of a thread.
abbrev pub top_of : ThreadTopEntry → TopThread
top_of e = record {
  name = name_of e.name;
  inst_count = e.inst_count;
  cpu_x10 = e.cpu_pct_x10;
  pid = e.pid;
  tid = e.tid;
}

abbrev counts : ThreadTopEntry → List ℕ
counts e = be16 e.inst_count ++ be16 e.cpu_pct_x10

abbrev ids : ThreadTopEntry → List ℕ
ids e = be32 e.pid ++ be32 e.tid

top_layout : (e : ThreadTopEntry) → top_entry_bytes e ≡ e.name ++ (counts e ++ ids e)
unfolding top_entry_bytes
top_layout e = simp append_assoc

length-top_entry_bytes : (e : ThreadTopEntry) → IsTop e → length (top_entry_bytes e) ≡ 28
length-top_entry_bytes e v =
    rw (top_layout e) (omega (arith, v.name_size, length-append e.name (counts e ++ ids e)))

pub length-top_entries_bytes :
    (es : List ThreadTopEntry) → All IsTop es → length (top_entries_bytes es) ≡ 28 * length es
unfolding top_entries_bytes
length-top_entries_bytes [] v = refl
length-top_entries_bytes (e ∷ es) (v, vs) = omega (
  arith,
  length-append (top_entry_bytes e) (top_entries_bytes es),
  length-top_entry_bytes e v,
  length-top_entries_bytes es vs,
)

unpack-counts :
    (e : ThreadTopEntry)
    → IsTop e
    → unpack (2 ∷ 2 ∷ []) (counts e) ≡ parsed (e.inst_count ∷ e.cpu_pct_x10 ∷ [])
unfolding unpack fields
unpack-counts e v = rw (from_be-be16 e.inst_count v.inst, from_be-be16 e.cpu_pct_x10 v.cpu)

unpack-ids :
    (e : ThreadTopEntry) → IsTop e → unpack (4 ∷ 4 ∷ []) (ids e) ≡ parsed (e.pid ∷ e.tid ∷ [])
unfolding unpack fields
unpack-ids e v = rw (from_be-be32 e.pid v.pid, from_be-be32 e.tid v.tid)

top_round :
    (e : ThreadTopEntry) (p : ℕ) (val rest : List ℕ)
    → IsTop e
    → Holds val p (top_entry_bytes e) rest
    → (top_thread val p ≡ parsed (top_of e)) × (p + 28 ≤ length val)
unfolding top_thread
top_round e p val rest v h =
    let name_size = v.name_size in
    let tail = counts e ++ (ids e ++ rest) in
    let at_name : drop p val ≡ e.name ++ tail = rw (top_layout e, append_assoc) at h in
    let at_counts : drop (p + 16) val ≡ tail =
      drop-Holds val p (p + 16) e.name tail at_name (omega arith) in
    let at_ids : drop (p + 20) val ≡ ids e ++ rest =
      drop-Holds val (p + 16) (p + 20) (counts e) (ids e ++ rest) at_counts (omega arith) in
    let room : p + 28 ≤ length val =
      le-Holds val (p + 20) (p + 28) (ids e) rest at_ids (omega arith) (omega arith) in
    (
      rw (
        slice-Holds val (p + 16) (p + 20) (counts e) (ids e ++ rest) at_counts (omega arith),
        slice-Holds val (p + 20) (p + 28) (ids e) rest at_ids (omega arith),
        slice-Holds val p (p + 16) e.name tail at_name (omega arith),
        unpack-counts e v,
        unpack-ids e v,
      ),
      room,
    )

pub parse_top-entries :
    (es : List ThreadTopEntry) (val : List ℕ) (p : ℕ) (rest : List ℕ)
    → All IsTop es
    → Holds val p (top_entries_bytes es) rest
    → parse_top (length es) val p ≡ parsed (map top_of es)
unfolding top_entries_bytes parse_top
parse_top-entries [] val p rest valid h = refl
parse_top-entries (e ∷ es) val p rest (valid, others) h =
    let (one, room) =
      top_round e p val (top_entries_bytes es ++ rest) valid
        (Holds-append val p (top_entry_bytes e) (top_entries_bytes es) rest h) in
    rw (
      le→ltb_false (length val) (p + 28) room,
      one,
      parse_top-entries es val (p + 28) rest others (
          Holds-next val p (p + 28) (top_entry_bytes e) (top_entries_bytes es) rest h
            (omega (arith, length-top_entry_bytes e valid))),
    )

pub unpack-state : (c : ℕ) → IsU16 c → unpack (2 ∷ []) (be16 c) ≡ parsed (c ∷ [])
unfolding unpack fields
unpack-state c h = rw (from_be-be16 c h)

pub parse_states-counts :
    (cs : List ℕ) (val : List ℕ) (p : ℕ) (rest : List ℕ)
    → All IsU16 cs
    → Holds val p (state_bytes cs) rest
    → parse_states (length cs) val p ≡ parsed cs
unfolding state_bytes parse_states single
parse_states-counts [] val p rest valid h = refl
parse_states-counts (c ∷ cs) val p rest (valid, others) h = rw (
  slice-Holds val p (p + 2) (be16 c) (state_bytes cs ++ rest) h (omega arith),
  unpack-state c valid,
  parse_states-counts cs val (p + 2) rest others
      (Holds-next val p (p + 2) (be16 c) (state_bytes cs) rest h (omega arith)),
)

-- A group as the collector stores it.
