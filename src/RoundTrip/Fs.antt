-- ===== src/RoundTrip/Fs.antt =====
-- agent/src/fs.c against the branch `TF_TYPE_FS` of the parser.
use trace_fox.Base.{
  ℕ, suc, ◌+◌, ◌-◌, ◌*◌, ◌/◌, ◌≤◌, ◌<◌, ◌≡◌, refl, sym, some, List, [], ◌∷◌, ◌++◌, map, append-nil,
  append_assoc, arith, lt→ltb, le→leb, length, take, drop, All, length-append, length-take,
}
use native.Mathlib.Nat.{mul-div_cancel}
use trace_fox.Base.CString.{c_str, name_field, length-name_field}
use trace_fox.Bytes.{byte, be16, be64, IsU16, IsU64, from_be-be16, from_be-be64}
use trace_fox.Fs.{FsEntry, FsCtx, fs_entry_bytes, fs_entries_bytes, fs_payload}
use trace_fox.Protocol.{Mount, parsed, Result}
use trace_fox.Protocol.Decode.{ascii, byte_at, unpack, single, fields}
use trace_fox.Protocol.Handlers.{parse_fs, mount_wide}
use trace_fox.Protocol.Frame.{handle_entry}
use trace_fox.Protocol.Segment.{
  Holds, slice-Holds, drop-Holds, le-Holds, Holds-append, Holds-next, name_of-name_field,
}

-- The fields fit the widths in which they are stored.
abbrev pub IsEntry : FsEntry → Type 0
IsEntry e = IsU64 e.total_kb × IsU16 e.used_pct_x10

-- What the server sees of an entry: fifteen bytes of the mount point at most.
abbrev pub mount_of : FsEntry → Mount
mount_of e = record {
  mount = ascii (take 15 (c_str e.mount));
  total_kb = e.total_kb;
  used_pct = e.used_pct_x10;
}

entry_layout :
    (e : FsEntry)
    → fs_entry_bytes e ≡ name_field 16 e.mount ++ (be64 e.total_kb ++ be16 e.used_pct_x10)
unfolding fs_entry_bytes
entry_layout e = append_assoc (name_field 16 e.mount) (be64 e.total_kb) (be16 e.used_pct_x10)

unpack-total :
    (e : FsEntry) → IsEntry e → unpack (8 ∷ []) (be64 e.total_kb) ≡ parsed (e.total_kb ∷ [])
unfolding unpack fields
unpack-total e (total, used) = rw (from_be-be64 e.total_kb total)

unpack-used :
    (e : FsEntry) → IsEntry e → unpack (2 ∷ []) (be16 e.used_pct_x10) ≡ parsed (e.used_pct_x10 ∷ [])
unfolding unpack fields
unpack-used e (total, used) = rw (from_be-be16 e.used_pct_x10 used)

length-fs_entry_bytes : (e : FsEntry) → length (fs_entry_bytes e) ≡ 26
length-fs_entry_bytes e = rw (entry_layout e) (
    omega (
      arith,
      length-name_field 16 e.mount,
      length-append (name_field 16 e.mount) (be64 e.total_kb ++ be16 e.used_pct_x10),
    ))

pub length-fs_entries_bytes : (es : List FsEntry) → length (fs_entries_bytes es) ≡ 26 * length es
unfolding fs_entries_bytes
length-fs_entries_bytes [] = refl
length-fs_entries_bytes (e ∷ es) = omega (
  arith,
  length-append (fs_entry_bytes e) (fs_entries_bytes es),
  length-fs_entry_bytes e,
  length-fs_entries_bytes es,
)

-- One entry in the current layout.
wide_round :
    (e : FsEntry) (p : ℕ) (val rest : List ℕ)
    → IsEntry e
    → Holds val p (fs_entry_bytes e) rest
    → (mount_wide val p ≡ parsed (mount_of e)) × (p + 26 ≤ length val)
unfolding mount_wide single
wide_round e p val rest v h =
    let name_size = length-name_field 16 e.mount in
    let tail = be64 e.total_kb ++ (be16 e.used_pct_x10 ++ rest) in
    let at_name : drop p val ≡ name_field 16 e.mount ++ tail =
      rw (entry_layout e, append_assoc) at h in
    let at_total : drop (p + 16) val ≡ tail =
      drop-Holds val p (p + 16) (name_field 16 e.mount) tail at_name (omega arith) in
    let at_used : drop (p + 24) val ≡ be16 e.used_pct_x10 ++ rest =
      drop-Holds val (p + 16) (p + 24) (be64 e.total_kb) (be16 e.used_pct_x10 ++ rest) at_total
        (omega arith) in
    let room : p + 26 ≤ length val =
      le-Holds val (p + 24) (p + 26) (be16 e.used_pct_x10) rest at_used (omega arith)
        (omega arith) in
    (
      rw (
        slice-Holds val (p + 16) (p + 24) (be64 e.total_kb) (be16 e.used_pct_x10 ++ rest) at_total
            (omega arith),
        slice-Holds val (p + 24) (p + 26) (be16 e.used_pct_x10) rest at_used (omega arith),
        slice-Holds val p (p + 16) (name_field 16 e.mount) tail at_name (omega arith),
        unpack-total e v,
        unpack-used e v,
        name_of-name_field 15 e.mount,
      ),
      room,
    )

pub parse_fs-entries :
    (es : List FsEntry) (entry_size : ℕ) (val : List ℕ) (p : ℕ) (rest : List ℕ)
    → 26 ≤ entry_size
    → All IsEntry es
    → Holds val p (fs_entries_bytes es) rest
    → parse_fs (length es) entry_size val p ≡ parsed (map mount_of es)
unfolding fs_entries_bytes parse_fs
parse_fs-entries [] entry_size val p rest wide valid h = refl
parse_fs-entries (e ∷ es) entry_size val p rest wide (valid, others) h =
    let (one, room) =
      wide_round e p val (fs_entries_bytes es ++ rest) valid
        (Holds-append val p (fs_entry_bytes e) (fs_entries_bytes es) rest h) in
    rw (
      le→leb 26 entry_size wide,
      le→leb (p + 26) (length val) room,
      one,
      parse_fs-entries es entry_size val (p + 26) rest wide others (
          Holds-next val p (p + 26) (fs_entry_bytes e) (fs_entries_bytes es) rest h
            (omega (arith, length-fs_entry_bytes e))),
    )

-- One to sixteen entries, over fields that fit their widths.
pub record IsValid (ctx : FsCtx) : Type 0 where
  pub count_in : ctx.count ≤ 16
  pub some_mount : 0 < ctx.count
  pub stored : ctx.count ≤ length ctx.entries
  pub entries : All IsEntry (take ctx.count ctx.entries)

-- The server reads from the whole payload of one to sixteen file systems exactly these, in order,
-- with mount points cut off at fifteen bytes, and changes nothing else of the result.
pub fs_roundtrip :
    (ctx : FsCtx) (r : Result)
    → IsValid ctx
    → handle_entry 6 (fs_payload ctx) r
      ≡ parsed (record r { fs = some (map mount_of (take ctx.count ctx.entries)) })
unfolding handle_entry fs_payload byte_at
fs_roundtrip ctx r v =
    let es = take ctx.count ctx.entries in
    let bytes = length-fs_entries_bytes es in
    let size : byte ctx.count ≡ length es =
      omega (arith, length-take ctx.count ctx.entries, v.count_in, v.stored) in
    let n : length es ≡ ctx.count = omega (arith, length-take ctx.count ctx.entries, v.stored) in
    let all : suc (length (fs_entries_bytes es)) - 1 ≡ 26 * length es = omega (arith, bytes) in
    let exact : (suc (length (fs_entries_bytes es)) - 1) / length es ≡ 26 =
      rw all (mul-div_cancel 26 {n = length es} (omega (arith, n, v.some_mount))) in
    rw (
      le→leb 1 (suc (length (fs_entries_bytes es))) (omega arith),
      size,
      lt→ltb 0 (length es) (omega (arith, n, v.some_mount)),
      parse_fs-entries es ((suc (length (fs_entries_bytes es)) - 1) / length es)
          (length es ∷ fs_entries_bytes es) 1 [] (omega (arith, exact)) v.entries
          (sym (append-nil (fs_entries_bytes es))),
    )
