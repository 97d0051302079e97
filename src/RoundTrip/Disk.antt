-- ===== src/RoundTrip/Disk.antt =====
-- agent/src/disk.c against the branch `TF_TYPE_DISK` of the parser.
use trace_fox.Base.{
  ℕ, suc, ◌+◌, ◌-◌, ◌*◌, ◌/◌, ◌≤◌, ◌<◌, ◌≡◌, refl, sym, some, List, [], ◌∷◌, ◌++◌, map, append-nil,
  append_assoc, arith, lt→ltb, le→leb, length, take, drop, All, length-append, length-take,
}
use native.Mathlib.Nat.{mul-div_cancel}
use trace_fox.Base.CString.{c_str, name_field, length-name_field}
use trace_fox.Bytes.{
  byte, be16, be32, be64, IsU16, IsU32, IsU64, from_be-be16, from_be-be32, from_be-be64,
}
use trace_fox.Disk.{DiskEntry, DiskCtx}
use trace_fox.Disk.Collect.{disk_entry_bytes, disk_entries_bytes, disk_payload}
use trace_fox.Protocol
use trace_fox.Protocol.{parsed, Result}
use trace_fox.Protocol.Decode.{ascii, byte_at, unpack, fields}
use trace_fox.Protocol.Handlers.{parse_disk, disk_wide}
use trace_fox.Protocol.Frame.{handle_entry}
use trace_fox.Protocol.Segment.{
  Holds, slice-Holds, drop-Holds, le-Holds, Holds-append, Holds-next, name_of-name_field,
}

-- The fields fit the widths in which they are stored.
pub record IsEntry (e : DiskEntry) : Type 0 where
  pub reads : IsU64 e.reads_completed
  pub writes : IsU64 e.writes_completed
  pub sectors_read : IsU64 e.sectors_read
  pub sectors_written : IsU64 e.sectors_written
  pub read_ms : IsU64 e.read_ms
  pub write_ms : IsU64 e.write_ms
  pub read_delta : IsU32 e.read_iops_delta
  pub write_delta : IsU32 e.write_iops_delta
  pub util : IsU16 e.io_util_pct_x10

-- What the server sees of an entry.
abbrev pub disk_of : DiskEntry → Protocol.Disk
disk_of e = record {
  name = ascii (take 7 (c_str e.name));
  reads_completed = e.reads_completed;
  writes_completed = e.writes_completed;
  sectors_read = e.sectors_read;
  sectors_written = e.sectors_written;
  read_ms = e.read_ms;
  write_ms = e.write_ms;
  read_iops_delta = e.read_iops_delta;
  write_iops_delta = e.write_iops_delta;
  io_util_x10 = e.io_util_pct_x10;
}

abbrev counters : DiskEntry → List ℕ
counters e =
    be64 e.reads_completed
    ++ (be64 e.writes_completed
        ++ (be64 e.sectors_read ++ (be64 e.sectors_written ++ (be64 e.read_ms ++ be64 e.write_ms))))

abbrev deltas : DiskEntry → List ℕ
deltas e = be32 e.read_iops_delta ++ be32 e.write_iops_delta

entry_layout :
    (e : DiskEntry)
    → disk_entry_bytes e
      ≡ name_field 8 e.name ++ (counters e ++ (deltas e ++ be16 e.io_util_pct_x10))
unfolding disk_entry_bytes
entry_layout e = simp append_assoc

unpack-counters :
    (e : DiskEntry)
    → IsEntry e
    → unpack (8 ∷ 8 ∷ 8 ∷ 8 ∷ 8 ∷ 8 ∷ []) (counters e)
      ≡ parsed (
          e.reads_completed ∷ e.writes_completed ∷ e.sectors_read ∷ e.sectors_written ∷ e.read_ms
          ∷ e.write_ms ∷ [])
unfolding unpack fields
unpack-counters e v = rw (
  from_be-be64 e.reads_completed v.reads,
  from_be-be64 e.writes_completed v.writes,
  from_be-be64 e.sectors_read v.sectors_read,
  from_be-be64 e.sectors_written v.sectors_written,
  from_be-be64 e.read_ms v.read_ms,
  from_be-be64 e.write_ms v.write_ms,
)

unpack-deltas :
    (e : DiskEntry)
    → IsEntry e
    → unpack (4 ∷ 4 ∷ []) (deltas e) ≡ parsed (e.read_iops_delta ∷ e.write_iops_delta ∷ [])
unfolding unpack fields
unpack-deltas e v =
    rw (from_be-be32 e.read_iops_delta v.read_delta, from_be-be32 e.write_iops_delta v.write_delta)

unpack-util :
    (e : DiskEntry)
    → IsEntry e
    → unpack (2 ∷ []) (be16 e.io_util_pct_x10) ≡ parsed (e.io_util_pct_x10 ∷ [])
unfolding unpack fields
unpack-util e v = rw (from_be-be16 e.io_util_pct_x10 v.util)

length-disk_entry_bytes : (e : DiskEntry) → length (disk_entry_bytes e) ≡ 66
length-disk_entry_bytes e = rw (entry_layout e) (
    omega (
      arith,
      length-name_field 8 e.name,
      length-append (name_field 8 e.name) (counters e ++ (deltas e ++ be16 e.io_util_pct_x10)),
    ))

pub length-disk_entries_bytes :
    (es : List DiskEntry) → length (disk_entries_bytes es) ≡ 66 * length es
unfolding disk_entries_bytes
length-disk_entries_bytes [] = refl
length-disk_entries_bytes (e ∷ es) = omega (
  arith,
  length-append (disk_entry_bytes e) (disk_entries_bytes es),
  length-disk_entry_bytes e,
  length-disk_entries_bytes es,
)

-- One entry in the current layout.
wide_round :
    (e : DiskEntry) (p : ℕ) (val rest : List ℕ)
    → IsEntry e
    → Holds val p (disk_entry_bytes e) rest
    → (disk_wide val p ≡ parsed (disk_of e)) × (p + 66 ≤ length val)
unfolding disk_wide
wide_round e p val rest v h =
    let name_size = length-name_field 8 e.name in
    let tail = counters e ++ (deltas e ++ (be16 e.io_util_pct_x10 ++ rest)) in
    let at_name : drop p val ≡ name_field 8 e.name ++ tail =
      rw (entry_layout e, append_assoc) at h in
    let at_counters : drop (p + 8) val ≡ tail =
      drop-Holds val p (p + 8) (name_field 8 e.name) tail at_name (omega arith) in
    let at_deltas : drop (p + 56) val ≡ deltas e ++ (be16 e.io_util_pct_x10 ++ rest) =
      drop-Holds val (p + 8) (p + 56) (counters e) (deltas e ++ (be16 e.io_util_pct_x10 ++ rest))
        at_counters (omega arith) in
    let at_util : drop (p + 64) val ≡ be16 e.io_util_pct_x10 ++ rest =
      drop-Holds val (p + 56) (p + 64) (deltas e) (be16 e.io_util_pct_x10 ++ rest) at_deltas
        (omega arith) in
    let room : p + 66 ≤ length val =
      le-Holds val (p + 64) (p + 66) (be16 e.io_util_pct_x10) rest at_util (omega arith)
        (omega arith) in
    (
      rw (
        slice-Holds val (p + 8) (p + 56) (counters e) (deltas e ++ (be16 e.io_util_pct_x10 ++ rest))
            at_counters (omega arith),
        slice-Holds val (p + 56) (p + 64) (deltas e) (be16 e.io_util_pct_x10 ++ rest) at_deltas
            (omega arith),
        slice-Holds val (p + 64) (p + 66) (be16 e.io_util_pct_x10) rest at_util (omega arith),
        slice-Holds val p (p + 8) (name_field 8 e.name) tail at_name (omega arith),
        unpack-counters e v,
        unpack-deltas e v,
        unpack-util e v,
        name_of-name_field 7 e.name,
      ),
      room,
    )

pub parse_disk-entries :
    (es : List DiskEntry) (entry_size : ℕ) (val : List ℕ) (p : ℕ) (rest : List ℕ)
    → 66 ≤ entry_size
    → All IsEntry es
    → Holds val p (disk_entries_bytes es) rest
    → parse_disk (length es) entry_size val p ≡ parsed (map disk_of es)
unfolding disk_entries_bytes parse_disk
parse_disk-entries [] entry_size val p rest wide valid h = refl
parse_disk-entries (e ∷ es) entry_size val p rest wide (valid, others) h =
    let (one, room) =
      wide_round e p val (disk_entries_bytes es ++ rest) valid
        (Holds-append val p (disk_entry_bytes e) (disk_entries_bytes es) rest h) in
    rw (
      le→leb 66 entry_size wide,
      le→leb (p + 66) (length val) room,
      one,
      parse_disk-entries es entry_size val (p + 66) rest wide others (
          Holds-next val p (p + 66) (disk_entry_bytes e) (disk_entries_bytes es) rest h
            (omega (arith, length-disk_entry_bytes e))),
    )

-- One to sixteen entries, over fields that fit their widths.
pub record IsValid (ctx : DiskCtx) : Type 0 where
  pub count_in : ctx.count ≤ 16
  pub some_disk : 0 < ctx.count
  pub stored : ctx.count ≤ length ctx.entries
  pub entries : All IsEntry (take ctx.count ctx.entries)

-- The server reads from the whole payload of one to sixteen disks exactly these disks, in order, with names
-- cut off at seven bytes, and changes nothing else of the result.
pub disk_roundtrip :
    (ctx : DiskCtx) (r : Result)
    → IsValid ctx
    → handle_entry 5 (disk_payload ctx) r
      ≡ parsed (record r { disk = some (map disk_of (take ctx.count ctx.entries)) })
unfolding handle_entry disk_payload byte_at
disk_roundtrip ctx r v =
    let es = take ctx.count ctx.entries in
    let bytes = length-disk_entries_bytes es in
    let size : byte ctx.count ≡ length es =
      omega (arith, length-take ctx.count ctx.entries, v.count_in, v.stored) in
    let n : length es ≡ ctx.count = omega (arith, length-take ctx.count ctx.entries, v.stored) in
    let all : suc (length (disk_entries_bytes es)) - 1 ≡ 66 * length es = omega (arith, bytes) in
    let exact : (suc (length (disk_entries_bytes es)) - 1) / length es ≡ 66 =
      rw all (mul-div_cancel 66 {n = length es} (omega (arith, n, v.some_disk))) in
    rw (
      le→leb 1 (suc (length (disk_entries_bytes es))) (omega arith),
      size,
      lt→ltb 0 (length es) (omega (arith, n, v.some_disk)),
      parse_disk-entries es ((suc (length (disk_entries_bytes es)) - 1) / length es)
          (length es ∷ disk_entries_bytes es) 1 [] (omega (arith, exact)) v.entries
          (sym (append-nil (disk_entries_bytes es))),
    )
