-- ===== src/RoundTrip/Cut.antt =====
-- What the server reads from an entry whose length does not fit the byte that carries it: the pushes of
-- agent/src/disk.c and agent/src/fs.c cast the length of the payload to `uint8_t`.
use trace_fox.Base.{
  ℕ, zero, suc, ◌+◌, ◌-◌, ◌*◌, ◌/◌, ◌%◌, ◌≤◌, ◌<◌, ◌≡◌, refl, ap, ◌∙◌, inl, inr, some, List, [],
  ◌∷◌, arith, leb, lt→ltb, leb→le, le→leb, lt→leb_false, Bool-cases, length, take, length-take,
}
use native.Mathlib.Nat.{div-lt_iff_lt-mul}
use trace_fox.Bytes.{byte}
use trace_fox.Collector.Pushed.{sent, length-sent}
use trace_fox.Disk.{DiskCtx}
use trace_fox.Disk.Collect.{disk_payload, disk_entries_bytes}
use trace_fox.Fs.{FsCtx, fs_payload, fs_entries_bytes}
use trace_fox.Protocol
use trace_fox.Protocol.{parsed, Result}
use trace_fox.Protocol.Decode.{byte_at}
use trace_fox.Protocol.Handlers.{parse_disk, disk_narrow, parse_fs, mount_narrow}
use trace_fox.Protocol.Frame.{handle_entry}
use trace_fox.Protocol.Branches.{disk_narrow-IsParsed, mount_narrow-IsParsed, parsed_of}
use trace_fox.RoundTrip.Disk.{length-disk_entries_bytes}
use trace_fox.RoundTrip.Fs.{length-fs_entries_bytes}

-- Below 66 bytes per disk the parser takes the former layout, and finds a disk per 42 bytes at most.
narrow_disks :
    (count size : ℕ) (val : List ℕ) (p : ℕ)
    → size < 66
    → (ds : List Protocol.Disk) × (parse_disk count size val p ≡ parsed ds)
      × (42 * length ds ≤ length val - p)
unfolding parse_disk
narrow_disks zero size val p small = ([], refl, omega arith)
narrow_disks (suc count) size val p small =
    let off_wide = lt→leb_false 66 size small in
    let (ds, e, few) = narrow_disks count size val (p + 42) small in
    elim (Bool-cases (leb (p + 42) (length val))) [
      | inr none_left ↦ ([], rw (off_wide, none_left) refl, omega arith)
      | inl room ↦
          let some_room = leb→le (p + 42) (length val) room in
          let (d, f) = parsed_of (disk_narrow val p) (disk_narrow-IsParsed val p some_room) in
          (d ∷ ds, rw (off_wide, room, f, e) refl, omega arith)
    ]

narrow_mounts :
    (count size : ℕ) (val : List ℕ) (p : ℕ)
    → size < 26
    → (ms : List Protocol.Mount) × (parse_fs count size val p ≡ parsed ms)
      × (22 * length ms ≤ length val - p)
unfolding parse_fs
narrow_mounts zero size val p small = ([], refl, omega arith)
narrow_mounts (suc count) size val p small =
    let off_wide = lt→leb_false 26 size small in
    let (ds, e, few) = narrow_mounts count size val (p + 22) small in
    elim (Bool-cases (leb (p + 22) (length val))) [
      | inr none_left ↦ ([], rw (off_wide, none_left) refl, omega arith)
      | inl room ↦
          let some_room = leb→le (p + 22) (length val) room in
          let (d, f) = parsed_of (mount_narrow val p) (mount_narrow-IsParsed val p some_room) in
          (d ∷ ds, rw (off_wide, room, f, e) refl, omega arith)
    ]

first_byte : (m c : ℕ) (rest : List ℕ) → 1 ≤ m → byte_at (take m (c ∷ rest)) 0 ≡ parsed c
unfolding byte_at
first_byte zero c rest h = absurd (omega arith)
first_byte (suc m) c rest h = refl

-- The branch on a value whose first byte is the count.
disk_branch :
    (val : List ℕ) (r : Result) (n : ℕ)
    → byte_at val 0 ≡ parsed n
    → 1 ≤ length val
    → 0 < n
    → (length val - 1) / n < 66
    → (found : List Protocol.Disk) × (handle_entry 5 val r
        ≡ parsed (record r { disk = some found }))
      × (42 * length found ≤ length val - 1)
unfolding handle_entry
disk_branch val r n first some_byte some_entry small =
    let (found, e, few) = narrow_disks n ((length val - 1) / n) val 1 small in
    (found, rw (le→leb 1 (length val) some_byte, first, lt→ltb 0 n some_entry, e) refl, few)

-- With four to sixteen disks the entry that `disk_push` puts is cut, and the server reads fewer disks from it than
-- the context holds.
pub disk_payload_cut :
    (ctx : DiskCtx) (r : Result)
    → 4 ≤ ctx.count
    → ctx.count ≤ 16
    → ctx.count ≤ length ctx.entries
    → (ds : List Protocol.Disk) × (handle_entry 5 (sent (disk_payload ctx)) r
        ≡ parsed (record r { disk = some ds }))
      × (length ds < ctx.count)
unfolding disk_payload
disk_payload_cut ctx r many few stored =
    let n = ctx.count in
    let es = disk_entries_bytes (take n ctx.entries) in
    let val = sent (disk_payload ctx) in
    let size : length (disk_payload ctx) ≡ 1 + 66 * n =
      omega (arith, length-disk_entries_bytes (take n ctx.entries), length-take n ctx.entries) in
    let cut : length val ≡ (1 + 66 * n) % 256 = length-sent (disk_payload ctx) ∙ ap byte size in
    let count : byte n ≡ n = omega arith in
    let per_entry : (length val - 1) / n < 66 = (div-lt_iff_lt-mul (omega arith)).1 (omega arith) in
    let first : byte_at val 0 ≡ parsed n =
      first_byte (byte (length (disk_payload ctx))) (byte n) es (omega arith) ∙ ap parsed count in
    let (found, e, few_read) = disk_branch val r n first (omega arith) (omega arith) per_entry in
    (found, e, omega arith)

-- The branch on a value whose first byte is the count.
fs_branch :
    (val : List ℕ) (r : Result) (n : ℕ)
    → byte_at val 0 ≡ parsed n
    → 1 ≤ length val
    → 0 < n
    → (length val - 1) / n < 26
    → (found : List Protocol.Mount) × (handle_entry 6 val r ≡ parsed (record r { fs = some found }))
      × (22 * length found ≤ length val - 1)
unfolding handle_entry
fs_branch val r n first some_byte some_entry small =
    let (found, e, few) = narrow_mounts n ((length val - 1) / n) val 1 small in
    (found, rw (le→leb 1 (length val) some_byte, first, lt→ltb 0 n some_entry, e) refl, few)

-- With ten to sixteen file systems the entry that `fs_push` puts is cut, and the server reads fewer of them from it
-- than the context holds.
pub fs_payload_cut :
    (ctx : FsCtx) (r : Result)
    → 10 ≤ ctx.count
    → ctx.count ≤ 16
    → ctx.count ≤ length ctx.entries
    → (ms : List Protocol.Mount) × (handle_entry 6 (sent (fs_payload ctx)) r
        ≡ parsed (record r { fs = some ms }))
      × (length ms < ctx.count)
unfolding fs_payload
fs_payload_cut ctx r many few stored =
    let n = ctx.count in
    let es = fs_entries_bytes (take n ctx.entries) in
    let val = sent (fs_payload ctx) in
    let size : length (fs_payload ctx) ≡ 1 + 26 * n =
      omega (arith, length-fs_entries_bytes (take n ctx.entries), length-take n ctx.entries) in
    let cut : length val ≡ (1 + 26 * n) % 256 = length-sent (fs_payload ctx) ∙ ap byte size in
    let count : byte n ≡ n = omega arith in
    let per_entry : (length val - 1) / n < 26 = (div-lt_iff_lt-mul (omega arith)).1 (omega arith) in
    let first : byte_at val 0 ≡ parsed n =
      first_byte (byte (length (fs_payload ctx))) (byte n) es (omega arith) ∙ ap parsed count in
    let (found, e, few_read) = fs_branch val r n first (omega arith) (omega arith) per_entry in
    (found, e, omega arith)
