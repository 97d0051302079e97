-- ===== src/Fs.antt =====
-- agent/src/fs.c: the file-system collector. The contents of /proc/mounts are an argument, `none`
-- where the file cannot be opened, and so is `statvfs`, a call into the operating system.
pub mod Bounds
use trace_fox.Base.{
  ℕ, zero, suc, ◌+◌, ◌-◌, ◌/◌, ◌%◌, ◌^◌, Bool, true, false, ◌&&◌, ◌||◌, not, Option, none, some,
  List, [], ◌∷◌, ◌++◌, ltb, leb, ◌==◌, if◌then◌else◌, Status, ok, fail, length, set, take,
  replicate,
}
use trace_fox.Base.CString.{str_eq, strncpy, name_field}
use trace_fox.Base.Stdio.{codes, Value, num, text, Directive, unsigned, word, space, scanf}
use trace_fox.Bytes.{byte, buf_put_be_u16, buf_put_be_u64}
use trace_fox.Tlv.{TlvWriter}
use trace_fox.Collector.{calloc_ctx, free_ctx, put_payload}
use trace_fox.Cpu.{mul64}

abbrev pub tf_max_fs : ℕ
tf_max_fs = 16

abbrev pub tf_fs_mount_size : ℕ
tf_fs_mount_size = 16

-- `struct fs_entry`
pub record FsEntry : Type 0 where
  pub mount : List ℕ
  pub total_kb : ℕ
  pub used_pct_x10 : ℕ

pub record FsCtx : Type 0 where
  pub entries : List FsEntry
  pub count : ℕ
  pub truncated : Bool

-- The fields of `struct statvfs` that the collector reads.
pub record Statvfs : Type 0 where
  pub f_blocks : ℕ
  pub f_frsize : ℕ
  pub f_bavail : ℕ

abbrev pub zero_entry : FsEntry
zero_entry = record { mount = replicate tf_fs_mount_size 0; total_kb = 0; used_pct_x10 = 0 }

abbrev pub zero_ctx : FsCtx
zero_ctx = record { entries = replicate tf_max_fs zero_entry; count = 0; truncated = false }

unfoldable pub fs_init : Bool → Option FsCtx → Status × Option FsCtx
unfolding calloc_ctx
fs_init allocated ctx = calloc_ctx allocated zero_ctx ctx

unfoldable pub fs_destroy : Option FsCtx → Option FsCtx
unfolding free_ctx
fs_destroy ctx = free_ctx ctx

abbrev pub fs_whitelist : List (List ℕ)
fs_whitelist =
    codes "ext4"
    ∷ codes "ext3"
    ∷ codes "ext2"
    ∷ codes "f2fs"
    ∷ codes "btrfs"
    ∷ codes "xfs"
    ∷ codes "vfat"
    ∷ codes "ntfs"
    ∷ codes "exfat"
    ∷ []

unfoldable pub is_listed : List ℕ → List (List ℕ) → Bool
is_listed type [] = false
is_listed type (w ∷ ws) = if str_eq type w then true else is_listed type ws

unfoldable pub fs_type_allowed : List ℕ → Bool
unfolding is_listed
fs_type_allowed type = is_listed type fs_whitelist

-- "%15s %127s %31s %127s %d %d"
abbrev pub mounts_format : List Directive
mounts_format =
    word 15
    ∷ space
    ∷ word 127
    ∷ space
    ∷ word 31
    ∷ space
    ∷ word 127
    ∷ space
    ∷ unsigned 32
    ∷ space
    ∷ unsigned 32
    ∷ []

-- The fields of a record of /proc/mounts that the collector looks at.
pub record MountLine : Type 0 where
  pub mount : List ℕ
  pub type : List ℕ

unfoldable pub mount_line_of : List Value → Option MountLine
mount_line_of (text dev ∷ text mount ∷ text type ∷ text opts ∷ num freq ∷ num passno ∷ []) =
    some (record { mount = mount; type = type })
mount_line_of _ = none

-- `fscanf(…) == 6`, with what is left of the file.
unfoldable pub next_mount : List ℕ → Option (MountLine × List ℕ)
next_mount file =
    let (values, rest) = scanf mounts_format file in
    elim (mount_line_of values) [ none ↦ none | some m ↦ some (m, rest) ]

-- `(uint64_t)blocks * f_frsize / TF_KB`
abbrev pub to_kb : ℕ → ℕ → ℕ
to_kb blocks frsize = mul64 blocks frsize / 1024

-- The used share in tenths of a percent.
unfoldable pub used_of : ℕ → ℕ → ℕ
used_of total freeb =
    let used : ℕ = if ltb freeb total then total - freeb else 0 in
    let pct10 = mul64 used 1000 / total in
    if total == 0 then 0 else (if ltb 1000 pct10 then 1000 else pct10) % 2 ^ 16

unfoldable pub fs_entry_of : List ℕ → Statvfs → FsEntry
fs_entry_of mount s = record {
  mount = set (strncpy zero_entry.mount mount (tf_fs_mount_size - 1)) (tf_fs_mount_size - 1) 0;
  total_kb = to_kb s.f_blocks s.f_frsize;
  used_pct_x10 = used_of (to_kb s.f_blocks s.f_frsize) (to_kb s.f_bavail s.f_frsize);
}

module _ (statvfs : List ℕ → Option Statvfs) where
  -- A record whose type is not listed, or whose file system cannot be queried, is skipped.
  unfoldable pub fs_entry : MountLine → Option FsEntry
  fs_entry m =
      if fs_type_allowed m.type
      then elim (statvfs m.mount) [ none ↦ none | some s ↦ some (fs_entry_of m.mount s) ]
      else none

  -- The loop, on fuel: the array, `idx`, and what is left of the file. `none` is that the fuel ran out.
  unfoldable pub fs_loop : ℕ → List ℕ → List FsEntry → ℕ → Option (List FsEntry × ℕ × List ℕ)
  fs_loop zero file entries idx = none
  fs_loop (suc fuel) file entries idx =
      let next : List ℕ → MountLine → Option (List FsEntry × ℕ × List ℕ) = λ rest m.
        elim (fs_entry m) [
          | none ↦ fs_loop fuel rest entries idx
          | some e ↦ fs_loop fuel rest (set entries idx e) (idx + 1)
        ] in
      if ltb idx tf_max_fs
      then elim (next_mount file) [
        | none ↦ some (entries, idx, file)
        | some (m, rest) ↦ next rest m
      ]
      else some (entries, idx, file)

  -- `truncated` is set once a further record of a listed type is left over.
  unfoldable pub is_truncated : ℕ → Bool → List ℕ → Bool
  is_truncated idx already rest =
      if leb tf_max_fs idx && not already
      then elim (next_mount rest) [
        | none ↦ already
        | some (m, more) ↦ fs_type_allowed m.type || already
      ]
      else already

  -- Each round reads a byte at least, so one round more than the file has bytes is enough.
  unfoldable pub fs_collect : FsCtx → Option (List ℕ) → Option (Status × FsCtx)
  fs_collect ctx none = some (fail, record ctx { count = 0 })
  fs_collect ctx (some file) = elim (fs_loop (length file + 1) file ctx.entries 0) [
    | none ↦ none
    | some (entries, idx, rest) ↦ some (
      ok,
      record { entries = entries; count = idx; truncated = is_truncated idx ctx.truncated rest },
    )
  ]

  unfoldable pub fs_collect_api : Option FsCtx → Option (List ℕ) → Option (Status × Option FsCtx)
  fs_collect_api none file = some (fail, none)
  fs_collect_api (some ctx) file = elim (fs_collect ctx file) [
    | none ↦ none
    | some (status, c) ↦ some (status, some c)
  ]

abbrev pub tf_type_fs : ℕ
tf_type_fs = 0x06

unfoldable pub fs_entry_bytes : FsEntry → List ℕ
unfolding buf_put_be_u16 buf_put_be_u64
fs_entry_bytes e =
    buf_put_be_u16 (buf_put_be_u64 (name_field tf_fs_mount_size e.mount) e.total_kb) e.used_pct_x10

unfoldable pub fs_entries_bytes : List FsEntry → List ℕ
fs_entries_bytes [] = []
fs_entries_bytes (e ∷ es) = fs_entry_bytes e ++ fs_entries_bytes es

unfoldable pub fs_payload : FsCtx → List ℕ
fs_payload ctx = byte ctx.count ∷ fs_entries_bytes (take ctx.count ctx.entries)

unfoldable pub fs_push : FsCtx → TlvWriter → Status × TlvWriter
fs_push ctx wrt = if ctx.count == 0 then (ok, wrt) else put_payload wrt tf_type_fs (fs_payload ctx)

unfoldable pub fs_push_api : Option FsCtx → TlvWriter → Status × TlvWriter
fs_push_api none wrt = (fail, wrt)
fs_push_api (some ctx) wrt = fs_push ctx wrt
