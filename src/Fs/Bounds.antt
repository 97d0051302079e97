-- ===== src/Fs/Bounds.antt =====
-- The scan of fs.c ends on every /proc/mounts, and the bounds of what it stores.
use trace_fox.Base.{
  ℕ, zero, suc, ◌+◌, ◌≤◌, ◌<◌, ◌≡◌, refl, ◌⊎◌, inl, inr, Option, none, some, List, [], arith, ltb,
  ltb→lt, Bool-cases, Option-cases, Status, ok, fail, length, set, All, length-set, All-set,
  All-replicate,
}
use trace_fox.Base.Stdio.{Value, scanf}
use trace_fox.Base.Scan.{IfSome, scanf-word}
use trace_fox.Fs.{
  zero_ctx, zero_entry, FsEntry, FsCtx, Statvfs, MountLine, mounts_format, mount_line_of,
  next_mount, to_kb, used_of, fs_entry_of, fs_type_allowed, fs_entry, fs_loop, fs_collect,
  is_truncated,
}
use trace_fox.RoundTrip

-- The fields fit their words, and the used share is at most 100 percent.
pub record IsStored (e : FsEntry) : Type 0 where
  pub fits : RoundTrip.Fs.IsEntry e
  pub used : e.used_pct_x10 ≤ 1000

pub record IsBounded (ctx : FsCtx) : Type 0 where
  pub size : length ctx.entries ≡ 16
  pub count_in : ctx.count ≤ 16
  pub stored : All IsStored ctx.entries

-- A record takes a byte at least.
next_mount-lt : (file : List ℕ) → IfSome (λ r. length r.1 < length file) (next_mount file)
unfolding next_mount mount_line_of
next_mount-lt file = go (scanf mounts_format file) (scanf-word 15 _ file)
  where
    go :
        (r : List Value × List ℕ)
        → ((r.0 ≡ []) ⊎ (length r.1 < length file))
        → IfSome
            (λ (s : MountLine × List ℕ). length s.1 < length file)
            (elim (mount_line_of r.0) [ none ↦ none | some m ↦ some (m, r.1) ])
    go (vs, rest) (inl nothing) = rw (nothing, mount_line_of) tt
    go (vs, rest) (inr less) = elim (Option-cases (mount_line_of vs)) [
      | inl e ↦ rw e tt
      | inr (m, e) ↦ rw e less
    ]

used_of-le : (total freeb : ℕ) → used_of total freeb ≤ 1000
unfolding used_of
used_of-le total freeb = ground arith

fs_entry_of-IsStored : (mount : List ℕ) (s : Statvfs) → IsStored (fs_entry_of mount s)
unfolding fs_entry_of
fs_entry_of-IsStored mount s =
    let u = used_of-le (to_kb s.f_blocks s.f_frsize) (to_kb s.f_bavail s.f_frsize) in
    record { fits = (omega arith, omega arith); used = u }

module _ (statvfs : List ℕ → Option Statvfs) where
  fs_entry-IsStored : (m : MountLine) → IfSome IsStored (fs_entry statvfs m)
  unfolding fs_entry
  fs_entry-IsStored m = elim (Bool-cases (fs_type_allowed m.type)) [
    | inr e ↦ rw (e, fs_entry) tt
    | inl e ↦ elim (Option-cases (statvfs m.mount)) [
      | inl n ↦ rw (e, n, fs_entry) tt
      | inr (s, n) ↦ rw (e, n, fs_entry) (fs_entry_of-IsStored m.mount s)
    ]
  ]

  -- What the loop leaves.
  record IsLoop (out : List FsEntry × ℕ × List ℕ) : Type 0 where
    pub size : length out.0 ≡ 16
    pub idx_in : out.1 ≤ 16
    pub stored : All IsStored out.0

  fs_loop-IsLoop :
      (fuel : ℕ) (file : List ℕ) (entries : List FsEntry) (idx : ℕ)
      → length file < fuel
      → length entries ≡ 16
      → idx ≤ 16
      → All IsStored entries
      → (out : List FsEntry × ℕ × List ℕ) × (fs_loop statvfs fuel file entries idx ≡ some out)
        × IsLoop out
  unfolding fs_loop
  fs_loop-IsLoop zero file entries idx enough size few stored = absurd (omega arith)
  fs_loop-IsLoop (suc fuel) file entries idx enough size few stored =
      elim (Bool-cases (ltb idx 16)) [
        | inr full ↦ (
          (entries, idx, file),
          rw full refl,
          record { size = size; idx_in = few; stored = stored },
        )
        | inl room ↦ elim (Option-cases (next_mount file)) [
          | inl n ↦ (
            (entries, idx, file),
            rw (room, n) refl,
            record { size = size; idx_in = few; stored = stored },
          )
          | inr ((m, rest), n) ↦
              let less : length rest < length file = rw n at (next_mount-lt file) in
              elim (Option-cases (fs_entry statvfs m)) [
                | inl s ↦
                    rw (room, n, s)
                      (fs_loop-IsLoop fuel rest entries idx (omega arith) size few stored)
                | inr (e, s) ↦
                    let fits : IsStored e = rw s at (fs_entry-IsStored m) in
                    rw (room, n, s)
                      (fs_loop-IsLoop fuel rest (set entries idx e) (idx + 1) (omega arith)
                        (omega (arith, length-set entries idx e))
                        (omega (arith, ltb→lt idx 16 room))
                        (All-set IsStored entries idx e stored fits))
              ]
        ]
      ]

  -- Whatever /proc/mounts holds and whatever `statvfs` answers, `fs_collect` ends, its fuel being enough. It keeps
  -- sixteen entries in the array, at most sixteen in use, each with a size that fits its word and a used share
  -- of at most 1000 tenths of a percent.
  pub fs_collect-IsBounded :
      (ctx : FsCtx) (file : Option (List ℕ))
      → IsBounded ctx
      → (out : Status × FsCtx) × (fs_collect statvfs ctx file ≡ some out) × IsBounded out.1
  unfolding fs_collect
  fs_collect-IsBounded ctx none v = (
    (fail, record ctx { count = 0 }),
    refl,
    record { size = v.size; count_in = omega arith; stored = v.stored },
  )
  fs_collect-IsBounded ctx (some file) v =
      let ((entries, idx, rest), e, h) =
        fs_loop-IsLoop (length file + 1) file ctx.entries 0 (omega arith) v.size (omega arith)
          v.stored in
      (
        (
          ok,
          record {
            entries = entries;
            count = idx;
            truncated = is_truncated statvfs idx ctx.truncated rest;
          },
        ),
        rw (e, fs_collect) refl,
        record { size = h.size; count_in = h.idx_in; stored = h.stored },
      )

pub zero_ctx-IsBounded : IsBounded zero_ctx
zero_ctx-IsBounded = record {
  size = refl;
  count_in = omega arith;
  stored =
      All-replicate IsStored 16 zero_entry
        (record { fits = (omega arith, omega arith); used = omega arith });
}
