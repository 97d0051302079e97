-- ===== src/Mem/Collect.antt =====
-- The scan of mem.c ends on every /proc/meminfo, and the bounds of what it stores.
use trace_fox.Base.{
  ℕ, zero, suc, ◌+◌, ◌^◌, ◌<◌, ◌≡◌, refl, ◌⊎◌, inl, inr, Option, none, some, List, [], arith,
  Bool-cases, Option-cases, Status, ok, fail, length,
}
use trace_fox.Base.Stdio.{Value, scanf, skip_line}
use trace_fox.Base.Scan.{IfSome, scanf-word, skip_line-le}
use trace_fox.Mem.{
  Double, LoadPayload, MemCtx, MemInfo, meminfo_format, pair_of, next_key, mem_key, is_complete,
  meminfo_loop, mem_payload_of, read_load, mem_collect, zero_load, zero_mem,
}
use trace_fox.RoundTrip

-- A pair takes a byte at least.
next_key-lt : (file : List ℕ) → IfSome (λ r. length r.2 < length file) (next_key file)
unfolding next_key pair_of
next_key-lt file = go (scanf meminfo_format file) (scanf-word 63 _ file)
  where
    go :
        (r : List Value × List ℕ)
        → ((r.0 ≡ []) ⊎ (length r.1 < length file))
        → IfSome
            (λ (s : List ℕ × ℕ × List ℕ). length s.2 < length file)
            (elim (pair_of r.0) [ none ↦ none | some (key, value) ↦ some (key, value, r.1) ])
    go (vs, rest) (inl nothing) = rw (nothing, pair_of) tt
    go (vs, rest) (inr less) = elim (Option-cases (pair_of vs)) [
      | inl e ↦ rw e tt
      | inr ((key, value), e) ↦ rw e less
    ]

meminfo_loop_total :
    (fuel : ℕ) (file : List ℕ) (m : MemInfo)
    → length file < fuel
    → (out : MemInfo) × (meminfo_loop fuel file m ≡ some out)
unfolding meminfo_loop
meminfo_loop_total zero file m enough = absurd (omega arith)
meminfo_loop_total (suc fuel) file m enough = elim (Option-cases (next_key file)) [
  | inl n ↦ (m, rw (n, meminfo_loop) refl)
  | inr ((key, value, rest), n) ↦
      let less : length rest < length file = rw n at (next_key-lt file) in
      let m' = mem_key key value m in
      elim (Bool-cases (is_complete m')) [
        | inl e ↦ (m', rw (n, e, meminfo_loop) refl)
        | inr e ↦
            rw (n, e, meminfo_loop)
              (meminfo_loop_total fuel (skip_line rest) m' (omega (arith, skip_line-le rest)))
      ]
]

module _ (double : Double) where
  open double use {D, zero_d, scan, to_u16_scaled, to_u16_scaled-lt}

  -- Loads that fit their words.
  record IsLoad (l : LoadPayload) : Type 0 where
    pub load1 : l.load1_x100 < 2 ^ 16
    pub load5 : l.load5_x100 < 2 ^ 16
    pub load15 : l.load15_x100 < 2 ^ 16

  read_load-IsLoad : (file : List ℕ) → IsLoad (read_load double file)
  unfolding read_load
  read_load-IsLoad file =
      let zeros = loads zero_d zero_d zero_d in
      elim (Option-cases (scan file)) [
        | inl a ↦ rw (a, read_load) zeros
        | inr ((l1, rest), a) ↦ elim (Option-cases (scan rest)) [
          | inl b ↦ rw (a, b, read_load) zeros
          | inr ((l5, rest'), b) ↦ elim (Option-cases (scan rest')) [
            | inl c ↦ rw (a, b, c, read_load) zeros
            | inr ((l15, rest''), c) ↦ rw (a, b, c, read_load) (loads l1 l5 l15)
          ]
        ]
      ]
    where
      loads :
          (a b c : D)
          → IsLoad (record {
            load1_x100 = to_u16_scaled a;
            load5_x100 = to_u16_scaled b;
            load15_x100 = to_u16_scaled c;
          })
      loads a b c = record {
        load1 = to_u16_scaled-lt a;
        load5 = to_u16_scaled-lt b;
        load15 = to_u16_scaled-lt c;
      }

  stored-IsMem :
      (m : MemInfo) (l : LoadPayload)
      → IsLoad l
      → RoundTrip.System.IsMem (record { last_mem = mem_payload_of m; last_load = l })
  stored-IsMem m l v = record {
    total = omega arith;
    free = omega arith;
    available = omega arith;
    load1 = v.load1;
    load5 = v.load5;
    load15 = v.load15;
  }

  -- Whatever /proc/meminfo and /proc/loadavg hold, and also if they cannot be opened, `mem_collect` ends, its fuel
  -- being enough, and what it keeps fits the fields of the payload.
  pub mem_collect-IsMem :
      (ctx : MemCtx) (meminfo loadavg : Option (List ℕ))
      → RoundTrip.System.IsMem ctx
      → (out : Status × MemCtx) × (mem_collect double ctx meminfo loadavg ≡ some out)
        × RoundTrip.System.IsMem out.1
  unfolding mem_collect
  mem_collect-IsMem ctx none loadavg v = (
    (fail, record ctx { last_mem = zero_mem }),
    refl,
    record {
      total = omega arith;
      free = omega arith;
      available = omega arith;
      load1 = v.load1;
      load5 = v.load5;
      load15 = v.load15;
    },
  )
  mem_collect-IsMem ctx (some meminfo) none v =
      let (m, e) =
        meminfo_loop_total (length meminfo + 1) meminfo (record { total = 0; freev = 0; avail = 0 })
          (omega arith) in
      (
        (fail, record { last_mem = mem_payload_of m; last_load = zero_load }),
        rw (e, mem_collect) refl,
        stored-IsMem m zero_load
            (record { load1 = omega arith; load5 = omega arith; load15 = omega arith }),
      )
  mem_collect-IsMem ctx (some meminfo) (some file) v =
      let (m, e) =
        meminfo_loop_total (length meminfo + 1) meminfo (record { total = 0; freev = 0; avail = 0 })
          (omega arith) in
      (
        (ok, record { last_mem = mem_payload_of m; last_load = read_load double file }),
        rw (e, mem_collect) refl,
        stored-IsMem m (read_load double file) (read_load-IsLoad file),
      )
