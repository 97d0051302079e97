-- ===== src/Mem.antt =====
-- agent/src/mem.c: the memory and load collector. The contents of /proc/meminfo and /proc/loadavg
-- are arguments, `none` where the file cannot be opened. The language of this library has no floats:
-- the C type `double`, its conversion `%lf` and the scaling by TF_LOAD_SCALE are the record `Double`.
pub mod Collect
use trace_fox.Base.{
  ℕ, zero, suc, ◌+◌, ◌%◌, ◌^◌, Bool, ◌&&◌, Option, none, some, List, [], ◌∷◌, ltb, if◌then◌else◌,
  Status, ok, fail, length,
}
use trace_fox.Base.CString.{str_eq}
use trace_fox.Base.Stdio.{
  codes, Value, num, text, Directive, unsigned, word, space, scanf, skip_line,
}
use trace_fox.Bytes.{IsU16, buf_put_be_u16, buf_put_be_u32}
use trace_fox.Tlv.{TlvWriter}
use trace_fox.Collector.{calloc_ctx, free_ctx, put_payload}

-- `scan` is `%lf`; `to_u16_scaled x` is `(uint16_t)(x * (double)TF_LOAD_SCALE)`.
pub record Double : Type 1 where
  pub D : Type 0
  pub zero_d : D
  pub scan : List ℕ → Option (D × List ℕ)
  pub to_u16_scaled : D → ℕ
  pub to_u16_scaled-lt : (x : D) → IsU16 (to_u16_scaled x)

pub record MemPayload : Type 0 where
  pub mem_total_kb : ℕ
  pub mem_free_kb : ℕ
  pub mem_available_kb : ℕ

pub record LoadPayload : Type 0 where
  pub load1_x100 : ℕ
  pub load5_x100 : ℕ
  pub load15_x100 : ℕ

pub record MemCtx : Type 0 where
  pub last_mem : MemPayload
  pub last_load : LoadPayload

abbrev pub zero_mem : MemPayload
zero_mem = record { mem_total_kb = 0; mem_free_kb = 0; mem_available_kb = 0 }

abbrev pub zero_load : LoadPayload
zero_load = record { load1_x100 = 0; load5_x100 = 0; load15_x100 = 0 }

abbrev pub zero_ctx : MemCtx
zero_ctx = record { last_mem = zero_mem; last_load = zero_load }

unfoldable pub mem_init : Bool → Option MemCtx → Status × Option MemCtx
unfolding calloc_ctx
mem_init allocated ctx = calloc_ctx allocated zero_ctx ctx

unfoldable pub mem_destroy : Option MemCtx → Option MemCtx
unfolding free_ctx
mem_destroy ctx = free_ctx ctx

-- The locals `total`, `freev` and `avail`.
pub record MemInfo : Type 0 where
  pub total : ℕ
  pub freev : ℕ
  pub avail : ℕ

-- The `if` chain over the key.
unfoldable pub mem_key : List ℕ → ℕ → MemInfo → MemInfo
mem_key key value m =
    if str_eq key (codes "MemTotal:")
    then record m { total = value }
    else if str_eq key (codes "MemFree:")
    then record m { freev = value }
    else if str_eq key (codes "MemAvailable:")
    then record m { avail = value }
    else m

-- `total && freev && avail`
abbrev pub is_complete : MemInfo → Bool
is_complete m = ltb 0 m.total && (ltb 0 m.freev && ltb 0 m.avail)

-- "%63s %lu"
abbrev pub meminfo_format : List Directive
meminfo_format = word 63 ∷ space ∷ unsigned 64 ∷ []

unfoldable pub pair_of : List Value → Option (List ℕ × ℕ)
pair_of (text key ∷ num value ∷ []) = some (key, value)
pair_of _ = none

-- `fscanf(…) == 2`, with what is left of the file.
unfoldable pub next_key : List ℕ → Option (List ℕ × ℕ × List ℕ)
next_key file =
    let (values, rest) = scanf meminfo_format file in
    elim (pair_of values) [ none ↦ none | some (key, value) ↦ some (key, value, rest) ]

-- The loop over the lines, on fuel; `none` is that the fuel ran out.
unfoldable pub meminfo_loop : ℕ → List ℕ → MemInfo → Option MemInfo
meminfo_loop zero file m = none
meminfo_loop (suc fuel) file m = elim (next_key file) [
  | none ↦ some m
  | some (key, value, rest) ↦
      let m' = mem_key key value m in
      let more = meminfo_loop fuel (skip_line rest) m' in if is_complete m' then some m' else more
]

-- `(uint32_t)` of the three values.
abbrev pub mem_payload_of : MemInfo → MemPayload
mem_payload_of m = record {
  mem_total_kb = m.total % 2 ^ 32;
  mem_free_kb = m.freev % 2 ^ 32;
  mem_available_kb = m.avail % 2 ^ 32;
}

module _ (double : Double) where
  open double use {D, zero_d, scan, to_u16_scaled}

  load_of : D → D → D → LoadPayload
  load_of l1 l5 l15 = record {
    load1_x100 = to_u16_scaled l1;
    load5_x100 = to_u16_scaled l5;
    load15_x100 = to_u16_scaled l15;
  }

  -- `fscanf(lfp, "%lf %lf %lf", …) != 3` leaves three zeros.
  unfoldable pub read_load : List ℕ → LoadPayload
  unfolding load_of
  read_load file = elim (scan file) [
    | none ↦ load_of zero_d zero_d zero_d
    | some (l1, rest) ↦ elim (scan rest) [
      | none ↦ load_of zero_d zero_d zero_d
      | some (l5, rest') ↦ elim (scan rest') [
        | none ↦ load_of zero_d zero_d zero_d
        | some (l15, rest'') ↦ load_of l1 l5 l15
      ]
    ]
  ]

  -- After the memory values are stored, a missing /proc/loadavg zeroes the loads and fails.
  unfoldable pub mem_collect : MemCtx → Option (List ℕ) → Option (List ℕ) → Option (Status × MemCtx)
  mem_collect ctx none loadavg = some (fail, record ctx { last_mem = zero_mem })
  mem_collect ctx (some meminfo) loadavg =
      elim (meminfo_loop (length meminfo + 1) meminfo
        (record { total = 0; freev = 0; avail = 0 })) [
          | none ↦ none
          | some m ↦ elim loadavg [
            | none ↦ some (fail, record { last_mem = mem_payload_of m; last_load = zero_load })
            | some file ↦
                some (ok, record { last_mem = mem_payload_of m; last_load = read_load file })
          ]
        ]

  unfoldable pub mem_collect_api :
      Option MemCtx → Option (List ℕ) → Option (List ℕ) → Option (Status × Option MemCtx)
  mem_collect_api none meminfo loadavg = some (fail, none)
  mem_collect_api (some ctx) meminfo loadavg = elim (mem_collect ctx meminfo loadavg) [
    | none ↦ none
    | some (status, c) ↦ some (status, some c)
  ]

abbrev pub tf_type_mem : ℕ
tf_type_mem = 0x02

unfoldable pub mem_payload_bytes : MemCtx → List ℕ
unfolding buf_put_be_u16 buf_put_be_u32
mem_payload_bytes ctx =
    let c1 = buf_put_be_u32 [] ctx.last_mem.mem_total_kb in
    let c2 = buf_put_be_u32 c1 ctx.last_mem.mem_free_kb in
    let c3 = buf_put_be_u32 c2 ctx.last_mem.mem_available_kb in
    let c4 = buf_put_be_u16 c3 ctx.last_load.load1_x100 in
    let c5 = buf_put_be_u16 c4 ctx.last_load.load5_x100 in
    buf_put_be_u16 c5 ctx.last_load.load15_x100

unfoldable pub mem_push : MemCtx → TlvWriter → Status × TlvWriter
mem_push ctx wrt = put_payload wrt tf_type_mem (mem_payload_bytes ctx)

unfoldable pub mem_push_api : Option MemCtx → TlvWriter → Status × TlvWriter
mem_push_api none wrt = (fail, wrt)
mem_push_api (some ctx) wrt = mem_push ctx wrt
