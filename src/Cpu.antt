-- ===== src/Cpu.antt =====
-- agent/src/cpu.c: the CPU collector. The contents of /proc/stat are an argument, `none` where the
-- file cannot be opened. The file-scope variable `g_last_diff_total` stands beside the context.
pub mod Share
pub mod Words
use trace_fox.Base.CString.{c_str}
use trace_fox.Base.{
  ℕ, ◌+◌, ◌-◌, ◌*◌, ◌/◌, ◌%◌, ◌^◌, Bool, true, false, Option, none, some, List, [], ◌∷◌, ◌++◌, ◌==◌,
  if◌then◌else◌, Status, ok, fail, add64,
}
use trace_fox.Base.Stdio.{codes, Value, num, Directive, unsigned, space, literals, fgets, scanf}
use trace_fox.Bytes.{buf_put_be_u16}
use trace_fox.Tlv.{TlvWriter}
use trace_fox.Collector.{SampleContext, calloc_ctx, free_ctx, put_payload}

-- `struct cpu_payload`, in tenths of a percent.
pub record CpuPayload : Type 0 where
  pub user : ℕ
  pub system : ℕ
  pub idle : ℕ
  pub iowait : ℕ
  pub irq : ℕ

-- The seven counters of the first line of /proc/stat.
pub record CpuStat : Type 0 where
  pub user : ℕ
  pub nicev : ℕ
  pub system : ℕ
  pub idle : ℕ
  pub iowait : ℕ
  pub irq : ℕ
  pub softirq : ℕ

-- `struct cpu_ctx`; the seven fields `prev_…` besides `prev_total` are one record.
pub record CpuCtx : Type 0 where
  pub prev_total : ℕ
  pub prev : CpuStat
  pub initialized : Bool
  pub last_payload : CpuPayload

pub record CpuState : Type 0 where
  pub ctx : CpuCtx
  pub g_last_diff_total : ℕ

abbrev pub zero_payload : CpuPayload
zero_payload = record { user = 0; system = 0; idle = 0; iowait = 0; irq = 0 }

abbrev pub zero_stat : CpuStat
zero_stat = record { user = 0; nicev = 0; system = 0; idle = 0; iowait = 0; irq = 0; softirq = 0 }

abbrev pub zero_ctx : CpuCtx
zero_ctx = record {
  prev_total = 0;
  prev = zero_stat;
  initialized = false;
  last_payload = zero_payload;
}

unfoldable pub cpu_init : Bool → Option CpuCtx → Status × Option CpuCtx
unfolding calloc_ctx
cpu_init allocated ctx = calloc_ctx allocated zero_ctx ctx

unfoldable pub cpu_destroy : Option CpuCtx → Option CpuCtx
unfolding free_ctx
cpu_destroy ctx = free_ctx ctx

-- Subtraction and multiplication of `unsigned long long`.
abbrev pub sub64 : ℕ → ℕ → ℕ
sub64 a b = (a + 2 ^ 64 - b) % 2 ^ 64

abbrev pub mul64 : ℕ → ℕ → ℕ
mul64 a b = a * b % 2 ^ 64

-- "cpu %llu %llu %llu %llu %llu %llu %llu"
abbrev cpu_format : List Directive
cpu_format =
    literals (codes "cpu")
    ++ space
      ∷ unsigned 64
      ∷ space
      ∷ unsigned 64
      ∷ space
      ∷ unsigned 64
      ∷ space
      ∷ unsigned 64
      ∷ space
      ∷ unsigned 64
      ∷ space
      ∷ unsigned 64
      ∷ space
      ∷ unsigned 64
      ∷ []

-- `ret == CPU_STAT_FIELDS`
stat_of : List Value → Option CpuStat
stat_of (num u ∷ num n ∷ num s ∷ num i ∷ num w ∷ num q ∷ num f ∷ []) =
    some (record { user = u; nicev = n; system = s; idle = i; iowait = w; irq = q; softirq = f })
stat_of _ = none

-- The first line of /proc/stat, read by `fgets` into `line[TF_LINE_BUF_SMALL]` and `sscanf`.
unfoldable pub read_stat : Option (List ℕ) → Option CpuStat
unfolding fgets scanf stat_of c_str
read_stat none = none
read_stat (some file) = elim (fgets 256 file) [
  | none ↦ none
  | some (line, rest) ↦ stat_of (scanf cpu_format (c_str line)).0
]

unfoldable pub total_of : CpuStat → ℕ
total_of s =
    add64 (add64 (add64 (add64 (add64 (add64 s.user s.nicev) s.system) s.idle) s.iowait) s.irq)
      s.softirq

-- `(uint16_t)((diff * TF_CPU_PERCENT_SCALE) / diff_total)`
unfoldable pub share_of : ℕ → ℕ → ℕ
share_of diff diff_total = mul64 diff 1000 / diff_total % 2 ^ 16

-- `diff_total` of the source, which is never 0.
unfoldable pub diff_total_of : ℕ → ℕ → ℕ
diff_total_of total prev_total = if sub64 total prev_total == 0 then 1 else sub64 total prev_total

unfoldable pub payload_of : CpuStat → CpuStat → ℕ → CpuPayload
payload_of now prev diff_total = record {
  user = share_of (add64 (sub64 now.user prev.user) (sub64 now.nicev prev.nicev)) diff_total;
  system = share_of (sub64 now.system prev.system) diff_total;
  idle = share_of (sub64 now.idle prev.idle) diff_total;
  iowait = share_of (sub64 now.iowait prev.iowait) diff_total;
  irq = share_of (add64 (sub64 now.irq prev.irq) (sub64 now.softirq prev.softirq)) diff_total;
}

-- `cpu_collect` after the counters are read.
unfoldable pub sample : CpuState → CpuStat → CpuState
sample st now =
    let total = total_of now in
    let diff_total = diff_total_of total st.ctx.prev_total in
    if st.ctx.initialized
    then record {
      ctx = record {
        prev_total = total;
        prev = now;
        initialized = true;
        last_payload = payload_of now st.ctx.prev diff_total;
      };
      g_last_diff_total = diff_total;
    }
    else record {
      ctx = record {
        prev_total = total;
        prev = now;
        initialized = true;
        last_payload = zero_payload;
      };
      g_last_diff_total = 1;
    }

-- The error paths zero the payload and keep all else.
unfoldable pub cpu_collect : CpuState → Option (List ℕ) → Status × CpuState
cpu_collect st file = elim (read_stat file) [
  | none ↦ (fail, record st { ctx = record (st.ctx) { last_payload = zero_payload } })
  | some now ↦ (ok, sample st now)
]

abbrev pub tf_type_cpu : ℕ
tf_type_cpu = 0x01

unfoldable pub cpu_payload_bytes : CpuPayload → List ℕ
unfolding buf_put_be_u16
cpu_payload_bytes p =
    let c1 = buf_put_be_u16 [] p.user in
    let c2 = buf_put_be_u16 c1 p.system in
    let c3 = buf_put_be_u16 c2 p.idle in
    let c4 = buf_put_be_u16 c3 p.iowait in buf_put_be_u16 c4 p.irq

unfoldable pub cpu_push : CpuCtx → TlvWriter → Status × TlvWriter
cpu_push ctx wrt = put_payload wrt tf_type_cpu (cpu_payload_bytes ctx.last_payload)

-- `cpu_collect_api`; `sctx` is the address of a local of `main`.
unfoldable pub cpu_collect_api :
    Option CpuCtx → ℕ → Option (List ℕ) → SampleContext → Status × Option CpuCtx × ℕ × SampleContext
unfolding cpu_collect
cpu_collect_api none g file sctx = (fail, none, g, sctx)
cpu_collect_api (some c) g file sctx =
    let (status, st) = cpu_collect (record { ctx = c; g_last_diff_total = g }) file in
    let diff : ℕ = if st.g_last_diff_total == 0 then 1 else st.g_last_diff_total in
    elim status [
      | fail ↦ (fail, some st.ctx, st.g_last_diff_total, sctx)
      | ok ↦ (ok, some st.ctx, st.g_last_diff_total, record { cpu_total_diff = diff })
    ]

unfoldable pub cpu_push_api : Option CpuCtx → TlvWriter → Status × TlvWriter
cpu_push_api none wrt = (fail, wrt)
cpu_push_api (some ctx) wrt = cpu_push ctx wrt
