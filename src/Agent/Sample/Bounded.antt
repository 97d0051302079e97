-- ===== src/Agent/Sample/Bounded.antt =====
-- What the contexts of the collectors keep from sample to sample.
use trace_fox.Base.{
  ℕ, ◌^◌, ◌<◌, ◌≡◌, refl, inl, inr, Option, some, List, arith, Bool-cases, Option-cases, Status, ok,
  Status-cases,
}
use trace_fox.Collector.{SampleContext}
use trace_fox.Cpu.{
  CpuCtx, CpuState, CpuStat, read_stat, share_of, payload_of, sample, cpu_collect, cpu_collect_api,
}
use trace_fox.Mem.{Double, MemCtx, mem_collect, mem_collect_api}
use trace_fox.Net
use trace_fox.Disk
use trace_fox.Fs.{FsCtx, Statvfs, fs_collect, fs_collect_api}
use trace_fox.Fs
use trace_fox.RoundTrip
use trace_fox.Proc.{ProcCtx}
use trace_fox.Proc.Scan.{ProcFs}
use trace_fox.Proc.Group.{Qsort}
use trace_fox.Proc.Collect.{proc_collect, proc_collect_api}
use trace_fox.Proc.Collect.Bounds.{IsTracked}
use trace_fox.Agent.Frame.Parts.{Contexts}

-- What the contexts of the collectors keep from sample to sample.
pub record IsBounded (c : Contexts) : Type 0 where
  pub cpu : RoundTrip.System.IsCpu c.cpu.last_payload
  pub mem : RoundTrip.System.IsMem c.mem
  pub net : Net.Collect.IsBounded c.net
  pub disk : Disk.Bounds.IsBounded c.disk
  pub fs : Fs.Bounds.IsBounded c.fs
  pub proc : IsTracked c.proc

share_of-lt : (d t : ℕ) → share_of d t < 2 ^ 16
unfolding share_of
share_of-lt d t = omega arith

payload_of-IsCpu : (now prev : CpuStat) (t : ℕ) → RoundTrip.System.IsCpu (payload_of now prev t)
unfolding payload_of
payload_of-IsCpu now prev t = record {
  user = share_of-lt _ t;
  system = share_of-lt _ t;
  idle = share_of-lt _ t;
  iowait = share_of-lt _ t;
  irq = share_of-lt _ t;
}

pub cpu_collect-IsCpu :
    (st : CpuState) (file : Option (List ℕ))
    → RoundTrip.System.IsCpu (cpu_collect st file).1.ctx.last_payload
unfolding cpu_collect sample
cpu_collect-IsCpu st file = elim (Option-cases (read_stat file)) [
  | inl e ↦ rw (e, cpu_collect) zeros
  | inr (now, e) ↦ elim (Bool-cases st.ctx.initialized) [
    | inl f ↦ rw (e, f, cpu_collect) (payload_of-IsCpu now st.ctx.prev _)
    | inr f ↦ rw (e, f, cpu_collect) zeros
  ]
]
  where
    zeros : RoundTrip.System.IsCpu (record { user = 0; system = 0; idle = 0; iowait = 0; irq = 0 })
    zeros = record {
      user = omega arith;
      system = omega arith;
      idle = omega arith;
      iowait = omega arith;
      irq = omega arith;
    }

pub cpu_collect_api-some :
    (ctx : CpuCtx) (g : ℕ) (file : Option (List ℕ)) (sctx : SampleContext)
    → (cpu_collect_api (some ctx) g file sctx).1
      ≡ some (cpu_collect (record { ctx = ctx; g_last_diff_total = g }) file).1.ctx
unfolding cpu_collect_api
cpu_collect_api-some ctx g file sctx =
    let status = (cpu_collect (record { ctx = ctx; g_last_diff_total = g }) file).0 in
    elim (Status-cases status) [
      | inl e ↦ rw (e, cpu_collect_api) refl
      | inr e ↦ rw (e, cpu_collect_api) refl
    ]

pub mem_api :
    (double : Double) (ctx : MemCtx) (meminfo loadavg : Option (List ℕ)) (out : Status × MemCtx)
    → mem_collect double ctx meminfo loadavg ≡ some out
    → mem_collect_api double (some ctx) meminfo loadavg ≡ some (out.0, some out.1)
unfolding mem_collect_api
mem_api double ctx meminfo loadavg out h = rw (h, mem_collect_api) refl

pub fs_api :
    (statvfs : List ℕ → Option Statvfs) (ctx : FsCtx) (file : Option (List ℕ))
    (out : Status × FsCtx)
    → fs_collect statvfs ctx file ≡ some out
    → fs_collect_api statvfs (some ctx) file ≡ some (out.0, some out.1)
unfolding fs_collect_api
fs_api statvfs ctx file out h = rw (h, fs_collect_api) refl

pub proc_api :
    (qsort : Qsort) (fs : ProcFs) (ctx : ProcCtx) (sctx : SampleContext) (out : ProcCtx)
    → proc_collect qsort fs (record ctx { cpu_total_diff = sctx.cpu_total_diff }) ≡ some (ok, out)
    → proc_collect_api qsort fs (some ctx) sctx ≡ some (ok, some out)
unfolding proc_collect_api
proc_api qsort fs ctx sctx out h = rw (h, proc_collect_api) refl

-- The field that the sample sets before the collector runs.
pub retimed-IsTracked :
    (c : ProcCtx) (n : ℕ) → IsTracked c → IsTracked (record c { cpu_total_diff = n })
retimed-IsTracked c n v = record {
  history_size = v.history_size;
  thread_size = v.thread_size;
  lists = v.lists;
  group_count = v.group_count;
  groups = v.groups;
  thread_count = v.thread_count;
  threads = v.threads;
}
