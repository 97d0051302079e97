-- ===== src/Agent/Sample/Words.antt =====
-- What a sample of agent/src/main.c leaves in the contexts of the collectors, the counters that no frame carries included.
use trace_fox.Base.{ℕ, ◌≡◌, inl, inr, Option, some, List, Option-cases, All}
use trace_fox.Base.Scan.{IfSome}
use trace_fox.Collector.{SampleContext, with_ctx}
use trace_fox.Cpu
use trace_fox.Cpu.{CpuCtx, cpu_collect_api}
use trace_fox.Mem.{Double, mem_collect_api}
use trace_fox.Fs.{fs_collect_api}
use trace_fox.Disk
use trace_fox.Disk.{Timespec, DiskCtx}
use trace_fox.Disk.Collect.{disk_collect_api}
use trace_fox.Proc.{ProcCtx}
use trace_fox.Proc.Scan.{ProcFs}
use trace_fox.Proc.Group.{Qsort}
use trace_fox.Proc.Group.Top.{IsQsort}
use trace_fox.Proc.Collect.{proc_collect, proc_collect_api}
use trace_fox.Proc.Collect.Kept.{collected-IsWords}
use trace_fox.Proc
use trace_fox.Agent.{Collectors}
use trace_fox.Agent.Frame.Parts.{Contexts, allocated}
use trace_fox.Agent.Sample.{System, collect_system, collect_system-Collected}
use trace_fox.Agent.Sample.Bounded.{IsBounded, cpu_collect_api-some}

abbrev DiskWords : DiskCtx → Type 0
DiskWords c = All Disk.Words.IsCounted c.cache

-- The words that the collectors remember from sample to sample.
pub record IsWords (c : Contexts) : Type 0 where
  pub cpu : Cpu.Words.IsWords c.cpu
  pub disk : All Disk.Words.IsCounted c.disk.cache
  pub proc : Proc.Collect.Words.IsWords c.proc

cpu_api-IsWords :
    (c : CpuCtx) (g : ℕ) (file : Option (List ℕ)) (sctx : SampleContext)
    → Cpu.Words.IsWords c
    → IfSome Cpu.Words.IsWords (cpu_collect_api (some c) g file sctx).1
cpu_api-IsWords c g file sctx v =
    rw (cpu_collect_api-some c g file sctx)
      (Cpu.Words.cpu_collect-IsWords (record { ctx = c; g_last_diff_total = g }) file v)

disk_api-IsWords :
    (c : DiskCtx) (clock : Option Timespec) (interval_sec : ℕ) (file : Option (List ℕ))
    → DiskWords c
    → IfSome DiskWords (disk_collect_api (some c) clock interval_sec file).1
unfolding disk_collect_api with_ctx
disk_api-IsWords c clock interval_sec file v =
    Disk.Words.disk_collect-IsCounted c clock interval_sec file v

proc_api-IsWords :
    (qsort : Qsort) (fs : ProcFs) (c : ProcCtx) (sctx : SampleContext)
    → Proc.Collect.Words.IsWords c
    → IfSome (λ r. IfSome Proc.Collect.Words.IsWords r.1) (proc_collect_api qsort fs (some c) sctx)
unfolding proc_collect_api
proc_api-IsWords qsort fs c sctx v =
    let timed = record c { cpu_total_diff = sctx.cpu_total_diff } in
    let w : Proc.Collect.Words.IsWords timed = record {
      generation = v.generation;
      processes = v.processes;
      threads = v.threads;
    } in
    elim (Option-cases (proc_collect qsort fs timed)) [
      | inl e ↦ rw (e, proc_collect_api) tt
      | inr ((status, out), e) ↦
          let fits : Proc.Collect.Words.IsWords out =
            rw e at (collected-IsWords qsort fs timed w) in
          rw (e, proc_collect_api) fits
    ]

-- The words of the contexts that are allocated.
record HaveWords (c : Collectors) : Type 0 where
  cpu : IfSome Cpu.Words.IsWords c.cpu
  disk : IfSome DiskWords c.disk
  proc : IfSome Proc.Collect.Words.IsWords c.proc

module _ (double : Double) (qsort : Qsort) where
  collect_system-HaveWords :
      (s : System) (interval_sec : ℕ) (c : Contexts) (g : ℕ) (sctx : SampleContext)
      → IsWords c
      → IfSome
          (λ o. HaveWords o.0)
          (collect_system double qsort s interval_sec (allocated c) g sctx)
  unfolding collect_system
  collect_system-HaveWords s interval_sec c g sctx v =
      let cpu = cpu_collect_api (some c.cpu) g s.stat sctx in
      elim (Option-cases (mem_collect_api double (some c.mem) s.meminfo s.loadavg)) [
        | inl e ↦ rw (e, collect_system) tt
        | inr (mem, e) ↦ elim (Option-cases (fs_collect_api s.statvfs (some c.fs) s.mounts)) [
          | inl f ↦ rw (e, f, collect_system) tt
          | inr (fs, f) ↦ elim (Option-cases (proc_collect_api qsort s.proc (some c.proc) cpu.3)) [
            | inl h ↦ rw (e, f, h, collect_system) tt
            | inr ((status, proc), h) ↦
                let fits : IfSome Proc.Collect.Words.IsWords proc =
                  rw h at (proc_api-IsWords qsort s.proc c.proc cpu.3 v.proc) in
                rw (e, f, h, collect_system)
                  (record {
                    cpu = cpu_api-IsWords c.cpu g s.stat sctx v.cpu;
                    disk = disk_api-IsWords c.disk s.clock interval_sec s.diskstats v.disk;
                    proc = fits;
                  })
          ]
        ]
      ]

  -- From contexts whose arrays, payloads and counters are within their bounds, with a sorting function that does what the
  -- C library says of `qsort`, whatever the files hold and the clock says: the loop over the collectors ends, allocates and frees
  -- nothing, and every context is again within these bounds. The arrays keep their sizes, the counts are within them, and what
  -- the payloads hold fits their fields. Of the words that are only remembered, the counters of /proc/stat with their sum, those of
  -- the disks and the ticks of processes and threads fit 64 bits, the generation of the threads fits 32, and every slot of
  -- the threads is free or of this generation.
  pub collect_system-IsWords :
      (s : System) (interval_sec : ℕ) (c : Contexts) (g : ℕ) (sctx : SampleContext)
      → IsQsort qsort
      → IsBounded c
      → IsWords c
      → (next : Contexts) × (g' : ℕ) × (sctx' : SampleContext) × (collect_system double qsort s
            interval_sec
            (allocated c)
            g
            sctx
          ≡ some (allocated next, g', sctx'))
        × IsBounded next
        × IsWords next
  collect_system-IsWords s interval_sec c g sctx q v w =
      let h = collect_system-Collected double qsort s interval_sec c g sctx q v in
      let words : HaveWords (allocated h.next) =
        rw h.collected at (collect_system-HaveWords s interval_sec c g sctx w) in
      (
        h.next,
        h.g_last_diff_total,
        h.sctx,
        h.collected,
        h.bounded,
        record { cpu = words.cpu; disk = words.disk; proc = words.proc },
      )
