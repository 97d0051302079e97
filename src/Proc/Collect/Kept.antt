-- ===== src/Proc/Collect/Kept.antt =====
-- What a whole sample of `proc_collect` keeps in its context.
use trace_fox.Base.{◌≡◌, inl, inr, true, false, some, Bool-cases, Option-cases, ok, All}
use trace_fox.Base.Scan.{IfSome}
use trace_fox.Proc.{ProcCtx, is_off}
use trace_fox.Proc.History.{tracker_reset_lists}
use trace_fox.Proc.Scan.{ProcFs, tracker_scan_proc, scan_entries}
use trace_fox.Proc.Group.{Qsort}
use trace_fox.Proc.Group.Top.{IsQsort}
use trace_fox.Proc.Collect.{
  sum_groups, output_groups, next_generation, thread_groups, collect_threads, is_scan_due, scanned,
  collect_scanned, proc_collect,
}
use trace_fox.Proc.Collect.Ticks.{thread_groups-HasTicks}
use trace_fox.Proc.Collect.Words.{
  IsPrev, IsWords, sum_groups-IsPrev, history_gc-IsPrev, thread_history_gc-IsCurrent,
  IsCurrent-HasTicks, next_generation-lt,
}
use trace_fox.Proc.Collect.Threads.{Keeps-trans, next_generation-Keeps, thread_groups-Keeps}
use trace_fox.Proc.Collect.Bounds.{IsTracked, collect_branch, proc_collect-IsTracked}

scanned-IsWords : (fs : ProcFs) (c : ProcCtx) → IsWords c → IsWords (scanned fs c)
unfolding scanned tracker_scan_proc
scanned-IsWords fs c v = elim (Bool-cases (is_scan_due fs.now c.last_scan_time)) [
  | inr e ↦ rw (e, scanned) v
  | inl e ↦ elim (Option-cases fs.proc_dir) [
    | inl f ↦ rw (e, f, scanned, tracker_scan_proc) v
    | inr (names, f) ↦
        let groups = scan_entries fs names (tracker_reset_lists c.watch_groups) in
        rw (e, f, scanned, tracker_scan_proc)
          (record {
            generation = v.generation;
            processes = history_gc-IsPrev groups c.history v.processes;
            threads = v.threads;
          })
  ]
]

collect_threads-IsWords :
    (qsort : Qsort) (fs : ProcFs) (c : ProcCtx) → IsWords c → IsWords (collect_threads qsort fs c)
unfolding collect_threads
collect_threads-IsWords qsort fs c v =
    let start = next_generation c in
    let out = thread_groups qsort fs 8 c.watch_groups start in
    let (lt, ticks) =
      next_generation-lt c (IsCurrent-HasTicks c.thread_generation c.thread_history v.threads) in
    let (same, fits) = thread_groups-HasTicks qsort fs 8 c.watch_groups start ticks in
    let kept =
      Keeps-trans c start out.0 (next_generation-Keeps c)
        (thread_groups-Keeps qsort fs 8 c.watch_groups start) in
    elim (Bool-cases (is_off c.thread_mode)) [
      | inl e ↦
          rw (e, collect_threads)
            (record { generation = v.generation; processes = v.processes; threads = v.threads })
      | inr e ↦
          rw (e, collect_threads)
            (record {
              generation = rw same lt;
              processes = rw kept.history v.processes;
              threads =
                  thread_history_gc-IsCurrent out.0.thread_generation out.0.thread_history fits;
            })
    ]

collect_scanned-IsWords :
    (qsort : Qsort) (fs : ProcFs) (c : ProcCtx)
    → IsWords c
    → IfSome (λ r. IsWords r.1) (collect_scanned qsort fs c)
unfolding collect_scanned
collect_scanned-IsWords qsort fs c v =
    let sums = sum_groups fs c.cpu_total_diff c.watch_groups c.history c.cpu_count in
    elim (Option-cases sums) [
      | inl e ↦ rw (e, collect_scanned) tt
      | inr ((groups, history, cpu_count), e) ↦
          let fits : All IsPrev history = rw e at (
            sum_groups-IsPrev fs c.cpu_total_diff c.watch_groups c.history c.cpu_count
              v.processes) in
          let summed : ProcCtx = record c {
            history = history;
            cpu_count = cpu_count;
            last_payload = output_groups 8 c.watch_groups groups;
          } in
          rw (e, collect_scanned)
            (collect_threads-IsWords qsort fs summed
              (record { generation = v.generation; processes = fits; threads = v.threads }))
    ]

pub collected-IsWords :
    (qsort : Qsort) (fs : ProcFs) (c : ProcCtx)
    → IsWords c
    → IfSome (λ r. IsWords r.1) (proc_collect qsort fs c)
collected-IsWords qsort fs c v = elim (Bool-cases c.disabled) [
  | inl e ↦
      rw (collect_branch qsort fs c true e)
        (record { generation = v.generation; processes = v.processes; threads = v.threads })
  | inr e ↦
      rw (collect_branch qsort fs c false e)
        (collect_scanned-IsWords qsort fs (scanned fs c) (scanned-IsWords fs c v))
]

-- From a context whose arrays, payloads and words are within their bounds, with a sorting function that does what the
-- C library says of `qsort`, whatever the files under /proc hold: `proc_collect` ends with success, its fuel being
-- enough, and its context is again such a one. The two histories keep their 64 and 1024 slots, and no group lists more than
-- 64 processes. There are at most eight entries of processes and eight of threads, which fit the fields of their payloads, and
-- in an entry of threads the counts of the states add up to the total. The generation fits 32 bits, the ticks in every
-- slot 64 bits, and every slot of the threads is free or of the current generation.
pub proc_collect-IsWords :
    (qsort : Qsort) (fs : ProcFs) (c : ProcCtx)
    → IsQsort qsort
    → IsTracked c
    → IsWords c
    → (out : ProcCtx) × (proc_collect qsort fs c ≡ some (ok, out)) × IsTracked out × IsWords out
proc_collect-IsWords qsort fs c q v w =
    let (out, e, kept) = proc_collect-IsTracked qsort fs c q v in
    (out, e, kept, rw e at (collected-IsWords qsort fs c w))
