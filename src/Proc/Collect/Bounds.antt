-- ===== src/Proc/Collect/Bounds.antt =====
-- What `proc_collect` keeps from sample to sample, and that it always ends.
use trace_fox.Base.{
  ℕ, suc, ◌≤◌, ◌≡◌, refl, ap, ◌∙◌, inl, inr, Bool, true, false, some, List, [], ◌∷◌, arith,
  if◌then◌else◌, Bool-cases, Option-cases, ok, length, All,
}
use trace_fox.Proc.{WatchGroup, ProcPrev, ThreadGroupEntry, ProcCtx, is_off}
use trace_fox.Proc.History.{tracker_reset_lists, history_gc}
use trace_fox.Proc.History.Slots.{tracker_add_pid-bounded}
use trace_fox.Proc.Threads.{thread_history_gc}
use trace_fox.Proc.Scan.{
  ProcFs, is_number_name, pid_of, comm_of, scan_entry, scan_entries, tracker_scan_proc,
}
use trace_fox.Proc.Group.{Qsort}
use trace_fox.Proc.Group.Top.{IsQsort}
use trace_fox.Proc.Collect.{
  output_groups, next_generation, thread_groups, collect_threads, is_scan_due, scanned,
  collect_scanned, proc_collect,
}
use trace_fox.RoundTrip
use trace_fox.Proc.Group.Stored.{IsStored}
use trace_fox.Proc.Collect.Threads.{
  IsList, thread_groups-stored, length-thread_history_gc, next_generation-size, Keeps, Keeps-trans,
  next_generation-Keeps, thread_groups-Keeps,
}
use trace_fox.Proc.Collect.Sums.{sum_groups_total, output_groups-stored}

-- The arrays of the context, and the two payloads.
pub record IsTracked (c : ProcCtx) : Type 0 where
  pub history_size : length c.history ≡ 64
  pub thread_size : length c.thread_history ≡ 1024
  pub lists : All IsList c.watch_groups
  pub group_count : length c.last_payload ≤ 8
  pub groups : All RoundTrip.Proc.IsGroup c.last_payload
  pub thread_count : length c.last_thread_payload ≤ 8
  pub threads : All IsStored c.last_thread_payload

reset-lists : (groups : List WatchGroup) → All IsList (tracker_reset_lists groups)
unfolding tracker_reset_lists
reset-lists [] = tt
reset-lists (g ∷ gs) = (omega arith, reset-lists gs)

scan_entry-lists :
    (fs : ProcFs) (name : List ℕ) (groups : List WatchGroup)
    → All IsList groups
    → All IsList (scan_entry fs name groups)
unfolding scan_entry
scan_entry-lists fs name groups v = elim (Bool-cases (is_number_name name)) [
  | inr e ↦ rw (e, scan_entry) v
  | inl e ↦ elim (Option-cases (pid_of name)) [
    | inl f ↦ rw (e, f, scan_entry) v
    | inr (pid, f) ↦ elim (Option-cases (comm_of (fs.comm_file pid))) [
      | inl g ↦ rw (e, f, g, scan_entry) v
      | inr (comm, g) ↦ rw (e, f, g, scan_entry) (tracker_add_pid-bounded comm pid groups v)
    ]
  ]
]

scan_entries-lists :
    (fs : ProcFs) (names : List (List ℕ)) (groups : List WatchGroup)
    → All IsList groups
    → All IsList (scan_entries fs names groups)
unfolding scan_entries
scan_entries-lists fs [] groups v = v
scan_entries-lists fs (name ∷ names) groups v =
    scan_entries-lists fs names (scan_entry fs name groups) (scan_entry-lists fs name groups v)

length-history_gc :
    (groups : List WatchGroup) (h : List ProcPrev) → length (history_gc groups h) ≡ length h
unfolding history_gc
length-history_gc groups [] = refl
length-history_gc groups (s ∷ ss) = ap suc (length-history_gc groups ss)

tracker_scan_proc-IsTracked :
    (fs : ProcFs) (c : ProcCtx) → IsTracked c → IsTracked (tracker_scan_proc fs c)
unfolding tracker_scan_proc
tracker_scan_proc-IsTracked fs c v = elim (Option-cases fs.proc_dir) [
  | inl e ↦ rw (e, tracker_scan_proc) v
  | inr (names, e) ↦
      let groups = scan_entries fs names (tracker_reset_lists c.watch_groups) in
      rw (e, tracker_scan_proc)
        (record {
          history_size = length-history_gc groups c.history ∙ v.history_size;
          thread_size = v.thread_size;
          lists =
              scan_entries-lists fs names (tracker_reset_lists c.watch_groups)
                (reset-lists c.watch_groups);
          group_count = v.group_count;
          groups = v.groups;
          thread_count = v.thread_count;
          threads = v.threads;
        })
]

scanned-IsTracked : (fs : ProcFs) (c : ProcCtx) → IsTracked c → IsTracked (scanned fs c)
unfolding scanned
scanned-IsTracked fs c v = elim (Bool-cases (is_scan_due fs.now c.last_scan_time)) [
  | inl e ↦ rw (e, scanned) (tracker_scan_proc-IsTracked fs c v)
  | inr e ↦ rw (e, scanned) v
]

-- The context with the threads of a sample.
threads-IsTracked :
    (c d : ProcCtx) (entries : List ThreadGroupEntry)
    → IsTracked c
    → Keeps c d
    → length d.thread_history ≡ 1024
    → length entries ≤ 8
    → All IsStored entries
    → IsTracked (record d {
      last_thread_payload = entries;
      thread_history = thread_history_gc d.thread_generation d.thread_history;
    })
threads-IsTracked c d entries v k size count all = record {
  history_size = rw k.history v.history_size;
  thread_size = length-thread_history_gc d.thread_generation d.thread_history ∙ size;
  lists = rw k.watch_groups v.lists;
  group_count = rw k.last_payload v.group_count;
  groups = rw k.last_payload v.groups;
  thread_count = count;
  threads = all;
}

collect_threads-IsTracked :
    (qsort : Qsort) (fs : ProcFs) (c : ProcCtx)
    → IsQsort qsort
    → IsTracked c
    → IsTracked (collect_threads qsort fs c)
unfolding collect_threads
collect_threads-IsTracked qsort fs c q v =
    let start = next_generation c in
    let out = thread_groups qsort fs 8 c.watch_groups start in
    let (size, count, all) =
      thread_groups-stored qsort fs 8 c.watch_groups start q (next_generation-size c v.thread_size)
        v.lists in
    let kept =
      Keeps-trans c start out.0 (next_generation-Keeps c)
        (thread_groups-Keeps qsort fs 8 c.watch_groups start) in
    elim (Bool-cases (is_off c.thread_mode)) [
      | inl e ↦
          rw (e, collect_threads)
            (record {
              history_size = v.history_size;
              thread_size = v.thread_size;
              lists = v.lists;
              group_count = v.group_count;
              groups = v.groups;
              thread_count = omega arith;
              threads = tt;
            })
      | inr e ↦ rw (e, collect_threads) (threads-IsTracked c out.0 out.1 v kept size count all)
    ]

collect_scanned-IsTracked :
    (qsort : Qsort) (fs : ProcFs) (c : ProcCtx)
    → IsQsort qsort
    → IsTracked c
    → (out : ProcCtx) × (collect_scanned qsort fs c ≡ some (ok, out)) × IsTracked out
unfolding collect_scanned
collect_scanned-IsTracked qsort fs c q v =
    let (sums, history, cpu_count, e, size) =
      sum_groups_total fs c.cpu_total_diff c.watch_groups c.history c.cpu_count v.history_size in
    let (count, all) = output_groups-stored 8 c.watch_groups sums in
    let summed : ProcCtx = record c {
      history = history;
      cpu_count = cpu_count;
      last_payload = output_groups 8 c.watch_groups sums;
    } in
    (
      collect_threads qsort fs summed,
      rw (e, collect_scanned) refl,
      collect_threads-IsTracked qsort fs summed q (record {
        history_size = size;
        thread_size = v.thread_size;
        lists = v.lists;
        group_count = count;
        groups = all;
        thread_count = v.thread_count;
        threads = v.threads;
      }),
    )

pub collect_branch :
    (qsort : Qsort) (fs : ProcFs) (c : ProcCtx) (b : Bool)
    → c.disabled ≡ b
    → proc_collect qsort fs c ≡ (
        if b
        then some (ok, record c { last_payload = []; last_thread_payload = [] })
        else collect_scanned qsort fs (scanned fs c))
unfolding proc_collect
collect_branch qsort fs c b e =
    ap
      (λ (d : Bool).
        if d
        then some (ok, record c { last_payload = []; last_thread_payload = [] })
        else collect_scanned qsort fs (scanned fs c))
      e

-- From a context whose arrays and payloads are within their bounds, with a sorting function that does what the C library
-- says of `qsort`: `proc_collect` ends with success, and its context is again such a one.
pub proc_collect-IsTracked :
    (qsort : Qsort) (fs : ProcFs) (c : ProcCtx)
    → IsQsort qsort
    → IsTracked c
    → (out : ProcCtx) × (proc_collect qsort fs c ≡ some (ok, out)) × IsTracked out
proc_collect-IsTracked qsort fs c q v = elim (Bool-cases c.disabled) [
  | inl e ↦ (
    record c { last_payload = []; last_thread_payload = [] },
    collect_branch qsort fs c true e,
    record {
      history_size = v.history_size;
      thread_size = v.thread_size;
      lists = v.lists;
      group_count = omega arith;
      groups = tt;
      thread_count = omega arith;
      threads = tt;
    },
  )
  | inr e ↦
      let (out, f, w) =
        collect_scanned-IsTracked qsort fs (scanned fs c) q (scanned-IsTracked fs c v) in
      (out, collect_branch qsort fs c false e ∙ f, w)
]
