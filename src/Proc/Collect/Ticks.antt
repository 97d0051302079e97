-- ===== src/Proc/Collect/Ticks.antt =====
-- What the loops over the threads of `proc_collect` keep in the slots: ticks that fit a word.
use trace_fox.Base.{
  ℕ, zero, suc, ◌+◌, ◌^◌, ◌<◌, ◌≡◌, refl, inl, inr, List, [], ◌∷◌, arith, leb, ◌==◌, Bool-cases,
  Option-cases, All, All-set, All-get,
}
use trace_fox.Base.Scan.{IfSome}
use trace_fox.Proc.{WatchGroup, ThreadPrev, TaskInfo, ProcCtx, is_top}
use trace_fox.Proc.TaskStat.{IsTask, parse_task_stat, parse_task_stat-IsTask}
use trace_fox.Proc.Threads.{
  free_thread, is_thread, claimed, find_thread_slot, thread_probe, thread_hash,
}
use trace_fox.Proc.Scan.{ProcFs, is_number_name}
use trace_fox.Proc.Group.{
  Qsort, GroupScan, count_thread, thread_share, add_candidate, scan_task, task_at, tid_of,
  scan_tasks, scan_pid, scan_pids, scan_group, collect_thread_group,
}
use trace_fox.Proc.Collect.{thread_groups, scanned}

abbrev pub HasTicks : ThreadPrev → Type 0
HasTicks s = s.ticks < 2 ^ 64

task_at-IsTask : (fs : ProcFs) (pid : ℕ) (name : List ℕ) → IfSome IsTask (task_at fs pid name)
unfolding task_at
task_at-IsTask fs pid name = elim (Option-cases (tid_of name)) [
  | inl e ↦ rw (e, task_at) tt
  | inr (tid, e) ↦
      let file = fs.task_stat_file pid tid in
      elim (Option-cases (parse_task_stat file)) [
        | inl f ↦ rw (e, f, task_at) tt
        | inr (task, f) ↦
            let fits : IsTask task = rw f at (parse_task_stat-IsTask file) in
            elim (Bool-cases (task.id == tid)) [
              | inl g ↦ rw (e, f, g, task_at) fits
              | inr g ↦ rw (e, f, g, task_at) tt
            ]
      ]
]

claimed-HasTicks :
    (pid tid starttime : ℕ) (s : ThreadPrev) → HasTicks s → HasTicks (claimed pid tid starttime s)
unfolding claimed
claimed-HasTicks pid tid starttime s h = elim (Bool-cases (is_thread pid tid s)) [
  | inr e ↦ rw (e, claimed) (omega arith)
  | inl e ↦ elim (Bool-cases (s.starttime == starttime)) [
    | inl f ↦ rw (e, f, claimed) h
    | inr f ↦ rw (e, f, claimed) (omega arith)
  ]
]

find_thread_slot-HasTicks :
    (h : List ThreadPrev) (pid tid starttime : ℕ)
    → All HasTicks h
    → IfSome (λ r. All HasTicks r.1) (find_thread_slot h pid tid starttime)
unfolding find_thread_slot
find_thread_slot-HasTicks h pid tid starttime v =
    elim (Option-cases (thread_probe 1024 pid tid (thread_hash pid tid) 0 h)) [
      | inl e ↦ rw (e, find_thread_slot) tt
      | inr (i, e) ↦
          rw (e, find_thread_slot)
            (All-set HasTicks h i _ v (
              claimed-HasTicks pid tid starttime _
                (All-get HasTicks h i free_thread v (omega arith))))
    ]

share-HasTicks :
    (fs : ProcFs) (ctx : ProcCtx) (pid : ℕ) (task : TaskInfo) (g : GroupScan)
    → IsTask task
    → All HasTicks g.thread_history
    → All HasTicks (thread_share fs ctx pid task g).1.thread_history
unfolding thread_share
share-HasTicks fs ctx pid task g fits v =
    elim (Option-cases (find_thread_slot g.thread_history pid task.id task.starttime)) [
      | inl e ↦ rw (e, thread_share) v
      | inr ((i, history), e) ↦
          let found : All HasTicks history =
            rw e at (find_thread_slot-HasTicks g.thread_history pid task.id task.starttime v) in
          rw (e, thread_share) (All-set HasTicks history i _ found fits.ticks)
    ]

scan_task-HasTicks :
    (fs : ProcFs) (ctx : ProcCtx) (pid : ℕ) (task : TaskInfo) (g : GroupScan)
    → IsTask task
    → All HasTicks g.thread_history
    → All HasTicks (scan_task fs ctx pid task g).thread_history
unfolding scan_task add_candidate
scan_task-HasTicks fs ctx pid task g fits v = elim (Bool-cases (is_top ctx.thread_mode)) [
  | inr e ↦ rw (e, scan_task) v
  | inl e ↦
      rw (e, scan_task)
        (share-HasTicks fs ctx pid task (record g { out = count_thread task g.out }) fits v)
]

scan_tasks-HasTicks :
    (fs : ProcFs) (ctx : ProcCtx) (pid scanned : ℕ) (names : List (List ℕ)) (g : GroupScan)
    → All HasTicks g.thread_history
    → All HasTicks (scan_tasks fs ctx pid scanned names g).thread_history
unfolding scan_tasks
scan_tasks-HasTicks fs ctx pid scanned [] g v = v
scan_tasks-HasTicks fs ctx pid scanned (name ∷ names) g v =
    let skip = scan_tasks-HasTicks fs ctx pid scanned names g v in
    elim (Bool-cases (is_number_name name)) [
      | inr e ↦ rw (e, scan_tasks) skip
      | inl e ↦ elim (Bool-cases (leb 512 scanned)) [
        | inl f ↦ rw (e, f, scan_tasks) v
        | inr f ↦ elim (Option-cases (task_at fs pid name)) [
          | inl t ↦ rw (e, f, t, scan_tasks) skip
          | inr (task, t) ↦
              let fits : IsTask task = rw t at (task_at-IsTask fs pid name) in
              rw (e, f, t, scan_tasks)
                (scan_tasks-HasTicks fs ctx pid (scanned + 1) names (scan_task fs ctx pid task g)
                  (scan_task-HasTicks fs ctx pid task g fits v))
        ]
      ]
    ]

scan_pids-HasTicks :
    (fs : ProcFs) (ctx : ProcCtx) (pids : List ℕ) (g : GroupScan)
    → All HasTicks g.thread_history
    → All HasTicks (scan_pids fs ctx pids g).thread_history
unfolding scan_pids scan_pid
scan_pids-HasTicks fs ctx [] g v = v
scan_pids-HasTicks fs ctx (pid ∷ pids) g v =
    scan_pids-HasTicks fs ctx pids (scan_pid fs ctx pid g) (elim (Option-cases (fs.task_dir pid)) [
      | inl e ↦ rw (e, scan_pid) v
      | inr (names, e) ↦ rw (e, scan_pid) (scan_tasks-HasTicks fs ctx pid 0 names g v)
    ])

-- The loop over the groups keeps the generation, and the ticks of the threads fit.
pub thread_groups-HasTicks :
    (qsort : Qsort) (fs : ProcFs) (room : ℕ) (groups : List WatchGroup) (ctx : ProcCtx)
    → All HasTicks ctx.thread_history
    → let ctx' = (thread_groups qsort fs room groups ctx).0 in
      (ctx'.thread_generation ≡ ctx.thread_generation) × All HasTicks ctx'.thread_history
unfolding thread_groups collect_thread_group scan_group
thread_groups-HasTicks qsort fs zero groups ctx v = (refl, v)
thread_groups-HasTicks qsort fs (suc room) [] ctx v = (refl, v)
thread_groups-HasTicks qsort fs (suc room) (g ∷ gs) ctx v =
    let out = collect_thread_group qsort fs ctx g in
    let one : All HasTicks out.0.thread_history = scan_pids-HasTicks fs ctx g.pids _ v in
    elim (Bool-cases (out.1.total_threads == 0)) [
      | inl e ↦ rw (e, thread_groups) (thread_groups-HasTicks qsort fs (suc room) gs out.0 one)
      | inr e ↦ rw (e, thread_groups) (thread_groups-HasTicks qsort fs room gs out.0 one)
    ]
