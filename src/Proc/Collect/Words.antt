-- ===== src/Proc/Collect/Words.antt =====
-- What `proc_collect` keeps in the words of its context: the ticks and the generation of a sample.
use trace_fox.Base.{
  ℕ, ◌+◌, ◌%◌, ◌^◌, ◌<◌, ◌≡◌, refl, ◌⊎◌, inl, inr, ◌||◌, Option, List, [], ◌∷◌, arith, ltb, ◌==◌,
  ==_iff, Bool-cases, Option-cases, get_or, All, All-set, All-replicate,
}
use trace_fox.Base.Scan.{IfSome}
use trace_fox.Proc.{WatchGroup, ProcPrev, ThreadPrev, ProcCtx, tf_thread_track}
use trace_fox.Proc.TaskStat.{IsTask, parse_task_stat, parse_task_stat-IsTask}
use trace_fox.Proc.History.{
  free_prev, pid_hash, find_probe, take_slot, find_slot, history_gc, is_alive,
}
use trace_fox.Proc.Threads.{free_thread, thread_history_gc}
use trace_fox.Proc.Scan.{ProcFs}
use trace_fox.Proc.Rss.{parse_rss_kb}
use trace_fox.Proc.Collect.{
  SumScan, zero_sum, to_int, ticks_of, sum_pid, sum_pids, sum_groups, next_generation,
}
use trace_fox.Proc.Collect.Ticks.{HasTicks}

abbrev pub IsPrev : ProcPrev → Type 0
IsPrev s = s.ticks < 2 ^ 64

-- A slot of the threads that is free or was touched in this generation.
abbrev pub IsCurrent : ℕ → ThreadPrev → Type 0
IsCurrent generation s = (s.ticks < 2 ^ 64) × ((s.pid ≡ 0) ⊎ (s.generation ≡ generation))

-- The generation, the ticks of the processes, and the slots of the threads.
pub record IsWords (c : ProcCtx) : Type 0 where
  pub generation : c.thread_generation < 2 ^ 32
  pub processes : All IsPrev c.history
  pub threads : All (IsCurrent c.thread_generation) c.thread_history

take_slot-IsPrev : (h : List ProcPrev) (i pid : ℕ) → All IsPrev h → All IsPrev (take_slot h i pid)
unfolding take_slot
take_slot-IsPrev h i pid v = elim (Bool-cases ((get_or h i free_prev).pid == pid)) [
  | inl e ↦ rw (e, take_slot) v
  | inr e ↦ rw (e, take_slot) (All-set IsPrev h i _ v (omega arith))
]

find_slot-IsPrev : (h : List ProcPrev) (pid : ℕ) → All IsPrev h → All IsPrev (find_slot h pid).1
unfolding find_slot
find_slot-IsPrev h pid v =
    let idx = pid_hash pid in
    let at_hash = (get_or h idx free_prev).pid in
    elim (Bool-cases (at_hash == pid || at_hash == 0)) [
      | inl e ↦ rw (e, find_slot) (take_slot-IsPrev h idx pid v)
      | inr e ↦ elim (Option-cases (find_probe pid 0 h)) [
        | inl f ↦ rw (e, f, find_slot) v
        | inr (i, f) ↦ rw (e, f, find_slot) (take_slot-IsPrev h i pid v)
      ]
    ]

ticks_of-lt : (pid : ℕ) (file : Option (List ℕ)) → IfSome (λ n. n < 2 ^ 64) (ticks_of pid file)
unfolding ticks_of
ticks_of-lt pid file = elim (Option-cases (parse_task_stat file)) [
  | inl e ↦ rw (e, ticks_of) tt
  | inr (task, e) ↦
      let fits : IsTask task = rw e at (parse_task_stat-IsTask file) in
      elim (Bool-cases (task.ticks == 0)) [
        | inl f ↦ rw (e, f, ticks_of) tt
        | inr f ↦ elim (Option-cases (to_int task.id)) [
          | inl g ↦ rw (e, f, g, ticks_of) tt
          | inr (parsed_pid, g) ↦ elim (Bool-cases (parsed_pid == pid)) [
            | inl k ↦ rw (e, f, g, k, ticks_of) fits.ticks
            | inr k ↦ rw (e, f, g, k, ticks_of) tt
          ]
        ]
      ]
]

sum_pid-IsPrev :
    (fs : ProcFs) (diff pid : ℕ) (s : SumScan)
    → All IsPrev s.history
    → IfSome (λ t. All IsPrev t.history) (sum_pid fs diff pid s)
unfolding sum_pid
sum_pid-IsPrev fs diff pid s v = elim (Option-cases (ticks_of pid (fs.stat_file pid))) [
  | inl e ↦ rw (e, sum_pid) v
  | inr (ticks, e) ↦
      let less : ticks < 2 ^ 64 = rw e at (ticks_of-lt pid (fs.stat_file pid)) in
      let found = find_slot s.history pid in
      let stored = All-set IsPrev found.1 found.0 _ (find_slot-IsPrev s.history pid v) less in
      let prev_ticks = (get_or found.1 found.0 free_prev).ticks in
      elim (Bool-cases (prev_ticks == 0 || ltb ticks prev_ticks)) [
        | inl f ↦ rw (e, f, sum_pid) stored
        | inr f ↦
            elim (Option-cases (parse_rss_kb fs.page_kb (fs.status_file pid) (fs.statm_file pid))) [
              | inl g ↦ rw (e, f, g, sum_pid) tt
              | inr (kb, g) ↦ rw (e, f, g, sum_pid) stored
            ]
      ]
]

sum_pids-IsPrev :
    (fs : ProcFs) (diff : ℕ) (pids : List ℕ) (s : SumScan)
    → All IsPrev s.history
    → IfSome (λ t. All IsPrev t.history) (sum_pids fs diff pids s)
unfolding sum_pids
sum_pids-IsPrev fs diff [] s v = v
sum_pids-IsPrev fs diff (pid ∷ pids) s v = elim (Option-cases (sum_pid fs diff pid s)) [
  | inl e ↦ rw (e, sum_pids) tt
  | inr (t, e) ↦
      let one : All IsPrev t.history = rw e at (sum_pid-IsPrev fs diff pid s v) in
      rw (e, sum_pids) (sum_pids-IsPrev fs diff pids t one)
]

pub sum_groups-IsPrev :
    (fs : ProcFs) (diff : ℕ) (groups : List WatchGroup) (history : List ProcPrev) (cpu_count : ℕ)
    → All IsPrev history
    → IfSome (λ r. All IsPrev r.1) (sum_groups fs diff groups history cpu_count)
unfolding sum_groups
sum_groups-IsPrev fs diff [] history cpu_count v = v
sum_groups-IsPrev fs diff (g ∷ gs) history cpu_count v =
    let start : SumScan = record { history = history; cpu_count = cpu_count; sum = zero_sum } in
    elim (Option-cases (sum_pids fs diff g.pids start)) [
      | inl e ↦ rw (e, sum_groups) tt
      | inr (s, e) ↦
          let one : All IsPrev s.history = rw e at (sum_pids-IsPrev fs diff g.pids start v) in
          elim (Option-cases (sum_groups fs diff gs s.history s.cpu_count)) [
            | inl f ↦ rw (e, f, sum_groups) tt
            | inr ((sums, history', cpu_count'), f) ↦
                let rest : All IsPrev history' =
                  rw f at (sum_groups-IsPrev fs diff gs s.history s.cpu_count one) in
                rw (e, f, sum_groups) rest
          ]
    ]

pub history_gc-IsPrev :
    (groups : List WatchGroup) (h : List ProcPrev) → All IsPrev h → All IsPrev (history_gc groups h)
unfolding history_gc
history_gc-IsPrev groups [] v = tt
history_gc-IsPrev groups (s ∷ ss) (one, v) =
    let rest = history_gc-IsPrev groups ss v in
    elim (Bool-cases (s.pid == 0 || is_alive groups s.pid)) [
      | inl e ↦ rw (e, history_gc) (one, rest)
      | inr e ↦ rw (e, history_gc) (omega arith, rest)
    ]

pub thread_history_gc-IsCurrent :
    (generation : ℕ) (h : List ThreadPrev)
    → All HasTicks h
    → All (IsCurrent generation) (thread_history_gc generation h)
unfolding thread_history_gc
thread_history_gc-IsCurrent generation [] v = tt
thread_history_gc-IsCurrent generation (s ∷ ss) (one, v) =
    let rest = thread_history_gc-IsCurrent generation ss v in
    elim (Bool-cases (s.pid == 0)) [
      | inl e ↦ rw (e, thread_history_gc) ((one, inl ((==_iff s.pid 0).0 e)), rest)
      | inr e ↦ elim (Bool-cases (s.generation == generation)) [
        | inl f ↦
            rw (e, f, thread_history_gc) ((one, inr ((==_iff s.generation generation).0 f)), rest)
        | inr f ↦ rw (e, f, thread_history_gc) ((omega arith, inl refl), rest)
      ]
    ]

pub IsCurrent-HasTicks :
    (generation : ℕ) (h : List ThreadPrev) → All (IsCurrent generation) h → All HasTicks h
IsCurrent-HasTicks generation [] v = tt
IsCurrent-HasTicks generation (s ∷ ss) ((ticks, mine), v) =
    (ticks, IsCurrent-HasTicks generation ss v)

pub next_generation-lt :
    (c : ProcCtx)
    → All HasTicks c.thread_history
    → ((next_generation c).thread_generation < 2 ^ 32)
      × All HasTicks (next_generation c).thread_history
unfolding next_generation
next_generation-lt c v = elim (Bool-cases ((c.thread_generation + 1) % 2 ^ 32 == 0)) [
  | inl e ↦
      rw (e, next_generation)
        (omega arith, All-replicate HasTicks tf_thread_track free_thread (omega arith))
  | inr e ↦ rw (e, next_generation) (omega arith, v)
]
