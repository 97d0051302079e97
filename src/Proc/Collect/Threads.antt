-- ===== src/Proc/Collect/Threads.antt =====
-- The loop of `proc_collect` over the threads of the groups.
use trace_fox.Base.{
  ℕ, zero, suc, ◌+◌, ◌%◌, ◌^◌, ◌≤◌, ◌≡◌, refl, ap, ◌∙◌, inl, inr, List, [], ◌∷◌, arith, ◌==◌,
  Bool-cases, length, All, length-replicate,
}
use trace_fox.Proc.{WatchGroup, ThreadPrev, ProcCtx, tf_thread_track}
use trace_fox.Proc.Threads.{free_thread, thread_history_gc}
use trace_fox.Proc.Scan.{ProcFs}
use trace_fox.Proc.Group.{Qsort, collect_thread_group}
use trace_fox.Proc.Group.Top.{IsQsort}
use trace_fox.Proc.Collect.{next_generation, thread_groups}
use trace_fox.Proc.Group.Stored.{IsStored, collect_thread_group-IsStored}

abbrev pub IsList : WatchGroup → Type 0
IsList g = length g.pids ≤ 64

-- The loop over the groups stores at most eight of them.
pub thread_groups-stored :
    (qsort : Qsort) (fs : ProcFs) (room : ℕ) (groups : List WatchGroup) (ctx : ProcCtx)
    → IsQsort qsort
    → length ctx.thread_history ≡ 1024
    → All IsList groups
    → let (ctx', entries) = thread_groups qsort fs room groups ctx in
      (length ctx'.thread_history ≡ 1024) × (length entries ≤ room) × All IsStored entries
unfolding thread_groups
thread_groups-stored qsort fs zero groups ctx q size v = (size, omega arith, tt)
thread_groups-stored qsort fs (suc room) [] ctx q size v = (size, omega arith, tt)
thread_groups-stored qsort fs (suc room) (g ∷ gs) ctx q size (few, v) =
    let out = collect_thread_group qsort fs ctx g in
    let (stored, size') = collect_thread_group-IsStored qsort fs ctx g q size few in
    elim (Bool-cases (out.1.total_threads == 0)) [
      | inl e ↦ rw (e, thread_groups) (thread_groups-stored qsort fs (suc room) gs out.0 q size' v)
      | inr e ↦
          let (kept, count, all) = thread_groups-stored qsort fs room gs out.0 q size' v in
          rw (e, thread_groups) (kept, omega arith, (stored, all))
    ]

pub length-thread_history_gc :
    (generation : ℕ) (h : List ThreadPrev) → length (thread_history_gc generation h) ≡ length h
unfolding thread_history_gc
length-thread_history_gc generation [] = refl
length-thread_history_gc generation (s ∷ ss) = ap suc (length-thread_history_gc generation ss)

pub next_generation-size :
    (ctx : ProcCtx)
    → length ctx.thread_history ≡ 1024
    → length (next_generation ctx).thread_history ≡ 1024
unfolding next_generation
next_generation-size ctx size = elim (Bool-cases ((ctx.thread_generation + 1) % 2 ^ 32 == 0)) [
  | inl e ↦ rw (e, next_generation) (length-replicate tf_thread_track free_thread)
  | inr e ↦ rw (e, next_generation) size
]

-- The loops over the threads leave the processes alone.
pub record Keeps (c d : ProcCtx) : Type 0 where
  pub history : d.history ≡ c.history
  pub watch_groups : d.watch_groups ≡ c.watch_groups
  pub last_payload : d.last_payload ≡ c.last_payload

pub Keeps-trans : (a b c : ProcCtx) → Keeps a b → Keeps b c → Keeps a c
Keeps-trans a b c v w = record {
  history = w.history ∙ v.history;
  watch_groups = w.watch_groups ∙ v.watch_groups;
  last_payload = w.last_payload ∙ v.last_payload;
}

pub next_generation-Keeps : (c : ProcCtx) → Keeps c (next_generation c)
unfolding next_generation
next_generation-Keeps c = elim (Bool-cases ((c.thread_generation + 1) % 2 ^ 32 == 0)) [
  | inl e ↦
      rw (e, next_generation) (record { history = refl; watch_groups = refl; last_payload = refl })
  | inr e ↦
      rw (e, next_generation) (record { history = refl; watch_groups = refl; last_payload = refl })
]

group-Keeps :
    (qsort : Qsort) (fs : ProcFs) (c : ProcCtx) (g : WatchGroup)
    → Keeps c (collect_thread_group qsort fs c g).0
unfolding collect_thread_group
group-Keeps qsort fs c g = record { history = refl; watch_groups = refl; last_payload = refl }

pub thread_groups-Keeps :
    (qsort : Qsort) (fs : ProcFs) (room : ℕ) (groups : List WatchGroup) (c : ProcCtx)
    → Keeps c (thread_groups qsort fs room groups c).0
unfolding thread_groups
thread_groups-Keeps qsort fs zero groups c = record {
  history = refl;
  watch_groups = refl;
  last_payload = refl;
}
thread_groups-Keeps qsort fs (suc room) [] c = record {
  history = refl;
  watch_groups = refl;
  last_payload = refl;
}
thread_groups-Keeps qsort fs (suc room) (g ∷ gs) c =
    let out = collect_thread_group qsort fs c g in
    let one = group-Keeps qsort fs c g in
    elim (Bool-cases (out.1.total_threads == 0)) [
      | inl e ↦
          rw (e, thread_groups)
            (Keeps-trans c out.0 _ one (thread_groups-Keeps qsort fs (suc room) gs out.0))
      | inr e ↦
          rw (e, thread_groups)
            (Keeps-trans c out.0 _ one (thread_groups-Keeps qsort fs room gs out.0))
    ]
