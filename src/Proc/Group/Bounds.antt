-- ===== src/Proc/Group/Bounds.antt =====
-- The loops of `collect_thread_group` keep to the
-- bounds of the arrays, of the payload's fields and of the counters.
pub mod Counted
use trace_fox.Base.{
  ℕ, ◌+◌, ◌-◌, ◌*◌, ◌^◌, ◌≤◌, ◌<◌, ◌≡◌, refl, ◌∙◌, inl, inr, Bool, true, false, List, [], ◌∷◌,
  arith, leb, if◌then◌else◌, Bool-cases, Option-cases, length, All, length-set, leb_false→lt,
}
use trace_fox.Base.CString.{length-name_field}
use trace_fox.Base.Scan.{IfSome}
use trace_fox.Proc.{TaskInfo, ThreadCandidate, ThreadPrev, ProcCtx, WatchGroup, is_top}
use trace_fox.Proc.Scan.{ProcFs, is_number_name}
use trace_fox.Proc.Threads.{find_thread_slot, thread_probe, thread_hash}
use trace_fox.Proc.Candidates.{add_thread_candidate}
use trace_fox.Proc.Candidates.Entries.{IsCandidate, add_thread_candidate-adds, instances}
use trace_fox.Proc.Group.{
  GroupScan, count_thread, truncated, thread_share, add_candidate, scan_task, task_at, scan_tasks,
  scan_pid, scan_pids, scan_group, empty_entry,
}
use trace_fox.Proc.Group.Bounds.Counted.{
  IsScan, count_thread-next, counted-IsScan, truncated-IsScan,
}

abbrev Pending : ℕ → GroupScan → Type 0
Pending k g = IsScan k g × (instances g.candidates + 1 ≤ g.out.total_threads)

find_thread_slot-size :
    (h : List ThreadPrev) (pid tid starttime : ℕ)
    → IfSome (λ r. length r.1 ≡ length h) (find_thread_slot h pid tid starttime)
unfolding find_thread_slot
find_thread_slot-size h pid tid starttime =
    elim (Option-cases (thread_probe 1024 pid tid (thread_hash pid tid) 0 h)) [
      | inl e ↦ rw (e, find_thread_slot) tt
      | inr (i, e) ↦ rw (e, find_thread_slot) (length-set h i _)
    ]

share-Pending :
    (fs : ProcFs) (ctx : ProcCtx) (k pid : ℕ) (task : TaskInfo) (g : GroupScan)
    → Pending k g
    → Pending k (thread_share fs ctx pid task g).1
unfolding thread_share truncated
share-Pending fs ctx k pid task g (v, waits) =
    elim (Option-cases (find_thread_slot g.thread_history pid task.id task.starttime)) [
      | inl e ↦ rw (e, thread_share) (truncated-IsScan k g v, waits)
      | inr ((i, history), e) ↦
          let size : length history ≡ length g.thread_history =
            rw e at (find_thread_slot-size g.thread_history pid task.id task.starttime) in
          rw (e, thread_share)
            (
              record {
                slots = length-set history i _ ∙ size ∙ v.slots;
                candidates = v.candidates;
                candidate_count = v.candidate_count;
                instance_count = v.instance_count;
                name_size = v.name_size;
                flags = v.flags;
                states_size = v.states_size;
                counted = v.counted;
                total = v.total;
                no_top = v.no_top;
              },
              waits,
            )
    ]

All-instances :
    (cs : List ThreadCandidate)
    → instances cs < 2 ^ 32 - 1
    → All (λ (c : ThreadCandidate). c.inst_count < 2 ^ 32 - 1) cs
All-instances [] h = tt
All-instances (c ∷ cs) h = (omega arith, All-instances cs (omega arith))

with_candidates :
    (k : ℕ) (g : GroupScan) (cs : List ThreadCandidate)
    → IsScan k g
    → All IsCandidate cs
    → length cs ≤ 512
    → instances cs ≤ g.out.total_threads
    → IsScan k (record g { candidates = cs })
with_candidates k g cs v all few le = record {
  slots = v.slots;
  candidates = all;
  candidate_count = few;
  instance_count = le;
  name_size = v.name_size;
  flags = v.flags;
  states_size = v.states_size;
  counted = v.counted;
  total = v.total;
  no_top = v.no_top;
}

candidate-IsScan :
    (ctx : ProcCtx) (k pid cpu : ℕ) (task : TaskInfo) (g : GroupScan)
    → k ≤ 65535
    → Pending k g
    → IsScan k (add_candidate ctx pid task cpu g)
unfolding add_candidate truncated
candidate-IsScan ctx k pid cpu task g room (v, waits) =
    let added = add_thread_candidate ctx.thread_include_tid g.candidates task pid cpu in
    let below : instances g.candidates < 2 ^ 32 - 1 = omega (arith, v.total) in
    let (few, result) =
      add_thread_candidate-adds ctx.thread_include_tid g.candidates task pid cpu v.candidate_count
        v.candidates (All-instances g.candidates below) in
    elim result [
      | inl (refused, same) ↦
          rw (refused, same, add_candidate)
            (truncated-IsScan k (record g { candidates = g.candidates }) v)
      | inr (accepted, more, longer, all) ↦
          rw (accepted, add_candidate) (with_candidates k g added.1 v all few (omega arith))
    ]

pub scan_task-IsScan :
    (fs : ProcFs) (ctx : ProcCtx) (k pid : ℕ) (task : TaskInfo) (g : GroupScan)
    → IsScan k g
    → k < 65535
    → IsScan (k + 1) (scan_task fs ctx pid task g)
unfolding scan_task
scan_task-IsScan fs ctx k pid task g v room =
    let c = record g { out = count_thread task g.out } in
    let v' = counted-IsScan k task g v room in
    let less : g.out.total_threads < 65535 = omega (arith, v.total) in
    let waits : instances g.candidates + 1 ≤ (count_thread task g.out).total_threads =
      rw (count_thread-next task g.out less v.counted) (omega (arith, v.instance_count)) in
    elim (Bool-cases (is_top ctx.thread_mode)) [
      | inr e ↦ rw (e, scan_task) v'
      | inl e ↦
          rw (e, scan_task)
            (candidate-IsScan ctx (k + 1) pid _ task _ (omega arith)
              (share-Pending fs ctx (k + 1) pid task c (v', waits)))
    ]

pub weaker : (j k : ℕ) (g : GroupScan) → j ≤ k → IsScan j g → IsScan k g
weaker j k g h v = record {
  slots = v.slots;
  candidates = v.candidates;
  candidate_count = v.candidate_count;
  instance_count = v.instance_count;
  name_size = v.name_size;
  flags = v.flags;
  states_size = v.states_size;
  counted = v.counted;
  total = omega (arith, v.total);
  no_top = v.no_top;
}

scan_tasks-IsScan :
    (fs : ProcFs) (ctx : ProcCtx) (k pid scanned : ℕ) (names : List (List ℕ)) (g : GroupScan)
    → IsScan k g
    → scanned ≤ 512
    → k + (512 - scanned) ≤ 65535
    → IsScan (k + (512 - scanned)) (scan_tasks fs ctx pid scanned names g)
unfolding scan_tasks
scan_tasks-IsScan fs ctx k pid scanned [] g v few room = weaker k _ g (omega arith) v
scan_tasks-IsScan fs ctx k pid scanned (name ∷ names) g v few room =
    let skip = scan_tasks-IsScan fs ctx k pid scanned names g v few room in
    elim (Bool-cases (is_number_name name)) [
      | inr e ↦ rw (e, scan_tasks) skip
      | inl e ↦ elim (Bool-cases (leb 512 scanned)) [
        | inl f ↦ rw (e, f, scan_tasks) (weaker k _ _ (omega arith) (truncated-IsScan k g v))
        | inr f ↦ elim (Option-cases (task_at fs pid name)) [
          | inl t ↦ rw (e, f, t, scan_tasks) skip
          | inr (task, t) ↦
              let less = leb_false→lt 512 scanned f in
              let one_more = scan_task-IsScan fs ctx k pid task g v (omega arith) in
              let rest =
                scan_tasks-IsScan fs ctx (k + 1) pid (scanned + 1) names
                  (scan_task fs ctx pid task g) one_more (omega arith) (omega arith) in
              rw (e, f, t, scan_tasks)
                (weaker (k + 1 + (512 - (scanned + 1))) _ _ (omega arith) rest)
        ]
      ]
    ]

pub scan_pid-IsScan :
    (fs : ProcFs) (ctx : ProcCtx) (k pid : ℕ) (g : GroupScan)
    → IsScan k g
    → k + 512 ≤ 65535
    → IsScan (k + 512) (scan_pid fs ctx pid g)
unfolding scan_pid
scan_pid-IsScan fs ctx k pid g v room = elim (Option-cases (fs.task_dir pid)) [
  | inl e ↦ rw (e, scan_pid) (weaker k (k + 512) g (omega arith) v)
  | inr (names, e) ↦
      rw (e, scan_pid) (scan_tasks-IsScan fs ctx k pid 0 names g v (omega arith) room)
]

scan_pids-IsScan :
    (fs : ProcFs) (ctx : ProcCtx) (k : ℕ) (pids : List ℕ) (g : GroupScan)
    → IsScan k g
    → k + 512 * length pids ≤ 65535
    → IsScan (k + 512 * length pids) (scan_pids fs ctx pids g)
unfolding scan_pids
scan_pids-IsScan fs ctx k [] g v room = weaker k _ g (omega arith) v
scan_pids-IsScan fs ctx k (pid ∷ pids) g v room =
    weaker (k + 512 + 512 * length pids) _ _ (omega arith) (
      scan_pids-IsScan fs ctx (k + 512) pids (scan_pid fs ctx pid g)
        (scan_pid-IsScan fs ctx k pid g v (omega arith)) (omega arith))

empty_flags : (b : Bool) → (if b then 1 else 0) < 4
empty_flags true = omega arith
empty_flags false = omega arith

-- The state before the loops.
abbrev pub start_of : ProcCtx → WatchGroup → GroupScan
start_of ctx group = record {
  thread_history = ctx.thread_history;
  cpu_count = ctx.cpu_count;
  candidates = [];
  out = empty_entry ctx group;
}

pub start-IsScan :
    (ctx : ProcCtx) (group : WatchGroup)
    → length ctx.thread_history ≡ 1024
    → IsScan 0 (start_of ctx group)
unfolding empty_entry
start-IsScan ctx group size = record {
  slots = size;
  candidates = tt;
  candidate_count = omega arith;
  instance_count = omega arith;
  name_size = length-name_field 16 group.name;
  flags = empty_flags ctx.thread_include_tid;
  states_size = refl;
  counted = refl;
  total = omega arith;
  no_top = refl;
}

-- The threads of a group of at most 64 processes: no counter meets its limit, and the history, the candidates and the
-- entry keep to their bounds.
pub scan_group-IsScan :
    (fs : ProcFs) (ctx : ProcCtx) (group : WatchGroup)
    → length ctx.thread_history ≡ 1024
    → length group.pids ≤ 64
    → IsScan (512 * length group.pids) (scan_group fs ctx group)
unfolding scan_group
scan_group-IsScan fs ctx group size few =
    weaker (0 + 512 * length group.pids) _ (scan_pids fs ctx group.pids (start_of ctx group))
      (omega arith)
      (scan_pids-IsScan fs ctx 0 group.pids (start_of ctx group) (start-IsScan ctx group size)
        (omega arith))
