-- ===== src/Proc/Group/Tally/Counts.antt =====
-- What the counters of a group of threads are to count, and what one thread changes in them.
use trace_fox.Base.{
  ℕ, zero, suc, ◌+◌, ◌<◌, ◌≡◌, refl, sym, ap, ◌∙◌, ◌≢◌, inl, inr, true, false, none, some, List, [],
  ◌∷◌, ◌++◌, arith, ◌==◌, if◌then◌else◌, ==_iff, Bool-cases, Option-cases, Status, ok, fail, length,
  get_or, set, take, length-append, ==_false→ne,
}
use trace_fox.Proc.{TaskInfo, ThreadGroupEntry, ProcCtx, is_top}
use trace_fox.Proc.Scan.{ProcFs, is_number_name}
use trace_fox.Proc.Threads.{find_thread_slot}
use trace_fox.Proc.Candidates.{thread_state_index, add_thread_candidate}
use trace_fox.Proc.Group.{
  GroupScan, count_thread, truncated, thread_share, add_candidate, scan_task, task_at,
}
use trace_fox.Proc.Group.Bounds.Counted.{IsScan, count_thread-next}

-- The threads of a process that can be read, in the order of its directory.
unfoldable pub readable : ProcFs → ℕ → List (List ℕ) → List TaskInfo
readable fs pid [] = []
readable fs pid (name ∷ names) =
    let rest = readable fs pid names in
    if is_number_name name
    then (elim (task_at fs pid name) [ none ↦ rest | some task ↦ task ∷ rest ])
    else rest

-- Of each process, the first 512 of them.
unfoldable pub process_tasks : ProcFs → ℕ → List TaskInfo
process_tasks fs pid = elim (fs.task_dir pid) [
  | none ↦ []
  | some names ↦ take 512 (readable fs pid names)
]

unfoldable pub group_tasks : ProcFs → List ℕ → List TaskInfo
group_tasks fs [] = []
group_tasks fs (pid ∷ pids) = process_tasks fs pid ++ group_tasks fs pids

-- How many threads are in the state of this index.
unfoldable pub in_state : ℕ → List TaskInfo → ℕ
in_state i [] = 0
in_state i (t ∷ ts) = (if thread_state_index t.state == i then 1 else 0) + in_state i ts

-- The entry counts exactly these threads, in all and for each of the seven states.
pub record Tally (ts : List TaskInfo) (out : ThreadGroupEntry) : Type 0 where
  pub total : out.total_threads ≡ length ts
  pub states : (i : ℕ) → i < 7 → get_or out.state_counts i 0 ≡ in_state i ts

-- The counters of two entries are the same.
pub record Same (a b : ThreadGroupEntry) : Type 0 where
  pub total : a.total_threads ≡ b.total_threads
  pub states : a.state_counts ≡ b.state_counts

pub carried : (ts : List TaskInfo) (a b : ThreadGroupEntry) → Same a b → Tally ts b → Tally ts a
carried ts a b s t = record {
  total = s.total ∙ t.total;
  states = λ i lt. ap (λ xs. get_or xs i 0) s.states ∙ t.states i lt;
}

pub truncated-Same : (out : ThreadGroupEntry) → Same (truncated out) out
unfolding truncated
truncated-Same out = record { total = refl; states = refl }

share-Same :
    (fs : ProcFs) (ctx : ProcCtx) (pid : ℕ) (task : TaskInfo) (g : GroupScan)
    → Same (thread_share fs ctx pid task g).1.out g.out
unfolding thread_share
share-Same fs ctx pid task g =
    elim (Option-cases (find_thread_slot g.thread_history pid task.id task.starttime)) [
      | inl e ↦ rw (e, thread_share) (truncated-Same g.out)
      | inr ((i, history), e) ↦ rw (e, thread_share) (record { total = refl; states = refl })
    ]

candidate-Same :
    (ctx : ProcCtx) (pid : ℕ) (task : TaskInfo) (cpu : ℕ) (g : GroupScan)
    → Same (add_candidate ctx pid task cpu g).out g.out
unfolding add_candidate
candidate-Same ctx pid task cpu g =
    go (add_thread_candidate ctx.thread_include_tid g.candidates task pid cpu).0
  where
    go : (s : Status) → Same (elim s [ ok ↦ g.out | fail ↦ truncated g.out ]) g.out
    go ok = record { total = refl; states = refl }
    go fail = truncated-Same g.out

pub scan_task-Same :
    (fs : ProcFs) (ctx : ProcCtx) (pid : ℕ) (task : TaskInfo) (g : GroupScan)
    → Same (scan_task fs ctx pid task g).out (count_thread task g.out)
unfolding scan_task
scan_task-Same fs ctx pid task g =
    let c = record g { out = count_thread task g.out } in
    let shared = thread_share fs ctx pid task c in
    let s = share-Same fs ctx pid task c in
    let t = candidate-Same ctx pid task shared.0 shared.1 in
    elim (Bool-cases (is_top ctx.thread_mode)) [
      | inl e ↦
          rw (e, scan_task) (record { total = t.total ∙ s.total; states = t.states ∙ s.states })
      | inr e ↦ rw (e, scan_task) (record { total = refl; states = refl })
    ]

in_state-append :
    (i : ℕ) (ts us : List TaskInfo) → in_state i (ts ++ us) ≡ in_state i ts + in_state i us
unfolding in_state
in_state-append i [] us = omega arith
in_state-append i (t ∷ ts) us = omega (arith, in_state-append i ts us)

in_state-here :
    (i : ℕ) (ts : List TaskInfo) (t : TaskInfo)
    → (thread_state_index t.state == i) ≡ true
    → in_state i (ts ++ t ∷ []) ≡ in_state i ts + 1
unfolding in_state
in_state-here i ts t e =
    let one : in_state i (t ∷ []) ≡ 1 = rw e (omega arith) in
    omega (arith, in_state-append i ts (t ∷ []), one)

in_state-there :
    (i : ℕ) (ts : List TaskInfo) (t : TaskInfo)
    → (thread_state_index t.state == i) ≡ false
    → in_state i (ts ++ t ∷ []) ≡ in_state i ts
unfolding in_state
in_state-there i ts t e =
    let none_more : in_state i (t ∷ []) ≡ 0 = rw e (omega arith) in
    omega (arith, in_state-append i ts (t ∷ []), none_more)

get-set : (xs : List ℕ) (i v : ℕ) → i < length xs → get_or (set xs i v) i 0 ≡ v
get-set [] i v h = absurd (omega arith)
get-set (x ∷ xs) zero v h = refl
get-set (x ∷ xs) (suc i) v h = get-set xs i v (omega arith)

get-set_other : (xs : List ℕ) (i j v : ℕ) → i ≢ j → get_or (set xs i v) j 0 ≡ get_or xs j 0
get-set_other [] i j v ne = refl
get-set_other (x ∷ xs) zero zero v ne = absurd (ne refl)
get-set_other (x ∷ xs) zero (suc j) v ne = refl
get-set_other (x ∷ xs) (suc i) zero v ne = refl
get-set_other (x ∷ xs) (suc i) (suc j) v ne = get-set_other xs i j v (λ e. ne (ap suc e))

-- One thread more.
pub count_thread-Tally :
    (k : ℕ) (ts : List TaskInfo) (task : TaskInfo) (g : GroupScan)
    → IsScan k g
    → k < 65535
    → Tally ts g.out
    → Tally (ts ++ task ∷ []) (count_thread task g.out)
unfolding in_state
count_thread-Tally k ts task g v room t =
    let i = thread_state_index task.state in
    let n = get_or g.out.state_counts i 0 in
    let less : g.out.total_threads < 65535 = omega (arith, v.total) in
    rw (count_thread-next task g.out less v.counted) (record {
      total = omega (arith, t.total, length-append ts (task ∷ []));
      states = λ j lt. elim (Bool-cases (i == j)) [
        | inl e ↦
            let same = (==_iff i j).0 e in
            let set_here =
              get-set g.out.state_counts i (n + 1) (omega (arith, v.states_size, same)) in
            let before : n ≡ in_state j ts =
              ap (λ m. get_or g.out.state_counts m 0) same ∙ t.states j lt in
            ap (λ m. get_or (set g.out.state_counts i (n + 1)) m 0) (sym same)
            ∙ set_here
            ∙ ap (λ m. m + 1) before
            ∙ sym (in_state-here j ts task e)
        | inr e ↦
            get-set_other g.out.state_counts i j (n + 1) (==_false→ne i j e)
            ∙ t.states j lt
            ∙ sym (in_state-there j ts task e)
      ];
    })
