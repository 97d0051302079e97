-- ===== src/Proc/Group.antt =====
-- agent/src/proc.c: the threads of a group (`collect_thread_group`). `qsort` of the C library is a parameter, with the order that
-- the comparison function decides.
pub mod Bounds
pub mod Top
pub mod Stored
pub mod Tally
use trace_fox.Base.{
  ℕ, ◌+◌, ◌-◌, ◌*◌, ◌/◌, ◌%◌, ◌^◌, min, Bool, false, ◌&&◌, ◌||◌, not, Option, none, some, List, [],
  ◌∷◌, map, ltb, leb, ◌==◌, if◌then◌else◌, ok, fail, length, get_or, set, take, replicate,
}
use trace_fox.Base.CString.{c_str, name_field}
use trace_fox.Base.Stdio.{skip_space, sign_of, digits_of}
use Prim.Native.Nat.{Ordering}
use trace_fox.Proc.{
  WatchGroup, TaskInfo, ThreadPrev, ThreadCandidate, ThreadGroupEntry, ProcCtx, is_top,
  tf_thread_scan_limit, tf_proc_name_size, tf_max_thread_top_n,
}
use trace_fox.Proc.Push.{flag_truncated}
use trace_fox.Proc.Scan.{ProcFs, is_number_name}
use trace_fox.Proc.TaskStat.{parse_task_stat}
use trace_fox.Proc.Threads.{free_thread, find_thread_slot}
use trace_fox.Proc.Candidates.{
  thread_state_index, increment_u16, add_thread_candidate, compare_thread_candidates,
  copy_thread_candidate,
}
use Prim.Native.Nat.{bit_or}

-- `qsort(base, n, size, compare)` on the first `n` elements.
abbrev pub Qsort : Type 0
Qsort = (ThreadCandidate → ThreadCandidate → Ordering) → List ThreadCandidate → List ThreadCandidate

-- What the loops over a group change: the history of threads, the number of processors, the candidates, and the
-- entry.
pub record GroupScan : Type 0 where
  pub thread_history : List ThreadPrev
  pub cpu_count : ℕ
  pub candidates : List ThreadCandidate
  pub out : ThreadGroupEntry

-- `get_cpu_count`: the number of processors, which is asked for once.
unfoldable pub get_cpu_count : ℕ → ℕ → ℕ
get_cpu_count online cpu_count =
    if cpu_count == 0 then (if online == 0 then 1 else online) else cpu_count

-- `strtol(d_name, &end, 10)` with its checks: the whole name is a positive number.
unfoldable pub tid_of : List ℕ → Option ℕ
unfolding skip_space sign_of digits_of c_str
tid_of name =
    let (minus, t) = sign_of (skip_space name) in
    let (n, any, rest) = digits_of 0 false t in
    let in_range : Bool = not minus && (ltb 0 n && leb n (2 ^ 63 - 1)) in
    if any && (in_range && length (c_str rest) == 0) then some n else none

unfoldable pub truncated : ThreadGroupEntry → ThreadGroupEntry
truncated out = record out { flags = bit_or out.flags flag_truncated }

-- One thread more in all, and in its state.
unfoldable pub count_thread : TaskInfo → ThreadGroupEntry → ThreadGroupEntry
count_thread task out =
    let total = increment_u16 out.total_threads out.flags in
    let i = thread_state_index task.state in
    let counted = increment_u16 (get_or out.state_counts i 0) total.1 in
    record out {
      total_threads = total.0;
      state_counts = set out.state_counts i counted.0;
      flags = counted.1;
    }

-- `total_diff == 0 ? 1 : total_diff`
abbrev pub at_least_one : ℕ → ℕ
at_least_one n = if n == 0 then 1 else n

-- The share of the processors, in tenths of a percent, in 64-bit arithmetic.
unfoldable pub scaled_share : ℕ → ℕ → ℕ → ℕ
scaled_share delta cpu_count cpu_total_diff =
    delta * 1000 % 2 ^ 64 * cpu_count % 2 ^ 64 / at_least_one cpu_total_diff

-- `previous_ticks != 0 && ticks >= previous_ticks`
abbrev pub has_grown : ℕ → ℕ → Bool
has_grown previous ticks = not (previous == 0) && leb previous ticks

-- The slot of the thread takes the ticks and the generation of this sample; the share comes from the ticks before.
-- The flag says that no slot is left.
unfoldable pub thread_share : ProcFs → ProcCtx → ℕ → TaskInfo → GroupScan → ℕ × GroupScan
thread_share fs ctx pid task g =
    elim (find_thread_slot g.thread_history pid task.id task.starttime) [
      | none ↦ (0, record g { out = truncated g.out })
      | some (i, history) ↦
          let slot = get_or history i free_thread in
          let online = get_cpu_count fs.online g.cpu_count in
          let touched : ThreadPrev = record slot {
            ticks = task.ticks;
            generation = ctx.thread_generation;
          } in
          let grown = has_grown slot.ticks task.ticks in
          (
            if grown then scaled_share (task.ticks - slot.ticks) online ctx.cpu_total_diff else 0,
            record g {
              thread_history = set history i touched;
              cpu_count = if grown then online else g.cpu_count;
            },
          )
    ]

unfoldable pub add_candidate : ProcCtx → ℕ → TaskInfo → ℕ → GroupScan → GroupScan
add_candidate ctx pid task cpu g =
    let (status, cs) = add_thread_candidate ctx.thread_include_tid g.candidates task pid cpu in
    record g { candidates = cs; out = elim status [ ok ↦ g.out | fail ↦ truncated g.out ] }

-- A thread whose stat file is read: it is counted, and in the mode `top` it becomes a candidate.
unfoldable pub scan_task : ProcFs → ProcCtx → ℕ → TaskInfo → GroupScan → GroupScan
scan_task fs ctx pid task g =
    let counted = record g { out = count_thread task g.out } in
    let shared = thread_share fs ctx pid task counted in
    if is_top ctx.thread_mode then add_candidate ctx pid task shared.0 shared.1 else counted

-- The thread that an entry of /proc/<pid>/task stands for, if its stat file is read and is that of the thread.
unfoldable pub task_at : ProcFs → ℕ → List ℕ → Option TaskInfo
task_at fs pid name = elim (tid_of name) [
  | none ↦ none
  | some tid ↦ elim (parse_task_stat (fs.task_stat_file pid tid)) [
    | none ↦ none
    | some task ↦ if task.id == tid then some task else none
  ]
]

-- The loop over the entries of one process, of which at most `tf_thread_scan_limit` are scanned.
unfoldable pub scan_tasks : ProcFs → ProcCtx → ℕ → ℕ → List (List ℕ) → GroupScan → GroupScan
scan_tasks fs ctx pid scanned [] g = g
scan_tasks fs ctx pid scanned (name ∷ names) g =
    let skip = scan_tasks fs ctx pid scanned names g in
    let next = λ (task : TaskInfo).
      scan_tasks fs ctx pid (scanned + 1) names (scan_task fs ctx pid task g) in
    if not (is_number_name name)
    then skip
    else if leb tf_thread_scan_limit scanned
    then record g { out = truncated g.out }
    else (elim (task_at fs pid name) [ none ↦ skip | some task ↦ next task ])

unfoldable pub scan_pid : ProcFs → ProcCtx → ℕ → GroupScan → GroupScan
scan_pid fs ctx pid g = elim (fs.task_dir pid) [
  | none ↦ g
  | some names ↦ scan_tasks fs ctx pid 0 names g
]

unfoldable pub scan_pids : ProcFs → ProcCtx → List ℕ → GroupScan → GroupScan
scan_pids fs ctx [] g = g
scan_pids fs ctx (pid ∷ pids) g = scan_pids fs ctx pids (scan_pid fs ctx pid g)

-- The entry before the loops.
unfoldable pub empty_entry : ProcCtx → WatchGroup → ThreadGroupEntry
empty_entry ctx group = record {
  name = name_field tf_proc_name_size group.name;
  total_threads = 0;
  flags = if ctx.thread_include_tid then 1 else 0;
  state_counts = replicate 7 0;
  top = [];
}

-- `top_count`
unfoldable pub top_count_of : ProcCtx → ℕ → ℕ
top_count_of ctx count = min (min count ctx.thread_top_n) tf_max_thread_top_n

-- The busiest candidates go into the entry.
unfoldable pub with_top : Qsort → ProcCtx → GroupScan → ThreadGroupEntry
with_top qsort ctx g =
    let sorted = qsort compare_thread_candidates g.candidates in
    let count = length g.candidates in
    if not (is_top ctx.thread_mode) || count == 0
    then g.out
    else record g.out { top = map copy_thread_candidate (take (top_count_of ctx count) sorted) }

-- The loops of a group from the history and the number of processors before.
unfoldable pub scan_group : ProcFs → ProcCtx → WatchGroup → GroupScan
scan_group fs ctx group = scan_pids fs ctx group.pids (record {
  thread_history = ctx.thread_history;
  cpu_count = ctx.cpu_count;
  candidates = [];
  out = empty_entry ctx group;
})

unfoldable pub collect_thread_group :
    Qsort → ProcFs → ProcCtx → WatchGroup → ProcCtx × ThreadGroupEntry
collect_thread_group qsort fs ctx group =
    let g = scan_group fs ctx group in
    (
      record ctx { thread_history = g.thread_history; cpu_count = g.cpu_count },
      with_top qsort ctx g,
    )
