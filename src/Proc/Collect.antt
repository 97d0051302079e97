-- ===== src/Proc/Collect.antt =====
-- agent/src/proc.c: the collector of processes (`proc_init`, `proc_destroy`, `proc_collect`).
pub mod Sums
pub mod Threads
pub mod Bounds
pub mod Ticks
pub mod Words
pub mod Kept
use trace_fox.Base.{
  ℕ, zero, suc, ◌+◌, ◌-◌, ◌%◌, ◌^◌, Bool, true, false, ◌||◌, Option, none, some, List, [], ◌∷◌, ltb,
  leb, ◌==◌, if◌then◌else◌, Status, ok, fail, add64, length, get_or, set, take, replicate,
}
use trace_fox.Base.CString.{name_field}
use trace_fox.Collector.{SampleContext, calloc_ctx, free_ctx}
use trace_fox.Proc.{
  WatchGroup, ProcPrev, ProcCtx, ProcGroupEntry, ThreadGroupEntry, is_off, tf_comm_prefix_len,
  tf_max_comm_prefix, tf_max_proc_groups, tf_proc_name_size, tf_proc_track, tf_thread_track, off,
}
use trace_fox.Config.{AgentConfig}
use trace_fox.Proc.History.{free_prev, find_slot}
use trace_fox.Proc.Threads.{free_thread, thread_history_gc}
use trace_fox.Proc.TaskStat.{parse_task_stat}
use trace_fox.Proc.Rss.{parse_rss_kb}
use trace_fox.Proc.Scan.{ProcFs, tracker_scan_proc}
use trace_fox.Proc.Candidates.{at_most_u16}
use trace_fox.Proc.Group.{Qsort, get_cpu_count, scaled_share, collect_thread_group}

-- The context that `calloc` yields.
abbrev pub zero_ctx : ProcCtx
zero_ctx = record {
  history = replicate tf_proc_track free_prev;
  thread_history = replicate tf_thread_track free_thread;
  watch_groups = [];
  disabled = false;
  thread_frame_warned = false;
  cpu_count = 0;
  thread_generation = 0;
  thread_mode = off;
  thread_top_n = 0;
  thread_include_tid = false;
  last_scan_time = some 0;
  cpu_total_diff = 0;
  last_payload = [];
  last_thread_payload = [];
}

-- `apply_config_prefixes`: a group for each prefix.
unfoldable pub watch_groups_of : List (List ℕ) → List WatchGroup
watch_groups_of [] = []
watch_groups_of (p ∷ ps) =
    record { name = name_field tf_comm_prefix_len p; pids = [] } ∷ watch_groups_of ps

unfoldable pub apply_config_prefixes : AgentConfig → ProcCtx → ProcCtx
apply_config_prefixes cfg ctx = record ctx {
  watch_groups = watch_groups_of (take tf_max_comm_prefix cfg.proc_prefixes);
}

-- The context that a successful `proc_init` leaves.
unfoldable pub started_ctx : AgentConfig → ProcCtx
unfolding apply_config_prefixes
started_ctx cfg = record (apply_config_prefixes cfg zero_ctx) {
  disabled = length cfg.proc_prefixes == 0;
  thread_mode = cfg.thread_mode;
  thread_top_n = cfg.thread_top_n;
  thread_include_tid = cfg.thread_include_tid;
}

unfoldable pub proc_init : Bool → AgentConfig → Option ProcCtx → Status × Option ProcCtx
unfolding calloc_ctx
proc_init allocated cfg ctx = calloc_ctx allocated (started_ctx cfg) ctx

unfoldable pub proc_destroy : Option ProcCtx → Option ProcCtx
unfolding free_ctx
proc_destroy ctx = free_ctx ctx

-- `(int)` of a positive identifier, `none` where it is negative.
abbrev pub to_int : ℕ → Option ℕ
to_int id = if ltb (id % 2 ^ 32) (2 ^ 31) then some (id % 2 ^ 32) else none

-- `parse_stat` with the test of its results: the ticks, if they are not 0 and the identifier is that of the process.
unfoldable pub ticks_of : ℕ → Option (List ℕ) → Option ℕ
ticks_of pid file = elim (parse_task_stat file) [
  | none ↦ none
  | some task ↦ if task.ticks == 0 then none else (elim (to_int task.id) [
    | none ↦ none
    | some parsed_pid ↦ if parsed_pid == pid then some task.ticks else none
  ])
]

-- `inst_count`, `cpu_sum_x10` and `rss_sum_kb` of one group.
pub record GroupSum : Type 0 where
  pub inst_count : ℕ
  pub cpu_sum_x10 : ℕ
  pub rss_sum_kb : ℕ

abbrev pub zero_sum : GroupSum
zero_sum = record { inst_count = 0; cpu_sum_x10 = 0; rss_sum_kb = 0 }

-- What the loop over the processes changes.
pub record SumScan : Type 0 where
  pub history : List ProcPrev
  pub cpu_count : ℕ
  pub sum : GroupSum

unfoldable pub add_process : ℕ → ℕ → GroupSum → GroupSum
add_process value rss_kb s = record {
  inst_count = (s.inst_count + 1) % 2 ^ 32;
  cpu_sum_x10 = add64 s.cpu_sum_x10 value;
  rss_sum_kb = add64 s.rss_sum_kb rss_kb;
}

-- One process. It is added if the slot holds ticks of an earlier sample, and no more than now. `none` is that a loop
-- ran out of fuel.
unfoldable pub sum_pid : ProcFs → ℕ → ℕ → SumScan → Option SumScan
sum_pid fs cpu_total_diff pid s = elim (ticks_of pid (fs.stat_file pid)) [
  | none ↦ some s
  | some ticks ↦
      let (i, history) = find_slot s.history pid in
      let prev_ticks = (get_or history i free_prev).ticks in
      let stored = set history i (record (get_or history i free_prev) { ticks = ticks }) in
      let online = get_cpu_count fs.online s.cpu_count in
      if prev_ticks == 0 || ltb ticks prev_ticks
      then some (record s { history = stored })
      else (elim (parse_rss_kb fs.page_kb (fs.status_file pid) (fs.statm_file pid)) [
        | none ↦ none
        | some rss_kb ↦
            let value = scaled_share (ticks - prev_ticks) online cpu_total_diff in
            some (record {
              history = stored;
              cpu_count = online;
              sum = add_process value rss_kb s.sum;
            })
      ])
]

unfoldable pub sum_pids : ProcFs → ℕ → List ℕ → SumScan → Option SumScan
sum_pids fs cpu_total_diff [] s = some s
sum_pids fs cpu_total_diff (pid ∷ pids) s = elim (sum_pid fs cpu_total_diff pid s) [
  | none ↦ none
  | some s' ↦ sum_pids fs cpu_total_diff pids s'
]

-- The loop over the groups: the sums of each, with the history and the number of processors at the end.
unfoldable pub sum_groups :
    ProcFs → ℕ → List WatchGroup → List ProcPrev → ℕ → Option (List GroupSum × List ProcPrev × ℕ)
sum_groups fs cpu_total_diff [] history cpu_count = some ([], history, cpu_count)
sum_groups fs cpu_total_diff (g ∷ gs) history cpu_count =
    elim (sum_pids fs cpu_total_diff g.pids
      (record { history = history; cpu_count = cpu_count; sum = zero_sum })) [
        | none ↦ none
        | some s ↦ elim (sum_groups fs cpu_total_diff gs s.history s.cpu_count) [
          | none ↦ none
          | some (sums, history', cpu_count') ↦ some (s.sum ∷ sums, history', cpu_count')
        ]
      ]

-- `UINT32_MAX` at most.
abbrev pub at_most_u32 : ℕ → ℕ
at_most_u32 n = if ltb (2 ^ 32 - 1) n then 2 ^ 32 - 1 else n

unfoldable pub group_entry : WatchGroup → GroupSum → ProcGroupEntry
group_entry g s = record {
  name = name_field tf_proc_name_size g.name;
  inst_count = at_most_u16 s.inst_count;
  cpu_pct_x10 = at_most_u16 s.cpu_sum_x10;
  rss_kb_sum = at_most_u32 s.rss_sum_kb;
}

-- The loop over the groups with `room` entries to go: those without a process are left out.
unfoldable pub output_groups : ℕ → List WatchGroup → List GroupSum → List ProcGroupEntry
output_groups zero groups sums = []
output_groups (suc room) [] sums = []
output_groups (suc room) (g ∷ gs) [] = []
output_groups (suc room) (g ∷ gs) (s ∷ sums) =
    let skip = output_groups (suc room) gs sums in
    let next = output_groups room gs sums in
    if s.inst_count == 0 then skip else group_entry g s ∷ next

-- The generation of this sample; when it wraps around, the history starts afresh.
unfoldable pub next_generation : ProcCtx → ProcCtx
next_generation ctx =
    let generation : ℕ = (ctx.thread_generation + 1) % 2 ^ 32 in
    if generation == 0
    then record ctx {
      thread_generation = 1;
      thread_history = replicate tf_thread_track free_thread;
    }
    else record ctx { thread_generation = generation }

-- The loop over the groups with `room` entries to go: those without a thread are left out.
unfoldable pub thread_groups :
    Qsort → ProcFs → ℕ → List WatchGroup → ProcCtx → ProcCtx × List ThreadGroupEntry
thread_groups qsort fs zero groups ctx = (ctx, [])
thread_groups qsort fs (suc room) [] ctx = (ctx, [])
thread_groups qsort fs (suc room) (g ∷ gs) ctx =
    let (ctx', entry) = collect_thread_group qsort fs ctx g in
    let skip = thread_groups qsort fs (suc room) gs ctx' in
    let next = thread_groups qsort fs room gs ctx' in
    if entry.total_threads == 0 then skip else (next.0, entry ∷ next.1)

unfoldable pub collect_threads : Qsort → ProcFs → ProcCtx → ProcCtx
collect_threads qsort fs ctx =
    let (ctx', groups) =
      thread_groups qsort fs tf_max_proc_groups ctx.watch_groups (next_generation ctx) in
    if is_off ctx.thread_mode then record ctx { last_thread_payload = [] } else record ctx' {
      last_thread_payload = groups;
      thread_history = thread_history_gc ctx'.thread_generation ctx'.thread_history;
    }

-- Whether a scan is due: there was none, or five seconds have passed, or the time is not known. A time of the last
-- scan that is not known is -1.
unfoldable pub is_scan_due : Option ℕ → Option ℕ → Bool
is_scan_due none last = true
is_scan_due (some now) none = leb 5 (now + 1)
is_scan_due (some now) (some last) = last == 0 || leb (last + 5) now

unfoldable pub scanned : ProcFs → ProcCtx → ProcCtx
scanned fs ctx = if is_scan_due fs.now ctx.last_scan_time then tracker_scan_proc fs ctx else ctx

-- `proc_collect` after the scan.
unfoldable pub collect_scanned : Qsort → ProcFs → ProcCtx → Option (Status × ProcCtx)
collect_scanned qsort fs c =
    elim (sum_groups fs c.cpu_total_diff c.watch_groups c.history c.cpu_count) [
      | none ↦ none
      | some (sums, history, cpu_count) ↦ some (
        ok,
        collect_threads qsort fs (record c {
          history = history;
          cpu_count = cpu_count;
          last_payload = output_groups tf_max_proc_groups c.watch_groups sums;
        }),
      )
    ]

unfoldable pub proc_collect : Qsort → ProcFs → ProcCtx → Option (Status × ProcCtx)
proc_collect qsort fs ctx =
    if ctx.disabled
    then some (ok, record ctx { last_payload = []; last_thread_payload = [] })
    else collect_scanned qsort fs (scanned fs ctx)

unfoldable pub proc_collect_api :
    Qsort → ProcFs → Option ProcCtx → SampleContext → Option (Status × Option ProcCtx)
proc_collect_api qsort fs none sctx = some (fail, none)
proc_collect_api qsort fs (some ctx) sctx =
    elim (proc_collect qsort fs (record ctx { cpu_total_diff = sctx.cpu_total_diff })) [
      | none ↦ none
      | some (status, c) ↦ some (status, some c)
    ]
