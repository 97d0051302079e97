-- ===== src/Tests/Watch.antt =====
-- The collector of processes on a small /proc: two processes of one watched group, with three threads.
use trace_fox.Base.{
  ℕ, ◌≡◌, refl, ◌≢◌, ◌⊎◌, inl, true, false, none, some, List, [], ◌∷◌, ◌++◌, map, arith, ◌==◌,
  if◌then◌else◌, ok, get_or, replicate, length-replicate, All-replicate,
}
use trace_fox.Base.CString.{name_field, strn_eq, str_eq}
use trace_fox.Base.Stdio.{codes, fgets, scanf}
use trace_fox.Proc.{ProcCtx, ProcPrev, WatchGroup, top, tf_thread_track}
use trace_fox.Proc.Threads.{free_thread, claimed, find_thread_slot, thread_hash, thread_probe}
use trace_fox.Proc.TaskStat.{
  parse_task_stat, task_line, task_id, first_index, task_name, last_index, task_fields,
  number_fields, skip_word, strtoull,
}
use trace_fox.Proc.Candidates.{
  add_thread_candidate, add_to_same, is_same, new_candidate, add_instance, increment_u16,
  thread_state_index,
}
use trace_fox.Proc.History.{free_prev, tracker_add_pid, tracker_reset_lists, is_watched_by}
use trace_fox.Proc.Scan.{
  ProcFs, tracker_scan_proc, scan_entries, scan_entry, is_number_name, pid_of, comm_of,
}
use trace_fox.Proc.Rss.{parse_rss_kb, status_rss, status_loop, next_status, statm_rss}
use trace_fox.Proc.Group.{
  scan_group, collect_thread_group, scan_pids, scan_pid, scan_tasks, task_at, tid_of, add_candidate,
  count_thread, empty_entry, get_cpu_count, scaled_share, scan_task, thread_share, truncated,
}
use trace_fox.Proc.Group.Tally.Counts.{Tally}
use trace_fox.Proc.Scan.Kept.{IsSwept, tracker_scan_proc-IsSwept}
use trace_fox.Proc.Group.Top.{IsTopOf, collect_thread_group-IsTopOf}
use trace_fox.Proc.Collect.{proc_collect}
use trace_fox.Proc.Collect.Bounds.{IsTracked}
use trace_fox.Proc.Collect.Words.{IsPrev, IsCurrent, IsWords}
use trace_fox.Proc.Collect.Kept.{proc_collect-IsWords}
use trace_fox.Tests.Sorting.{insertion_sort, insertion_sort-IsQsort}

abbrev times : List ℕ
times = codes " (nginx) S 1 2 3 4 5 6 7 8 9 10 300 40 11 12 13 14 15 16 9000 17\n"

abbrev stat_of : ℕ → List ℕ
stat_of pid =
    if pid == 42
    then codes "42" ++ times
    else if pid == 43
    then codes "43" ++ times
    else codes "44" ++ times

abbrev pub small_fs : ProcFs
small_fs = record {
  now = some 100;
  scan_time = some 100;
  proc_dir = some (codes "1" ∷ codes "42" ∷ codes "self" ∷ codes "43" ∷ []);
  comm_file = λ pid. if pid == 1 then some (codes "init\n") else some (codes "nginx\n");
  stat_file = λ pid. some (stat_of pid);
  status_file = λ pid. some (codes "Name:\tnginx\nVmRSS:\t99 kB\n");
  statm_file = λ pid. some (codes "1000 250 0 0 0 0 0\n");
  task_dir = λ pid.
      if pid == 42
      then some (codes "." ∷ codes "42" ∷ codes "44" ∷ [])
      else some (codes "." ∷ codes "43" ∷ []);
  task_stat_file = λ pid tid. some (stat_of tid);
  online = 4;
  page_kb = 4;
}

abbrev pub web_group : WatchGroup
web_group = record { name = name_field 32 (codes "nginx"); pids = 42 ∷ 43 ∷ [] }

abbrev pub watching : ProcCtx
watching = record {
  history = replicate 64 free_prev;
  thread_history = replicate tf_thread_track free_thread;
  watch_groups = web_group ∷ [];
  disabled = false;
  thread_frame_warned = false;
  cpu_count = 4;
  thread_generation = 1;
  thread_mode = top;
  thread_top_n = 5;
  thread_include_tid = true;
  last_scan_time = some 0;
  cpu_total_diff = 100;
  last_payload = [];
  last_thread_payload = [];
}

pub watching-IsTracked : IsTracked watching
watching-IsTracked = record {
  history_size = length-replicate 64 free_prev;
  thread_size = length-replicate tf_thread_track free_thread;
  lists = (omega arith, tt);
  group_count = omega arith;
  groups = tt;
  thread_count = omega arith;
  threads = tt;
}

-- Two processes of the group, and one that has ended.
abbrev two_slots : List ProcPrev
two_slots = record { pid = 7; ticks = 50 } ∷ record { pid = 43; ticks = 60 } ∷ free_prev ∷ []

abbrev remembering : ProcCtx
remembering = record watching { history = two_slots }

tracker_scan_proc-IsSwept_example :
    let c' = tracker_scan_proc small_fs remembering in
    ((small_fs.proc_dir ≡ none) × (c' ≡ remembering))
    ⊎ ((small_fs.proc_dir ≢ none)
        × IsSwept c'.watch_groups (record { pid = 7; ticks = 50 }) (get_or c'.history 0 free_prev))
tracker_scan_proc-IsSwept_example = tracker_scan_proc-IsSwept small_fs remembering 0

collect_thread_group-IsTopOf_example :
    IsTopOf 5
      (scan_group small_fs watching web_group).candidates
      (collect_thread_group insertion_sort small_fs watching web_group).1
collect_thread_group-IsTopOf_example =
    collect_thread_group-IsTopOf insertion_sort small_fs watching web_group insertion_sort-IsQsort
      refl (length-replicate tf_thread_track free_thread) (omega arith)

pub watching-IsWords : IsWords watching
watching-IsWords = record {
  generation = omega arith;
  processes = All-replicate IsPrev 64 free_prev (omega arith);
  threads = All-replicate (IsCurrent 1) tf_thread_track free_thread (omega arith, inl refl);
}

proc_collect-IsWords_example :
    (out : ProcCtx) × (proc_collect insertion_sort small_fs watching ≡ some (ok, out))
    × IsTracked out
    × IsWords out
proc_collect-IsWords_example =
    proc_collect-IsWords insertion_sort small_fs watching insertion_sort-IsQsort watching-IsTracked
      watching-IsWords

-- The scan finds both processes, and the threads of a sample are counted in their states.
scanned_pids :
    map (λ (g : WatchGroup). g.pids) (tracker_scan_proc small_fs watching).watch_groups
    ≡ (42 ∷ 43 ∷ []) ∷ []
unfolding tracker_scan_proc scan_entries scan_entry is_number_name pid_of comm_of fgets
    tracker_add_pid tracker_reset_lists is_watched_by strn_eq name_field
scanned_pids = refl

counted_threads :
    (scan_group small_fs watching web_group).out.state_counts ≡ 0 ∷ 3 ∷ 0 ∷ 0 ∷ 0 ∷ 0 ∷ 0 ∷ []
unfolding scan_group scan_pids scan_pid scan_tasks is_number_name task_at tid_of parse_task_stat
    fgets task_line task_id first_index task_name last_index task_fields number_fields skip_word
    strtoull name_field add_thread_candidate add_to_same is_same str_eq new_candidate add_instance
    increment_u16 thread_state_index add_candidate count_thread empty_entry get_cpu_count
    scaled_share scan_task thread_share truncated claimed find_thread_slot thread_hash thread_probe
counted_threads = refl

rss_from_statm : parse_rss_kb 4 (small_fs.status_file 42) (small_fs.statm_file 42) ≡ some 1000
unfolding parse_rss_kb status_rss status_loop next_status scanf statm_rss
rss_from_statm = refl
