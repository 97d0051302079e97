-- ===== src/Proc.antt =====
-- agent/src/proc.c: the collector of process groups and of their threads. This file holds its state;
-- the modules below hold the functions. Everything that the source reads under /proc is an argument.
pub mod History
pub mod Threads
pub mod TaskStat
pub mod Candidates
pub mod Rss
pub mod Scan
pub mod Group
pub mod Collect
pub mod Push
pub mod Emit
use trace_fox.Base.{ℕ, Bool, true, false, Option, List}

abbrev pub tf_proc_track : ℕ
tf_proc_track = 64

abbrev pub tf_thread_track : ℕ
tf_thread_track = 1024

abbrev pub tf_thread_candidates : ℕ
tf_thread_candidates = 512

abbrev pub tf_thread_scan_limit : ℕ
tf_thread_scan_limit = 512

abbrev pub tf_max_comm_prefix : ℕ
tf_max_comm_prefix = 32

abbrev pub tf_comm_prefix_len : ℕ
tf_comm_prefix_len = 32

abbrev pub tf_max_proc_groups : ℕ
tf_max_proc_groups = 8

abbrev pub tf_max_thread_top_n : ℕ
tf_max_thread_top_n = 7

abbrev pub tf_proc_name_size : ℕ
tf_proc_name_size = 16

-- `enum tf_thread_mode`
pub data ThreadMode : Type 0 where
  off summary top : ThreadMode

abbrev pub is_off : ThreadMode → Bool
is_off off = true
is_off summary = false
is_off top = false

abbrev pub is_top : ThreadMode → Bool
is_top off = false
is_top summary = false
is_top top = true

-- `struct pid_list` inside `struct watch_group`: the first `count` elements of the array, which has room
-- for `tf_proc_track`.
pub record WatchGroup : Type 0 where
  pub name : List ℕ
  pub pids : List ℕ

-- `struct proc_prev`; a slot is free while its `pid` is 0.
pub record ProcPrev : Type 0 where
  pub pid : ℕ
  pub ticks : ℕ

-- `struct task_stat`; `comm` holds the bytes before its NUL.
pub record TaskInfo : Type 0 where
  pub id : ℕ
  pub comm : List ℕ
  pub state : ℕ
  pub ticks : ℕ
  pub starttime : ℕ

-- `struct thread_prev`
pub record ThreadPrev : Type 0 where
  pub pid : ℕ
  pub tid : ℕ
  pub starttime : ℕ
  pub ticks : ℕ
  pub generation : ℕ

-- `struct thread_candidate`
pub record ThreadCandidate : Type 0 where
  pub name : List ℕ
  pub pid : ℕ
  pub tid : ℕ
  pub inst_count : ℕ
  pub cpu_pct_x10 : ℕ

-- `struct proc_group_entry`; names in entries are arrays of sixteen bytes.
pub record ProcGroupEntry : Type 0 where
  pub name : List ℕ
  pub inst_count : ℕ
  pub cpu_pct_x10 : ℕ
  pub rss_kb_sum : ℕ

-- `struct thread_top_entry`
pub record ThreadTopEntry : Type 0 where
  pub name : List ℕ
  pub inst_count : ℕ
  pub cpu_pct_x10 : ℕ
  pub pid : ℕ
  pub tid : ℕ

-- `struct thread_group_entry`: the arrays `state_counts` (of seven) and `top` (its first `top_count`).
pub record ThreadGroupEntry : Type 0 where
  pub name : List ℕ
  pub total_threads : ℕ
  pub flags : ℕ
  pub state_counts : List ℕ
  pub top : List ThreadTopEntry

-- `struct proc_ctx`. The two payloads are the lists of their first `group_count` groups, and the
-- candidates live only during one call of `collect_thread_group`.
pub record ProcCtx : Type 0 where
  pub history : List ProcPrev
  pub thread_history : List ThreadPrev
  pub watch_groups : List WatchGroup
  pub disabled : Bool
  pub thread_frame_warned : Bool
  pub cpu_count : ℕ
  pub thread_generation : ℕ
  pub thread_mode : ThreadMode
  pub thread_top_n : ℕ
  pub thread_include_tid : Bool
  -- `none` is that `time` failed, 0 that there was no scan.
  pub last_scan_time : Option ℕ
  pub cpu_total_diff : ℕ
  pub last_payload : List ProcGroupEntry
  pub last_thread_payload : List ThreadGroupEntry
