-- ===== src/Tests/Processes.antt =====
-- The claims about configuration and processes at concrete inputs.
use trace_fox.Base.{
  ℕ, ◌≤◌, ◌<◌, ◌≡◌, refl, ◌≢◌, ◌⊎◌, none, some, List, [], arith, length, get_or, replicate,
  length-replicate,
}
use trace_fox.Base.Stdio.{codes, fgets}
use trace_fox.Base.CString.{c_str}
use trace_fox.Base.Scan.{IfSome}
use trace_fox.Agent.Clock.{
  timespec_compare, order_of, timespec_compare-order_of, to_ns, later, wait_for_next_sample,
  wait_for_next_sample-deadline,
}
use trace_fox.Disk.{Timespec}
use trace_fox.Proc.TaskStat.{
  IsTask, parse_task_stat, parse_task_stat-IsTask, task_line, task_id, first_index, task_name,
  last_index, task_fields, number_fields, skip_word, strtoull,
}
use trace_fox.Config.{config_defaults, load_config_file}
use trace_fox.Config.Bounds.{load_config_file-IsValid}
use trace_fox.Config.Bounds.Settings.{IsValid}
use trace_fox.Proc.{ProcPrev, TaskInfo, ThreadCandidate, ThreadPrev}
use trace_fox.Proc.History.{free_prev, find_slot}
use trace_fox.Proc.History.Slots.{IsFound, find_slot-IsFound}
use trace_fox.Proc.Threads.{free_thread, find_thread_slot}
use trace_fox.Proc.Threads.Slots.{Owns, find_thread_slot-owned}
use trace_fox.Proc.Candidates.Entries.{IsCandidate}

abbrev agent_conf : List ℕ
agent_conf = codes "# agent\nserver_port = 9100\ninterval = 0\nproc_prefix = nginx, redis\n"

load_config_file-IsValid_example : IsValid (load_config_file (some agent_conf) config_defaults).1
load_config_file-IsValid_example = load_config_file-IsValid (some agent_conf)

abbrev history : List ProcPrev
history = replicate 64 free_prev

find_slot-IsFound_example : IsFound 1234 history (find_slot history 1234)
find_slot-IsFound_example = find_slot-IsFound history 1234 (length-replicate 64 free_prev)

abbrev threads : List ThreadPrev
threads = replicate 1024 free_thread

find_thread_slot-owned_example :
    ((i : ℕ) × (h' : List ThreadPrev) × (find_thread_slot threads 7 8 500 ≡ some (i, h'))
      × (i < 1024)
      × (length h' ≡ 1024)
      × Owns 7 8 500 (get_or h' i free_thread)
      × ((i ≡ 3) ⊎ (get_or h' 3 free_thread ≡ get_or threads 3 free_thread)))
    ⊎ ((find_thread_slot threads 7 8 500 ≡ none)
        × ((1024 ≤ 3) ⊎ ((get_or threads 3 free_thread).pid ≢ 0)))
find_thread_slot-owned_example =
    find_thread_slot-owned threads 7 8 500 3 (length-replicate 1024 free_thread)

abbrev task : TaskInfo
task = record { id = 8; comm = codes "worker"; state = b'S'; ticks = 10; starttime = 500 }

abbrev candidate : ThreadCandidate
candidate = record {
  name = codes "worker";
  pid = 7;
  tid = 8;
  inst_count = 70000;
  cpu_pct_x10 = 90000;
}

candidate-IsCandidate : IsCandidate candidate
candidate-IsCandidate = record { pid = omega arith; tid = omega arith }

abbrev stat_line : List ℕ
stat_line = codes "42 (a) b) S 1 2 3 4 5 6 7 8 9 10 300 40 11 12 13 14 15 16 9000 17\n"

abbrev stat_task : TaskInfo
stat_task = record { id = 42; comm = codes "a) b"; state = b'S'; ticks = 340; starttime = 9000 }

parse_task_stat_run : parse_task_stat (some stat_line) ≡ some stat_task
unfolding parse_task_stat c_str fgets task_line task_id first_index task_name last_index task_fields
    number_fields skip_word strtoull
parse_task_stat_run = refl

parse_task_stat-IsTask_example : IfSome IsTask (parse_task_stat (some stat_line))
parse_task_stat-IsTask_example = parse_task_stat-IsTask (some stat_line)

wait_for_next_sample-deadline_example :
    let at : Timespec = record { tv_sec = 100; tv_nsec = 5 } in
    let now : Timespec = record { tv_sec = 107; tv_nsec = 0 } in
    let (status, next) = wait_for_next_sample at 5 (0, some now) [] in
    (to_ns now < to_ns next)
    × (((to_ns now < to_ns (later at 5)) × (next ≡ later at 5))
        ⊎ ((to_ns (later at 5) ≤ to_ns now) × (next ≡ later now 5)))
wait_for_next_sample-deadline_example =
    wait_for_next_sample-deadline (record { tv_sec = 100; tv_nsec = 5 })
      (record { tv_sec = 107; tv_nsec = 0 }) 5 0 [] (record { nsec = omega arith })
      (record { nsec = omega arith }) (omega arith)

abbrev five : Timespec
five = record { tv_sec = 5; tv_nsec = 999999999 }

abbrev six : Timespec
six = record { tv_sec = 6; tv_nsec = 0 }

timespec_compare-order_of_example : timespec_compare five six ≡ order_of (to_ns five) (to_ns six)
timespec_compare-order_of_example =
    timespec_compare-order_of five six (record { nsec = omega arith })
      (record { nsec = omega arith })
