-- ===== src/Tests/Run.antt =====
-- Runs of the agent on a small system, and the claims about its main loop, its options and its files at concrete
-- inputs.
use trace_fox.Base.{
  ℕ, ◌-◌, ◌^◌, ◌≤◌, ◌≡◌, refl, inr, true, false, none, some, List, [], ◌∷◌, arith, ok, length,
  replicate, length-replicate,
}
use trace_fox.Base.Scan.{IfSome}
use trace_fox.Base.Stdio.{isspace, isdigit, codes}
use trace_fox.Base.CString.{c_str}
use trace_fox.Config.{config_defaults, split_commas, add_prefixes}
use trace_fox.Mem
use trace_fox.Proc.Rss.{parse_rss_kb, statm_rss, named_status, parse_rss_kb_named}
use trace_fox.Agent.Clock.{sleep_rounds}
use trace_fox.Agent.Frame.Parts.{allocated}
use trace_fox.Agent.Options.{Getopt, ConfigFiles, Globals, read_options, spent}
use trace_fox.Config.Bounds.{config_defaults-IsValid}
use trace_fox.Agent.Options.Bounds.{IsUsable, IsValid-IsUsable, read_options-IsUsable}
use trace_fox.Agent.Options.Reload.{spent_le}
use trace_fox.Agent.Resolve.{af_inet, port_buf, decimal, first_address}
use trace_fox.Agent.Setup.{Setup, Agent, init_agent_state}
use trace_fox.Agent.Run.{Round, ended, handle_signal, signals, main, rounds}
use trace_fox.Agent.Run.Ends.{main-Ends, rounds_stopped}
use trace_fox.Agent.Run.Ends.Held.{no_collectors, IsClosed, Ends}
use trace_fox.Agent.Run.Capture.{capture_frames, log_of, capture_frames-log}
use trace_fox.Agent.Run.Journal.{Journal, main-Journal}
use trace_fox.Agent.Run.Progress.{IsCalm, Delivered, rounds-Delivered}
use trace_fox.Agent.Run.Sampled.{IsLive}
use trace_fox.Tests.{fresh, blank}
use trace_fox.Tests.Samples.{whole, some_system, at_start, at_start-IsBounded}
use trace_fox.Tests.Sorting.{insertion_sort, insertion_sort-IsQsort}

-- `tracefox-agent -f out.bin -P nginx,redis`
abbrev command_line : List (List ℕ)
command_line =
    codes "tracefox-agent" ∷ codes "-f" ∷ codes "out.bin" ∷ codes "-P" ∷ codes "nginx,redis" ∷ []

abbrev two_options : Getopt
two_options argv =
    record { letter = b'f'; optarg = codes "out.bin"; index = 2; offset = 0 }
    ∷ record { letter = b'P'; optarg = codes "nginx,redis"; index = 4; offset = 0 }
    ∷ []

abbrev no_files : ConfigFiles
no_files = record { is_readable = λ path. false; file = λ path. none }

abbrev no_globals : Globals
no_globals = record { file_mode = false; output_file = []; is_debug = false }

abbrev all_works : Setup
all_works = record {
  files = no_files;
  cpu_allocated = true;
  mem_allocated = true;
  net_allocated = true;
  disk_allocated = true;
  fs_allocated = true;
  proc_allocated = true;
  is_opened = true;
  getaddrinfo = λ host port. some (record { ai_family = af_inet; ai_addr = replicate 16 1 } ∷ []);
  has_socket = true;
  clock = some (record { tv_sec = 50; tv_nsec = 0 });
}

abbrev cold : Agent
cold = record {
  argv = command_line;
  cfg = config_defaults;
  globals = no_globals;
  collectors = no_collectors;
  g_last_diff_total = 1;
  log_file = false;
  log = [];
  sock = false;
  dest = record { addr = replicate 128 0; addr_len = 0; family = 0 };
  sent = [];
  seq = 0;
  writer = fresh;
  buffer = blank;
  next_sample = record { tv_sec = 0; tv_nsec = 0 };
}

abbrev calm_round : Round
calm_round = record {
  keep_running = true;
  reload_config_flag = false;
  setup = all_works;
  system = some_system;
  timestamp = 1700000000;
  is_sent = true;
  clock = (0, some (record { tv_sec = 51; tv_nsec = 0 }));
  sleeps = record { keep_running = true; reload_config_flag = false; rc = 0 } ∷ [];
}

calm_round-IsCalm : IsCalm calm_round
unfolding sleep_rounds
calm_round-IsCalm = record {
  kept = refl;
  unchanged = refl;
  errno = 0;
  now = record { tv_sec = 51; tv_nsec = 0 };
  clock = refl;
  slept = refl;
  taken = refl;
}

-- A sample, a reload, a sample and the end.
abbrev some_rounds : List Round
some_rounds =
    calm_round
    ∷ record calm_round { reload_config_flag = true }
    ∷ calm_round
    ∷ record calm_round { keep_running = false }
    ∷ []

started_well : (init_agent_state two_options all_works cold).0 ≡ ok
unfolding init_agent_state read_options trace_fox.Agent.Options.config_init_from_sources
    trace_fox.Agent.Options.explicit_path trace_fox.Base.CString.str_eq
    trace_fox.Base.CString.bytes_eq c_str trace_fox.Agent.Options.find_config_file
    trace_fox.Agent.Options.first_readable trace_fox.Agent.Options.option_steps
    trace_fox.Agent.Options.option_step trace_fox.Agent.Setup.init_rest
    trace_fox.Agent.Setup.open_output trace_fox.Agent.Setup.init_all trace_fox.Agent.Setup.open_log
    trace_fox.Cpu.cpu_init Mem.mem_init trace_fox.Net.net_init trace_fox.Disk.disk_init
    trace_fox.Fs.fs_init trace_fox.Proc.Collect.proc_init trace_fox.Collector.calloc_ctx
started_well = refl

in_file_mode : (init_agent_state two_options all_works cold).1.globals.file_mode ≡ true
unfolding init_agent_state read_options trace_fox.Agent.Options.config_init_from_sources
    trace_fox.Agent.Options.explicit_path trace_fox.Base.CString.str_eq
    trace_fox.Base.CString.bytes_eq c_str trace_fox.Agent.Options.find_config_file
    trace_fox.Agent.Options.first_readable trace_fox.Agent.Options.option_steps
    trace_fox.Agent.Options.option_step trace_fox.Agent.Setup.init_rest
    trace_fox.Agent.Setup.open_output trace_fox.Agent.Setup.init_all trace_fox.Agent.Setup.open_log
    trace_fox.Cpu.cpu_init Mem.mem_init trace_fox.Net.net_init trace_fox.Disk.disk_init
    trace_fox.Fs.fs_init trace_fox.Proc.Collect.proc_init trace_fox.Collector.calloc_ctx
in_file_mode = refl

main-Journal_example : Journal [] (main whole insertion_sort two_options all_works cold some_rounds)
main-Journal_example =
    main-Journal whole insertion_sort two_options all_works cold some_rounds []
      insertion_sort-IsQsort refl (omega (arith, length-replicate {A = ℕ} 1400 0))
      (inr (refl, refl)) tt started_well in_file_mode

abbrev warm : Agent
warm = record cold { collectors = allocated at_start; sock = true; seq = 2 ^ 32 - 1 }

warm-IsLive : IsLive warm
warm-IsLive = record {
  collecting = record { contexts = at_start; same = refl; bounded = at_start-IsBounded };
  cfg = IsValid-IsUsable config_defaults config_defaults-IsValid;
  buffer = omega (arith, length-replicate {A = ℕ} 1400 0);
}

rounds-Delivered_example :
    Delivered 2 warm (rounds whole insertion_sort two_options (calm_round ∷ calm_round ∷ []) warm)
rounds-Delivered_example =
    rounds-Delivered whole insertion_sort two_options insertion_sort-IsQsort
      (calm_round ∷ calm_round ∷ []) warm (calm_round-IsCalm, (calm_round-IsCalm, tt)) (omega arith)
      warm-IsLive

read_options-IsUsable_example :
    IfSome (λ s. IsUsable s.cfg) (read_options two_options no_files command_line no_globals)
read_options-IsUsable_example = read_options-IsUsable two_options no_files command_line no_globals

spent_le_example :
    length
      (add_prefixes
        (split_commas (c_str (spent (codes "nginx,redis"))))
        config_defaults).proc_prefixes
    ≤ 1
unfolding config_defaults
spent_le_example = spent_le (codes "nginx,redis") config_defaults

capture_frames-log_example :
    capture_frames (log_of ((1 ∷ 2 ∷ []) ∷ (3 ∷ []) ∷ [])) ≡ some ((1 ∷ 2 ∷ []) ∷ (3 ∷ []) ∷ [])
capture_frames-log_example =
    capture_frames-log ((1 ∷ 2 ∷ []) ∷ (3 ∷ []) ∷ []) (omega arith, (omega arith, tt))

parse_rss_kb_named_example :
    parse_rss_kb 4
      (some (named_status b'n' (codes "ginx\nVmRSS:\t99 kB\n")))
      (some (codes "1000 250 0\n"))
    ≡ some (statm_rss 4 (some (codes "1000 250 0\n")))
unfolding isspace isdigit
parse_rss_kb_named_example =
    parse_rss_kb_named 4 b'n' (codes "ginx\nVmRSS:\t99 kB\n") (some (codes "1000 250 0\n")) refl
      refl (omega arith) (omega arith)

cold-IsClosed : IsClosed cold
cold-IsClosed = record { log_file = refl; sock = refl; collectors = refl }

main-Ends_example : Ends (main whole insertion_sort two_options all_works cold some_rounds)
main-Ends_example =
    main-Ends whole insertion_sort two_options all_works cold some_rounds insertion_sort-IsQsort
      cold-IsClosed (omega (arith, length-replicate {A = ℕ} 1400 0))

-- SIGHUP, SIGTERM and SIGHUP again.
abbrev stopping_round : Round
stopping_round = record calm_round { keep_running = false; reload_config_flag = true }

rounds_stopped_example :
    (b : Agent) × (rounds whole insertion_sort two_options (stopping_round ∷ calm_round ∷ []) warm
      ≡ ended 0 b)
    × IsClosed b
    × (b.log ≡ warm.log)
    × (b.sent ≡ warm.sent)
unfolding signals handle_signal
rounds_stopped_example =
    rounds_stopped whole insertion_sort two_options (1 ∷ []) (1 ∷ []) 15 (true, false)
      stopping_round (calm_round ∷ []) warm (omega arith) refl
      (record { log_file = refl; sock = refl })

port_text : port_buf 9000 ≡ codes "9000"
unfolding port_buf decimal
port_text = refl

-- The first address of a family that the agent knows and of a size that fits.
second_address :
    first_address (
      record { ai_family = 1; ai_addr = [] }
      ∷ record { ai_family = af_inet; ai_addr = 7 ∷ [] }
      ∷ [])
    ≡ some (record { addr = 7 ∷ replicate 127 0; addr_len = 1; family = 2 })
unfolding first_address
second_address = refl
