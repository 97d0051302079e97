-- ===== src/Tests.antt =====
-- Concrete states of the agent for the tests.
pub mod Sorting
pub mod Wire
pub mod Samples
pub mod Processes
pub mod Watch
pub mod Run
use trace_fox.Base.{ℕ, refl, true, false, some, List, [], ◌∷◌, arith, set, replicate}
use trace_fox.Base.CString.{name_field}
use trace_fox.Base.Stdio.{codes}
use trace_fox.Tlv.{TlvWriter}
use trace_fox.Tlv
use trace_fox.Cpu.{CpuPayload, CpuStat, CpuState}
use trace_fox.Mem.{MemCtx}
use trace_fox.Net.{NetCtx, NetEntry}
use trace_fox.Net
use trace_fox.Disk.{DiskCtx, DiskEntry}
use trace_fox.Disk
use trace_fox.Fs.{FsCtx, FsEntry}
use trace_fox.Fs
use trace_fox.Proc.{ProcCtx, ProcGroupEntry, ThreadGroupEntry, ThreadTopEntry, top}
use trace_fox.RoundTrip
use trace_fox.Agent.Frame.Parts.{Contexts, IsReady}
use trace_fox.Agent.Received.{InBounds}

-- A writer with a header's room of zeros, and an empty one over it.
abbrev pub blank : List ℕ
blank = replicate 1400 0

abbrev pub fresh : TlvWriter
fresh = record { buffer = blank; len = 12; cap = 1400 }

pub fresh-IsValid : Tlv.Put.IsValid fresh
fresh-IsValid = record { len_in = omega arith; cap_in = omega arith; small = omega arith }

abbrev pub some_cpu : CpuPayload
some_cpu = record { user = 120; system = 40; idle = 800; iowait = 20; irq = 19 }

pub some_cpu-IsCpu : RoundTrip.System.IsCpu some_cpu
some_cpu-IsCpu = record {
  user = omega arith;
  system = omega arith;
  idle = omega arith;
  iowait = omega arith;
  irq = omega arith;
}

abbrev pub some_mem : MemCtx
some_mem = record {
  last_mem = record { mem_total_kb = 16000000; mem_free_kb = 4000000; mem_available_kb = 9000000 };
  last_load = record { load1_x100 = 125; load5_x100 = 90; load15_x100 = 50 };
}

pub some_mem-IsMem : RoundTrip.System.IsMem some_mem
some_mem-IsMem = record {
  total = omega arith;
  free = omega arith;
  available = omega arith;
  load1 = omega arith;
  load5 = omega arith;
  load15 = omega arith;
}

abbrev pub eth0 : NetEntry
eth0 = record { name = name_field 8 (codes "eth0"); rx_bytes = 123456789; tx_bytes = 987654 }

abbrev pub some_net : NetCtx
some_net = record { entries = set Net.zero_ctx.entries 0 eth0; count = 1; truncated = false }

abbrev pub sda : DiskEntry
sda = record Disk.zero_entry {
  name = name_field 8 (codes "sda");
  reads_completed = 5000;
  io_util_pct_x10 = 37;
}

abbrev pub some_disk : DiskCtx
some_disk = record Disk.zero_ctx { entries = set Disk.zero_ctx.entries 0 sda; count = 1 }

abbrev pub root_fs : FsEntry
root_fs = record { mount = name_field 16 (codes "/"); total_kb = 500000; used_pct_x10 = 423 }

abbrev pub some_fs : FsCtx
some_fs = record Fs.zero_ctx { entries = set Fs.zero_ctx.entries 0 root_fs; count = 1 }

abbrev pub nginx : ProcGroupEntry
nginx = record {
  name = name_field 16 (codes "nginx");
  inst_count = 4;
  cpu_pct_x10 = 250;
  rss_kb_sum = 80000;
}

abbrev pub worker : ThreadTopEntry
worker = record {
  name = name_field 16 (codes "worker");
  inst_count = 3;
  cpu_pct_x10 = 200;
  pid = 100;
  tid = 104;
}

abbrev pub nginx_threads : ThreadGroupEntry
nginx_threads = record {
  name = name_field 16 (codes "nginx");
  total_threads = 8;
  flags = 1;
  state_counts = 2 ∷ 6 ∷ 0 ∷ 0 ∷ 0 ∷ 0 ∷ 0 ∷ [];
  top = worker ∷ [];
}

abbrev pub some_proc : ProcCtx
some_proc = record {
  history = [];
  thread_history = [];
  watch_groups = [];
  disabled = false;
  thread_frame_warned = false;
  cpu_count = 4;
  thread_generation = 1;
  thread_mode = top;
  thread_top_n = 5;
  thread_include_tid = true;
  last_scan_time = some 0;
  cpu_total_diff = 100;
  last_payload = nginx ∷ [];
  last_thread_payload = nginx_threads ∷ [];
}

abbrev pub some_counters : CpuStat
some_counters = record {
  user = 100;
  nicev = 0;
  system = 50;
  idle = 1000;
  iowait = 5;
  irq = 1;
  softirq = 2;
}

abbrev pub started : CpuState
started = record {
  ctx = record {
    prev_total = 1158;
    prev = some_counters;
    initialized = true;
    last_payload = some_cpu;
  };
  g_last_diff_total = 1;
}

abbrev pub some_contexts : Contexts
some_contexts = record {
  cpu = started.ctx;
  mem = some_mem;
  net = some_net;
  disk = some_disk;
  fs = some_fs;
  proc = some_proc;
}

pub nginx-IsGroup : RoundTrip.Proc.IsGroup nginx
unfolding name_field
nginx-IsGroup = record {
  name_size = refl;
  inst = omega arith;
  cpu = omega arith;
  rss = omega arith;
}

pub worker-IsTop : RoundTrip.Threads.Entries.IsTop worker
unfolding name_field
worker-IsTop = record {
  name_size = refl;
  inst = omega arith;
  cpu = omega arith;
  pid = omega arith;
  tid = omega arith;
}

pub nginx_threads-IsGroup : RoundTrip.Threads.IsGroup nginx_threads
unfolding name_field
nginx_threads-IsGroup = record {
  name_size = refl;
  total = omega arith;
  flags = omega arith;
  states_size = refl;
  states = (
    omega arith,
    (omega arith, (omega arith, (omega arith, (omega arith, (omega arith, (omega arith, tt)))))),
  );
  top = (worker-IsTop, tt);
}

pub some_net-IsValid : RoundTrip.Net.IsValid some_net
some_net-IsValid = record {
  count_in = omega arith;
  stored = omega arith;
  entries = ((omega arith, omega arith), tt);
}

pub sda-IsEntry : RoundTrip.Disk.IsEntry sda
sda-IsEntry = record {
  reads = omega arith;
  writes = omega arith;
  sectors_read = omega arith;
  sectors_written = omega arith;
  read_ms = omega arith;
  write_ms = omega arith;
  read_delta = omega arith;
  write_delta = omega arith;
  util = omega arith;
}

pub root_fs-IsEntry : RoundTrip.Fs.IsEntry root_fs
root_fs-IsEntry = (omega arith, omega arith)

pub some_contexts-IsReady : IsReady some_contexts
some_contexts-IsReady = record {
  proc_count = omega arith;
  groups = (nginx-IsGroup, tt);
  threads = (nginx_threads-IsGroup, tt);
}

pub some_contexts-InBounds : InBounds some_contexts
some_contexts-InBounds = record {
  ready = some_contexts-IsReady;
  cpu = some_cpu-IsCpu;
  mem = some_mem-IsMem;
  net = some_net-IsValid;
  disk_count = omega arith;
  disk_stored = omega arith;
  disks = (sda-IsEntry, tt);
  fs_count = omega arith;
  fs_stored = omega arith;
  mounts = (root_fs-IsEntry, tt);
}
