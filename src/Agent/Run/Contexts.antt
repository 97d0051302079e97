-- ===== src/Agent/Run/Contexts.antt =====
-- The contexts of the collectors before the first sample, and after the frame of a sample is built.
use trace_fox.Base.{
  ℕ, ◌≡◌, refl, ◌⊎◌, Bool, true, false, some, List, [], ◌∷◌, arith, if◌then◌else◌, Status, ok, fail,
  take, All, length-replicate,
}
use trace_fox.Tlv.{TlvWriter}
use trace_fox.Collector.{put_payload}
use trace_fox.Proc.{ProcCtx, is_off, tf_thread_track}
use trace_fox.Proc.Push.{proc_push, proc_push_api, thread_push, proc_payload, tf_type_proc}
use trace_fox.Proc.Collect.Bounds.{IsTracked}
use trace_fox.Cpu.{cpu_init, cpu_push_api}
use trace_fox.Mem.{mem_init, mem_push_api}
use trace_fox.Net.{net_init, net_push_api}
use trace_fox.Disk.{disk_init}
use trace_fox.Disk.Collect.{disk_push_api}
use trace_fox.Fs.{fs_init, fs_push_api}
use trace_fox.Cpu
use trace_fox.Mem
use trace_fox.Net
use trace_fox.Disk
use trace_fox.Fs
use trace_fox.Config.{AgentConfig}
use trace_fox.Proc.Collect.{proc_init, started_ctx, watch_groups_of}
use trace_fox.Proc.Collect.Threads.{IsList}
use trace_fox.Proc.History.{free_prev}
use trace_fox.Proc.Threads.{free_thread}
use trace_fox.Agent.Setup.{Setup, init_all}
use trace_fox.Agent.{Collectors, push_all}
use trace_fox.Agent.Frame.Parts.{Contexts, allocated}
use trace_fox.Agent.Sample.Bounded.{IsBounded}

-- The warning that `thread_push` remembers is no part of the bounds.
warned-IsTracked :
    (c : ProcCtx) (b : Bool) → IsTracked c → IsTracked (record c { thread_frame_warned = b })
warned-IsTracked c b v = record {
  history_size = v.history_size;
  thread_size = v.thread_size;
  lists = v.lists;
  group_count = v.group_count;
  groups = v.groups;
  thread_count = v.thread_count;
  threads = v.threads;
}

if_IsTracked :
    (b : Bool) (x y : Status × ProcCtx × TlvWriter)
    → IsTracked x.1
    → IsTracked y.1
    → IsTracked (if b then x else y).1
if_IsTracked true x y h k = h
if_IsTracked false x y h k = k

status_IsTracked :
    (s : Status) (x y : Status × ProcCtx × TlvWriter)
    → IsTracked x.1
    → IsTracked y.1
    → let out : Status × ProcCtx × TlvWriter = elim s [ fail ↦ x | ok ↦ y ] in IsTracked out.1
status_IsTracked fail x y h k = h
status_IsTracked ok x y h k = k

proc_push-IsTracked : (c : ProcCtx) (w : TlvWriter) → IsTracked c → IsTracked (proc_push c w).1
unfolding proc_push
proc_push-IsTracked c w v =
    let put = put_payload w tf_type_proc (proc_payload c.last_payload) in
    let threads = thread_push c.last_thread_payload c.thread_frame_warned put.1 in
    if_IsTracked c.disabled (ok, c, w) _ v
      (status_IsTracked put.0 (fail, c, put.1) _ v
        (if_IsTracked (is_off c.thread_mode) (ok, c, put.1) _ v (warned-IsTracked c threads.1 v)))

-- Collectors that are all allocated, within their bounds.
pub record IsCollecting (collectors : Collectors) : Type 0 where
  pub contexts : Contexts
  pub same : collectors ≡ allocated contexts
  pub bounded : IsBounded contexts

pub push_all-IsCollecting :
    (c : Contexts) (w : TlvWriter) → IsBounded c → IsCollecting (push_all (allocated c) w).1
unfolding push_all proc_push_api
push_all-IsCollecting c w v =
    let w1 = (cpu_push_api (some c.cpu) w).1 in
    let w2 = (mem_push_api (some c.mem) w1).1 in
    let w3 = (net_push_api (some c.net) w2).1 in
    let w4 = (disk_push_api (some c.disk) w3).1 in
    let w5 = (fs_push_api (some c.fs) w4).1 in
    record {
      contexts = record c { proc = (proc_push c.proc w5).1 };
      same = refl;
      bounded = record {
        cpu = v.cpu;
        mem = v.mem;
        net = v.net;
        disk = v.disk;
        fs = v.fs;
        proc = proc_push-IsTracked c.proc w5 v.proc;
      };
    }

-- The contexts of a fresh set-up.
abbrev pub fresh : AgentConfig → Contexts
fresh cfg = record {
  cpu = Cpu.zero_ctx;
  mem = Mem.zero_ctx;
  net = Net.zero_ctx;
  disk = Disk.zero_ctx;
  fs = Fs.zero_ctx;
  proc = started_ctx cfg;
}

pub init_all-fresh :
    (e : Setup) (cfg : AgentConfig) (c : Collectors)
    → ((init_all e cfg c).0 ≡ fail) ⊎ (init_all e cfg c ≡ (ok, allocated (fresh cfg)))
unfolding init_all cpu_init mem_init net_init disk_init fs_init proc_init
init_all-fresh e cfg c = ground arith

groups-lists : (ps : List (List ℕ)) → All IsList (watch_groups_of ps)
unfolding watch_groups_of
groups-lists [] = tt
groups-lists (p ∷ ps) = (omega arith, groups-lists ps)

started-IsTracked : (cfg : AgentConfig) → IsTracked (started_ctx cfg)
unfolding started_ctx
started-IsTracked cfg = record {
  history_size = length-replicate 64 free_prev;
  thread_size = length-replicate tf_thread_track free_thread;
  lists = groups-lists (take 32 cfg.proc_prefixes);
  group_count = omega arith;
  groups = tt;
  thread_count = omega arith;
  threads = tt;
}

pub fresh-IsBounded : (cfg : AgentConfig) → IsBounded (fresh cfg)
fresh-IsBounded cfg = record {
  cpu = record {
    user = omega arith;
    system = omega arith;
    idle = omega arith;
    iowait = omega arith;
    irq = omega arith;
  };
  mem = record {
    total = omega arith;
    free = omega arith;
    available = omega arith;
    load1 = omega arith;
    load5 = omega arith;
    load15 = omega arith;
  };
  net = Net.Collect.zero_ctx-IsBounded;
  disk = Disk.Bounds.zero_ctx-IsBounded;
  fs = Fs.Bounds.zero_ctx-IsBounded;
  proc = started-IsTracked cfg;
}
