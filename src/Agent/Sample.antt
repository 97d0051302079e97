-- ===== src/Agent/Sample.antt =====
-- The collect loop of agent/src/main.c, and what the server recovers from the sample.
pub mod Bounded
pub mod Words
use trace_fox.Base.{
  ℕ, ◌≤◌, ◌<◌, ◌≡◌, refl, ◌⊎◌, inl, inr, Option, none, some, List, [], ◌∷◌, arith, lt-or-le, length,
  All, All-take,
}
use trace_fox.Bytes.{IsU32}
use trace_fox.Tlv.{TlvWriter}
use trace_fox.Tlv.Put.{contents}
use trace_fox.Collector.{SampleContext, with_ctx}
use trace_fox.Cpu.{cpu_collect, cpu_collect_api}
use trace_fox.Mem.{Double, mem_collect_api}
use trace_fox.Mem.Collect.{mem_collect-IsMem}
use trace_fox.Net.{net_collect, net_collect_api}
use trace_fox.Net
use trace_fox.Net.Collect.{net_collect-IsBounded}
use trace_fox.Disk.{Timespec}
use trace_fox.Disk.Collect.{disk_collect, disk_collect_api}
use trace_fox.Disk
use trace_fox.Disk.Bounds.{disk_collect-IsBounded}
use trace_fox.Fs.{Statvfs, fs_collect_api}
use trace_fox.Fs
use trace_fox.Fs.Bounds.{fs_collect-IsBounded}
use trace_fox.RoundTrip
use trace_fox.Protocol.{parsed}
use trace_fox.Protocol.Frame.{parse_frame}
use trace_fox.Proc.Scan.{ProcFs}
use trace_fox.Proc.Group.{Qsort}
use trace_fox.Proc.Group.Top.{IsQsort}
use trace_fox.Proc.Group.Stored.{IsStored}
use trace_fox.Proc.Collect.{proc_collect_api}
use trace_fox.Proc.Collect.Bounds.{proc_collect-IsTracked}
use trace_fox.Agent.{Collectors, build_frame}
use trace_fox.Agent.Frame.Parts.{Contexts, IsReady, allocated}
use trace_fox.Agent.Received.{InBounds, frame_received}
use trace_fox.Agent.Received.Expected.{received}
use trace_fox.Agent.Sample.Bounded.{
  IsBounded, cpu_collect-IsCpu, cpu_collect_api-some, mem_api, fs_api, proc_api, retimed-IsTracked,
}

-- What the collectors read: the files, `none` where one cannot be opened, the monotonic clock,
-- what `statvfs` answers, and what the process collector finds under /proc.
pub record System : Type 0 where
  pub stat : Option (List ℕ)
  pub meminfo : Option (List ℕ)
  pub loadavg : Option (List ℕ)
  pub net_dev : Option (List ℕ)
  pub clock : Option Timespec
  pub diskstats : Option (List ℕ)
  pub mounts : Option (List ℕ)
  pub statvfs : List ℕ → Option Statvfs
  pub proc : ProcFs

module _ (double : Double) (qsort : Qsort) where
  -- The calls of `collect` in the order of the list; a failure is only logged. `none` is that a loop ran out of fuel.
  unfoldable pub collect_system :
      System → ℕ → Collectors → ℕ → SampleContext → Option (Collectors × ℕ × SampleContext)
  collect_system s interval_sec c g sctx =
      let cpu = cpu_collect_api c.cpu g s.stat sctx in
      let net = net_collect_api c.net s.net_dev in
      let disk = disk_collect_api c.disk s.clock interval_sec s.diskstats in
      elim (mem_collect_api double c.mem s.meminfo s.loadavg) [
        | none ↦ none
        | some (mem_status, mem) ↦ elim (fs_collect_api s.statvfs c.fs s.mounts) [
          | none ↦ none
          | some (fs_status, fs) ↦ elim (proc_collect_api qsort s.proc c.proc cpu.3) [
            | none ↦ none
            | some (proc_status, proc) ↦ some (
              record { cpu = cpu.1; mem = mem; net = net.1; disk = disk.1; fs = fs; proc = proc },
              cpu.2,
              cpu.3,
            )
          ]
        ]
      ]

-- What a sample makes of contexts within their bounds.
pub record Collected (out : Option (Collectors × ℕ × SampleContext)) : Type 0 where
  pub next : Contexts
  pub g_last_diff_total : ℕ
  pub sctx : SampleContext
  pub collected : out ≡ some (allocated next, g_last_diff_total, sctx)
  pub bounded : IsBounded next

module _ (double : Double) (qsort : Qsort) where
  -- From contexts whose arrays and payloads are within their bounds, with a sorting function that does what the C library
  -- says of `qsort`: the loop over the collectors ends, and the contexts are again such ones.
  pub collect_system-Collected :
      (s : System) (interval_sec : ℕ) (c : Contexts) (g : ℕ) (sctx : SampleContext)
      → IsQsort qsort
      → IsBounded c
      → Collected (collect_system double qsort s interval_sec (allocated c) g sctx)
  unfolding collect_system net_collect_api disk_collect_api with_ctx
  collect_system-Collected s interval_sec c g sctx q v =
      let cpu = (cpu_collect (record { ctx = c.cpu; g_last_diff_total = g }) s.stat).1.ctx in
      let cpu_same = cpu_collect_api-some c.cpu g s.stat sctx in
      let (mem, mem_same, mem_fits) = mem_collect-IsMem double c.mem s.meminfo s.loadavg v.mem in
      let (fs, fs_same, fs_fits) = fs_collect-IsBounded s.statvfs c.fs s.mounts v.fs in
      let sctx' = (cpu_collect_api (some c.cpu) g s.stat sctx).3 in
      let timed = record c.proc { cpu_total_diff = sctx'.cpu_total_diff } in
      let (proc, proc_same, proc_fits) =
        proc_collect-IsTracked qsort s.proc timed q
          (retimed-IsTracked c.proc sctx'.cpu_total_diff v.proc) in
      record {
        next = record {
          cpu = cpu;
          mem = mem.1;
          net = (net_collect c.net s.net_dev).1;
          disk = (disk_collect c.disk s.clock interval_sec s.diskstats).1;
          fs = fs.1;
          proc = proc;
        };
        g_last_diff_total = (cpu_collect_api (some c.cpu) g s.stat sctx).2;
        sctx = sctx';
        collected =
            rw
              (
                mem_api double c.mem s.meminfo s.loadavg mem mem_same,
                fs_api s.statvfs c.fs s.mounts fs fs_same,
                proc_api qsort s.proc c.proc sctx' proc proc_same,
                cpu_same,
                collect_system,
              )
              refl;
        bounded = record {
          cpu = cpu_collect-IsCpu (record { ctx = c.cpu; g_last_diff_total = g }) s.stat;
          mem = mem_fits;
          net = net_collect-IsBounded c.net s.net_dev v.net;
          disk = disk_collect-IsBounded c.disk s.clock interval_sec s.diskstats v.disk;
          fs = fs_fits;
          proc = proc_fits;
        };
      }

All-map :
    {A : Type 0} (P Q : A → Type 0) → ((a : A) → P a → Q a) → (xs : List A) → All P xs → All Q xs
All-map P Q f [] h = tt
All-map P Q f (x ∷ xs) (p, h) = (f x p, All-map P Q f xs h)

pub IsBounded-IsReady : (c : Contexts) → IsBounded c → IsReady c
IsBounded-IsReady c v = record {
  proc_count = v.proc.group_count;
  groups = v.proc.groups;
  threads =
      All-map IsStored RoundTrip.Threads.IsGroup (λ g h. h.fits) c.proc.last_thread_payload
        v.proc.threads;
}

-- Contexts within their bounds, with few enough disks and file systems for the bytes that carry the lengths.
IsBounded-InBounds : (c : Contexts) → IsBounded c → c.disk.count ≤ 3 → c.fs.count ≤ 9 → InBounds c
IsBounded-InBounds c v disks mounts = record {
  ready = IsBounded-IsReady c v;
  cpu = v.cpu;
  mem = v.mem;
  net = record {
    count_in = v.net.count_in;
    stored = omega (arith, v.net.size, v.net.count_in);
    entries = All-take RoundTrip.Net.IsEntry c.net.count c.net.entries (
        All-map Net.Collect.IsStored RoundTrip.Net.IsEntry (λ e h. (h.rx, h.tx)) c.net.entries
          v.net.stored);
  };
  disk_count = disks;
  disk_stored = omega (arith, v.disk.size);
  disks = All-take RoundTrip.Disk.IsEntry c.disk.count c.disk.entries (
      All-map Disk.Bounds.IsStored RoundTrip.Disk.IsEntry (λ e h. h.fits) c.disk.entries
        v.disk.stored);
  fs_count = mounts;
  fs_stored = omega (arith, v.fs.size);
  mounts =
      All-take RoundTrip.Fs.IsEntry c.fs.count c.fs.entries
        (All-map Fs.Bounds.IsStored RoundTrip.Fs.IsEntry (λ e h. h.fits) c.fs.entries v.fs.stored);
}

module _ (double : Double) (qsort : Qsort) where
  -- From contexts within their bounds, with a sorting function that does what the C library says of `qsort`, a buffer of
  -- at least 1400 bytes, a label in an array of 64 bytes, and 32-bit numbers for the time and the frame: the collectors
  -- always end a sample, whatever the files hold and the clock says. If the sample has at most three disks and nine file systems, the frame is then built, and the server's parser
  -- recovers from its bytes the time, the number, the label and the view of what every collector has stored.
  pub sample_received :
      (s : System) (interval_sec : ℕ) (c : Contexts) (g : ℕ) (sctx : SampleContext)
      (writer : TlvWriter) (buffer label : List ℕ) (timestamp seq : ℕ)
      → IsQsort qsort
      → IsBounded c
      → 1400 ≤ length buffer
      → length label ≡ 64
      → IsU32 timestamp
      → IsU32 seq
      → (next : Contexts) × (g' : ℕ) × (sctx' : SampleContext) × (collect_system double qsort s
            interval_sec
            (allocated c)
            g
            sctx
          ≡ some (allocated next, g', sctx'))
        × (((3 < next.disk.count) ⊎ (9 < next.fs.count))
            ⊎ ((out : ℕ × Collectors × TlvWriter) × (build_frame writer buffer label
                    (allocated next)
                    timestamp
                    seq
                  ≡ some out)
                × (parse_frame (contents out.2)
                    ≡ parsed (some (received label next timestamp seq)))))
  sample_received s interval_sec c g sctx writer buffer label timestamp seq q v size label_size time
        number =
      let h = collect_system-Collected double qsort s interval_sec c g sctx q v in
      (
        h.next,
        h.g_last_diff_total,
        h.sctx,
        h.collected,
        elim (lt-or-le 3 h.next.disk.count) [
          | inl many ↦ inl (inl many)
          | inr disks ↦ elim (lt-or-le 9 h.next.fs.count) [
            | inl many ↦ inl (inr many)
            | inr mounts ↦ inr (
                frame_received writer buffer label h.next timestamp seq size label_size time number
                  (IsBounded-InBounds h.next h.bounded disks mounts))
          ]
        ],
      )
