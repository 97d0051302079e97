-- ===== src/Tests/Samples.antt =====
-- Runs of the collectors on concrete files, and the claims about them at concrete inputs.
use trace_fox.Base.{
  ℕ, ◌+◌, ◌*◌, ◌%◌, ◌^◌, ◌≤◌, ◌<◌, ◌≡◌, refl, ◌≢◌, ◌⊎◌, Option, none, some, List, [], ◌∷◌, map,
  arith, ok, length, take, All, length-replicate, All-replicate,
}
use trace_fox.Base.Stdio.{codes, lines_of, scan_uint, scanf}
use trace_fox.Base.CString.{c_str, bytes_eq, name_field, length-name_field}
use trace_fox.Bytes.{from_be}
use trace_fox.Collector.Pushed.{sent}
use trace_fox.Net
use trace_fox.Net.{net_collect}
use trace_fox.Net.Reported.{view, visible, NotLoopback, net_collect-interfaces}
use trace_fox.Disk
use trace_fox.Disk.Collect.{disk_payload}
use trace_fox.Disk.Slot.{IsTaken, Takes, disk_cache_slot-again, disk_cache_slot-long}
use trace_fox.Fs
use trace_fox.Mem
use trace_fox.Protocol
use trace_fox.Protocol.{Result, parsed}
use trace_fox.Protocol.Decode.{slice, byte_at}
use trace_fox.Protocol.Frame.{handle_entry, parse_frame, empty_result}
use trace_fox.Protocol.Total.{parse_frame_total}
use trace_fox.RoundTrip.Cut.{disk_payload_cut, fs_payload_cut}
use trace_fox.Cpu
use trace_fox.Cpu.{CpuStat, read_stat, total_of, cpu_collect}
use trace_fox.Cpu.Share.{IsValid, Grows, sum_of_shares, cpu_collect-IsValid, cpu_collect_shares}
use trace_fox.Tests.{started, some_counters, some_cpu-IsCpu, some_mem, some_mem-IsMem, fresh, blank}
use trace_fox.Agent
use trace_fox.Agent.{Collectors, build_frame}
use trace_fox.Agent.Frame.Parts.{Contexts, allocated}
use trace_fox.Agent.Received.Expected.{received}
use trace_fox.Agent.Sample.{collect_system, sample_received}
use trace_fox.Agent.Sample.Words.{collect_system-IsWords}
use trace_fox.Tlv.{TlvWriter}
use trace_fox.Tlv.Put.{contents}
use trace_fox.Collector.{SampleContext}
use trace_fox.Tests.Sorting.{insertion_sort, insertion_sort-IsQsort}
use trace_fox.Tests.Watch.{small_fs, watching, watching-IsTracked, watching-IsWords}

abbrev proc_stat : List ℕ
proc_stat = codes "cpu 150 0 70 1900 15 2 4 0 0 0\n"

abbrev later_counters : CpuStat
later_counters = record {
  user = 150;
  nicev = 0;
  system = 70;
  idle = 1900;
  iowait = 15;
  irq = 2;
  softirq = 4;
}

started-IsValid : IsValid started
unfolding total_of
started-IsValid = record { total = refl; published = omega arith }

read_later : read_stat (some proc_stat) ≡ some later_counters
unfolding read_stat c_str
read_later = refl

counters-Grows : Grows some_counters later_counters
counters-Grows = record {
  user = omega arith;
  nicev = omega arith;
  system = omega arith;
  idle = omega arith;
  iowait = omega arith;
  irq = omega arith;
  softirq = omega arith;
}

cpu_collect_shares_example :
    let (status, st') = cpu_collect started (some proc_stat) in
    (status ≡ ok)
    × (st'.g_last_diff_total ≡ 983)
    × (sum_of_shares st' ≤ 1000)
    × (1000 < sum_of_shares st' + 5)
cpu_collect_shares_example =
    cpu_collect_shares started (some proc_stat) later_counters started-IsValid refl read_later
      counters-Grows (omega arith) (omega arith)

cpu_collect-IsValid_example : IsValid (cpu_collect started (some proc_stat)).1
cpu_collect-IsValid_example = cpu_collect-IsValid started (some proc_stat) started-IsValid

abbrev proc_net_dev : List ℕ
proc_net_dev =
    codes
      "Inter-|   Receive  |  Transmit\n face |bytes |bytes\n    lo: 9 1 0 0 0 0 0 0 9 1\n  eth0: 500 4 0 0 0 0 0 0 300 3\n"

abbrev title : List ℕ
title = codes "Inter-|   Receive  |  Transmit\n"

abbrev columns : List ℕ
columns = codes " face |bytes |bytes\n"

abbrev interface_lines : List (List ℕ)
interface_lines =
    codes "    lo: 9 1 0 0 0 0 0 0 9 1\n" ∷ codes "  eth0: 500 4 0 0 0 0 0 0 300 3\n" ∷ []

net_lines : lines_of 512 proc_net_dev ≡ title ∷ columns ∷ interface_lines
unfolding lines_of
net_lines = refl

visible_lines : visible interface_lines ≡ (codes "eth0", 500, 300) ∷ []
unfolding visible c_str scanf bytes_eq
visible_lines = refl

net_collect-interfaces_example :
    let (status, ctx') = net_collect Net.zero_ctx (some proc_net_dev) in
    let reported = map view (take ctx'.count ctx'.entries) in
    (status ≡ ok) × (reported ≡ take 4 (visible interface_lines)) × All NotLoopback reported
net_collect-interfaces_example =
    net_collect-interfaces Net.zero_ctx proc_net_dev title columns interface_lines
      Net.Collect.zero_ctx-IsBounded net_lines

abbrev proc_diskstats : List ℕ
proc_diskstats =
    codes " 8 0 sda 100 5 2000 40 50 3 900 30 0 60 70\n 8 1 sda1 90 5 1800 30 40 3 800 20 0 50 60\n"

zero_cache-IsSlot : Disk.Slot.IsSlot Disk.zero_cache
zero_cache-IsSlot = record { size = refl; ends = refl }

zero_slots : All Disk.Slot.IsSlot Disk.zero_ctx.cache
zero_slots = All-replicate Disk.Slot.IsSlot 16 Disk.zero_cache zero_cache-IsSlot

disk_cache_slot-again_example :
    (Disk.disk_cache_slot Disk.zero_ctx.cache (codes "sda") ≡ none)
    ⊎ ((i : ℕ) × (cache' : List Disk.DiskCache) × (Disk.disk_cache_slot Disk.zero_ctx.cache
            (codes "sda")
          ≡ some (i, cache'))
        × (Disk.disk_cache_slot cache' (codes "sda") ≡ some (i, cache')))
unfolding c_str
disk_cache_slot-again_example =
    disk_cache_slot-again Disk.zero_ctx.cache (codes "sda") zero_slots (omega arith)

disk_cache_slot-long_example :
    ((Disk.disk_cache_slot Disk.zero_ctx.cache (codes "a_device_with_name") ≡ none)
      × All IsTaken Disk.zero_ctx.cache)
    ⊎ ((i : ℕ) × (cache' : List Disk.DiskCache) × (Disk.disk_cache_slot Disk.zero_ctx.cache
            (codes "a_device_with_name")
          ≡ some (i, cache'))
        × Takes (codes "a_device_with_name") Disk.zero_ctx.cache i cache')
unfolding c_str
disk_cache_slot-long_example =
    disk_cache_slot-long Disk.zero_ctx.cache (codes "a_device_with_name") zero_slots (omega arith)

abbrev pub some_statvfs : List ℕ → Option Fs.Statvfs
some_statvfs mount = some (record { f_blocks = 1000; f_frsize = 4096; f_bavail = 400 })

abbrev proc_mounts : List ℕ
proc_mounts = codes "/dev/sda1 / ext4 rw 0 1\nproc /proc proc rw 0 0\n"

-- Natural numbers in place of doubles: the whole part, scaled.
abbrev pub whole : Mem.Double
whole = record {
  D = ℕ;
  zero_d = 0;
  scan = scan_uint;
  to_u16_scaled = λ x. x * 100 % 2 ^ 16;
  to_u16_scaled-lt = λ x. omega arith;
}

abbrev proc_meminfo : List ℕ
proc_meminfo = codes "MemTotal: 16000 kB\nMemFree: 4000 kB\nMemAvailable: 9000 kB\n"

abbrev five_disks : Disk.DiskCtx
five_disks = record Disk.zero_ctx { count = 5 }

abbrev eleven_mounts : Fs.FsCtx
eleven_mounts = record Fs.zero_ctx { count = 11 }

abbrev nothing : Result
nothing = empty_result 0x5446 2 0 0

disk_payload_cut_example :
    (ds : List Protocol.Disk) × (handle_entry 5 (sent (disk_payload five_disks)) nothing
      ≡ parsed (record nothing { disk = some ds }))
    × (length ds < 5)
disk_payload_cut_example =
    disk_payload_cut five_disks nothing (omega arith) (omega arith) (omega arith)

fs_payload_cut_example :
    (ms : List Protocol.Mount) × (handle_entry 6 (sent (Fs.fs_payload eleven_mounts)) nothing
      ≡ parsed (record nothing { fs = some ms }))
    × (length ms < 11)
fs_payload_cut_example =
    fs_payload_cut eleven_mounts nothing (omega arith) (omega arith) (omega arith)

abbrev noise : List ℕ
noise = 84 ∷ 70 ∷ 2 ∷ 0 ∷ 0 ∷ 0 ∷ 0 ∷ 1 ∷ 0 ∷ 0 ∷ 0 ∷ 2 ∷ 5 ∷ 9 ∷ 255 ∷ []

parse_frame_total_example :
    (((15 < 12) ⊎ ((from_be (slice noise 0 2) ≢ 0x5446) ⊎ (byte_at noise 2 ≢ parsed 2)))
      × (parse_frame noise ≡ parsed none))
    ⊎ ((12 ≤ 15)
        × (from_be (slice noise 0 2) ≡ 0x5446)
        × (byte_at noise 2 ≡ parsed 2)
        × (r : Result) × (parse_frame noise ≡ parsed (some r)))
parse_frame_total_example = parse_frame_total noise

abbrev pub at_start : Contexts
at_start = record {
  cpu = started.ctx;
  mem = some_mem;
  net = Net.zero_ctx;
  disk = Disk.zero_ctx;
  fs = Fs.zero_ctx;
  proc = watching;
}

pub at_start-IsBounded : Agent.Sample.Bounded.IsBounded at_start
at_start-IsBounded = record {
  cpu = some_cpu-IsCpu;
  mem = some_mem-IsMem;
  net = Net.Collect.zero_ctx-IsBounded;
  disk = Disk.Bounds.zero_ctx-IsBounded;
  fs = Fs.Bounds.zero_ctx-IsBounded;
  proc = watching-IsTracked;
}

abbrev pub some_system : Agent.Sample.System
some_system = record {
  stat = some proc_stat;
  meminfo = some proc_meminfo;
  loadavg = some (codes "1 2 3 1/100 4\n");
  net_dev = some proc_net_dev;
  clock = some (record { tv_sec = 5; tv_nsec = 0 });
  diskstats = some proc_diskstats;
  mounts = some proc_mounts;
  statvfs = some_statvfs;
  proc = small_fs;
}

abbrev one_tick : SampleContext
one_tick = record { cpu_total_diff = 1 }

some_counters-IsStat : Cpu.Words.IsStat some_counters
some_counters-IsStat = record {
  user = omega arith;
  nicev = omega arith;
  system = omega arith;
  idle = omega arith;
  iowait = omega arith;
  irq = omega arith;
  softirq = omega arith;
}

at_start-IsWords : Agent.Sample.Words.IsWords at_start
at_start-IsWords = record {
  cpu = record { total = omega arith; prev = some_counters-IsStat };
  disk = Disk.Words.zero_ctx-IsCounted;
  proc = watching-IsWords;
}

collect_system-IsWords_example :
    (next : Contexts) × (g' : ℕ) × (sctx' : SampleContext) × (collect_system whole insertion_sort
        some_system 5
        (allocated at_start)
        1
        one_tick
      ≡ some (allocated next, g', sctx'))
    × Agent.Sample.Bounded.IsBounded next
    × Agent.Sample.Words.IsWords next
collect_system-IsWords_example =
    collect_system-IsWords whole insertion_sort some_system 5 at_start 1 one_tick
      insertion_sort-IsQsort at_start-IsBounded at_start-IsWords

sample_received_example :
    (next : Contexts) × (g' : ℕ) × (sctx' : SampleContext) × (collect_system whole insertion_sort
        some_system 5
        (allocated at_start)
        1
        one_tick
      ≡ some (allocated next, g', sctx'))
    × (((3 < next.disk.count) ⊎ (9 < next.fs.count))
        ⊎ ((out : ℕ × Collectors × TlvWriter) × (build_frame fresh blank
                (name_field 64 (codes "web-1"))
                (allocated next)
                1700000000
                7
              ≡ some out)
            × (parse_frame (contents out.2)
                ≡ parsed (some (received (name_field 64 (codes "web-1")) next 1700000000 7)))))
sample_received_example =
    sample_received whole insertion_sort some_system 5 at_start 1 one_tick fresh blank
      (name_field 64 (codes "web-1")) 1700000000 7 insertion_sort-IsQsort at_start-IsBounded
      (omega (arith, length-replicate {A = ℕ} 1400 0)) (length-name_field 64 (codes "web-1"))
      (omega arith) (omega arith)
