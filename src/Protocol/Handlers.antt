-- ===== src/Protocol/Handlers.antt =====
-- The branches of `_parse_tlv_entries`: what one entry of each type stores in the result.
use trace_fox.Base.{
  ℕ, zero, suc, ◌+◌, ◌-◌, Bool, ◌&&◌, not, List, [], ◌∷◌, ◌++◌, ltb, leb, ◌==◌, if◌then◌else◌,
  length,
}
use Prim.Native.Nat.{bit_and}
use trace_fox.Bytes.{from_be}
use trace_fox.Protocol.{
  Outcome, parsed, raised, ◌>>=◌, Cpu, Mem, Load, Iface, Disk, Mount, ProcGroup, TopThread,
  ThreadGroup,
}
use trace_fox.Protocol.Decode.{slice, byte_at, unpack, single, name_of}

cpu_of : List ℕ → Outcome Cpu
cpu_of (user ∷ system ∷ idle ∷ iowait ∷ irq ∷ []) = parsed (record {
  user_x10 = user;
  system_x10 = system;
  idle_x10 = idle;
  iowait_x10 = iowait;
  irq_x10 = irq;
})
cpu_of _ = raised

unfoldable pub parse_cpu : List ℕ → Outcome Cpu
unfolding cpu_of
parse_cpu val = unpack (2 ∷ 2 ∷ 2 ∷ 2 ∷ 2 ∷ []) val >>= cpu_of

mem_of : List ℕ → Outcome (Mem × Load)
mem_of (total ∷ free ∷ avail ∷ l1 ∷ l5 ∷ l15 ∷ []) = parsed (
  record {
    total_kb = total;
    free_kb = free;
    avail_kb = avail;
    used_kb = if leb free total then total - free else 0;
  },
  record { load1_x100 = l1; load5_x100 = l5; load15_x100 = l15 },
)
mem_of _ = raised

unfoldable pub parse_mem : List ℕ → Outcome (Mem × Load)
unfolding mem_of
parse_mem val = unpack (4 ∷ 4 ∷ 4 ∷ 2 ∷ 2 ∷ 2 ∷ []) val >>= mem_of

-- `for _ in range(count)` of the interfaces, from position `p` of the value on.
unfoldable pub parse_net : ℕ → List ℕ → ℕ → List Iface
parse_net zero val p = []
parse_net (suc count) val p =
    let rest = parse_net count val (p + 24) in
    if ltb (length val) (p + 24)
    then []
    else record {
      name = name_of (slice val p (p + 8));
      rx_bytes = from_be (slice val (p + 8) (p + 16));
      tx_bytes = from_be (slice val (p + 16) (p + 24));
    }
      ∷ rest

disk_of : List ℕ → List ℕ → Outcome Disk
disk_of name (rc ∷ wc ∷ sr ∷ sw ∷ rm ∷ wm ∷ rd ∷ wd ∷ util ∷ []) = parsed (record {
  name = name;
  reads_completed = rc;
  writes_completed = wc;
  sectors_read = sr;
  sectors_written = sw;
  read_ms = rm;
  write_ms = wm;
  read_iops_delta = rd;
  write_iops_delta = wd;
  io_util_x10 = util;
})
disk_of _ _ = raised

-- The current layout of an entry: 66 bytes, with counters of eight bytes.
unfoldable pub disk_wide : List ℕ → ℕ → Outcome Disk
unfolding disk_of
disk_wide val p = do
  cum ← unpack (8 ∷ 8 ∷ 8 ∷ 8 ∷ 8 ∷ 8 ∷ []) (slice val (p + 8) (p + 56))
  delta ← unpack (4 ∷ 4 ∷ []) (slice val (p + 56) (p + 64))
  util ← unpack (2 ∷ []) (slice val (p + 64) (p + 66))
  disk_of (name_of (slice val p (p + 8))) (cum ++ (delta ++ util))

-- The former layout: 42 bytes, with counters of four bytes.
unfoldable pub disk_narrow : List ℕ → ℕ → Outcome Disk
unfolding disk_of
disk_narrow val p = do
  counters ← unpack (4 ∷ 4 ∷ 4 ∷ 4 ∷ 4 ∷ 4 ∷ 4 ∷ 4 ∷ []) (slice val (p + 8) (p + 40))
  util ← unpack (2 ∷ []) (slice val (p + 40) (p + 42))
  disk_of (name_of (slice val p (p + 8))) (counters ++ util)

unfoldable pub parse_disk : ℕ → ℕ → List ℕ → ℕ → Outcome (List Disk)
parse_disk zero entry_size val p = parsed []
parse_disk (suc count) entry_size val p =
    let after_wide = parse_disk count entry_size val (p + 66) in
    let after_narrow = parse_disk count entry_size val (p + 42) in
    if leb 66 entry_size && leb (p + 66) (length val)
    then (do d ← disk_wide val p; ds ← after_wide; parsed (d ∷ ds))
    else if leb (p + 42) (length val)
    then (do d ← disk_narrow val p; ds ← after_narrow; parsed (d ∷ ds))
    else parsed []

unfoldable pub mount_wide : List ℕ → ℕ → Outcome Mount
mount_wide val p = do
  total ← unpack (8 ∷ []) (slice val (p + 16) (p + 24)) >>= single
  used ← unpack (2 ∷ []) (slice val (p + 24) (p + 26)) >>= single
  parsed (record { mount = name_of (slice val p (p + 16)); total_kb = total; used_pct = used })

unfoldable pub mount_narrow : List ℕ → ℕ → Outcome Mount
mount_narrow val p = do
  total ← unpack (4 ∷ []) (slice val (p + 16) (p + 20)) >>= single
  used ← unpack (2 ∷ []) (slice val (p + 20) (p + 22)) >>= single
  parsed (record { mount = name_of (slice val p (p + 16)); total_kb = total; used_pct = used })

unfoldable pub parse_fs : ℕ → ℕ → List ℕ → ℕ → Outcome (List Mount)
parse_fs zero entry_size val p = parsed []
parse_fs (suc count) entry_size val p =
    let after_wide = parse_fs count entry_size val (p + 26) in
    let after_narrow = parse_fs count entry_size val (p + 22) in
    if leb 26 entry_size && leb (p + 26) (length val)
    then (do m ← mount_wide val p; ms ← after_wide; parsed (m ∷ ms))
    else if leb (p + 22) (length val)
    then (do m ← mount_narrow val p; ms ← after_narrow; parsed (m ∷ ms))
    else parsed []

group_of : List ℕ → List ℕ → ℕ → Outcome ProcGroup
group_of name (inst ∷ cpu ∷ []) rss =
    parsed (record { name = name; inst_count = inst; cpu_x10 = cpu; rss_kb_sum = rss })
group_of _ _ _ = raised

unfoldable pub proc_group : List ℕ → ℕ → Outcome ProcGroup
unfolding group_of
proc_group val p = do
  counts ← unpack (2 ∷ 2 ∷ []) (slice val (p + 16) (p + 20))
  rss ← unpack (4 ∷ []) (slice val (p + 20) (p + 24)) >>= single
  group_of (name_of (slice val p (p + 16))) counts rss

unfoldable pub parse_proc : ℕ → List ℕ → ℕ → Outcome (List ProcGroup)
parse_proc zero val p = parsed []
parse_proc (suc count) val p =
    let after = parse_proc count val (p + 24) in
    if ltb (length val) (p + 24)
    then parsed []
    else (do g ← proc_group val p; gs ← after; parsed (g ∷ gs))

top_of : List ℕ → List ℕ → Outcome TopThread
top_of name (inst ∷ cpu ∷ pid ∷ tid ∷ []) =
    parsed (record { name = name; inst_count = inst; cpu_x10 = cpu; pid = pid; tid = tid })
top_of _ _ = raised

unfoldable pub top_thread : List ℕ → ℕ → Outcome TopThread
unfolding top_of
top_thread val p = do
  counts ← unpack (2 ∷ 2 ∷ []) (slice val (p + 16) (p + 20))
  ids ← unpack (4 ∷ 4 ∷ []) (slice val (p + 20) (p + 28))
  top_of (name_of (slice val p (p + 16))) (counts ++ ids)

unfoldable pub parse_top : ℕ → List ℕ → ℕ → Outcome (List TopThread)
parse_top zero val p = parsed []
parse_top (suc count) val p =
    let after = parse_top count val (p + 28) in
    if ltb (length val) (p + 28)
    then parsed []
    else (do t ← top_thread val p; ts ← after; parsed (t ∷ ts))

-- `for state_name in TF_THREAD_STATES`, for the number of names left.
unfoldable pub parse_states : ℕ → List ℕ → ℕ → Outcome (List ℕ)
parse_states zero val p = parsed []
parse_states (suc n) val p =
    let after = parse_states n val (p + 2) in
    do c ← unpack (2 ∷ []) (slice val p (p + 2)) >>= single; cs ← after; parsed (c ∷ cs)

-- `bool(flags & mask)`
abbrev pub has_flag : ℕ → ℕ → Bool
has_flag flags mask = not (bit_and flags mask == 0)

unfoldable pub parse_thread : List ℕ → Outcome ThreadGroup
parse_thread val = do
  total ← unpack (2 ∷ []) (slice val 16 18) >>= single
  flags ← byte_at val 18
  states ← parse_states 7 val 19
  top_count ← byte_at val 33
  top ← parse_top top_count val 34
  parsed (record {
    name = name_of (slice val 0 16);
    total_threads = total;
    include_tid = has_flag flags 0x01;
    truncated = has_flag flags 0x02;
    states = states;
    top_threads = top;
  })
