-- ===== src/Disk/Collect.antt =====
-- agent/src/disk.c: `disk_collect` and `disk_push`.
use trace_fox.Base.{
  ℕ, ◌+◌, ◌-◌, ◌*◌, ◌/◌, ◌%◌, ◌^◌, Bool, true, ◌&&◌, ◌||◌, not, Option, none, some, List, [], ◌∷◌,
  ◌++◌, ltb, leb, ◌==◌, if◌then◌else◌, Status, ok, fail, length, set, take,
}
use trace_fox.Base.CString.{name_field}
use trace_fox.Base.Stdio.{lines_of}
use trace_fox.Bytes.{byte, buf_put_be_u16, buf_put_be_u32, buf_put_be_u64}
use trace_fox.Tlv.{TlvWriter}
use trace_fox.Collector.{with_ctx, put_payload}
use trace_fox.Cpu.{sub64, mul64}
use trace_fox.Disk.{
  tf_max_disks, tf_disk_name_size, DiskEntry, DiskCache, Timespec, DiskCtx, DiskLine, cache_at,
  disk_cache_slot, disk_line,
}

abbrev pub to_ns : Timespec → ℕ
to_ns t = t.tv_sec * 1000000000 + t.tv_nsec

-- `elapsed_ms`. The differences of the source are signed words of 64 bits, which hold them for all
-- times below 2 ^ 33 seconds; `elapsed_ns > 0` is that the clock has moved on.
unfoldable pub elapsed_of : DiskCtx → Option Timespec → ℕ → ℕ
elapsed_of ctx sample_time interval_sec =
    let by_interval : ℕ = if interval_sec == 0 then 1000 else interval_sec * 1000 in
    elim sample_time [
      | none ↦ by_interval
      | some now ↦
          let elapsed_ns : ℕ = to_ns now - to_ns ctx.last_sample_time in
          let elapsed_ms : ℕ = elapsed_ns / 1000000 in
          if ctx.sample_time_initialized && ltb 0 elapsed_ns
          then (if elapsed_ms == 0 then 1 else elapsed_ms)
          else by_interval
    ]

abbrev pub have_prev : DiskCache → Bool
have_prev slot =
    not (slot.reads == 0)
    || not (slot.writes == 0)
    || not (slot.sectors_read == 0)
    || not (slot.sectors_written == 0)
    || not (slot.io_ticks == 0)

-- Utilisation in tenths of a percent, cut off at `TF_PCT10_MAX`.
unfoldable pub util_of : ℕ → ℕ → ℕ
util_of diff_io_ticks elapsed_ms =
    if ltb 0 diff_io_ticks
    then (let pct10 = mul64 diff_io_ticks 1000 / elapsed_ms in
        if ltb 1000 pct10 then 1000 else pct10 % 2 ^ 16)
    else 0

unfoldable pub disk_entry_of : DiskLine → DiskCache → ℕ → DiskEntry
disk_entry_of l slot elapsed_ms = record {
  name = name_field tf_disk_name_size l.name;
  reads_completed = l.rd_comp;
  writes_completed = l.wr_comp;
  sectors_read = l.rd_sect;
  sectors_written = l.wr_sect;
  read_ms = l.rd_ticks;
  write_ms = l.wr_ticks;
  read_iops_delta = if have_prev slot then sub64 l.rd_comp slot.reads % 2 ^ 32 else 0;
  write_iops_delta = if have_prev slot then sub64 l.wr_comp slot.writes % 2 ^ 32 else 0;
  io_util_pct_x10 =
      if have_prev slot then util_of (sub64 l.io_ticks slot.io_ticks) elapsed_ms else 0;
}

unfoldable pub cache_of : DiskLine → DiskCache → DiskCache
cache_of l slot = record slot {
  reads = l.rd_comp;
  writes = l.wr_comp;
  sectors_read = l.rd_sect;
  sectors_written = l.wr_sect;
  read_ms = l.rd_ticks;
  write_ms = l.wr_ticks;
  io_ticks = l.io_ticks;
}

-- What one round changes: the cache, the array of entries, and `idx`.
pub record Round : Type 0 where
  pub cache : List DiskCache
  pub entries : List DiskEntry
  pub idx : ℕ

-- A round on a device that is kept: without a slot it changes nothing.
unfoldable pub disk_round : ℕ → Round → DiskLine → Round
disk_round elapsed_ms r l = elim (disk_cache_slot r.cache l.name) [
  | none ↦ r
  | some (i, cache) ↦ record {
    cache = set cache i (cache_of l (cache_at cache i));
    entries = set r.entries r.idx (disk_entry_of l (cache_at cache i) elapsed_ms);
    idx = r.idx + 1;
  }
]

-- The loop over the lines, and those that it has not read.
unfoldable pub disk_loop : ℕ → List (List ℕ) → Round → Round × List (List ℕ)
disk_loop elapsed_ms [] r = (r, [])
disk_loop elapsed_ms (line ∷ lines) r =
    let next = λ (r' : Round). disk_loop elapsed_ms lines r' in
    if ltb r.idx tf_max_disks
    then elim (disk_line line) [ none ↦ next r | some l ↦ next (disk_round elapsed_ms r l) ]
    else (r, line ∷ lines)

unfoldable pub disk_collect : DiskCtx → Option Timespec → ℕ → Option (List ℕ) → Status × DiskCtx
disk_collect ctx sample_time interval_sec none = (fail, record ctx { count = 0 })
disk_collect ctx sample_time interval_sec (some file) =
    let start : Round = record { cache = ctx.cache; entries = ctx.entries; idx = 0 } in
    let (r, left) = disk_loop (elapsed_of ctx sample_time interval_sec) (lines_of 256 file) start in
    let more : Bool = leb tf_max_disks r.idx && ltb 0 (length left) in
    (
      ok,
      record {
        cache = r.cache;
        entries = r.entries;
        count = r.idx;
        truncated = more || ctx.truncated;
        last_sample_time = elim sample_time [ none ↦ ctx.last_sample_time | some now ↦ now ];
        sample_time_initialized = elim sample_time [
          | none ↦ ctx.sample_time_initialized
          | some now ↦ true
        ];
      },
    )

abbrev pub tf_type_disk : ℕ
tf_type_disk = 0x05

unfoldable pub disk_entry_bytes : DiskEntry → List ℕ
unfolding buf_put_be_u16 buf_put_be_u32 buf_put_be_u64
disk_entry_bytes e =
    let c0 = name_field tf_disk_name_size e.name in
    let c1 = buf_put_be_u64 c0 e.reads_completed in
    let c2 = buf_put_be_u64 c1 e.writes_completed in
    let c3 = buf_put_be_u64 c2 e.sectors_read in
    let c4 = buf_put_be_u64 c3 e.sectors_written in
    let c5 = buf_put_be_u64 c4 e.read_ms in
    let c6 = buf_put_be_u64 c5 e.write_ms in
    let c7 = buf_put_be_u32 c6 e.read_iops_delta in
    let c8 = buf_put_be_u32 c7 e.write_iops_delta in buf_put_be_u16 c8 e.io_util_pct_x10

unfoldable pub disk_entries_bytes : List DiskEntry → List ℕ
disk_entries_bytes [] = []
disk_entries_bytes (e ∷ es) = disk_entry_bytes e ++ disk_entries_bytes es

unfoldable pub disk_payload : DiskCtx → List ℕ
disk_payload ctx = byte ctx.count ∷ disk_entries_bytes (take ctx.count ctx.entries)

unfoldable pub disk_push : DiskCtx → TlvWriter → Status × TlvWriter
disk_push ctx wrt =
    if ctx.count == 0 then (ok, wrt) else put_payload wrt tf_type_disk (disk_payload ctx)

unfoldable pub disk_collect_api :
    Option DiskCtx → Option Timespec → ℕ → Option (List ℕ) → Status × Option DiskCtx
unfolding with_ctx
disk_collect_api ctx sample_time interval_sec file =
    with_ctx (λ c. disk_collect c sample_time interval_sec file) ctx

unfoldable pub disk_push_api : Option DiskCtx → TlvWriter → Status × TlvWriter
disk_push_api none wrt = (fail, wrt)
disk_push_api (some ctx) wrt = disk_push ctx wrt
