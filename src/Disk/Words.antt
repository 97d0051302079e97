-- ===== src/Disk/Words.antt =====
-- What disk.c keeps of the counters of /proc/diskstats.
use trace_fox.Base.{
  ℕ, inl, inr, Option, none, some, List, [], ◌∷◌, arith, ltb, Bool-cases, Option-cases, All,
  All-set, All-replicate, All-get,
}
use trace_fox.Base.Scan.{IfSome}
use trace_fox.Base.Stdio.{lines_of}
use trace_fox.Bytes.{IsU64}
use trace_fox.Disk.{
  zero_cache, zero_ctx, DiskCache, DiskCtx, Timespec, DiskLine, disk_line, disk_cache_slot,
  find_name, find_free, cache_at,
}
use trace_fox.Disk.Collect.{cache_of, Round, disk_round, disk_loop, disk_collect, elapsed_of}
use trace_fox.Disk.Bounds.{IsLine, disk_line-IsLine}

-- The counters of a slot of the cache.
pub record IsCounted (c : DiskCache) : Type 0 where
  pub reads : IsU64 c.reads
  pub writes : IsU64 c.writes
  pub sectors_read : IsU64 c.sectors_read
  pub sectors_written : IsU64 c.sectors_written
  pub read_ms : IsU64 c.read_ms
  pub write_ms : IsU64 c.write_ms
  pub io_ticks : IsU64 c.io_ticks

zero_cache-IsCounted : IsCounted zero_cache
zero_cache-IsCounted = record {
  reads = omega arith;
  writes = omega arith;
  sectors_read = omega arith;
  sectors_written = omega arith;
  read_ms = omega arith;
  write_ms = omega arith;
  io_ticks = omega arith;
}

cache_of-IsCounted : (l : DiskLine) (c : DiskCache) → IsLine l → IsCounted (cache_of l c)
unfolding cache_of
cache_of-IsCounted l c v = record {
  reads = v.rd_comp;
  writes = v.wr_comp;
  sectors_read = v.rd_sect;
  sectors_written = v.wr_sect;
  read_ms = v.rd_ticks;
  write_ms = v.wr_ticks;
  io_ticks = v.io_ticks;
}

named-IsCounted :
    (c : DiskCache) (name : List ℕ) → IsCounted c → IsCounted (record c { name = name })
named-IsCounted c name v = record {
  reads = v.reads;
  writes = v.writes;
  sectors_read = v.sectors_read;
  sectors_written = v.sectors_written;
  read_ms = v.read_ms;
  write_ms = v.write_ms;
  io_ticks = v.io_ticks;
}

disk_cache_slot-IsCounted :
    (cache : List DiskCache) (name : List ℕ)
    → All IsCounted cache
    → IfSome (λ r. All IsCounted r.1) (disk_cache_slot cache name)
unfolding disk_cache_slot
disk_cache_slot-IsCounted cache name v = elim (Option-cases (find_name name 0 cache)) [
  | inr (i, e) ↦ rw (e, disk_cache_slot) v
  | inl e ↦ elim (Option-cases (find_free 0 cache)) [
    | inl f ↦ rw (e, f, disk_cache_slot) tt
    | inr (i, f) ↦
        rw (e, f, disk_cache_slot)
          (All-set IsCounted cache i _ v (
            named-IsCounted (cache_at cache i) _
              (All-get IsCounted cache i zero_cache v zero_cache-IsCounted)))
  ]
]

disk_round-IsCounted :
    (elapsed : ℕ) (r : Round) (l : DiskLine)
    → All IsCounted r.cache
    → IsLine l
    → All IsCounted (disk_round elapsed r l).cache
unfolding disk_round
disk_round-IsCounted elapsed r l v fits = elim (Option-cases (disk_cache_slot r.cache l.name)) [
  | inl e ↦ rw (e, disk_round) v
  | inr ((i, cache), e) ↦
      let found : All IsCounted cache = rw e at (disk_cache_slot-IsCounted r.cache l.name v) in
      rw (e, disk_round)
        (All-set IsCounted cache i _ found (cache_of-IsCounted l (cache_at cache i) fits))
]

disk_loop-IsCounted :
    (elapsed : ℕ) (lines : List (List ℕ)) (r : Round)
    → All IsCounted r.cache
    → All IsCounted (disk_loop elapsed lines r).0.cache
unfolding disk_loop
disk_loop-IsCounted elapsed [] r v = v
disk_loop-IsCounted elapsed (line ∷ lines) r v = elim (Bool-cases (ltb r.idx 16)) [
  | inr full ↦ rw full v
  | inl room ↦ elim (Option-cases (disk_line line)) [
    | inl n ↦ rw (room, n) (disk_loop-IsCounted elapsed lines r v)
    | inr (l, n) ↦
        let fits : IsLine l = rw n at (disk_line-IsLine line) in
        rw (room, n)
          (disk_loop-IsCounted elapsed lines (disk_round elapsed r l)
            (disk_round-IsCounted elapsed r l v fits))
  ]
]

-- `disk_collect` keeps counters of 64 bits in its cache.
pub disk_collect-IsCounted :
    (ctx : DiskCtx) (sample_time : Option Timespec) (interval_sec : ℕ) (file : Option (List ℕ))
    → All IsCounted ctx.cache
    → All IsCounted (disk_collect ctx sample_time interval_sec file).1.cache
unfolding disk_collect
disk_collect-IsCounted ctx sample_time interval_sec none v = v
disk_collect-IsCounted ctx sample_time interval_sec (some file) v =
    disk_loop-IsCounted (elapsed_of ctx sample_time interval_sec) (lines_of 256 file)
      (record { cache = ctx.cache; entries = ctx.entries; idx = 0 }) v

pub zero_ctx-IsCounted : All IsCounted zero_ctx.cache
zero_ctx-IsCounted = All-replicate IsCounted 16 zero_cache zero_cache-IsCounted
