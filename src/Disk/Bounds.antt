-- ===== src/Disk/Bounds.antt =====
-- The bounds of what disk.c stores, for every /proc/diskstats and every clock.
use trace_fox.Base.CString.{c_str}
use trace_fox.Base.{
  ℕ, ◌≤◌, ◌<◌, ◌≡◌, refl, inl, inr, Option, none, some, List, [], ◌∷◌, arith, ltb, if◌then◌else◌,
  ltb→lt, Bool-cases, Option-cases, length, All, length-set, All-set, All-replicate,
}
use trace_fox.Base.Stdio.{Value, num, text, scanf, lines_of}
use trace_fox.Base.Scan.{IsWord, IfSome, scanf_lem}
use trace_fox.Bytes.{IsU32, IsU64}
use trace_fox.Cpu.{sub64}
use trace_fox.Disk.{
  zero_ctx, zero_entry, DiskEntry, DiskCache, DiskCtx, Timespec, DiskLine, disk_format,
  disk_line_of, disk_line, is_partition_name, disk_cache_slot, find_name, find_free, cache_at,
}
use trace_fox.Disk.Collect.{
  util_of, have_prev, disk_entry_of, cache_of, Round, disk_round, disk_loop, disk_collect,
  elapsed_of,
}
use trace_fox.RoundTrip

-- The fields fit their words, and the utilisation is at most 100 percent.
pub record IsStored (e : DiskEntry) : Type 0 where
  pub fits : RoundTrip.Disk.IsEntry e
  pub util : e.io_util_pct_x10 ≤ 1000

pub record IsBounded (ctx : DiskCtx) : Type 0 where
  pub cache_size : length ctx.cache ≡ 16
  pub size : length ctx.entries ≡ 16
  pub count_in : ctx.count ≤ 16
  pub stored : All IsStored ctx.entries

pub record IsLine (l : DiskLine) : Type 0 where
  pub rd_comp : IsU64 l.rd_comp
  pub rd_sect : IsU64 l.rd_sect
  pub rd_ticks : IsU64 l.rd_ticks
  pub wr_comp : IsU64 l.wr_comp
  pub wr_sect : IsU64 l.wr_sect
  pub wr_ticks : IsU64 l.wr_ticks
  pub io_ticks : IsU64 l.io_ticks

disk_line_of-IsLine : (vs : List Value) → All IsWord vs → IfSome IsLine (disk_line_of vs)
unfolding disk_line_of
disk_line_of-IsLine
      (num a
        ∷ num b
        ∷ text name
        ∷ num rc
        ∷ num rm
        ∷ num rs
        ∷ num rt
        ∷ num wc
        ∷ num wm
        ∷ num ws
        ∷ num wt
        ∷ num ios
        ∷ num ticks
        ∷ num queue
        ∷ [])
      h =
    let (h1, (h2, (h3, (h4, (h5, (h6, (h7, (h8, (h9, (h10, (h11, (h12, (h13, rest))))))))))))) =
      h in
    record {
      rd_comp = h4;
      rd_sect = h6;
      rd_ticks = h7;
      wr_comp = h8;
      wr_sect = h10;
      wr_ticks = h11;
      io_ticks = h13;
    }
disk_line_of-IsLine _ h = tt

pub disk_line-IsLine : (line : List ℕ) → IfSome IsLine (disk_line line)
unfolding disk_line
disk_line-IsLine line =
    go (disk_line_of (scanf disk_format (c_str line)).0) (
      disk_line_of-IsLine (scanf disk_format (c_str line)).0 (scanf_lem disk_format (c_str line)).0)
  where
    go :
        (m : Option DiskLine)
        → IfSome IsLine m
        → IfSome IsLine
            (elim m [ none ↦ none | some l ↦ if is_partition_name l.name then none else some l ])
    go none h = tt
    go (some l) h = elim (Bool-cases (is_partition_name l.name)) [
      | inl e ↦ rw e tt
      | inr e ↦ rw e h
    ]

util_of-le : (diff elapsed : ℕ) → util_of diff elapsed ≤ 1000
unfolding util_of
util_of-le diff elapsed = ground arith

-- The entry for a line with these deltas and this utilisation.
IsStored-entry :
    (l : DiskLine) (name : List ℕ) (reads writes util : ℕ)
    → IsLine l
    → IsU32 reads
    → IsU32 writes
    → util ≤ 1000
    → IsStored (record {
      name = name;
      reads_completed = l.rd_comp;
      writes_completed = l.wr_comp;
      sectors_read = l.rd_sect;
      sectors_written = l.wr_sect;
      read_ms = l.rd_ticks;
      write_ms = l.wr_ticks;
      read_iops_delta = reads;
      write_iops_delta = writes;
      io_util_pct_x10 = util;
    })
IsStored-entry l name reads writes util v r w u = record {
  fits = record {
    reads = v.rd_comp;
    writes = v.wr_comp;
    sectors_read = v.rd_sect;
    sectors_written = v.wr_sect;
    read_ms = v.rd_ticks;
    write_ms = v.wr_ticks;
    read_delta = r;
    write_delta = w;
    util = omega arith;
  };
  util = u;
}

disk_entry_of-IsStored :
    (l : DiskLine) (slot : DiskCache) (elapsed : ℕ)
    → IsLine l
    → IsStored (disk_entry_of l slot elapsed)
unfolding disk_entry_of
disk_entry_of-IsStored l slot elapsed v =
    let u = util_of-le (sub64 l.io_ticks slot.io_ticks) elapsed in
    elim (Bool-cases (have_prev slot)) [
      | inl e ↦ rw e (IsStored-entry l _ _ _ _ v (omega arith) (omega arith) u)
      | inr e ↦ rw e (IsStored-entry l _ _ _ _ v (omega arith) (omega arith) (omega arith))
    ]

-- A slot lies in the cache, whose size stays.
disk_cache_slot-size :
    (cache : List DiskCache) (name : List ℕ)
    → IfSome (λ r. length r.1 ≡ length cache) (disk_cache_slot cache name)
unfolding disk_cache_slot
disk_cache_slot-size cache name = elim (Option-cases (find_name name 0 cache)) [
  | inr (i, e) ↦ rw (e, disk_cache_slot) refl
  | inl e ↦ elim (Option-cases (find_free 0 cache)) [
    | inr (i, f) ↦ rw (e, f, disk_cache_slot) (length-set cache i _)
    | inl f ↦ rw (e, f, disk_cache_slot) tt
  ]
]

record IsRound (r : Round) : Type 0 where
  pub cache_size : length r.cache ≡ 16
  pub size : length r.entries ≡ 16
  pub idx_in : r.idx ≤ 16
  pub stored : All IsStored r.entries

disk_round-IsRound :
    (elapsed : ℕ) (r : Round) (l : DiskLine)
    → IsRound r
    → r.idx < 16
    → IsLine l
    → IsRound (disk_round elapsed r l)
unfolding disk_round
disk_round-IsRound elapsed r l v room fits = elim (Option-cases (disk_cache_slot r.cache l.name)) [
  | inl e ↦ rw (e, disk_round) v
  | inr ((i, cache), e) ↦
      let same : length cache ≡ length r.cache = rw e at (disk_cache_slot-size r.cache l.name) in
      let entry = disk_entry_of l (cache_at cache i) elapsed in
      rw (e, disk_round)
        (record {
          cache_size =
              omega (arith, v.cache_size, length-set cache i (cache_of l (cache_at cache i)));
          size = omega (arith, v.size, length-set r.entries r.idx entry);
          idx_in = omega arith;
          stored =
              All-set IsStored r.entries r.idx entry v.stored
                (disk_entry_of-IsStored l (cache_at cache i) elapsed fits);
        })
]

disk_loop-IsRound :
    (elapsed : ℕ) (lines : List (List ℕ)) (r : Round)
    → IsRound r
    → IsRound (disk_loop elapsed lines r).0
unfolding disk_loop
disk_loop-IsRound elapsed [] r v = v
disk_loop-IsRound elapsed (line ∷ lines) r v = elim (Bool-cases (ltb r.idx 16)) [
  | inr full ↦ rw full v
  | inl room ↦ elim (Option-cases (disk_line line)) [
    | inl n ↦ rw (room, n) (disk_loop-IsRound elapsed lines r v)
    | inr (l, n) ↦
        let fits : IsLine l = rw n at (disk_line-IsLine line) in
        let next = disk_round-IsRound elapsed r l v (ltb→lt r.idx 16 room) fits in
        rw (room, n) (disk_loop-IsRound elapsed lines (disk_round elapsed r l) next)
  ]
]

-- Whatever /proc/diskstats holds, also if it cannot be opened, and whatever the clock says, `disk_collect` keeps
-- sixteen entries and sixteen slots in its arrays, at most sixteen entries in use, each with counters that
-- fit their words and a utilisation of at most 1000 tenths of a percent.
pub disk_collect-IsBounded :
    (ctx : DiskCtx) (sample_time : Option Timespec) (interval_sec : ℕ) (file : Option (List ℕ))
    → IsBounded ctx
    → IsBounded (disk_collect ctx sample_time interval_sec file).1
unfolding disk_collect
disk_collect-IsBounded ctx sample_time interval_sec none v = record {
  cache_size = v.cache_size;
  size = v.size;
  count_in = omega arith;
  stored = v.stored;
}
disk_collect-IsBounded ctx sample_time interval_sec (some file) v =
    let start : Round = record { cache = ctx.cache; entries = ctx.entries; idx = 0 } in
    let h =
      disk_loop-IsRound (elapsed_of ctx sample_time interval_sec) (lines_of 256 file) start
        (record {
          cache_size = v.cache_size;
          size = v.size;
          idx_in = omega arith;
          stored = v.stored;
        }) in
    record { cache_size = h.cache_size; size = h.size; count_in = h.idx_in; stored = h.stored }

pub zero_ctx-IsBounded : IsBounded zero_ctx
zero_ctx-IsBounded = record {
  cache_size = refl;
  size = refl;
  count_in = omega arith;
  stored = All-replicate IsStored 16 zero_entry (record {
    fits = record {
      reads = omega arith;
      writes = omega arith;
      sectors_read = omega arith;
      sectors_written = omega arith;
      read_ms = omega arith;
      write_ms = omega arith;
      read_delta = omega arith;
      write_delta = omega arith;
      util = omega arith;
    };
    util = omega arith;
  });
}
