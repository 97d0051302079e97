-- ===== src/Disk.antt =====
-- agent/src/disk.c: the disk collector. The contents of /proc/diskstats and the reading of the
-- monotonic clock are arguments, `none` where the call fails. The configuration enters by its
-- `interval_sec`.
pub mod Collect
pub mod Bounds
pub mod Words
pub mod Slot
use trace_fox.Base.{
  ℕ, ◌+◌, ◌-◌, Bool, true, false, ◌||◌, Option, none, some, List, [], ◌∷◌, ◌==◌, if◌then◌else◌,
  Status, length, get_or, set, replicate,
}
use trace_fox.Base.CString.{c_str, strlen, str_eq, strn_eq, has_char, strncpy}
use trace_fox.Base.Stdio.{codes, isdigit, Value, num, text, Directive, unsigned, word, space, scanf}
use trace_fox.Collector.{calloc_ctx, free_ctx}

abbrev pub tf_max_disks : ℕ
tf_max_disks = 16

abbrev pub tf_disk_name_size : ℕ
tf_disk_name_size = 8

abbrev pub tf_disk_cache_name_len : ℕ
tf_disk_cache_name_len = 16

-- `struct disk_entry`
pub record DiskEntry : Type 0 where
  pub name : List ℕ
  pub reads_completed : ℕ
  pub writes_completed : ℕ
  pub sectors_read : ℕ
  pub sectors_written : ℕ
  pub read_ms : ℕ
  pub write_ms : ℕ
  pub read_iops_delta : ℕ
  pub write_iops_delta : ℕ
  pub io_util_pct_x10 : ℕ

-- `struct disk_cache`; the name is an array of sixteen bytes, and the first is NUL in a free slot.
pub record DiskCache : Type 0 where
  pub name : List ℕ
  pub reads : ℕ
  pub writes : ℕ
  pub sectors_read : ℕ
  pub sectors_written : ℕ
  pub read_ms : ℕ
  pub write_ms : ℕ
  pub io_ticks : ℕ

-- `struct timespec`
pub record Timespec : Type 0 where
  pub tv_sec : ℕ
  pub tv_nsec : ℕ

pub record DiskCtx : Type 0 where
  pub cache : List DiskCache
  pub entries : List DiskEntry
  pub count : ℕ
  pub truncated : Bool
  pub last_sample_time : Timespec
  pub sample_time_initialized : Bool

abbrev pub zero_entry : DiskEntry
zero_entry = record {
  name = replicate tf_disk_name_size 0;
  reads_completed = 0;
  writes_completed = 0;
  sectors_read = 0;
  sectors_written = 0;
  read_ms = 0;
  write_ms = 0;
  read_iops_delta = 0;
  write_iops_delta = 0;
  io_util_pct_x10 = 0;
}

abbrev pub zero_cache : DiskCache
zero_cache = record {
  name = replicate tf_disk_cache_name_len 0;
  reads = 0;
  writes = 0;
  sectors_read = 0;
  sectors_written = 0;
  read_ms = 0;
  write_ms = 0;
  io_ticks = 0;
}

abbrev pub zero_ctx : DiskCtx
zero_ctx = record {
  cache = replicate tf_max_disks zero_cache;
  entries = replicate tf_max_disks zero_entry;
  count = 0;
  truncated = false;
  last_sample_time = record { tv_sec = 0; tv_nsec = 0 };
  sample_time_initialized = false;
}

unfoldable pub disk_init : Bool → Option DiskCtx → Status × Option DiskCtx
unfolding calloc_ctx
disk_init allocated ctx = calloc_ctx allocated zero_ctx ctx

unfoldable pub disk_destroy : Option DiskCtx → Option DiskCtx
unfolding free_ctx
disk_destroy ctx = free_ctx ctx

-- `strncmp(name, prefix, strlen(prefix)) == 0` for a literal prefix.
has_prefix : List ℕ → List ℕ → Bool
unfolding strn_eq
has_prefix name prefix = strn_eq name prefix (length prefix)

last_is_digit : List ℕ → Bool
unfolding isdigit
last_is_digit [] = false
last_is_digit (c ∷ []) = isdigit c
last_is_digit (c ∷ d ∷ s) = last_is_digit (d ∷ s)

-- `is_partition_name`; a NULL name, which no caller passes, is left out.
unfoldable pub is_partition_name : List ℕ → Bool
unfolding has_prefix last_is_digit strlen has_char
is_partition_name name =
    if strlen name == 0
    then false
    else if has_prefix name (codes "loop")
        || has_prefix name (codes "ram")
        || has_prefix name (codes "dm-")
        || has_prefix name (codes "zram")
    then true
    else if has_prefix name (codes "nvme")
    then has_char name b'p'
    else if has_prefix name (codes "mmcblk")
    then has_char name b'p'
    else last_is_digit (c_str name)

-- The first slot, from index `i` on, whose name is `name`.
unfoldable pub find_name : List ℕ → ℕ → List DiskCache → Option ℕ
find_name name i [] = none
find_name name i (c ∷ cs) =
    let rest = find_name name (i + 1) cs in if str_eq c.name name then some i else rest

-- The first slot, from index `i` on, whose name begins with a NUL.
unfoldable pub find_free : ℕ → List DiskCache → Option ℕ
find_free i [] = none
find_free i (c ∷ cs) =
    let rest = find_free (i + 1) cs in if get_or c.name 0 0 == 0 then some i else rest

abbrev pub cache_at : List DiskCache → ℕ → DiskCache
cache_at cache i = get_or cache i zero_cache

-- `disk_cache_slot`: the index of the slot, and the cache with the name stored in a slot newly taken.
unfoldable pub disk_cache_slot : List DiskCache → List ℕ → Option (ℕ × List DiskCache)
disk_cache_slot cache name = elim (find_name name 0 cache) [
  | some i ↦ some (i, cache)
  | none ↦ elim (find_free 0 cache) [
    | none ↦ none
    | some i ↦
        let c = cache_at cache i in
        some (i, set cache i (record c { name = strncpy c.name name (tf_disk_cache_name_len - 1) }))
  ]
]

-- The fields of a line that the collector keeps.
pub record DiskLine : Type 0 where
  pub name : List ℕ
  pub rd_comp : ℕ
  pub rd_sect : ℕ
  pub rd_ticks : ℕ
  pub wr_comp : ℕ
  pub wr_sect : ℕ
  pub wr_ticks : ℕ
  pub io_ticks : ℕ

-- "%u %u %31s %llu %llu %llu %llu %llu %llu %llu %llu %llu %llu %llu"
abbrev pub disk_format : List Directive
disk_format =
    unsigned 32
    ∷ space
    ∷ unsigned 32
    ∷ space
    ∷ word 31
    ∷ space
    ∷ unsigned 64
    ∷ space
    ∷ unsigned 64
    ∷ space
    ∷ unsigned 64
    ∷ space
    ∷ unsigned 64
    ∷ space
    ∷ unsigned 64
    ∷ space
    ∷ unsigned 64
    ∷ space
    ∷ unsigned 64
    ∷ space
    ∷ unsigned 64
    ∷ space
    ∷ unsigned 64
    ∷ space
    ∷ unsigned 64
    ∷ space
    ∷ unsigned 64
    ∷ []

unfoldable pub disk_line_of : List Value → Option DiskLine
disk_line_of
      (num major
        ∷ num minor
        ∷ text name
        ∷ num rc
        ∷ num rm
        ∷ num rs
        ∷ num rt
        ∷ num wc
        ∷ num wm
        ∷ num ws
        ∷ num wt
        ∷ num ios
        ∷ num ticks
        ∷ num queue
        ∷ []) =
    some (record {
      name = name;
      rd_comp = rc;
      rd_sect = rs;
      rd_ticks = rt;
      wr_comp = wc;
      wr_sect = ws;
      wr_ticks = wt;
      io_ticks = ticks;
    })
disk_line_of _ = none

-- A line with fewer than fourteen fields is skipped, and so is a partition.
unfoldable pub disk_line : List ℕ → Option DiskLine
disk_line line = elim (disk_line_of (scanf disk_format (c_str line)).0) [
  | none ↦ none
  | some l ↦ if is_partition_name l.name then none else some l
]
