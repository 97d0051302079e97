-- ===== src/Protocol.antt =====
-- server/tracefox_protocol.py: the parser of a TLV frame, as the forwarder uses it. A `bytes` object
-- is a list of numbers; a raised exception is an outcome of its own. A field that the source divides
-- by 10.0 or 100.0 is kept as the integer before the division, and its name says so.
pub mod Decode
pub mod Handlers
pub mod Frame
pub mod Segment
pub mod Entries
pub mod Branches
pub mod Total
use trace_fox.Base.{ℕ, Bool, Option, List}

pub data Outcome {ℓ} (A : Type ℓ) : Type ℓ where
  parsed : A → Outcome A
  raised : Outcome A
  -- No outcome of Python: a loop of the model ran out of fuel.
  stuck : Outcome A

infixl 5 ◌>>=◌
abbrev pub ◌>>=◌ {ℓ κ} : {A : Type ℓ} {B : Type κ} → Outcome A → (A → Outcome B) → Outcome B
parsed a >>= f = f a
raised >>= f = raised
stuck >>= f = stuck

pub record Cpu : Type 0 where
  pub user_x10 : ℕ
  pub system_x10 : ℕ
  pub idle_x10 : ℕ
  pub iowait_x10 : ℕ
  pub irq_x10 : ℕ

pub record Mem : Type 0 where
  pub total_kb : ℕ
  pub free_kb : ℕ
  pub avail_kb : ℕ
  pub used_kb : ℕ

pub record Load : Type 0 where
  pub load1_x100 : ℕ
  pub load5_x100 : ℕ
  pub load15_x100 : ℕ

pub record Iface : Type 0 where
  pub name : List ℕ
  pub rx_bytes : ℕ
  pub tx_bytes : ℕ

pub record Disk : Type 0 where
  pub name : List ℕ
  pub reads_completed : ℕ
  pub writes_completed : ℕ
  pub sectors_read : ℕ
  pub sectors_written : ℕ
  pub read_ms : ℕ
  pub write_ms : ℕ
  pub read_iops_delta : ℕ
  pub write_iops_delta : ℕ
  pub io_util_x10 : ℕ

-- `used_pct` is stored undivided by the source.
pub record Mount : Type 0 where
  pub mount : List ℕ
  pub total_kb : ℕ
  pub used_pct : ℕ

pub record ProcGroup : Type 0 where
  pub name : List ℕ
  pub inst_count : ℕ
  pub cpu_x10 : ℕ
  pub rss_kb_sum : ℕ

pub record TopThread : Type 0 where
  pub name : List ℕ
  pub inst_count : ℕ
  pub cpu_x10 : ℕ
  pub pid : ℕ
  pub tid : ℕ

pub record ThreadGroup : Type 0 where
  pub name : List ℕ
  pub total_threads : ℕ
  pub include_tid : Bool
  pub truncated : Bool
  -- The counts in the order of `TF_THREAD_STATES`.
  pub states : List ℕ
  pub top_threads : List TopThread

-- The dictionary `result`; a key that is missing is `none`.
pub record Result : Type 0 where
  pub magic : ℕ
  pub version : ℕ
  pub ts : ℕ
  pub seq : ℕ
  pub cpu : Option Cpu
  pub mem : Option Mem
  pub load : Option Load
  pub host_label : Option (List ℕ)
  pub net : Option (List Iface)
  pub disk : Option (List Disk)
  pub fs : Option (List Mount)
  pub proc_groups : Option (List ProcGroup)
  pub thread_groups : Option (List ThreadGroup)
