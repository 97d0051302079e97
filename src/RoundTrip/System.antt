-- ===== src/RoundTrip/System.antt =====
-- agent/src/cpu.c and agent/src/mem.c against the branches `TF_TYPE_CPU` and `TF_TYPE_MEM`.
use trace_fox.Base.{ℕ, ◌-◌, ◌≡◌, some, arith, leb, if◌then◌else◌}
use trace_fox.Bytes.{IsU16, IsU32, from_be-be16, from_be-be32}
use trace_fox.Cpu.{CpuPayload, cpu_payload_bytes}
use trace_fox.Mem.{MemCtx, mem_payload_bytes}
use trace_fox.Protocol.{Cpu, Mem, Load, parsed, Result}
use trace_fox.Protocol.Decode.{unpack, fields}
use trace_fox.Protocol.Handlers.{parse_cpu, parse_mem}
use trace_fox.Protocol.Frame.{handle_entry}

pub record IsCpu (p : CpuPayload) : Type 0 where
  pub user : IsU16 p.user
  pub system : IsU16 p.system
  pub idle : IsU16 p.idle
  pub iowait : IsU16 p.iowait
  pub irq : IsU16 p.irq

abbrev pub cpu_of : CpuPayload → Cpu
cpu_of p = record {
  user_x10 = p.user;
  system_x10 = p.system;
  idle_x10 = p.idle;
  iowait_x10 = p.iowait;
  irq_x10 = p.irq;
}

-- The server reads the five shares that `cpu_push` writes, and changes nothing else of the result.
pub cpu_roundtrip :
    (p : CpuPayload) (r : Result)
    → IsCpu p
    → handle_entry 1 (cpu_payload_bytes p) r ≡ parsed (record r { cpu = some (cpu_of p) })
unfolding handle_entry cpu_payload_bytes parse_cpu unpack fields
cpu_roundtrip p r v = rw (
  from_be-be16 p.user v.user,
  from_be-be16 p.system v.system,
  from_be-be16 p.idle v.idle,
  from_be-be16 p.iowait v.iowait,
  from_be-be16 p.irq v.irq,
)

pub record IsMem (ctx : MemCtx) : Type 0 where
  pub total : IsU32 ctx.last_mem.mem_total_kb
  pub free : IsU32 ctx.last_mem.mem_free_kb
  pub available : IsU32 ctx.last_mem.mem_available_kb
  pub load1 : IsU16 ctx.last_load.load1_x100
  pub load5 : IsU16 ctx.last_load.load5_x100
  pub load15 : IsU16 ctx.last_load.load15_x100

abbrev pub mem_of : MemCtx → Mem
mem_of ctx = record {
  total_kb = ctx.last_mem.mem_total_kb;
  free_kb = ctx.last_mem.mem_free_kb;
  avail_kb = ctx.last_mem.mem_available_kb;
  used_kb = ctx.last_mem.mem_total_kb - ctx.last_mem.mem_free_kb;
}

abbrev pub load_of : MemCtx → Load
load_of ctx = record {
  load1_x100 = ctx.last_load.load1_x100;
  load5_x100 = ctx.last_load.load5_x100;
  load15_x100 = ctx.last_load.load15_x100;
}

used_eq : (a b : ℕ) → (if leb b a then a - b else 0) ≡ a - b
used_eq a b = ground arith

-- The server reads the memory sizes and loads that `mem_push` writes, computes the used size as the
-- total less the free size, stopping at 0, and changes nothing else of the result.
pub mem_roundtrip :
    (ctx : MemCtx) (r : Result)
    → IsMem ctx
    → handle_entry 2 (mem_payload_bytes ctx) r
      ≡ parsed (record r { mem = some (mem_of ctx); load = some (load_of ctx) })
unfolding handle_entry mem_payload_bytes parse_mem unpack fields
mem_roundtrip ctx r v = rw (
  from_be-be32 ctx.last_mem.mem_total_kb v.total,
  from_be-be32 ctx.last_mem.mem_free_kb v.free,
  from_be-be32 ctx.last_mem.mem_available_kb v.available,
  from_be-be16 ctx.last_load.load1_x100 v.load1,
  from_be-be16 ctx.last_load.load5_x100 v.load5,
  from_be-be16 ctx.last_load.load15_x100 v.load15,
  used_eq ctx.last_mem.mem_total_kb ctx.last_mem.mem_free_kb,
)
