-- ===== src/Cpu/Words.antt =====
-- What cpu.c keeps of the counters of /proc/stat.
use trace_fox.Base.{
  ℕ, inl, inr, Option, none, some, List, [], ◌∷◌, arith, Bool-cases, Option-cases, All,
}
use trace_fox.Base.CString.{c_str}
use trace_fox.Base.Scan.{IsWord, IfSome, scanf_lem}
use trace_fox.Base.Stdio.{Value, num, fgets, scanf}
use trace_fox.Bytes.{IsU64}
use trace_fox.Cpu.{
  CpuStat, CpuCtx, CpuState, cpu_format, stat_of, read_stat, total_of, sample, cpu_collect,
}

pub record IsStat (s : CpuStat) : Type 0 where
  pub user : IsU64 s.user
  pub nicev : IsU64 s.nicev
  pub system : IsU64 s.system
  pub idle : IsU64 s.idle
  pub iowait : IsU64 s.iowait
  pub irq : IsU64 s.irq
  pub softirq : IsU64 s.softirq

-- The counters of the last sample and their sum.
pub record IsWords (c : CpuCtx) : Type 0 where
  pub total : IsU64 c.prev_total
  pub prev : IsStat c.prev

stat_of-IsStat : (vs : List Value) → All IsWord vs → IfSome IsStat (stat_of vs)
unfolding stat_of
stat_of-IsStat (num u ∷ num n ∷ num s ∷ num i ∷ num w ∷ num q ∷ num f ∷ []) h =
    let (h1, (h2, (h3, (h4, (h5, (h6, (h7, rest))))))) = h in
    record { user = h1; nicev = h2; system = h3; idle = h4; iowait = h5; irq = h6; softirq = h7 }
stat_of-IsStat _ h = tt

read_stat-IsStat : (file : Option (List ℕ)) → IfSome IsStat (read_stat file)
unfolding read_stat
read_stat-IsStat none = tt
read_stat-IsStat (some file) = elim (Option-cases (fgets 256 file)) [
  | inl e ↦ rw (e, read_stat) tt
  | inr ((line, rest), e) ↦
      rw (e, read_stat)
        (stat_of-IsStat (scanf cpu_format (c_str line)).0 (scanf_lem cpu_format (c_str line)).0)
]

total_of-IsU64 : (s : CpuStat) → IsU64 (total_of s)
unfolding total_of
total_of-IsU64 s = omega arith

-- `cpu_collect` keeps counters of 64 bits.
pub cpu_collect-IsWords :
    (st : CpuState) (file : Option (List ℕ)) → IsWords st.ctx → IsWords (cpu_collect st file).1.ctx
unfolding cpu_collect sample
cpu_collect-IsWords st file v = elim (Option-cases (read_stat file)) [
  | inl e ↦ rw (e, cpu_collect) (record { total = v.total; prev = v.prev })
  | inr (now, e) ↦
      let fits : IsStat now = rw e at (read_stat-IsStat file) in
      elim (Bool-cases st.ctx.initialized) [
        | inl f ↦ rw (e, f, cpu_collect) (record { total = total_of-IsU64 now; prev = fits })
        | inr f ↦ rw (e, f, cpu_collect) (record { total = total_of-IsU64 now; prev = fits })
      ]
]
