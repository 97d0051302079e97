-- ===== src/Cpu/Share.antt =====
-- The shares that cpu.c reports: bounds, and what every call leaves in the context.
use trace_fox.Base.{
  ℕ, ◌+◌, ◌-◌, ◌*◌, ◌/◌, ◌^◌, ◌≤◌, ◌<◌, ◌≡◌, refl, ap₂, inl, inr, true, Option, some, List, arith,
  ne→==_false, Bool-cases, Option-cases, ok, add64,
}
use native.Mathlib.Nat.{
  div-le_of_le-mul, div-mul-le_self, lt-div-mul-add, le_of_mul-le-mul_right, lt_of_mul-lt-mul_right,
}
use trace_fox.Cpu.{
  CpuPayload, CpuStat, CpuState, sub64, mul64, total_of, share_of, diff_total_of, payload_of,
  sample, cpu_collect, read_stat,
}

-- Every counter of the earlier sample is at most that of the later one.
pub record Grows (prev now : CpuStat) : Type 0 where
  pub user : prev.user ≤ now.user
  pub nicev : prev.nicev ≤ now.nicev
  pub system : prev.system ≤ now.system
  pub idle : prev.idle ≤ now.idle
  pub iowait : prev.iowait ≤ now.iowait
  pub irq : prev.irq ≤ now.irq
  pub softirq : prev.softirq ≤ now.softirq

-- The sum of the counters, in the integers.
abbrev pub sum_of : CpuStat → ℕ
sum_of s = s.user + s.nicev + s.system + s.idle + s.iowait + s.irq + s.softirq

share_of-eq : (d t : ℕ) → d ≤ t → t * 1000 < 2 ^ 64 → share_of d t ≡ d * 1000 / t
unfolding share_of
share_of-eq d t h small =
    let q : d * 1000 / t ≤ 1000 = div-le_of_le-mul t (omega arith) in
    let e : mul64 d 1000 ≡ d * 1000 = omega arith in rw e (omega arith)

-- One share, rounded down.
share_bounds :
    (d t : ℕ)
    → d ≤ t
    → t * 1000 < 2 ^ 64
    → 0 < t
    → (share_of d t * t ≤ d * 1000) × (d * 1000 < share_of d t * t + t)
share_bounds d t h small pos =
    rw (share_of-eq d t h small) (div-mul-le_self (d * 1000) t, lt-div-mul-add pos)

-- Five shares of a total: they add up to at most 1000, and lose at most 4 to the rounding.
shares_sum :
    (t a b c d e x y z u v : ℕ)
    → 0 < t
    → a + b + c + d + e ≡ t
    → (x * t ≤ a * 1000) × (a * 1000 < x * t + t)
    → (y * t ≤ b * 1000) × (b * 1000 < y * t + t)
    → (z * t ≤ c * 1000) × (c * 1000 < z * t + t)
    → (u * t ≤ d * 1000) × (d * 1000 < u * t + t)
    → (v * t ≤ e * 1000) × (e * 1000 < v * t + t)
    → (x + y + z + u + v ≤ 1000) × (1000 < x + y + z + u + v + 5)
shares_sum t a b c d e x y z u v pos sum hx hy hz hu hv =
    let le : (x + y + z + u + v) * t ≤ 1000 * t = omega arith in
    let lt : 1000 * t < (x + y + z + u + v + 5) * t = omega arith in
    (le_of_mul-le-mul_right le pos, lt_of_mul-lt-mul_right t lt)

-- The remembered total is that of the remembered counters, and the published difference is positive.
pub record IsValid (st : CpuState) : Type 0 where
  pub total : st.ctx.prev_total ≡ total_of st.ctx.prev
  pub published : 0 < st.g_last_diff_total

diff_total_pos : (total prev : ℕ) → 0 < diff_total_of total prev
unfolding diff_total_of
diff_total_pos total prev = ground arith

sample-IsValid : (st : CpuState) (now : CpuStat) → IsValid (sample st now)
unfolding sample
sample-IsValid st now =
    let pos = diff_total_pos (total_of now) st.ctx.prev_total in
    elim (Bool-cases st.ctx.initialized) [
      | inl e ↦ rw e (record { total = refl; published = pos })
      | inr e ↦ rw e (record { total = refl; published = omega arith })
    ]

-- `cpu_collect` keeps the context consistent on every path: a file that cannot be opened or read, a
-- first line with fewer than seven counters, the first sample and every later one.
pub cpu_collect-IsValid :
    (st : CpuState) (file : Option (List ℕ)) → IsValid st → IsValid (cpu_collect st file).1
unfolding cpu_collect
cpu_collect-IsValid st file v = elim (Option-cases (read_stat file)) [
  | inl e ↦ rw (e, cpu_collect) (record { total = v.total; published = v.published })
  | inr (now, e) ↦ rw (e, cpu_collect) (sample-IsValid st now)
]

total_of-eq : (s : CpuStat) → sum_of s < 2 ^ 64 → total_of s ≡ sum_of s
unfolding total_of
total_of-eq s h = omega arith

-- The shares of one sample over grown counters.
record Shares (p : CpuPayload) : Type 0 where
  pub at_most : p.user + p.system + p.idle + p.iowait + p.irq ≤ 1000
  pub at_least : 1000 < p.user + p.system + p.idle + p.iowait + p.irq + 5

grown : (a b : ℕ) → b ≤ a → a < 2 ^ 64 → sub64 a b ≡ a - b
grown a b h small = omega arith

grown_pair :
    (a b c d : ℕ) → b ≤ a → d ≤ c → a + c < 2 ^ 64 → add64 (sub64 a b) (sub64 c d) ≡ a + c - (b + d)
grown_pair a b c d h k small = omega arith

sub_add : (a b c d : ℕ) → b ≤ a → d ≤ c → a - b + (c - d) ≡ a + c - (b + d)
sub_add a b c d h k = omega arith

-- The five differences make up the difference of the sums.
growth_sum :
    (prev now : CpuStat)
    → Grows prev now
    → now.user
        + now.nicev
        - (prev.user + prev.nicev)
        + (now.system - prev.system)
        + (now.idle - prev.idle)
        + (now.iowait - prev.iowait)
        + (now.irq + now.softirq - (prev.irq + prev.softirq))
      ≡ sum_of now - sum_of prev
growth_sum prev now g =
    rw
      (
        sub_add (now.user + now.nicev) (prev.user + prev.nicev) now.system prev.system (omega arith)
            g.system,
        sub_add (now.user + now.nicev + now.system) (prev.user + prev.nicev + prev.system) now.idle
            prev.idle (omega arith) g.idle,
        sub_add (now.user + now.nicev + now.system + now.idle)
            (prev.user + prev.nicev + prev.system + prev.idle) now.iowait prev.iowait (omega arith)
            g.iowait,
        sub_add (now.user + now.nicev + now.system + now.idle + now.iowait)
            (prev.user + prev.nicev + prev.system + prev.idle + prev.iowait) (now.irq + now.softirq)
            (prev.irq + prev.softirq) (omega arith) (omega arith),
      )
      (ap₂ ◌-◌ (omega arith) (omega arith))

shares_bounded :
    (t a b c d e : ℕ)
    → 0 < t
    → a + b + c + d + e ≡ t
    → t * 1000 < 2 ^ 64
    → (share_of a t + share_of b t + share_of c t + share_of d t + share_of e t ≤ 1000)
      × (1000 < share_of a t + share_of b t + share_of c t + share_of d t + share_of e t + 5)
shares_bounded t a b c d e pos sum small =
    shares_sum t a b c d e _ _ _ _ _ pos sum (share_bounds a t (omega arith) small pos)
      (share_bounds b t (omega arith) small pos) (share_bounds c t (omega arith) small pos)
      (share_bounds d t (omega arith) small pos) (share_bounds e t (omega arith) small pos)

payload_of-Shares :
    (prev now : CpuStat)
    → Grows prev now
    → sum_of now * 1000 < 2 ^ 64
    → sum_of prev < sum_of now
    → Shares (payload_of now prev (sum_of now - sum_of prev))
unfolding payload_of
payload_of-Shares prev now g small more =
    let user = grown_pair now.user prev.user now.nicev prev.nicev g.user g.nicev (omega arith) in
    let irq = grown_pair now.irq prev.irq now.softirq prev.softirq g.irq g.softirq (omega arith) in
    let both =
      shares_bounded (sum_of now - sum_of prev) (now.user + now.nicev - (prev.user + prev.nicev))
        (now.system - prev.system) (now.idle - prev.idle) (now.iowait - prev.iowait)
        (now.irq + now.softirq - (prev.irq + prev.softirq)) (omega arith) (growth_sum prev now g)
        (omega arith) in
    rw
      (
        user,
        irq,
        grown now.system prev.system g.system (omega arith),
        grown now.idle prev.idle g.idle (omega arith),
        grown now.iowait prev.iowait g.iowait (omega arith),
      )
      (record { at_most = both.0; at_least = both.1 })

diff_total_of-eq :
    (prev now : CpuStat)
    → sum_of now < 2 ^ 64
    → sum_of prev < sum_of now
    → diff_total_of (total_of now) (total_of prev) ≡ sum_of now - sum_of prev
unfolding diff_total_of
diff_total_of-eq prev now small more =
    rw (total_of-eq now small, total_of-eq prev (omega arith))
      (let e : sub64 (sum_of now) (sum_of prev) ≡ sum_of now - sum_of prev = omega arith in
        rw e (rw (ne→==_false (sum_of now - sum_of prev) 0 (omega arith))))

abbrev pub sum_of_shares : CpuState → ℕ
sum_of_shares st = let p = st.ctx.last_payload in p.user + p.system + p.idle + p.iowait + p.irq

-- From the second sample on, where the counters have grown and their sum leaves room for the scaling,
-- `cpu_collect` succeeds, publishes the growth of the sum, and reports five shares that add up to at
-- most 1000 thousandths and to more than 995.
pub cpu_collect_shares :
    (st : CpuState) (file : Option (List ℕ)) (now : CpuStat)
    → IsValid st
    → st.ctx.initialized ≡ true
    → read_stat file ≡ some now
    → Grows st.ctx.prev now
    → sum_of now * 1000 < 2 ^ 64
    → sum_of st.ctx.prev < sum_of now
    → let (status, st') = cpu_collect st file in
      (status ≡ ok)
      × (st'.g_last_diff_total ≡ sum_of now - sum_of st.ctx.prev)
      × (sum_of_shares st' ≤ 1000)
      × (1000 < sum_of_shares st' + 5)
unfolding cpu_collect sample
cpu_collect_shares st file now v second read g small more =
    let d = diff_total_of-eq st.ctx.prev now (omega arith) more in
    let s = payload_of-Shares st.ctx.prev now g small more in
    let diff : diff_total_of (total_of now) st.ctx.prev_total ≡ sum_of now - sum_of st.ctx.prev =
      rw v.total d in
    rw (read, cpu_collect) (rw (second, sample) (rw diff (refl, refl, s.at_most, s.at_least)))
