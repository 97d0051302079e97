-- ===== src/Proc/Group/Bounds/Counted.antt =====
-- What the scan of a group keeps, and the counters of the entry.
use trace_fox.Base.{
  ℕ, zero, suc, ◌+◌, ◌^◌, ◌≤◌, ◌<◌, ◌≡◌, refl, ap, ◌∙◌, List, [], ◌∷◌, arith, lt→ltb, length,
  get_or, set, All, length-set,
}
use Prim.Native.Nat.{bit_or}
use trace_fox.Bytes.{IsU16}
use trace_fox.Proc.{TaskInfo, ThreadGroupEntry}
use trace_fox.Proc.Candidates.{thread_state_index, increment_u16}
use trace_fox.Proc.Candidates.Entries.{IsCandidate, instances}
use trace_fox.Proc.Group.{GroupScan, count_thread, truncated}

abbrev pub sum : List ℕ → ℕ
sum [] = 0
sum (x ∷ xs) = x + sum xs

-- What the loops keep, with at most `k` threads counted.
pub record IsScan (k : ℕ) (g : GroupScan) : Type 0 where
  pub slots : length g.thread_history ≡ 1024
  pub candidates : All IsCandidate g.candidates
  pub candidate_count : length g.candidates ≤ 512
  pub instance_count : instances g.candidates ≤ g.out.total_threads
  pub name_size : length g.out.name ≡ 16
  pub flags : g.out.flags < 4
  pub states_size : length g.out.state_counts ≡ 7
  pub counted : sum g.out.state_counts ≡ g.out.total_threads
  pub total : g.out.total_threads ≤ k
  pub no_top : g.out.top ≡ []

sum-set : (xs : List ℕ) (i : ℕ) → i < length xs → sum (set xs i (get_or xs i 0 + 1)) ≡ sum xs + 1
sum-set [] i h = absurd (omega arith)
sum-set (x ∷ xs) zero h = omega arith
sum-set (x ∷ xs) (suc i) h = omega (arith, sum-set xs i (omega arith))

get-le-sum : (xs : List ℕ) (i : ℕ) → get_or xs i 0 ≤ sum xs
get-le-sum [] i = omega arith
get-le-sum (x ∷ xs) zero = omega arith
get-le-sum (x ∷ xs) (suc i) = omega (arith, get-le-sum xs i)

pub All-sum : (xs : List ℕ) → sum xs < 2 ^ 16 → All IsU16 xs
All-sum [] h = tt
All-sum (x ∷ xs) h = (omega arith, All-sum xs (omega arith))

state_index-lt : (c : ℕ) → thread_state_index c < 7
unfolding thread_state_index
state_index-lt c = ground arith

increment : (value flags : ℕ) → value < 65535 → increment_u16 value flags ≡ (value + 1, flags)
unfolding increment_u16
increment value flags h = rw (lt→ltb value 65535 h) refl

pub count_thread-next :
    (task : TaskInfo) (out : ThreadGroupEntry)
    → out.total_threads < 65535
    → sum out.state_counts ≡ out.total_threads
    → count_thread task out ≡ record out {
      total_threads = out.total_threads + 1;
      state_counts =
          set out.state_counts
            (thread_state_index task.state)
            (get_or out.state_counts (thread_state_index task.state) 0 + 1);
    }
unfolding count_thread
count_thread-next task out room counted =
    let i = thread_state_index task.state in
    let n = get_or out.state_counts i 0 in
    rw
      (
        increment out.total_threads out.flags room,
        increment n out.flags (omega (arith, get-le-sum out.state_counts i)),
      )
      refl

-- One thread more.
pub counted-IsScan :
    (k : ℕ) (task : TaskInfo) (g : GroupScan)
    → IsScan k g
    → k < 65535
    → IsScan (k + 1) (record g { out = count_thread task g.out })
counted-IsScan k task g v room =
    let i = thread_state_index task.state in
    let less : g.out.total_threads < 65535 = omega (arith, v.total) in
    rw (count_thread-next task g.out less v.counted) (record {
      slots = v.slots;
      candidates = v.candidates;
      candidate_count = v.candidate_count;
      instance_count = omega (arith, v.instance_count);
      name_size = v.name_size;
      flags = v.flags;
      states_size = length-set g.out.state_counts i _ ∙ v.states_size;
      counted =
          sum-set g.out.state_counts i (omega (arith, state_index-lt task.state, v.states_size))
          ∙ ap (λ n. n + 1) v.counted;
      total = omega (arith, v.total);
      no_top = v.no_top;
    })

truncated-lt : (flags : ℕ) → flags < 4 → bit_or flags 0x02 < 4
truncated-lt zero h = omega arith
truncated-lt (suc zero) h = omega arith
truncated-lt (suc (suc zero)) h = omega arith
truncated-lt (suc (suc (suc zero))) h = omega arith
truncated-lt (suc (suc (suc (suc n)))) h = absurd (omega arith)

pub truncated-IsScan :
    (k : ℕ) (g : GroupScan) → IsScan k g → IsScan k (record g { out = truncated g.out })
unfolding truncated
truncated-IsScan k g v = record {
  slots = v.slots;
  candidates = v.candidates;
  candidate_count = v.candidate_count;
  instance_count = v.instance_count;
  name_size = v.name_size;
  flags = truncated-lt g.out.flags v.flags;
  states_size = v.states_size;
  counted = v.counted;
  total = v.total;
  no_top = v.no_top;
}

-- A thread that is counted and no candidate yet.
