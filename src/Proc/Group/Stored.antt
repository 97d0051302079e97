-- ===== src/Proc/Group/Stored.antt =====
-- The entry that `collect_thread_group` leaves fits its payload.
use trace_fox.Base.{
  ℕ, suc, ◌*◌, ◌≤◌, ◌<◌, ◌≡◌, refl, ap, inl, inr, ◌||◌, not, List, [], ◌∷◌, map, arith, ◌==◌,
  Bool-cases, length, take, All, length-take, All-take,
}
use trace_fox.Base.Perm.{All-perm}
use trace_fox.Proc.{WatchGroup, ThreadCandidate, ThreadTopEntry, ThreadGroupEntry, ProcCtx, is_top}
use trace_fox.Proc.Scan.{ProcFs}
use trace_fox.Proc.Candidates.{compare_thread_candidates, copy_thread_candidate}
use trace_fox.Proc.Candidates.Entries.{IsCandidate, copy_thread_candidate-IsTop}
use trace_fox.Proc.Group.{
  Qsort, GroupScan, scan_group, with_top, top_count_of, collect_thread_group,
}
use trace_fox.Proc.Group.Bounds.{scan_group-IsScan}
use trace_fox.Proc.Group.Bounds.Counted.{IsScan, All-sum, sum}
use trace_fox.Proc.Group.Top.{IsQsort}
use native.Mathlib.Bridge.{le_prop}
use trace_fox.RoundTrip

-- A thread group as `collect_thread_group` leaves it.
pub record IsStored (g : ThreadGroupEntry) : Type 0 where
  pub fits : RoundTrip.Threads.IsGroup g
  pub top_count : length g.top ≤ 7
  pub counted : sum g.state_counts ≡ g.total_threads
  pub total : g.total_threads ≤ 32768

IsCandidate-prop : (c : ThreadCandidate) → IsProp (IsCandidate c)
IsCandidate-prop c = hlevel (le_prop)

All-copied :
    (cs : List ThreadCandidate)
    → All IsCandidate cs
    → All RoundTrip.Threads.Entries.IsTop (map copy_thread_candidate cs)
All-copied [] h = tt
All-copied (c ∷ cs) (v, vs) = (copy_thread_candidate-IsTop c v, All-copied cs vs)

length-map {ℓ κ} :
    {A : Type ℓ} {B : Type κ} (f : A → B) (xs : List A) → length (map f xs) ≡ length xs
length-map f [] = refl
length-map f (x ∷ xs) = ap suc (length-map f xs)

-- The entry of a group, from the counts of its scan.
scanned-IsStored :
    (out : ThreadGroupEntry) (top : List ThreadTopEntry)
    → length out.name ≡ 16
    → out.flags < 4
    → length out.state_counts ≡ 7
    → sum out.state_counts ≡ out.total_threads
    → out.total_threads ≤ 32768
    → All RoundTrip.Threads.Entries.IsTop top
    → length top ≤ 7
    → IsStored (record out { top = top })
scanned-IsStored out top name flags size counted total tops few = record {
  fits = record {
    name_size = name;
    total = omega arith;
    flags = omega arith;
    states_size = size;
    states = All-sum out.state_counts (omega arith);
    top = tops;
  };
  top_count = few;
  counted = counted;
  total = total;
}

with_top-IsStored :
    (qsort : Qsort) (ctx : ProcCtx) (g : GroupScan)
    → IsQsort qsort
    → IsScan 32768 g
    → IsStored (with_top qsort ctx g)
unfolding with_top top_count_of
with_top-IsStored qsort ctx g q v =
    let cs = qsort compare_thread_candidates g.candidates in
    let n = top_count_of ctx (length g.candidates) in
    let all =
      All-perm IsCandidate IsCandidate-prop (q.permutes compare_thread_candidates g.candidates)
        v.candidates in
    let stored = λ (top : List ThreadTopEntry).
      scanned-IsStored g.out top v.name_size v.flags v.states_size v.counted v.total in
    elim (Bool-cases (not (is_top ctx.thread_mode) || length g.candidates == 0)) [
      | inl e ↦
          rw (e, with_top)
            (scanned-IsStored g.out g.out.top v.name_size v.flags v.states_size v.counted v.total
              (rw v.no_top tt) (rw v.no_top (omega arith)))
      | inr e ↦
          rw (e, with_top)
            (stored _ (All-copied (take n cs) (All-take IsCandidate n cs all))
              (omega (arith, length-map copy_thread_candidate (take n cs), length-take n cs)))
    ]

weaken : (k : ℕ) (g : GroupScan) → k ≤ 32768 → IsScan k g → IsScan 32768 g
weaken k g h v = record {
  slots = v.slots;
  candidates = v.candidates;
  candidate_count = v.candidate_count;
  instance_count = v.instance_count;
  name_size = v.name_size;
  flags = v.flags;
  states_size = v.states_size;
  counted = v.counted;
  total = omega (arith, v.total);
  no_top = v.no_top;
}

-- Whatever the stat files of a group of at most 64 processes hold, the entry names at most seven threads and fits the
-- fields of its payload, its counts by state add up to the total, and the history of threads keeps its size.
pub collect_thread_group-IsStored :
    (qsort : Qsort) (fs : ProcFs) (ctx : ProcCtx) (group : WatchGroup)
    → IsQsort qsort
    → length ctx.thread_history ≡ 1024
    → length group.pids ≤ 64
    → IsStored (collect_thread_group qsort fs ctx group).1
      × (length (collect_thread_group qsort fs ctx group).0.thread_history ≡ 1024)
unfolding collect_thread_group
collect_thread_group-IsStored qsort fs ctx group q size few =
    let v = scan_group-IsScan fs ctx group size few in
    (
      with_top-IsStored qsort ctx (scan_group fs ctx group) q
          (weaken (512 * length group.pids) (scan_group fs ctx group) (omega arith) v),
      v.slots,
    )
