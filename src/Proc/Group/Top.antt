-- ===== src/Proc/Group/Top.antt =====
-- The entry of a group names its busiest threads, whatever sorting algorithm the C library has.
use trace_fox.Base.{
  ℕ, zero, suc, ◌≤◌, min, ◌≡◌, refl, ap, ◌≢◌, inl, inr, true, List, [], ◌∷◌, ◌++◌, map, arith, ◌==◌,
  ==_iff, Bool-cases, length, take, drop, All, length-take, All-take,
}
use trace_fox.Base.Perm.{length-perm}
use mathlib.Core.List.{Perm}
use Prim.Native.Nat.{Ordering}
use trace_fox.Proc.{ThreadCandidate, ThreadGroupEntry, ProcCtx, WatchGroup, is_top}
use trace_fox.Proc.Scan.{ProcFs}
use trace_fox.Proc.Candidates.{compare_thread_candidates, copy_thread_candidate}
use trace_fox.Proc.Candidates.Order.{Compare, IsOrder, compare_thread_candidates-IsOrder}
use trace_fox.Proc.Group.{
  Qsort, GroupScan, scan_group, with_top, top_count_of, collect_thread_group,
}
use trace_fox.Proc.Group.Bounds.{scan_group-IsScan}

-- No element comes after a later one.
abbrev pub IsSorted : Compare → List ThreadCandidate → Type 0
IsSorted cmp [] = Unit
IsSorted cmp (c ∷ cs) = All (λ d. cmp c d ≢ Ordering.gt) cs × IsSorted cmp cs

-- What the C library says of `qsort`: with a comparison function as it demands it, the array is sorted in place.
pub record IsQsort (qsort : Qsort) : Type 0 where
  pub permutes : (cmp : Compare) (cs : List ThreadCandidate) → Perm cs (qsort cmp cs)
  pub sorts :
      (cmp : Compare) (cs : List ThreadCandidate) → IsOrder cmp → IsSorted cmp (qsort cmp cs)

take-drop {ℓ} : {A : Type ℓ} (n : ℕ) (xs : List A) → take n xs ++ drop n xs ≡ xs
take-drop zero xs = refl
take-drop (suc n) [] = refl
take-drop (suc n) (x ∷ xs) = ap (λ t. x ∷ t) (take-drop n xs)

All-drop {ℓ κ} : {A : Type ℓ} (P : A → Type κ) (n : ℕ) (xs : List A) → All P xs → All P (drop n xs)
All-drop P zero xs h = h
All-drop P (suc n) [] h = h
All-drop P (suc n) (x ∷ xs) (p, h) = All-drop P n xs h

All-map :
    {A : Type 0} (P Q : A → Type 0) → ((a : A) → P a → Q a) → (xs : List A) → All P xs → All Q xs
All-map P Q f [] h = tt
All-map P Q f (x ∷ xs) (p, h) = (f x p, All-map P Q f xs h)

IsSorted-take :
    (cmp : Compare) (n : ℕ) (cs : List ThreadCandidate) → IsSorted cmp cs → IsSorted cmp (take n cs)
IsSorted-take cmp zero cs s = tt
IsSorted-take cmp (suc n) [] s = tt
IsSorted-take cmp (suc n) (c ∷ cs) (first, s) = (All-take _ n cs first, IsSorted-take cmp n cs s)

-- No element of `ds` is busier than one of `cs`.
abbrev pub NoneBusier : List ThreadCandidate → List ThreadCandidate → Type 0
NoneBusier cs ds =
    All (λ (c : ThreadCandidate). All (λ (d : ThreadCandidate). d.cpu_pct_x10 ≤ c.cpu_pct_x10) ds)
      cs

not_after :
    (c d : ThreadCandidate)
    → compare_thread_candidates c d ≢ Ordering.gt
    → d.cpu_pct_x10 ≤ c.cpu_pct_x10
unfolding compare_thread_candidates
not_after c d h = ground arith

NoneBusier-split :
    (n : ℕ) (cs : List ThreadCandidate)
    → IsSorted compare_thread_candidates cs
    → NoneBusier (take n cs) (drop n cs)
NoneBusier-split zero cs s = tt
NoneBusier-split (suc n) [] s = tt
NoneBusier-split (suc n) (c ∷ cs) (first, s) =
    (All-map _ _ (not_after c) (drop n cs) (All-drop _ n cs first), NoneBusier-split n cs s)

-- What the entry of a group promises of its threads: `picked` are the busiest of all candidates.
pub record IsTopOf (n : ℕ) (cs : List ThreadCandidate) (out : ThreadGroupEntry) : Type 0 where
  pub picked : List ThreadCandidate
  pub others : List ThreadCandidate
  pub all : Perm cs (picked ++ others)
  pub count : length picked ≡ min (min (length cs) n) 7
  pub sorted : IsSorted compare_thread_candidates picked
  pub busiest : NoneBusier picked others
  pub copied : out.top ≡ map copy_thread_candidate picked

with_top-copies :
    (qsort : Qsort) (ctx : ProcCtx) (g : GroupScan)
    → is_top ctx.thread_mode ≡ true
    → g.out.top ≡ []
    → (with_top qsort ctx g).top
      ≡ map copy_thread_candidate (
          take
            (top_count_of ctx (length g.candidates))
            (qsort compare_thread_candidates g.candidates))
unfolding with_top top_count_of
with_top-copies qsort ctx g mode start = elim (Bool-cases (length g.candidates == 0)) [
  | inr e ↦ rw (mode, e, with_top) refl
  | inl e ↦
      let none_left : length g.candidates ≡ 0 = (==_iff (length g.candidates) 0).0 e in
      let no_room : min (min (length g.candidates) ctx.thread_top_n) 7 ≡ 0 = omega arith in
      rw (mode, e, no_room, with_top) start
]

with_top-IsTopOf :
    (qsort : Qsort) (ctx : ProcCtx) (g : GroupScan)
    → IsQsort qsort
    → is_top ctx.thread_mode ≡ true
    → g.out.top ≡ []
    → IsTopOf ctx.thread_top_n g.candidates (with_top qsort ctx g)
unfolding top_count_of
with_top-IsTopOf qsort ctx g q mode start =
    let cs = qsort compare_thread_candidates g.candidates in
    let n = top_count_of ctx (length g.candidates) in
    let perm = q.permutes compare_thread_candidates g.candidates in
    let order = q.sorts compare_thread_candidates g.candidates compare_thread_candidates-IsOrder in
    record {
      picked = take n cs;
      others = drop n cs;
      all = rw (take-drop n cs) perm;
      count = omega (arith, length-take n cs, length-perm perm);
      sorted = IsSorted-take compare_thread_candidates n cs order;
      busiest = NoneBusier-split n cs order;
      copied = with_top-copies qsort ctx g mode start;
    }

-- In the mode `top`, with any sorting function that does what the C library says of `qsort`, the entry of a group of at
-- most 64 processes names the busiest candidates in order: as many as there are, up to the configured number and
-- seven, and none of the others is busier than one of them.
pub collect_thread_group-IsTopOf :
    (qsort : Qsort) (fs : ProcFs) (ctx : ProcCtx) (group : WatchGroup)
    → IsQsort qsort
    → is_top ctx.thread_mode ≡ true
    → length ctx.thread_history ≡ 1024
    → length group.pids ≤ 64
    → IsTopOf ctx.thread_top_n
        (scan_group fs ctx group).candidates
        (collect_thread_group qsort fs ctx group).1
unfolding collect_thread_group
collect_thread_group-IsTopOf qsort fs ctx group q mode size few =
    with_top-IsTopOf qsort ctx (scan_group fs ctx group) q mode
      (scan_group-IsScan fs ctx group size few).no_top
