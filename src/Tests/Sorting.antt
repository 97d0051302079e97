-- ===== src/Tests/Sorting.antt =====
-- A sorting function of the C library that does what its documentation says: insertion sort.
use trace_fox.Base.{◌≡◌, refl, ◌≢◌, ◌⊎◌, inl, inr, List, [], ◌∷◌, arith, All}
use trace_fox.Base.Perm.{All-perm}
use mathlib.Core.List.{Perm}
use mathlib.Core.List.Perm
use Prim.Native.Nat.{Ordering}
use trace_fox.Proc.{ThreadCandidate}
use trace_fox.Proc.Candidates.Order.{Compare, IsOrder}
use trace_fox.Proc.Group.{Qsort}
use trace_fox.Proc.Group.Top.{IsSorted, IsQsort}

unfoldable pub insert_sorted :
    Compare → ThreadCandidate → List ThreadCandidate → List ThreadCandidate
insert_sorted cmp c [] = c ∷ []
insert_sorted cmp c (d ∷ ds) =
    let rest = insert_sorted cmp c ds in
    elim (cmp c d) [ Ordering.gt ↦ d ∷ rest | Ordering.lt ↦ c ∷ d ∷ ds | Ordering.eq ↦ c ∷ d ∷ ds ]

unfoldable pub insertion_sort : Qsort
unfolding insert_sorted
insertion_sort cmp [] = []
insertion_sort cmp (c ∷ cs) = insert_sorted cmp c (insertion_sort cmp cs)

-- Whether a candidate comes after another.
is_after : (o : Ordering) → (o ≡ Ordering.gt) ⊎ (o ≢ Ordering.gt)
is_after Ordering.gt = inl refl
is_after Ordering.lt = inr (λ e. cc)
is_after Ordering.eq = inr (λ e. cc)

module _ (cmp : Compare) (c d : ThreadCandidate) (ds : List ThreadCandidate) where
  insert_later : cmp c d ≡ Ordering.gt → insert_sorted cmp c (d ∷ ds) ≡ d ∷ insert_sorted cmp c ds
  unfolding insert_sorted
  insert_later e = rw (e, insert_sorted) refl

  insert_here : cmp c d ≢ Ordering.gt → insert_sorted cmp c (d ∷ ds) ≡ c ∷ d ∷ ds
  unfolding insert_sorted
  insert_here e = ground arith

insert-perm :
    (cmp : Compare) (c : ThreadCandidate) (ds : List ThreadCandidate)
    → Perm (c ∷ ds) (insert_sorted cmp c ds)
unfolding insert_sorted
insert-perm cmp c [] = Perm.rfl
insert-perm cmp c (d ∷ ds) = elim (is_after (cmp c d)) [
  | inl e ↦
      rw (insert_later cmp c d ds e)
        (Perm.trans (Perm.swap d c ds) (Perm.cons d (insert-perm cmp c ds)))
  | inr e ↦ rw (insert_here cmp c d ds e) Perm.rfl
]

sort-perm : (cmp : Compare) (cs : List ThreadCandidate) → Perm cs (insertion_sort cmp cs)
unfolding insertion_sort
sort-perm cmp [] = Perm.rfl
sort-perm cmp (c ∷ cs) =
    Perm.trans (Perm.cons c (sort-perm cmp cs)) (insert-perm cmp c (insertion_sort cmp cs))

NotAfter-prop : (o : Ordering) → IsProp (o ≢ Ordering.gt)
NotAfter-prop o = hlevel

module _ (cmp : Compare) (order : IsOrder cmp) where
  not_before : (c d : ThreadCandidate) → cmp c d ≡ Ordering.gt → cmp d c ≢ Ordering.gt
  not_before c d e = rw (order.flips c d, e) (λ f. cc)

  further :
      (c d : ThreadCandidate) (ds : List ThreadCandidate)
      → cmp c d ≢ Ordering.gt
      → All (λ e. cmp d e ≢ Ordering.gt) ds
      → All (λ e. cmp c e ≢ Ordering.gt) ds
  further c d [] h k = tt
  further c d (e ∷ ds) h (k, ks) = (order.trans c d e h k, further c d ds h ks)

  insert-IsSorted :
      (c : ThreadCandidate) (ds : List ThreadCandidate)
      → IsSorted cmp ds
      → IsSorted cmp (insert_sorted cmp c ds)
  unfolding insert_sorted
  insert-IsSorted c [] s = (tt, tt)
  insert-IsSorted c (d ∷ ds) (first, s) = elim (is_after (cmp c d)) [
    | inl e ↦ rw (insert_later cmp c d ds e) (
      All-perm (λ x. cmp d x ≢ Ordering.gt) (λ x. NotAfter-prop (cmp d x)) (insert-perm cmp c ds)
          (not_before c d e, first),
      insert-IsSorted c ds s,
    )
    | inr e ↦ rw (insert_here cmp c d ds e) ((e, further c d ds e first), (first, s))
  ]

sort-IsSorted :
    (cmp : Compare) (cs : List ThreadCandidate) → IsOrder cmp → IsSorted cmp (insertion_sort cmp cs)
unfolding insertion_sort
sort-IsSorted cmp [] order = tt
sort-IsSorted cmp (c ∷ cs) order =
    insert-IsSorted cmp order c (insertion_sort cmp cs) (sort-IsSorted cmp cs order)

pub insertion_sort-IsQsort : IsQsort insertion_sort
insertion_sort-IsQsort = record { permutes = sort-perm; sorts = sort-IsSorted }
