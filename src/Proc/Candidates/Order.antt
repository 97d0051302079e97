-- ===== src/Proc/Candidates/Order.antt =====
-- The comparison function of proc.c is what the `qsort` of the C library asks for: a total order of the candidates, up to
-- those that it calls equal.
use trace_fox.Base.{ℕ, ◌≡◌, refl, ◌≢◌, List, [], ◌∷◌, arith}
use trace_fox.Base.CString.{c_str}
use Prim.Native.Nat.{Ordering}
use trace_fox.Proc.{ThreadCandidate}
use trace_fox.Proc.Candidates.{order_bytes, compare_thread_candidates}

abbrev pub Compare : Type 0
Compare = ThreadCandidate → ThreadCandidate → Ordering

abbrev pub flip : Ordering → Ordering
flip Ordering.lt = Ordering.gt
flip Ordering.eq = Ordering.eq
flip Ordering.gt = Ordering.lt

-- What the C library demands of a comparison function.
pub record IsOrder (cmp : Compare) : Type 0 where
  pub flips : (a b : ThreadCandidate) → cmp b a ≡ flip (cmp a b)
  pub trans :
      (a b c : ThreadCandidate)
      → cmp a b ≢ Ordering.gt
      → cmp b c ≢ Ordering.gt
      → cmp a c ≢ Ordering.gt

bytes_flip : (s t : List ℕ) → order_bytes t s ≡ flip (order_bytes s t)
unfolding order_bytes
bytes_flip [] [] = refl
bytes_flip [] (d ∷ t) = refl
bytes_flip (c ∷ s) [] = refl
bytes_flip (c ∷ s) (d ∷ t) = ground (arith, bytes_flip s t)

bytes_trans :
    (s t u : List ℕ)
    → order_bytes s t ≢ Ordering.gt
    → order_bytes t u ≢ Ordering.gt
    → order_bytes s u ≢ Ordering.gt
unfolding order_bytes
bytes_trans [] t [] h k = cc
bytes_trans [] t (e ∷ u) h k = cc
bytes_trans (c ∷ s) [] u h k = absurd (h refl)
bytes_trans (c ∷ s) (d ∷ t) [] h k = absurd (k refl)
bytes_trans (c ∷ s) (d ∷ t) (e ∷ u) h k = ground (arith, bytes_trans s t u)

-- Swapped arguments swap the result, and "no later than" is transitive.
pub compare_thread_candidates-IsOrder : IsOrder compare_thread_candidates
unfolding compare_thread_candidates
compare_thread_candidates-IsOrder = record {
  flips = λ a b. ground (arith, bytes_flip (c_str a.name) (c_str b.name));
  trans = λ a b c h k. ground (arith, bytes_trans (c_str a.name) (c_str b.name) (c_str c.name));
}
