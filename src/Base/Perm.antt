-- ===== src/Base/Perm.antt =====
-- What a permutation of a list keeps: its length, and a proposition that holds of all elements.
use trace_fox.Base.{ℕ, suc, ◌≡◌, refl, sym, ap, ◌∙◌, List, [], ◌∷◌, length, All}
use mathlib.Core.List.{Perm, Mem, foldr, mem-cons, mem-cons_self, mem-cons_of_mem, not-mem-nil}
use mathlib.Core.List.Perm
use mathlib.Core.Logic.Or
use mathlib.Core.Path.{subst}

ℕ-set : IsSet ℕ
ℕ-set = hlevel

module _ {ℓ} {A : Type ℓ} where
  length-foldr : (xs : List A) → foldr (λ (x : A) (n : ℕ). suc n) 0 xs ≡ length xs
  length-foldr [] = refl
  length-foldr (x ∷ xs) = ap suc (length-foldr xs)

  pub length-perm : {xs ys : List A} → Perm xs ys → length xs ≡ length ys
  length-perm {xs} {ys} p =
      sym (length-foldr xs)
      ∙ Perm.foldr-eq ℕ-set (λ (x : A) (n : ℕ). suc n) (λ x y n. refl) p 0
      ∙ length-foldr ys

  module _ (P : A → Type 0) (prop : (a : A) → IsProp (P a)) where
    of_All : (xs : List A) → All P xs → (x : A) → Mem x xs → P x
    of_All [] h x m = absurd (not-mem-nil m)
    of_All (y ∷ xs) (h, hs) x m =
        Or.elim (prop x) (mem-cons.0 m) (λ e. subst P (sym e) h) (of_All xs hs x)

    to_All : (xs : List A) → ((x : A) → Mem x xs → P x) → All P xs
    to_All [] h = tt
    to_All (y ∷ xs) h = (h y mem-cons_self, to_All xs (λ x m. h x (mem-cons_of_mem y m)))

    pub All-perm : {xs ys : List A} → Perm xs ys → All P xs → All P ys
    All-perm {xs} {ys} p h = to_All ys (λ x m. of_All xs h x ((Perm.mem_iff p).1 m))
