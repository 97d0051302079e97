-- ===== src/Tlv/Memory.antt =====
-- What a store into a buffer leaves in front of and behind the write position.
use trace_fox.Base.{
  ℕ, zero, suc, ◌+◌, ◌≤◌, ◌<◌, ◌≡◌, refl, sym, ap, ◌∙◌, List, [], ◌∷◌, ◌++◌, append-nil,
  append_assoc, arith, length, set, take, drop, length-set, take-set,
}
use trace_fox.Tlv.{memcpy}

-- A store leaves what lies behind its position.
pub drop-set : (xs : List ℕ) (n m v : ℕ) → n < m → drop m (set xs n v) ≡ drop m xs
drop-set [] n m v h = refl
drop-set (x ∷ xs) zero zero v h = absurd (omega arith)
drop-set (x ∷ xs) zero (suc m) v h = refl
drop-set (x ∷ xs) (suc n) zero v h = absurd (omega arith)
drop-set (x ∷ xs) (suc n) (suc m) v h = drop-set xs n m v (omega arith)

shift : (i k : ℕ) → i + suc k ≡ i + 1 + k
shift i k = omega arith

pub length-memcpy : (xs : List ℕ) (i : ℕ) (bs : List ℕ) → length (memcpy xs i bs) ≡ length xs
unfolding memcpy
length-memcpy xs i [] = refl
length-memcpy xs i (b ∷ bs) = length-memcpy (set xs i b) (i + 1) bs ∙ length-set xs i b

pub take-memcpy :
    (xs : List ℕ) (i : ℕ) (bs : List ℕ)
    → i + length bs ≤ length xs
    → take (i + length bs) (memcpy xs i bs) ≡ take i xs ++ bs
unfolding memcpy
take-memcpy xs i [] h = ap (λ k. take k xs) (omega arith) ∙ sym (append-nil (take i xs))
take-memcpy xs i (b ∷ bs) h = rw (shift i (length bs)) (
    take-memcpy (set xs i b) (i + 1) bs (omega (arith, length-set xs i b))
    ∙ rw (take-set xs i b (omega arith)) (append_assoc (take i xs) (b ∷ []) bs))

pub drop-memcpy :
    (xs : List ℕ) (i m : ℕ) (bs : List ℕ) → i + length bs ≤ m → drop m (memcpy xs i bs) ≡ drop m xs
unfolding memcpy
drop-memcpy xs i m [] h = refl
drop-memcpy xs i m (b ∷ bs) h =
    drop-memcpy (set xs i b) (i + 1) m bs (omega arith) ∙ drop-set xs i m b (omega arith)
