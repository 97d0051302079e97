-- ===== src/Base/CString.antt =====
-- The functions of C's string.h that the agent uses, over lists of bytes. A `char *` is the bytes of
-- its array; a list that ends with no NUL is read as if one followed.
use trace_fox.Base.{
  ℕ, zero, suc, ◌-◌, ◌≤◌, ◌≡◌, refl, ap, ◌∙◌, inl, inr, Bool, true, false, ◌&&◌, List, [], ◌∷◌,
  ◌++◌, arith, ◌==◌, if◌then◌else◌, Bool-cases, length, take, drop, replicate, length-append,
  length-drop, length-replicate,
}

-- The bytes in front of the first NUL.
unfoldable pub c_str : List ℕ → List ℕ
c_str [] = []
c_str (c ∷ s) = if c == 0 then [] else c ∷ c_str s

unfoldable pub strlen : List ℕ → ℕ
unfolding c_str
strlen s = length (c_str s)

-- The `n` bytes that `strncpy` writes: those of the string, then NULs.
unfoldable pub copied : ℕ → List ℕ → List ℕ
copied zero s = []
copied (suc n) [] = 0 ∷ copied n []
copied (suc n) (c ∷ s) = c ∷ copied n (if c == 0 then [] else s)

-- `strncpy(dst, src, n)`
unfoldable pub strncpy : List ℕ → List ℕ → ℕ → List ℕ
unfolding copied
strncpy dst src n = copied n src ++ drop n dst

-- Equality of lists of bytes.
unfoldable pub bytes_eq : List ℕ → List ℕ → Bool
bytes_eq [] [] = true
bytes_eq [] (d ∷ t) = false
bytes_eq (c ∷ s) [] = false
bytes_eq (c ∷ s) (d ∷ t) = c == d && bytes_eq s t

-- `strcmp(s, t) == 0`
unfoldable pub str_eq : List ℕ → List ℕ → Bool
unfolding c_str bytes_eq
str_eq s t = bytes_eq (c_str s) (c_str t)

-- `strncmp(s, t, n) == 0`
unfoldable pub strn_eq : List ℕ → List ℕ → ℕ → Bool
unfolding c_str bytes_eq
strn_eq s t n = bytes_eq (take n (c_str s)) (take n (c_str t))

-- `strchr(s, c) != NULL`, for a `c` that is not NUL.
unfoldable pub has_char : List ℕ → ℕ → Bool
has_char [] c = false
has_char (d ∷ s) c = if d == 0 then false else if d == c then true else has_char s c

pub length-copied : (n : ℕ) (s : List ℕ) → length (copied n s) ≡ n
unfolding copied
length-copied zero s = refl
length-copied (suc n) [] = ap suc (length-copied n [])
length-copied (suc n) (c ∷ s) = ap suc (length-copied n (if c == 0 then [] else s))

c_str-copied_nil : (n : ℕ) (rest : List ℕ) → c_str (copied (suc n) [] ++ rest) ≡ []
unfolding c_str copied
c_str-copied_nil n rest = refl

-- What a copy of at most `n` bytes with a NUL behind it reads as: the string, cut off at `n` bytes.
pub c_str-copied : (n : ℕ) (s rest : List ℕ) → c_str (copied n s ++ 0 ∷ rest) ≡ take n (c_str s)
unfolding c_str copied
c_str-copied zero s rest = refl
c_str-copied (suc n) [] rest = refl
c_str-copied (suc n) (c ∷ s) rest = elim (Bool-cases (c == 0)) [
  | inl e ↦ rw e refl
  | inr e ↦ rw e (rw (c_str-copied n s rest))
]

pub bytes_eq_refl : (s : List ℕ) → bytes_eq s s ≡ true
unfolding bytes_eq
bytes_eq_refl [] = refl
bytes_eq_refl (c ∷ s) = ground (arith, bytes_eq_refl s)

pub bytes_eq→eq : (s t : List ℕ) → bytes_eq s t ≡ true → s ≡ t
unfolding bytes_eq
bytes_eq→eq [] [] h = refl
bytes_eq→eq [] (d ∷ t) h = cc
bytes_eq→eq (c ∷ s) [] h = cc
bytes_eq→eq (c ∷ s) (d ∷ t) h = ground (arith, bytes_eq→eq s t)

pub length-c_str : (s : List ℕ) → length (c_str s) ≤ length s
unfolding c_str
length-c_str [] = omega arith
length-c_str (c ∷ s) = ground (arith, length-c_str s)

-- A name in an array of `n` bytes that is zeroed and then filled by `strncpy(name, src, n - 1)`.
unfoldable pub name_field : ℕ → List ℕ → List ℕ
unfolding strncpy
name_field n src = strncpy (replicate n 0) src (n - 1)

pub length-strncpy :
    (dst src : List ℕ) (n : ℕ) → n ≤ length dst → length (strncpy dst src n) ≡ length dst
unfolding strncpy
length-strncpy dst src n h =
    omega (arith, length-append (copied n src) (drop n dst), length-copied n src, length-drop n dst)

pub length-name_field : (n : ℕ) (src : List ℕ) → length (name_field n src) ≡ n
unfolding name_field
length-name_field n src =
    length-strncpy (replicate n 0) src (n - 1) (omega (arith, length-replicate {A = ℕ} n 0))
    ∙ length-replicate n 0

drop-replicate : (n : ℕ) → drop n (replicate {A = ℕ} (suc n) 0) ≡ 0 ∷ []
drop-replicate zero = refl
drop-replicate (suc n) = drop-replicate n

-- It reads back as the source, cut off at `n - 1` bytes.
pub c_str-name_field : (n : ℕ) (src : List ℕ) → c_str (name_field (suc n) src) ≡ take n (c_str src)
unfolding name_field
c_str-name_field n src =
    let e : suc n - 1 ≡ n = omega arith in rw e (rw (drop-replicate n) (c_str-copied n src []))

pub take-c_str : (s : List ℕ) → take (length (c_str s)) s ≡ c_str s
unfolding c_str
take-c_str [] = refl
take-c_str (c ∷ s) = elim (Bool-cases (c == 0)) [
  | inl e ↦ rw e refl
  | inr e ↦ rw e (ap (λ t. c ∷ t) (take-c_str s))
]
