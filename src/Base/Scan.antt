-- ===== src/Base/Scan.antt =====
-- What `scanf` assigns and how much of the text it takes.
use trace_fox.Base.{
  ℕ, zero, suc, ◌+◌, ◌-◌, ◌*◌, ◌%◌, ◌^◌, ◌≤◌, ◌<◌, ◌≡◌, refl, ◌⊎◌, inl, inr, Bool, true, false,
  Option, none, some, List, [], ◌∷◌, ◌++◌, arith, ◌==◌, Bool-cases, length, All, All-append,
}
use trace_fox.Base.Stdio.{
  isspace, isdigit, skip_space, digits_of, sign_of, to_u64, scan_uint, word_of, until, Value, num,
  text, Directive, unsigned, skipped, word, span, literal, space, scan_one, scanf, non_empty,
  skip_line,
}

-- A number that fits a 64-bit word; nothing of a text.
abbrev pub IsWord : Value → Type 0
IsWord (num n) = n < 2 ^ 64
IsWord (text s) = Unit

to_u64-lt : (minus : Bool) (n : ℕ) → to_u64 minus n < 2 ^ 64
unfolding to_u64
to_u64-lt minus n = ground arith

-- The outcome of a conversion that takes nothing back: no more text than before.
skip_space-le : (s : List ℕ) → length (skip_space s) ≤ length s
unfolding skip_space
skip_space-le [] = omega arith
skip_space-le (c ∷ s) = let h = skip_space-le s in ground arith

sign_of-le : (s : List ℕ) → length (sign_of s).1 ≤ length s
unfolding sign_of
sign_of-le [] = omega arith
sign_of-le (c ∷ s) = ground arith

digits_of-le : (acc : ℕ) (any : Bool) (s : List ℕ) → length (digits_of acc any s).2 ≤ length s
unfolding digits_of
digits_of-le acc any [] = omega arith
digits_of-le acc any (c ∷ s) =
    let h = digits_of-le (acc * 10 + (c - b'0')) true s in
    elim (Bool-cases (isdigit c)) [ inl e ↦ rw e (omega arith) | inr e ↦ rw e (omega arith) ]

word_of-le : (n : ℕ) (s : List ℕ) → length (word_of n s).0 + length (word_of n s).1 ≡ length s
unfolding word_of
word_of-le zero s = omega arith
word_of-le (suc n) [] = refl
word_of-le (suc n) (c ∷ s) =
    let h = word_of-le n s in
    elim (Bool-cases (isspace c)) [ inl e ↦ rw e (omega arith) | inr e ↦ rw e (omega arith) ]

until-le :
    (stop n : ℕ) (s : List ℕ) → length (until stop n s).0 + length (until stop n s).1 ≡ length s
unfolding until
until-le stop zero s = omega arith
until-le stop (suc n) [] = refl
until-le stop (suc n) (c ∷ s) =
    let h = until-le stop n s in
    elim (Bool-cases (c == stop)) [ inl e ↦ rw e (omega arith) | inr e ↦ rw e (omega arith) ]

pub skip_line-le : (s : List ℕ) → length (skip_line s) ≤ length s
unfolding skip_line
skip_line-le [] = omega arith
skip_line-le (c ∷ s) =
    let h = skip_line-le s in
    elim (Bool-cases (c == 10)) [ inl e ↦ rw e (omega arith) | inr e ↦ rw e (omega arith) ]

-- A predicate on a value that may be missing.
abbrev pub IfSome {ℓ κ} : {A : Type ℓ} → (A → Type κ) → Option A → Type κ
IfSome P none = Unit
IfSome P (some a) = P a

scan_uint_lem : (s : List ℕ) → IfSome (λ r. (r.0 < 2 ^ 64) × (length r.1 ≤ length s)) (scan_uint s)
unfolding scan_uint
scan_uint_lem s =
    let t = sign_of (skip_space s) in
    let d = digits_of 0 false t.1 in
    let h1 = skip_space-le s in
    let h2 = sign_of-le (skip_space s) in
    let h3 = digits_of-le 0 false t.1 in
    let h4 = to_u64-lt t.0 d.0 in
    elim (Bool-cases d.1) [ inl e ↦ rw e (h4, omega arith) | inr e ↦ rw e tt ]

-- What one directive leaves.
abbrev Scanned : List ℕ → List Value × List ℕ → Type 0
Scanned s r = All IsWord r.0 × (length r.1 ≤ length s)

mod_small : (n m : ℕ) → n % m ≤ n
mod_small n m = ground arith

unsigned_lem : (bits : ℕ) (s : List ℕ) → IfSome (Scanned s) (scan_one (unsigned bits) s)
unfolding scan_one
unsigned_lem bits s = go (scan_uint s) (scan_uint_lem s)
  where
    go :
        (r : Option (ℕ × List ℕ))
        → IfSome (λ r. (r.0 < 2 ^ 64) × (length r.1 ≤ length s)) r
        → IfSome
            (Scanned s)
            (elim r [ none ↦ none | some (n, rest) ↦ some (num (n % 2 ^ bits) ∷ [], rest) ])
    go none h = tt
    go (some (n, rest)) (lt, le) = ((omega (arith, mod_small n (2 ^ bits)), tt), le)

skipped_lem : (s : List ℕ) → IfSome (Scanned s) (scan_one skipped s)
unfolding scan_one
skipped_lem s = go (scan_uint s) (scan_uint_lem s)
  where
    go :
        (r : Option (ℕ × List ℕ))
        → IfSome (λ r. (r.0 < 2 ^ 64) × (length r.1 ≤ length s)) r
        → IfSome (Scanned s) (elim r [ none ↦ none | some (n, rest) ↦ some ([], rest) ])
    go none h = tt
    go (some (n, rest)) (lt, le) = (tt, le)

non_empty_lem :
    (r : List ℕ × List ℕ) (s : List ℕ)
    → length r.0 + length r.1 ≤ length s
    → IfSome (λ v. All IsWord v.0 × (length v.1 < length s)) (non_empty r)
unfolding non_empty
non_empty_lem ([], rest) s h = tt
non_empty_lem (c ∷ w, rest) s h = ((tt, tt), omega arith)

word_lem :
    (n : ℕ) (s : List ℕ)
    → IfSome (λ v. All IsWord v.0 × (length v.1 < length s)) (scan_one (word n) s)
unfolding scan_one
word_lem n s =
    non_empty_lem (word_of n (skip_space s)) s
      (omega (arith, word_of-le n (skip_space s), skip_space-le s))

IfSome-map :
    {A : Type 0} {P Q : A → Type 0}
    → ((a : A) → P a → Q a)
    → (m : Option A) → IfSome P m
    → IfSome Q m
IfSome-map f none h = tt
IfSome-map f (some a) h = f a h

strict_lem :
    (s : List ℕ) (m : Option (List Value × List ℕ))
    → IfSome (λ v. All IsWord v.0 × (length v.1 < length s)) m
    → IfSome (Scanned s) m
strict_lem s m h = IfSome-map (λ v p. (p.0, omega (arith, p.1))) m h

scan_one_lem : (d : Directive) (s : List ℕ) → IfSome (Scanned s) (scan_one d s)
unfolding scan_one
scan_one_lem (unsigned bits) s = unsigned_lem bits s
scan_one_lem skipped s = skipped_lem s
scan_one_lem (word n) s = strict_lem s (scan_one (word n) s) (word_lem n s)
scan_one_lem (span n stop) s =
    strict_lem s (scan_one (span n stop) s)
      (non_empty_lem (until stop n s) s (omega (arith, until-le stop n s)))
scan_one_lem (literal c) [] = tt
scan_one_lem (literal c) (d ∷ s) = elim (Bool-cases (d == c)) [
  | inl e ↦ rw e (tt, omega arith)
  | inr e ↦ rw e tt
]
scan_one_lem space s = (tt, skip_space-le s)

-- Every number that `scanf` assigns fits a word, and no text is left that was not there.
pub scanf_lem : (ds : List Directive) (s : List ℕ) → Scanned s (scanf ds s)
unfolding scanf
scanf_lem [] s = (tt, omega arith)
scanf_lem (d ∷ ds) s = go (λ rest. scanf_lem ds rest) (scan_one d s) (scan_one_lem d s)
  where
    go :
        ((rest : List ℕ) → Scanned rest (scanf ds rest))
        → (m : Option (List Value × List ℕ)) → IfSome (Scanned s) m
        → Scanned s (elim m [
          | none ↦ ([], s)
          | some (vs, rest) ↦ (vs ++ (scanf ds rest).0, (scanf ds rest).1)
        ])
    go ih none h = (tt, omega arith)
    go ih (some (vs, rest)) (words, le) =
        let (more, le') = ih rest in
        (All-append IsWord vs (scanf ds rest).0 words more, omega arith)

-- A format that begins with a word takes a byte at least, or assigns nothing.
pub scanf-word :
    (n : ℕ) (ds : List Directive) (s : List ℕ)
    → ((scanf (word n ∷ ds) s).0 ≡ []) ⊎ (length (scanf (word n ∷ ds) s).1 < length s)
unfolding scanf
scanf-word n ds s = go (scan_one (word n) s) (word_lem n s)
  where
    go :
        (m : Option (List Value × List ℕ))
        → IfSome (λ v. All IsWord v.0 × (length v.1 < length s)) m
        → let out : List Value × List ℕ = elim m [
          | none ↦ ([], s)
          | some (vs, rest) ↦ (vs ++ (scanf ds rest).0, (scanf ds rest).1)
        ] in
          (out.0 ≡ []) ⊎ (length out.1 < length s)
    go none h = inl refl
    go (some (vs, rest)) (words, lt) = inr (omega (arith, (scanf_lem ds rest).1))

-- A directive that matches, and one that fails.
pub scanf-some :
    (d : Directive) (ds : List Directive) (s rest : List ℕ) (vs : List Value)
    → scan_one d s ≡ some (vs, rest)
    → scanf (d ∷ ds) s ≡ (vs ++ (scanf ds rest).0, (scanf ds rest).1)
unfolding scanf
scanf-some d ds s rest vs h = rw (h, scanf) refl

pub scanf-none :
    (d : Directive) (ds : List Directive) (s : List ℕ)
    → scan_one d s ≡ none
    → scanf (d ∷ ds) s ≡ ([], s)
unfolding scanf
scanf-none d ds s h = rw (h, scanf) refl
