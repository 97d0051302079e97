-- ===== src/Protocol/Segment.antt =====
-- Reading a value of which the bytes from a position on are known.
use trace_fox.Base.{
  ℕ, zero, suc, ◌+◌, ◌-◌, ◌≤◌, ◌<◌, ◌≡◌, refl, sym, ap, ◌∙◌, some, List, [], ◌∷◌, ◌++◌,
  append_assoc, arith, length, get_elem?, take, drop, length-append, length-drop, take-append,
  drop-append, drop-drop,
}
use trace_fox.Base.CString.{c_str, name_field, c_str-name_field}
use trace_fox.Bytes.{be16, IsU16, from_be-be16}
use trace_fox.Protocol.{parsed}
use trace_fox.Protocol.Decode.{slice, ascii, name_of, unpack, fields, byte_at}

-- From position `p` on, `val` holds the segment `a` and then `rest`.
abbrev pub Holds : List ℕ → ℕ → List ℕ → List ℕ → Type 0
Holds val p a rest = drop p val ≡ a ++ rest

module _ (val : List ℕ) (i j : ℕ) (a rest : List ℕ) where
  pub slice-Holds : Holds val i a rest → j ≡ i + length a → slice val i j ≡ a
  unfolding slice
  slice-Holds h e =
      let size : j - i ≡ length a = omega arith in rw (size, h) (take-append (length a) a rest refl)

  pub drop-Holds : Holds val i a rest → j ≡ i + length a → drop j val ≡ rest
  drop-Holds h e =
      ap (λ k. drop k val) e
      ∙ sym (drop-drop i (length a) val)
      ∙ ap (drop (length a)) h
      ∙ drop-append (length a) a rest refl

  pub le-Holds : Holds val i a rest → j ≡ i + length a → 0 < length a → j ≤ length val
  le-Holds h e pos = omega (arith, ap (length {A = ℕ}) h, length-append a rest, length-drop i val)

-- A segment in two parts.
pub Holds-append :
    (val : List ℕ) (p : ℕ) (a b rest : List ℕ)
    → Holds val p (a ++ b) rest
    → Holds val p a (b ++ rest)
Holds-append val p a b rest h = h ∙ append_assoc a b rest

pub Holds-next :
    (val : List ℕ) (i j : ℕ) (a b rest : List ℕ)
    → Holds val i (a ++ b) rest
    → j ≡ i + length a
    → Holds val j b rest
Holds-next val i j a b rest h e = drop-Holds val i j a (b ++ rest) (Holds-append val i a b rest h) e

pub name_of-name_field :
    (n : ℕ) (src : List ℕ) → name_of (name_field (suc n) src) ≡ ascii (take n (c_str src))
unfolding name_of
name_of-name_field n src = ap ascii (c_str-name_field n src)

-- The fields of two, four and eight bytes that the agent writes.
pub unpack-be16 : (v : ℕ) → IsU16 v → unpack (2 ∷ []) (be16 v) ≡ parsed (v ∷ [])
unfolding unpack fields
unpack-be16 v h = ap (λ t. parsed (t ∷ [])) (from_be-be16 v h)

get_elem?-drop :
    (val : List ℕ) (i b : ℕ) (rest : List ℕ) → drop i val ≡ b ∷ rest → get_elem? val i ≡ some b
get_elem?-drop [] zero b rest h = cc
get_elem?-drop [] (suc i) b rest h = cc
get_elem?-drop (x ∷ val) zero b rest h = cc
get_elem?-drop (x ∷ val) (suc i) b rest h = get_elem?-drop val i b rest h

pub byte_at-Holds :
    (val : List ℕ) (i b : ℕ) (rest : List ℕ) → drop i val ≡ b ∷ rest → byte_at val i ≡ parsed b
unfolding byte_at
byte_at-Holds val i b rest h = rw (get_elem?-drop val i b rest h, byte_at)
