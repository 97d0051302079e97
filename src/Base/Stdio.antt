-- ===== src/Base/Stdio.antt =====
-- The input functions of C's stdio.h that the collectors use, over the bytes that a file still holds:
-- `fgets`, the conversions of `sscanf` and `fscanf`, and skipping the rest of a line by `fgetc`.
use trace_fox.Base.{
  ℕ, zero, suc, ◌+◌, ◌-◌, ◌*◌, ◌%◌, ◌^◌, Bool, true, false, ◌&&◌, ◌||◌, Option, none, some, List,
  [], ◌∷◌, ◌++◌, ltb, leb, ◌==◌, if◌then◌else◌,
}
use Prim.Native.Char.{code}
use Prim.Native.String.{String}

-- The bytes of an ASCII literal.
abbrev pub codes : String → List ℕ
codes String.[] = []
codes (String.◌∷◌ c s) = code c ∷ codes s

-- `isspace` and `isdigit` in the C locale.
unfoldable pub isspace : ℕ → Bool
isspace c = c == 32 || (leb 9 c && leb c 13)

unfoldable pub isdigit : ℕ → Bool
isdigit c = leb b'0' c && leb c b'9'

unfoldable pub skip_space : List ℕ → List ℕ
unfolding isspace
skip_space [] = []
skip_space (c ∷ s) = let rest = skip_space s in if isspace c then rest else c ∷ s

-- What `fgets` with room for `n` bytes and a NUL stores, and what the stream still holds.
unfoldable pub line_of : ℕ → List ℕ → List ℕ × List ℕ
line_of zero s = ([], s)
line_of (suc n) [] = ([], [])
line_of (suc n) (c ∷ s) =
    let (line, rest) = line_of n s in if c == 10 then (c ∷ [], s) else (c ∷ line, rest)

-- `fgets(line, size, fp)`: NULL at the end of the file.
unfoldable pub fgets : ℕ → List ℕ → Option (List ℕ × List ℕ)
unfolding line_of
fgets size [] = none
fgets size (c ∷ s) = some (line_of (size - 1) (c ∷ s))

-- `while ((c = fgetc(fp)) != '\n' && c != EOF);`
unfoldable pub skip_line : List ℕ → List ℕ
skip_line [] = []
skip_line (c ∷ s) = let rest = skip_line s in if c == 10 then s else rest

-- The leading digits of a text as a number, and whether there were any.
unfoldable pub digits_of : ℕ → Bool → List ℕ → ℕ × Bool × List ℕ
unfolding isdigit
digits_of acc any [] = (acc, any, [])
digits_of acc any (c ∷ s) =
    let more = digits_of (acc * 10 + (c - b'0')) true s in
    if isdigit c then more else (acc, any, c ∷ s)

-- A sign in front of a number: whether it is a minus, and the text behind it.
unfoldable pub sign_of : List ℕ → Bool × List ℕ
sign_of [] = (false, [])
sign_of (c ∷ s) = if c == b'-' then (true, s) else if c == b'+' then (false, s) else (false, c ∷ s)

-- The unsigned 64-bit conversion: it stops at the largest value, and a minus negates modulo 2 ^ 64.
unfoldable pub to_u64 : Bool → ℕ → ℕ
to_u64 minus n =
    if ltb (2 ^ 64 - 1) n then 2 ^ 64 - 1 else if minus then (2 ^ 64 - n) % 2 ^ 64 else n

-- `%u`, `%lu` or `%llu`, and `strtoull`: the number and the text behind it.
unfoldable pub scan_uint : List ℕ → Option (ℕ × List ℕ)
unfolding skip_space digits_of sign_of to_u64
scan_uint s =
    let (minus, t) = sign_of (skip_space s) in
    let (n, any, rest) = digits_of 0 false t in if any then some (to_u64 minus n, rest) else none

-- At most `n` bytes that are no white space.
unfoldable pub word_of : ℕ → List ℕ → List ℕ × List ℕ
unfolding isspace
word_of zero s = ([], s)
word_of (suc n) [] = ([], [])
word_of (suc n) (c ∷ s) =
    let (word, rest) = word_of n s in if isspace c then ([], c ∷ s) else (c ∷ word, rest)

-- At most `n` bytes other than `stop`.
unfoldable pub until : ℕ → ℕ → List ℕ → List ℕ × List ℕ
until stop zero s = ([], s)
until stop (suc n) [] = ([], [])
until stop (suc n) (c ∷ s) =
    let (word, rest) = until stop n s in if c == stop then ([], c ∷ s) else (c ∷ word, rest)

pub data Value : Type 0 where
  num : ℕ → Value
  text : List ℕ → Value

-- `%u` or `%d` of a width in bits (the stored bit pattern), `%*u`, `%Ns`, `%N[^c]`, a literal byte, white space.
pub data Directive : Type 0 where
  unsigned : ℕ → Directive
  skipped : Directive
  word : ℕ → Directive
  span : ℕ → ℕ → Directive
  literal : ℕ → Directive
  space : Directive

unfoldable pub non_empty : List ℕ × List ℕ → Option (List Value × List ℕ)
non_empty ([], rest) = none
non_empty (c ∷ s, rest) = some (text (c ∷ s) ∷ [], rest)

-- One directive: what it assigns, and the text behind it; `none` if it does not match.
unfoldable pub scan_one : Directive → List ℕ → Option (List Value × List ℕ)
unfolding scan_uint word_of until non_empty skip_space
scan_one (unsigned bits) s = elim (scan_uint s) [
  | none ↦ none
  | some (n, rest) ↦ some (num (n % 2 ^ bits) ∷ [], rest)
]
scan_one skipped s = elim (scan_uint s) [ none ↦ none | some (n, rest) ↦ some ([], rest) ]
scan_one (word n) s = non_empty (word_of n (skip_space s))
scan_one (span n stop) s = non_empty (until stop n s)
scan_one (literal c) [] = none
scan_one (literal c) (d ∷ s) = if d == c then some ([], s) else none
scan_one space s = some ([], skip_space s)

-- `sscanf` and `fscanf`: the values assigned before the first directive that does not match, and the
-- text that is left. The number of values is the result of the C function (for EOF see the callers,
-- which compare it with a positive number only).
unfoldable pub scanf : List Directive → List ℕ → List Value × List ℕ
unfolding scan_one
scanf [] s = ([], s)
scanf (d ∷ ds) s = elim (scan_one d s) [
  | none ↦ ([], s)
  | some (vs, rest) ↦ (vs ++ (scanf ds rest).0, (scanf ds rest).1)
]

-- The directives that match a literal text byte by byte.
abbrev pub literals : List ℕ → List Directive
literals [] = []
literals (c ∷ s) = literal c ∷ literals s

-- The values that successive calls of `fgets` with room for `max` bytes yield; `left` is the room in
-- the current line.
push_byte : ℕ → List (List ℕ) → List (List ℕ)
push_byte c [] = (c ∷ []) ∷ []
push_byte c (l ∷ ls) = (c ∷ l) ∷ ls

unfoldable pub chunks : ℕ → ℕ → List ℕ → List (List ℕ)
unfolding push_byte
chunks max left [] = []
chunks max left (c ∷ s) =
    let ends = c == 10 || leb left 1 in
    let rest = chunks max (if ends then max else left - 1) s in
    if ends then (c ∷ []) ∷ rest else push_byte c rest

-- Every line that `while (fgets(line, size, fp))` sees.
unfoldable pub lines_of : ℕ → List ℕ → List (List ℕ)
unfolding chunks
lines_of size s = chunks (size - 1) (size - 1) s
