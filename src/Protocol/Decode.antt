-- ===== src/Protocol/Decode.antt =====
-- The operations of Python on `bytes` that the parser uses.
use trace_fox.Base.{
  ℕ, ◌+◌, ◌-◌, Bool, ◌&&◌, ◌||◌, none, some, List, [], ◌∷◌, ltb, leb, ◌==◌, if◌then◌else◌, length,
  get_elem?, take, drop,
}
use trace_fox.Base.CString.{c_str}
use trace_fox.Base.Stdio.{isspace}
use trace_fox.Bytes.{from_be}
use trace_fox.Protocol.{Outcome, parsed, raised}

-- `b[p : q]`
unfoldable pub slice : List ℕ → ℕ → ℕ → List ℕ
slice b p q = take (q - p) (drop p b)

-- `b[p]`
unfoldable pub byte_at : List ℕ → ℕ → Outcome ℕ
byte_at b p = elim (get_elem? b p) [ none ↦ raised | some c ↦ parsed c ]

abbrev pub sum : List ℕ → ℕ
sum [] = 0
sum (n ∷ ns) = n + sum ns

-- Unsigned big-endian integers of the given widths, one after the other.
unfoldable pub fields : List ℕ → List ℕ → List ℕ
fields [] b = []
fields (n ∷ ns) b = from_be (take n b) ∷ fields ns (drop n b)

-- `struct.unpack(">…", b)` for a format of unsigned integers of these widths.
unfoldable pub unpack : List ℕ → List ℕ → Outcome (List ℕ)
unpack widths b = if length b == sum widths then parsed (fields widths b) else raised

-- `(v,) = …` and `…[0]`
unfoldable pub single : List ℕ → Outcome ℕ
single (v ∷ []) = parsed v
single _ = raised

-- `decode("ascii", "ignore")`
unfoldable pub ascii : List ℕ → List ℕ
ascii [] = []
ascii (c ∷ s) = let rest = ascii s in if ltb c 128 then c ∷ rest else rest

-- `b.split(b"\x00", 1)[0].decode("ascii", "ignore")`
unfoldable pub name_of : List ℕ → List ℕ
name_of b = ascii (c_str b)

-- `str.isspace` on ASCII, which has four separators more than `isspace` of C.
unfoldable pub is_strip_space : ℕ → Bool
unfolding isspace
is_strip_space c = isspace c || (leb 28 c && leb c 31)

unfoldable pub lstrip : List ℕ → List ℕ
unfolding is_strip_space
lstrip [] = []
lstrip (c ∷ s) = let rest = lstrip s in if is_strip_space c then rest else c ∷ s

unfoldable pub rstrip : List ℕ → List ℕ
unfolding is_strip_space
rstrip [] = []
rstrip (c ∷ s) = elim (rstrip s) [
  | [] ↦ if is_strip_space c then [] else c ∷ []
  | d ∷ t ↦ c ∷ d ∷ t
]

-- `str.strip()`
unfoldable pub strip : List ℕ → List ℕ
strip s = rstrip (lstrip s)
