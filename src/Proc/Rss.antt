-- ===== src/Proc/Rss.antt =====
-- agent/src/proc.c: `parse_rss_kb`, over the contents of /proc/<pid>/status and /proc/<pid>/statm, `none` where a file cannot be
-- opened.
use trace_fox.Base.{
  ℕ, zero, suc, ◌+◌, ◌*◌, ◌%◌, ◌^◌, ◌<◌, ◌≡◌, refl, ap, ◌∙◌, ◌≢◌, ◌⊎◌, inl, inr, false, Option,
  none, some, List, [], ◌∷◌, ◌++◌, arith, ltb, if◌then◌else◌, ne→==_false, Bool-cases, Option-cases,
  length,
}
use trace_fox.Base.Scan.{IfSome, scanf-some, scanf-none, scanf-word, skip_line-le}
use trace_fox.Base.Stdio.{
  isspace, isdigit, skip_space, sign_of, digits_of, scan_uint, scan_one, word_of, non_empty, codes,
  Value, num, text, Directive, unsigned, word, space, scanf, skip_line,
}
use trace_fox.Base.CString.{str_eq}

-- "%63s %lu %15s"
abbrev pub status_format : List Directive
status_format = word 63 ∷ space ∷ unsigned 64 ∷ space ∷ word 15 ∷ []

unfoldable pub status_values : List Value → Option (List ℕ × ℕ)
status_values (text key ∷ num value ∷ text unit ∷ []) = some (key, value)
status_values _ = none

-- `fscanf(…) == 3`, with what is left of the file.
unfoldable pub next_status : List ℕ → Option (List ℕ × ℕ × List ℕ)
unfolding status_values
next_status file =
    let (values, rest) = scanf status_format file in
    elim (status_values values) [ none ↦ none | some (key, value) ↦ some (key, value, rest) ]

-- The loop over the lines, on fuel: the size in the line of `VmRSS`, or 0 where the loop leaves without one. `none` is
-- that the fuel ran out.
unfoldable pub status_loop : ℕ → List ℕ → Option ℕ
status_loop zero file = none
status_loop (suc fuel) file = elim (next_status file) [
  | none ↦ some 0
  | some (key, value, rest) ↦
      let more = status_loop fuel (skip_line rest) in
      if str_eq key (codes "VmRSS:") then some value else more
]

-- `status_fp`: nothing where the file cannot be opened.
unfoldable pub status_rss : Option (List ℕ) → Option ℕ
status_rss none = some 0
status_rss (some file) = status_loop (length file + 1) file

-- "%lu %lu"
abbrev pub statm_format : List Directive
statm_format = unsigned 64 ∷ space ∷ unsigned 64 ∷ []

unfoldable pub statm_values : List Value → Option ℕ
statm_values (num total_pages ∷ num rss_pages ∷ []) = some rss_pages
statm_values _ = none

-- The size from /proc/<pid>/statm; `page_kb` is the size of a page.
unfoldable pub statm_rss : ℕ → Option (List ℕ) → ℕ
unfolding statm_values
statm_rss page_kb none = 0
statm_rss page_kb (some file) = elim (statm_values (scanf statm_format file).0) [
  | none ↦ 0
  | some rss_pages ↦ rss_pages * page_kb % 2 ^ 64 % 2 ^ 32
]

-- A positive size in the status file is the result; otherwise the other file is read.
unfoldable pub parse_rss_kb : ℕ → Option (List ℕ) → Option (List ℕ) → Option ℕ
parse_rss_kb page_kb status statm = elim (status_rss status) [
  | none ↦ none
  | some value ↦ if ltb 0 value then some (value % 2 ^ 32) else some (statm_rss page_kb statm)
]

next_status-lt : (file : List ℕ) → IfSome (λ r. length r.2 < length file) (next_status file)
unfolding next_status
next_status-lt file = go (scanf status_format file) (scanf-word 63 _ file)
  where
    go :
        (r : List Value × List ℕ)
        → ((r.0 ≡ []) ⊎ (length r.1 < length file))
        → IfSome
            (λ (s : List ℕ × ℕ × List ℕ). length s.2 < length file)
            (elim (status_values r.0) [ none ↦ none | some (key, value) ↦ some (key, value, r.1) ])
    go (vs, rest) (inl nothing) = rw (nothing, status_values) tt
    go (vs, rest) (inr less) = elim (Option-cases (status_values vs)) [
      | inl e ↦ rw e tt
      | inr ((key, value), e) ↦ rw e less
    ]

status_loop_total :
    (fuel : ℕ) (file : List ℕ) → length file < fuel → (v : ℕ) × (status_loop fuel file ≡ some v)
unfolding status_loop
status_loop_total zero file enough = absurd (omega arith)
status_loop_total (suc fuel) file enough = elim (Option-cases (next_status file)) [
  | inl n ↦ (0, rw (n, status_loop) refl)
  | inr ((key, value, rest), n) ↦
      let less : length rest < length file = rw n at (next_status-lt file) in
      elim (Bool-cases (str_eq key (codes "VmRSS:"))) [
        | inl e ↦ (value, rw (n, e, status_loop) refl)
        | inr e ↦
            rw (n, e, status_loop)
              (status_loop_total fuel (skip_line rest) (omega (arith, skip_line-le rest)))
      ]
]

status_rss_total : (status : Option (List ℕ)) → (v : ℕ) × (status_rss status ≡ some v)
unfolding status_rss
status_rss_total none = (0, refl)
status_rss_total (some file) = status_loop_total (length file + 1) file (omega arith)

statm_rss-lt : (page_kb : ℕ) (statm : Option (List ℕ)) → statm_rss page_kb statm < 2 ^ 32
unfolding statm_rss
statm_rss-lt page_kb none = omega arith
statm_rss-lt page_kb (some file) = elim (Option-cases (statm_values (scanf statm_format file).0)) [
  | inl e ↦ rw (e, statm_rss) (omega arith)
  | inr (n, e) ↦ rw (e, statm_rss) (omega arith)
]

-- Whatever the two files hold, `parse_rss_kb` ends, its fuel being enough, with a 32-bit size.
pub parse_rss_kb-IsU32 :
    (page_kb : ℕ) (status statm : Option (List ℕ))
    → (kb : ℕ) × (parse_rss_kb page_kb status statm ≡ some kb) × (kb < 2 ^ 32)
unfolding parse_rss_kb
parse_rss_kb-IsU32 page_kb status statm =
    let (v, e) = status_rss_total status in
    elim (Bool-cases (ltb 0 v)) [
      | inl p ↦ (v % 2 ^ 32, rw (e, p, parse_rss_kb) refl, omega arith)
      | inr p ↦ (statm_rss page_kb statm, rw (e, p, parse_rss_kb) refl, statm_rss-lt page_kb statm)
    ]

-- The status file of a process whose name does not start with white space, a digit or a sign: its first line is the
-- name, behind "Name:" and a tab.
abbrev pub named_status : ℕ → List ℕ → List ℕ
named_status c s = codes "Name:" ++ 9 ∷ c ∷ s

no_number :
    (c : ℕ) (s : List ℕ)
    → isspace c ≡ false
    → isdigit c ≡ false
    → c ≢ b'-'
    → c ≢ b'+'
    → scan_uint (c ∷ s) ≡ none
unfolding scan_uint skip_space sign_of digits_of
no_number c s white digit minus plus =
    rw (white, ne→==_false c b'-' minus, ne→==_false c b'+' plus, digit, scan_uint) refl

key_scanned :
    (t : List ℕ)
    → scan_one (word 63) (codes "Name:" ++ 9 ∷ t) ≡ some (text (codes "Name:") ∷ [], 9 ∷ t)
unfolding scan_one word_of isspace non_empty skip_space
key_scanned t = refl

space_scanned :
    (c : ℕ) (s : List ℕ) → isspace c ≡ false → scan_one space (9 ∷ c ∷ s) ≡ some ([], c ∷ s)
unfolding scan_one skip_space
space_scanned c s white = rw (white, skip_space) refl

number_scanned : (s : List ℕ) → scan_uint s ≡ none → scan_one (unsigned 64) s ≡ none
unfolding scan_one
number_scanned s h = rw (h, scan_one) refl

named_scanf :
    (c : ℕ) (s : List ℕ)
    → isspace c ≡ false
    → scan_uint (c ∷ s) ≡ none
    → scanf status_format (named_status c s) ≡ (text (codes "Name:") ∷ [], c ∷ s)
named_scanf c s white number =
    scanf-some (word 63) _ (named_status c s) (9 ∷ c ∷ s) _ (key_scanned (c ∷ s))
    ∙ ap (λ (r : List Value × List ℕ). (text (codes "Name:") ∷ r.0, r.1))
        (scanf-some space _ (9 ∷ c ∷ s) (c ∷ s) [] (space_scanned c s white)
          ∙ scanf-none (unsigned 64) _ (c ∷ s) (number_scanned (c ∷ s) number))

short_scan :
    (file rest name : List ℕ)
    → scanf status_format file ≡ (text name ∷ [], rest)
    → next_status file ≡ none
unfolding next_status
short_scan file rest name h = rw (h, next_status) refl

named_status-none :
    (c : ℕ) (s : List ℕ)
    → isspace c ≡ false
    → scan_uint (c ∷ s) ≡ none
    → next_status (named_status c s) ≡ none
named_status-none c s white number =
    short_scan (named_status c s) (c ∷ s) (codes "Name:") (named_scanf c s white number)

named_loop :
    (fuel : ℕ) (file : List ℕ) → next_status file ≡ none → status_loop (suc fuel) file ≡ some 0
unfolding status_loop
named_loop fuel file h = rw (h, status_loop) refl

named_rss : (file : List ℕ) → next_status file ≡ none → status_rss (some file) ≡ some 0
unfolding status_rss
named_rss file h =
    let more : length file + 1 ≡ suc (length file) = omega arith in
    rw more (named_loop (length file) file h)

-- A process whose name does not start with white space, a digit or a sign: the loop over its status file leaves at
-- the first line, for the name is not a number, so that the line of `VmRSS` is never read. The result is always that
-- of the other file.
pub parse_rss_kb_named :
    (page_kb c : ℕ) (s : List ℕ) (statm : Option (List ℕ))
    → isspace c ≡ false
    → isdigit c ≡ false
    → c ≢ b'-'
    → c ≢ b'+'
    → parse_rss_kb page_kb (some (named_status c s)) statm ≡ some (statm_rss page_kb statm)
unfolding parse_rss_kb
parse_rss_kb_named page_kb c s statm white digit minus plus =
    let none_read = named_status-none c s white (no_number c s white digit minus plus) in
    rw (named_rss (named_status c s) none_read, parse_rss_kb) refl
