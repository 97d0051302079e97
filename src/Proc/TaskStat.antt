-- ===== src/Proc/TaskStat.antt =====
-- agent/src/proc.c: `parse_task_stat`, over the contents of /proc/<pid>/stat or /proc/<pid>/task/<tid>/stat, `none`
-- where the file cannot be opened.
use trace_fox.Base.{
  ℕ, zero, suc, ◌+◌, ◌-◌, ◌^◌, ◌≤◌, ◌<◌, min, inl, inr, Bool, false, ◌&&◌, ◌||◌, not, Option, none,
  some, List, [], ◌∷◌, arith, ltb, leb, ◌==◌, if◌then◌else◌, ltb→lt, Bool-cases, Option-cases,
  add64, length, take, drop, length-take, and_right,
}
use trace_fox.Base.CString.{c_str}
use trace_fox.Base.Scan.{IfSome}
use trace_fox.Base.Stdio.{isspace, skip_space, sign_of, digits_of, to_u64, fgets}
use trace_fox.Proc.{TaskInfo}

-- `sscanf(buf, "%ld ", &id) == 1 && id > 0`; the conversion stops at the largest value.
unfoldable pub task_id : List ℕ → Option ℕ
unfolding skip_space sign_of digits_of
task_id buf =
    let (minus, t) = sign_of (skip_space buf) in
    let (n, any, rest) = digits_of 0 false t in
    if any && (not minus && ltb 0 n) then some (min n (2 ^ 63 - 1)) else none

-- `strchr(s, c)` and `strrchr(s, c)`, as distances from the start.
unfoldable pub first_index : ℕ → List ℕ → Option ℕ
first_index c [] = none
first_index c (d ∷ s) =
    let rest = first_index c s in
    if d == c then some 0 else (elim rest [ none ↦ none | some i ↦ some (i + 1) ])

unfoldable pub last_index : ℕ → List ℕ → Option ℕ
last_index c [] = none
last_index c (d ∷ s) = elim (last_index c s) [
  | some i ↦ some (i + 1)
  | none ↦ if d == c then some 0 else none
]

-- `strtoull(cursor, &number_end, 10)`; `none` is an overflow or that there are no digits.
unfoldable pub strtoull : List ℕ → Option ℕ
unfolding skip_space sign_of digits_of to_u64
strtoull s =
    let (minus, t) = sign_of (skip_space s) in
    let (n, any, rest) = digits_of 0 false t in
    if any && leb n (2 ^ 64 - 1) then some (to_u64 minus n) else none

-- The bytes from the next white space on.
unfoldable pub skip_word : List ℕ → List ℕ
unfolding isspace
skip_word [] = []
skip_word (c ∷ s) = let rest = skip_word s in if isspace c then c ∷ s else rest

-- The fields whose numbers are kept: the times in user and kernel mode, and the start time.
abbrev pub is_number_field : ℕ → Bool
is_number_field field = field == 14 || field == 15 || field == 22

-- The loop over the fields, with `left` fields to go: the numbers of those that are kept.
unfoldable pub number_fields : ℕ → ℕ → List ℕ → Option (List ℕ)
number_fields zero field cursor = some []
number_fields (suc left) field cursor =
    let here = skip_space cursor in
    let rest = number_fields left (field + 1) (skip_word here) in
    if length here == 0
    then none
    else if is_number_field field
    then (elim (strtoull here) [
      | none ↦ none
      | some v ↦ elim rest [ none ↦ none | some vs ↦ some (v ∷ vs) ]
    ])
    else rest

task_of : ℕ → List ℕ → ℕ → List ℕ → Option TaskInfo
task_of id comm state (utime ∷ stime ∷ starttime ∷ []) = some (record {
  id = id;
  comm = comm;
  state = state;
  ticks = add64 utime stime;
  starttime = starttime;
})
task_of _ _ _ _ = none

-- What follows the closing parenthesis: the state, and nineteen fields from the fourth on.
unfoldable pub task_fields : ℕ → List ℕ → List ℕ → Option TaskInfo
unfolding task_of
task_fields id comm cursor = elim (skip_space cursor) [
  | [] ↦ none
  | state ∷ s ↦ elim (number_fields 19 4 s) [ none ↦ none | some vs ↦ task_of id comm state vs ]
]

-- The name stands between the first opening and the last closing parenthesis, cut off at fifteen bytes.
unfoldable pub task_name : List ℕ → ℕ → Option (List ℕ × List ℕ)
task_name buf left = elim (last_index b')' buf) [
  | none ↦ none
  | some right ↦
      if leb right left
      then none
      else some (take (min (right - left - 1) 15) (drop (left + 1) buf), drop (right + 1) buf)
]

unfoldable pub task_line : List ℕ → Option TaskInfo
task_line buf = elim (task_id buf) [
  | none ↦ none
  | some id ↦ elim (first_index b'(' buf) [
    | none ↦ none
    | some left ↦ elim (task_name buf left) [
      | none ↦ none
      | some (comm, cursor) ↦ task_fields id comm cursor
    ]
  ]
]

unfoldable pub parse_task_stat : Option (List ℕ) → Option TaskInfo
parse_task_stat none = none
parse_task_stat (some file) = elim (fgets 512 file) [
  | none ↦ none
  | some (line, rest) ↦ task_line (c_str line)
]

-- A parsed task: a positive identifier, a name that fits its array with its NUL, and ticks that fit a word.
pub record IsTask (t : TaskInfo) : Type 0 where
  pub id : 0 < t.id
  pub comm : length t.comm ≤ 15
  pub ticks : t.ticks < 2 ^ 64

task_of-IsTask :
    (id : ℕ) (comm : List ℕ) (state : ℕ) (vs : List ℕ)
    → 0 < id
    → length comm ≤ 15
    → IfSome IsTask (task_of id comm state vs)
unfolding task_of
task_of-IsTask id comm state (u ∷ s ∷ b ∷ []) pos short = record {
  id = pos;
  comm = short;
  ticks = omega arith;
}
task_of-IsTask id comm state _ pos short = tt

task_fields-IsTask :
    (id : ℕ) (comm cursor : List ℕ)
    → 0 < id
    → length comm ≤ 15
    → IfSome IsTask (task_fields id comm cursor)
unfolding task_fields
task_fields-IsTask id comm cursor pos short = go (skip_space cursor)
  where
    numbers :
        (state : ℕ) (m : Option (List ℕ))
        → IfSome IsTask (elim m [ none ↦ none | some vs ↦ task_of id comm state vs ])
    numbers state none = tt
    numbers state (some vs) = task_of-IsTask id comm state vs pos short

    go :
        (s : List ℕ)
        → IfSome IsTask (elim s [
          | [] ↦ none
          | state ∷ t ↦ elim (number_fields 19 4 t) [
            | none ↦ none
            | some vs ↦ task_of id comm state vs
          ]
        ])
    go [] = tt
    go (state ∷ t) = numbers state (number_fields 19 4 t)

task_id-pos : (buf : List ℕ) → IfSome (λ n. 0 < n) (task_id buf)
unfolding task_id
task_id-pos buf =
    let t = sign_of (skip_space buf) in
    let d = digits_of 0 false t.1 in
    let positive : Bool = not t.0 && ltb 0 d.0 in
    elim (Bool-cases (d.1 && positive)) [
      | inr e ↦ rw (e, task_id) tt
      | inl e ↦
          let lt = ltb→lt 0 d.0 (and_right (not t.0) (ltb 0 d.0) (and_right d.1 positive e)) in
          rw (e, task_id) (omega arith)
    ]

task_name-short : (buf : List ℕ) (left : ℕ) → IfSome (λ r. length r.0 ≤ 15) (task_name buf left)
unfolding task_name
task_name-short buf left = elim (Option-cases (last_index b')' buf)) [
  | inl e ↦ rw (e, task_name) tt
  | inr (right, e) ↦ elim (Bool-cases (leb right left)) [
    | inl f ↦ rw (e, f, task_name) tt
    | inr f ↦
        rw (e, f, task_name)
          (omega (arith, length-take (min (right - left - 1) 15) (drop (left + 1) buf)))
  ]
]

task_line-IsTask : (buf : List ℕ) → IfSome IsTask (task_line buf)
unfolding task_line
task_line-IsTask buf = elim (Option-cases (task_id buf)) [
  | inl e ↦ rw (e, task_line) tt
  | inr (id, e) ↦
      let pos : 0 < id = rw e at (task_id-pos buf) in
      elim (Option-cases (first_index b'(' buf)) [
        | inl f ↦ rw (e, f, task_line) tt
        | inr (left, f) ↦ elim (Option-cases (task_name buf left)) [
          | inl g ↦ rw (e, f, g, task_line) tt
          | inr ((comm, cursor), g) ↦
              let short : length comm ≤ 15 = rw g at (task_name-short buf left) in
              rw (e, f, g, task_line) (task_fields-IsTask id comm cursor pos short)
        ]
      ]
]

-- Whatever a stat file holds, a task that `parse_task_stat` accepts has a positive identifier, a name of at most fifteen
-- bytes and ticks that fit 64 bits.
pub parse_task_stat-IsTask : (file : Option (List ℕ)) → IfSome IsTask (parse_task_stat file)
unfolding parse_task_stat
parse_task_stat-IsTask none = tt
parse_task_stat-IsTask (some file) = elim (Option-cases (fgets 512 file)) [
  | inl e ↦ rw (e, parse_task_stat) tt
  | inr ((line, rest), e) ↦ rw (e, parse_task_stat) (task_line-IsTask (c_str line))
]
