-- ===== src/Proc/Candidates.antt =====
-- agent/src/proc.c: the states of threads, and the candidates for the busiest threads of a group. The candidates
-- are the first `candidate_count` elements of the array.
pub mod Entries
pub mod Order
use trace_fox.Base.{
  ℕ, ◌+◌, ◌-◌, ◌%◌, ◌^◌, Bool, ◌&&◌, ◌||◌, Option, none, some, List, [], ◌∷◌, ◌++◌, ltb, leb, ◌==◌,
  if◌then◌else◌, Status, ok, fail, add64, length,
}
use trace_fox.Base.CString.{c_str, name_field, str_eq}
use Prim.Native.Nat.{bit_or, compare, Ordering}
use trace_fox.Proc.{
  ThreadCandidate, ThreadTopEntry, TaskInfo, tf_thread_candidates, tf_proc_name_size,
}

-- `enum tf_thread_state`: running, sleeping, disk sleep, stopped, zombie, idle, other.
unfoldable pub thread_state_index : ℕ → ℕ
thread_state_index state =
    if state == b'R'
    then 0
    else if state == b'S'
    then 1
    else if state == b'D'
    then 2
    else if state == b'T' || state == b't'
    then 3
    else if state == b'Z'
    then 4
    else if state == b'I'
    then 5
    else 6

-- `increment_u16`: the counter and the flags.
unfoldable pub increment_u16 : ℕ → ℕ → ℕ × ℕ
increment_u16 value flags =
    if ltb value (2 ^ 16 - 1) then (value + 1, flags) else (value, bit_or flags 0x02)

unfoldable pub is_same : Bool → TaskInfo → ℕ → ThreadCandidate → Bool
is_same include_tid task pid c =
    if include_tid
    then c.pid == pid % 2 ^ 32 && c.tid == task.id % 2 ^ 32
    else str_eq c.name task.comm

-- One instance more, up to `UINT32_MAX`.
unfoldable pub add_instance : ℕ → ThreadCandidate → ThreadCandidate
add_instance cpu_pct_x10 c = record c {
  inst_count = if ltb c.inst_count (2 ^ 32 - 1) then c.inst_count + 1 else c.inst_count;
  cpu_pct_x10 = add64 c.cpu_pct_x10 cpu_pct_x10;
}

-- The loop over the candidates: the first that is the same gets the instance; `none` if there is none.
unfoldable pub add_to_same :
    Bool → TaskInfo → ℕ → ℕ → List ThreadCandidate → Option (List ThreadCandidate)
add_to_same include_tid task pid cpu [] = none
add_to_same include_tid task pid cpu (c ∷ cs) =
    let others = add_to_same include_tid task pid cpu cs in
    if is_same include_tid task pid c
    then some (add_instance cpu c ∷ cs)
    else elim others [ none ↦ none | some ds ↦ some (c ∷ ds) ]

unfoldable pub new_candidate : Bool → TaskInfo → ℕ → ℕ → ThreadCandidate
new_candidate include_tid task pid cpu = record {
  name = name_field tf_proc_name_size task.comm;
  pid = if include_tid then pid % 2 ^ 32 else 0;
  tid = if include_tid then task.id % 2 ^ 32 else 0;
  inst_count = 1;
  cpu_pct_x10 = cpu;
}

-- `add_thread_candidate`; identifiers are positive wherever it is called, so that they are natural numbers here.
unfoldable pub add_thread_candidate :
    Bool → List ThreadCandidate → TaskInfo → ℕ → ℕ → Status × List ThreadCandidate
add_thread_candidate include_tid cs task pid cpu = elim (add_to_same include_tid task pid cpu cs) [
  | some ds ↦ (ok, ds)
  | none ↦
      if leb tf_thread_candidates (length cs)
        || (pid == 0 || task.id == 0 || ltb (2 ^ 32 - 1) pid || ltb (2 ^ 32 - 1) task.id)
      then (fail, cs)
      else (ok, cs ++ new_candidate include_tid task pid cpu ∷ [])
]

-- `strcmp` on the bytes in front of the NUL.
unfoldable pub order_bytes : List ℕ → List ℕ → Ordering
order_bytes [] [] = Ordering.eq
order_bytes [] (d ∷ t) = Ordering.lt
order_bytes (c ∷ s) [] = Ordering.gt
order_bytes (c ∷ s) (d ∷ t) =
    let rest = order_bytes s t in
    elim (compare c d) [
      | Ordering.eq ↦ rest
      | Ordering.lt ↦ Ordering.lt
      | Ordering.gt ↦ Ordering.gt
    ]

-- The busier candidate comes first; between equals the name decides.
unfoldable pub compare_thread_candidates : ThreadCandidate → ThreadCandidate → Ordering
unfolding c_str order_bytes
compare_thread_candidates lhs rhs =
    if ltb rhs.cpu_pct_x10 lhs.cpu_pct_x10
    then Ordering.lt
    else if ltb lhs.cpu_pct_x10 rhs.cpu_pct_x10
    then Ordering.gt
    else order_bytes (c_str lhs.name) (c_str rhs.name)

abbrev pub at_most_u16 : ℕ → ℕ
at_most_u16 n = if ltb (2 ^ 16 - 1) n then 2 ^ 16 - 1 else n

unfoldable pub copy_thread_candidate : ThreadCandidate → ThreadTopEntry
copy_thread_candidate src = record {
  name = name_field tf_proc_name_size src.name;
  inst_count = at_most_u16 src.inst_count;
  cpu_pct_x10 = at_most_u16 src.cpu_pct_x10;
  pid = src.pid;
  tid = src.tid;
}
