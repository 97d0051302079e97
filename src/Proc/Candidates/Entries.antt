-- ===== src/Proc/Candidates/Entries.antt =====
-- The candidates stay within their bounds and count every thread once.
use trace_fox.Base.{
  ℕ, suc, ◌+◌, ◌-◌, ◌^◌, ◌≤◌, ◌<◌, ◌≡◌, refl, ap, ◌⊎◌, inl, inr, Bool, true, false, ◌||◌, none,
  some, List, [], ◌∷◌, ◌++◌, arith, ltb, leb, ◌==◌, lt→ltb, Bool-cases, ok, fail, length, All,
  length-append, All-append, leb_false→lt, or_false,
}
use trace_fox.Base.CString.{length-name_field}
use trace_fox.Bytes.{IsU32}
use trace_fox.Proc.{ThreadCandidate, TaskInfo}
use trace_fox.Proc.Candidates.{
  is_same, add_instance, add_to_same, new_candidate, add_thread_candidate, copy_thread_candidate,
  at_most_u16,
}
use trace_fox.RoundTrip

-- The identifiers fit their words.
pub record IsCandidate (c : ThreadCandidate) : Type 0 where
  pub pid : IsU32 c.pid
  pub tid : IsU32 c.tid

at_most_u16-lt : (n : ℕ) → at_most_u16 n < 2 ^ 16
at_most_u16-lt n = ground arith

-- Whatever the counts of a candidate are, its copy is an entry that the thread payload can carry.
pub copy_thread_candidate-IsTop :
    (c : ThreadCandidate)
    → IsCandidate c
    → RoundTrip.Threads.Entries.IsTop (copy_thread_candidate c)
unfolding copy_thread_candidate
copy_thread_candidate-IsTop c v = record {
  name_size = length-name_field 16 c.name;
  inst = at_most_u16-lt c.inst_count;
  cpu = at_most_u16-lt c.cpu_pct_x10;
  pid = v.pid;
  tid = v.tid;
}

-- The instances of all candidates together.
abbrev pub instances : List ThreadCandidate → ℕ
instances [] = 0
instances (c ∷ cs) = c.inst_count + instances cs

pub instances-append :
    (cs ds : List ThreadCandidate) → instances (cs ++ ds) ≡ instances cs + instances ds
instances-append [] ds = omega arith
instances-append (c ∷ cs) ds = omega (arith, instances-append cs ds)

-- What an addition makes of the candidates.
abbrev pub IsAdded : List ThreadCandidate → List ThreadCandidate → Type 0
IsAdded cs ds = (instances ds ≡ instances cs + 1) × (length cs ≤ length ds) × All IsCandidate ds

add_to_same-cases :
    (include_tid : Bool) (task : TaskInfo) (pid cpu : ℕ) (cs : List ThreadCandidate)
    → All IsCandidate cs
    → All (λ (c : ThreadCandidate). c.inst_count < 2 ^ 32 - 1) cs
    → (add_to_same include_tid task pid cpu cs ≡ none)
      ⊎ ((ds : List ThreadCandidate) × (add_to_same include_tid task pid cpu cs ≡ some ds)
          × IsAdded cs ds
          × (length ds ≡ length cs))
unfolding add_to_same add_instance
add_to_same-cases include_tid task pid cpu [] v room = inl refl
add_to_same-cases include_tid task pid cpu (c ∷ cs) (v, vs) (room, rooms) =
    elim (Bool-cases (is_same include_tid task pid c)) [
      | inl e ↦
          let less = lt→ltb c.inst_count (2 ^ 32 - 1) room in
          let one_more : (add_instance cpu c).inst_count ≡ c.inst_count + 1 = rw less refl in
          inr (
            add_instance cpu c ∷ cs,
            rw e refl,
            (omega arith, omega arith, (record { pid = v.pid; tid = v.tid }, vs)),
            refl,
          )
      | inr e ↦ elim (add_to_same-cases include_tid task pid cpu cs vs rooms) [
        | inl n ↦ inl (rw (e, n) refl)
        | inr (ds, f, (sum, grown, w), same) ↦
            inr (c ∷ ds, rw (e, f) refl, (omega arith, omega arith, (v, w)), ap suc same)
      ]
    ]

pub new_candidate-IsCandidate :
    (include_tid : Bool) (task : TaskInfo) (pid cpu : ℕ)
    → IsCandidate (new_candidate include_tid task pid cpu)
unfolding new_candidate
new_candidate-IsCandidate true task pid cpu = record { pid = omega arith; tid = omega arith }
new_candidate-IsCandidate false task pid cpu = record { pid = omega arith; tid = omega arith }

one_instance :
    (include_tid : Bool) (task : TaskInfo) (pid cpu : ℕ)
    → (new_candidate include_tid task pid cpu).inst_count ≡ 1
unfolding new_candidate
one_instance include_tid task pid cpu = refl

-- While no count is at its limit, `add_thread_candidate` either fails and leaves the candidates as they are, or adds
-- exactly one instance. There are never more than 512 candidates, and their identifiers fit 32 bits.
pub add_thread_candidate-adds :
    (include_tid : Bool) (cs : List ThreadCandidate) (task : TaskInfo) (pid cpu : ℕ)
    → length cs ≤ 512
    → All IsCandidate cs
    → All (λ (c : ThreadCandidate). c.inst_count < 2 ^ 32 - 1) cs
    → let (status, ds) = add_thread_candidate include_tid cs task pid cpu in
      (length ds ≤ 512)
      × (((status ≡ fail) × (ds ≡ cs))
          ⊎ ((status ≡ ok)
              × (instances ds ≡ instances cs + 1)
              × (length cs ≤ length ds)
              × All IsCandidate ds))
unfolding add_thread_candidate
add_thread_candidate-adds include_tid cs task pid cpu few v room =
    elim (add_to_same-cases include_tid task pid cpu cs v room) [
      | inr (ds, e, (sum, grown, w), same) ↦
          rw (e, add_thread_candidate) (omega arith, inr (refl, sum, grown, w))
      | inl e ↦
          let c = new_candidate include_tid task pid cpu in
          let others : Bool =
            pid == 0 || task.id == 0 || ltb (2 ^ 32 - 1) pid || ltb (2 ^ 32 - 1) task.id in
          let more = instances-append cs (c ∷ []) in
          let longer = length-append cs (c ∷ []) in
          let one : c.inst_count ≡ 1 = one_instance include_tid task pid cpu in
          elim (Bool-cases (leb 512 (length cs) || others)) [
            | inl refused ↦ rw (e, refused, add_thread_candidate) (few, inl (refl, refl))
            | inr taken ↦
                let room =
                  leb_false→lt 512 (length cs) (or_false (leb 512 (length cs)) others taken).0 in
                let all =
                  All-append IsCandidate cs (c ∷ []) v
                    (new_candidate-IsCandidate include_tid task pid cpu, tt) in
                rw (e, taken, add_thread_candidate)
                  (omega arith, inr (refl, omega arith, omega arith, all))
          ]
    ]
