-- ===== src/Proc/Threads/Slots.antt =====
-- Which slot a thread gets, and which slots survive a sample.
use trace_fox.Base.{
  ℕ, zero, suc, ◌+◌, ◌-◌, ◌%◌, ◌≤◌, ◌<◌, ◌≡◌, refl, ap, ◌∙◌, ◌≢◌, ◌⊎◌, inl, inr, ◌||◌, none, some,
  List, [], ◌∷◌, arith, ◌==◌, lt-or-le, ==_iff, Bool-cases, length, get_or, set, length-set,
  and_left, and_right, or_false, ==_false→ne,
}
use trace_fox.Proc.{ThreadPrev}
use trace_fox.Proc.Threads.{
  free_thread, thread_hash, is_thread, thread_probe, claimed, find_thread_slot,
}

get-set :
    (h : List ThreadPrev) (i : ℕ) (s d : ThreadPrev) → i < length h → get_or (set h i s) i d ≡ s
get-set [] i s d lt = absurd (omega arith)
get-set (x ∷ h) zero s d lt = refl
get-set (x ∷ h) (suc i) s d lt = get-set h i s d (omega arith)

get-set_other :
    (h : List ThreadPrev) (i j : ℕ) (s d : ThreadPrev)
    → i ≢ j
    → get_or (set h i s) j d ≡ get_or h j d
get-set_other [] i j s d ne = refl
get-set_other (x ∷ h) zero zero s d ne = absurd (ne refl)
get-set_other (x ∷ h) zero (suc j) s d ne = refl
get-set_other (x ∷ h) (suc i) zero s d ne = refl
get-set_other (x ∷ h) (suc i) (suc j) s d ne = get-set_other h i j s d (λ e. ne (ap suc e))

-- The slot belongs to this run of the thread.
pub record Owns (pid tid starttime : ℕ) (s : ThreadPrev) : Type 0 where
  pub pid_same : s.pid ≡ pid
  pub tid_same : s.tid ≡ tid
  pub start_same : s.starttime ≡ starttime

claimed-Owns :
    (pid tid starttime : ℕ) (s : ThreadPrev) → Owns pid tid starttime (claimed pid tid starttime s)
unfolding claimed
claimed-Owns pid tid starttime s = elim (Bool-cases (is_thread pid tid s)) [
  | inr e ↦ rw (e, claimed) (record { pid_same = refl; tid_same = refl; start_same = refl })
  | inl e ↦
      let p = (==_iff s.pid pid).0 (and_left (s.pid == pid) (s.tid == tid) e) in
      let t = (==_iff s.tid tid).0 (and_right (s.pid == pid) (s.tid == tid) e) in
      elim (Bool-cases (s.starttime == starttime)) [
        | inl f ↦
            rw (e, f, claimed)
              (record {
                pid_same = p;
                tid_same = t;
                start_same = (==_iff s.starttime starttime).0 f;
              })
        | inr f ↦ rw (e, f, claimed) (record { pid_same = p; tid_same = t; start_same = refl })
      ]
]

-- What the probes find: a slot of the table, or none where all the slots that they visit are taken.
probed :
    (left pid tid idx probe : ℕ) (h : List ThreadPrev)
    → ((i : ℕ) × (thread_probe left pid tid idx probe h ≡ some i) × (i < 1024))
      ⊎ ((thread_probe left pid tid idx probe h ≡ none)
          × ((p : ℕ)
              → probe ≤ p
              → p < probe + left
              → (get_or h ((idx + p) % 1024) free_thread).pid ≢ 0))
unfolding thread_probe
probed zero pid tid idx probe h = inr (refl, λ p ge lt. absurd (omega arith))
probed (suc left) pid tid idx probe h =
    let i : ℕ = (idx + probe) % 1024 in
    let s = get_or h i free_thread in
    elim (Bool-cases (is_thread pid tid s || s.pid == 0)) [
      | inl e ↦ inl (i, rw (e, thread_probe) refl, omega arith)
      | inr e ↦ elim (probed left pid tid idx (probe + 1) h) [
        | inl (j, f, lt) ↦ inl (j, rw (e, thread_probe) f, lt)
        | inr (n, taken) ↦
            let here : s.pid ≢ 0 =
              ==_false→ne s.pid 0 (or_false (is_thread pid tid s) (s.pid == 0) e).1 in
            inr (
              rw (e, thread_probe) n,
              λ p ge lt. elim (lt-or-le probe p) [
                | inl later ↦ taken p (omega arith) (omega arith)
                | inr now ↦ let same : p ≡ probe = omega arith in rw same here
              ],
            )
      ]
    ]

thread_hash-lt : (pid tid : ℕ) → thread_hash pid tid < 1024
unfolding thread_hash
thread_hash-lt pid tid = omega arith

-- In a table of 1024 slots `find_thread_slot` returns a slot that belongs to this run of the thread, and every other
-- slot is unchanged; it returns none only if every slot of the table is taken.
pub find_thread_slot-owned :
    (h : List ThreadPrev) (pid tid starttime j : ℕ)
    → length h ≡ 1024
    → ((i : ℕ) × (h' : List ThreadPrev) × (find_thread_slot h pid tid starttime ≡ some (i, h'))
        × (i < 1024)
        × (length h' ≡ 1024)
        × Owns pid tid starttime (get_or h' i free_thread)
        × ((i ≡ j) ⊎ (get_or h' j free_thread ≡ get_or h j free_thread)))
      ⊎ ((find_thread_slot h pid tid starttime ≡ none)
          × ((1024 ≤ j) ⊎ ((get_or h j free_thread).pid ≢ 0)))
unfolding find_thread_slot
find_thread_slot-owned h pid tid starttime j size =
    let idx = thread_hash pid tid in
    let small = thread_hash-lt pid tid in
    elim (probed 1024 pid tid idx 0 h) [
      | inl (i, e, lt) ↦
          let s = claimed pid tid starttime (get_or h i free_thread) in
          let stored : get_or (set h i s) i free_thread ≡ s =
            get-set h i s free_thread (omega arith) in
          inl (
            i,
            set h i s,
            rw (e, find_thread_slot) refl,
            lt,
            length-set h i s ∙ size,
            rw stored (claimed-Owns pid tid starttime (get_or h i free_thread)),
            elim (Bool-cases (i == j)) [
              | inl same ↦ inl ((==_iff i j).0 same)
              | inr other ↦ inr (get-set_other h i j s free_thread (==_false→ne i j other))
            ],
          )
      | inr (e, taken) ↦ inr (
        rw (e, find_thread_slot) refl,
        elim (lt-or-le j 1024) [
          | inr past ↦ inl past
          | inl lt ↦
              let p : ℕ = (j + 1024 - idx) % 1024 in
              let at_j : (idx + p) % 1024 ≡ j = omega arith in
              inr (rw at_j at (taken p (omega arith) (omega arith)))
        ],
      )
    ]
