-- ===== src/Proc/History/Slots.antt =====
-- Which slot a process gets, which slots survive, and how long the lists of processes grow.
use trace_fox.Base.{
  ℕ, zero, suc, ◌+◌, ◌≤◌, ◌<◌, ◌≡◌, refl, ap, ◌∙◌, ◌≢◌, ◌⊎◌, inl, inr, true, ◌||◌, none, some, List,
  [], ◌∷◌, arith, ltb, ◌==◌, ltb→lt, ==_iff, Bool-cases, length, get_or, set, All, length-append,
  length-set, or_false, ==_false→ne,
}
use trace_fox.Proc.{ProcPrev, WatchGroup}
use trace_fox.Proc.History.{
  free_prev, pid_hash, find_probe, take_slot, find_slot, is_watched_by, tracker_add_pid,
}

get-set : (h : List ProcPrev) (i : ℕ) (s d : ProcPrev) → i < length h → get_or (set h i s) i d ≡ s
get-set [] i s d lt = absurd (omega arith)
get-set (x ∷ h) zero s d lt = refl
get-set (x ∷ h) (suc i) s d lt = get-set h i s d (omega arith)

get-set_other :
    (h : List ProcPrev) (i j : ℕ) (s d : ProcPrev) → i ≢ j → get_or (set h i s) j d ≡ get_or h j d
get-set_other [] i j s d ne = refl
get-set_other (x ∷ h) zero zero s d ne = absurd (ne refl)
get-set_other (x ∷ h) zero (suc j) s d ne = refl
get-set_other (x ∷ h) (suc i) zero s d ne = refl
get-set_other (x ∷ h) (suc i) (suc j) s d ne = get-set_other h i j s d (λ e. ne (ap suc e))

-- Slot `i` of the history before was that of the process and is left as it is, or it was free and is now its slot, with
-- no ticks; all others are as before.
pub record Owned (pid : ℕ) (h : List ProcPrev) (i : ℕ) (h' : List ProcPrev) : Type 0 where
  pub size : length h' ≡ length h
  pub own :
      (((get_or h i free_prev).pid ≡ pid) × (h' ≡ h))
      ⊎ (((get_or h i free_prev).pid ≡ 0)
          × (get_or h' i free_prev ≡ record { pid = pid; ticks = 0 }))
  pub others : (j : ℕ) → i ≢ j → get_or h' j free_prev ≡ get_or h j free_prev

take_slot-Owned :
    (h : List ProcPrev) (i pid : ℕ)
    → i < length h
    → ((get_or h i free_prev).pid == pid || (get_or h i free_prev).pid == 0) ≡ true
    → Owned pid h i (take_slot h i pid)
unfolding take_slot
take_slot-Owned h i pid lt mine = elim (Bool-cases ((get_or h i free_prev).pid == pid)) [
  | inl e ↦ rw e (record {
    size = refl;
    own = inl ((==_iff (get_or h i free_prev).pid pid).0 e, refl);
    others = λ j ne. refl;
  })
  | inr e ↦
      let s : ProcPrev = record { pid = pid; ticks = 0 } in
      let free : ((get_or h i free_prev).pid == 0) ≡ true = rw e at mine in
      rw e (record {
        size = length-set h i s;
        own = inr ((==_iff (get_or h i free_prev).pid 0).0 free, get-set h i s free_prev lt);
        others = λ j ne. get-set_other h i j s free_prev ne;
      })
]

-- A slot of another process.
abbrev pub Foreign : ℕ → ProcPrev → Type 0
Foreign pid s = (s.pid ≢ 0) × (s.pid ≢ pid)

abbrev Probed : ℕ → ProcPrev → Type 0
Probed pid s = (s.pid == pid || s.pid == 0) ≡ true

find_probe-lt :
    (pid i : ℕ) (ss : List ProcPrev)
    → ((j : ℕ) × (find_probe pid i ss ≡ some (i + j))
        × (j < length ss)
        × Probed pid (get_or ss j free_prev))
      ⊎ ((find_probe pid i ss ≡ none) × All (Foreign pid) ss)
unfolding find_probe
find_probe-lt pid i [] = inr (refl, tt)
find_probe-lt pid i (s ∷ ss) = elim (Bool-cases (s.pid == pid || s.pid == 0)) [
  | inl e ↦ let here : i ≡ i + 0 = omega arith in inl (0, rw e (ap some here), omega arith, e)
  | inr e ↦ elim (find_probe-lt pid (i + 1) ss) [
    | inl (j, f, lt, mine) ↦
        let there : i + 1 + j ≡ i + suc j = omega arith in
        inl (suc j, rw e (f ∙ ap some there), omega arith, mine)
    | inr (n, foreign) ↦
        let (a, b) = or_false (s.pid == pid) (s.pid == 0) e in
        inr (rw e n, ((==_false→ne s.pid 0 b, ==_false→ne s.pid pid a), foreign))
  ]
]

-- What `find_slot` returns.
abbrev pub IsFound : ℕ → List ProcPrev → ℕ × List ProcPrev → Type 0
IsFound pid h out =
    (out.0 < 64)
    × (Owned pid h out.0 out.1 ⊎ (All (Foreign pid) h × (out.0 ≡ pid_hash pid) × (out.1 ≡ h)))

pid_hash-lt : (pid : ℕ) → pid_hash pid < 64
unfolding pid_hash
pid_hash-lt pid = omega arith

-- In a history of 64 slots, `find_slot` returns the slot that belongs to the process as it is, or takes a free slot for it
-- with no ticks, and changes no other slot. If all slots belong to other processes, it returns the slot at the hash
-- of the process and changes nothing, so that the slot is still that of another process.
pub find_slot-IsFound :
    (h : List ProcPrev) (pid : ℕ) → length h ≡ 64 → IsFound pid h (find_slot h pid)
unfolding find_slot
find_slot-IsFound h pid size =
    let idx = pid_hash pid in
    let at_hash = (get_or h idx free_prev).pid in
    let small = pid_hash-lt pid in
    elim (Bool-cases (at_hash == pid || at_hash == 0)) [
      | inl e ↦ rw (e, find_slot) (small, inl (take_slot-Owned h idx pid (omega arith) e))
      | inr e ↦ elim (find_probe-lt pid 0 h) [
        | inl (j, f, lt, mine) ↦
            let at_j : 0 + j ≡ j = omega arith in
            rw (e, f, at_j, find_slot) (omega arith, inl (take_slot-Owned h j pid lt mine))
        | inr (n, foreign) ↦ rw (e, n, find_slot) (small, inr (foreign, refl, refl))
      ]
    ]

pub find_slot-size : (h : List ProcPrev) (pid : ℕ) → length h ≡ 64 → length (find_slot h pid).1 ≡ 64
find_slot-size h pid size = elim (find_slot-IsFound h pid size).1 [
  | inl v ↦ v.size ∙ size
  | inr (foreign, at, same) ↦ rw same size
]

-- The lists of the groups never grow beyond 64 processes.
pub tracker_add_pid-bounded :
    (comm : List ℕ) (pid : ℕ) (groups : List WatchGroup)
    → All (λ (g : WatchGroup). length g.pids ≤ 64) groups
    → All (λ (g : WatchGroup). length g.pids ≤ 64) (tracker_add_pid comm pid groups)
unfolding tracker_add_pid
tracker_add_pid-bounded comm pid [] v = tt
tracker_add_pid-bounded comm pid (g ∷ gs) (v, vs) = elim (Bool-cases (is_watched_by comm g)) [
  | inr e ↦ rw e (v, tracker_add_pid-bounded comm pid gs vs)
  | inl e ↦ elim (Bool-cases (ltb (length g.pids) 64)) [
    | inl room ↦
        rw (e, room)
          (omega (arith, ltb→lt (length g.pids) 64 room, length-append g.pids (pid ∷ [])), vs)
    | inr full ↦ rw (e, full) (v, vs)
  ]
]
