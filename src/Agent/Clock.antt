-- ===== src/Agent/Clock.antt =====
-- agent/src/main.c: the time of the next sample (`timespec_compare`, `wait_for_next_sample`). What the system calls
-- return and what the signal handler has set by then are arguments.
use trace_fox.Base.{
  ℕ, ◌+◌, ◌*◌, ◌≤◌, ◌<◌, ◌≡◌, refl, sym, ◌∙◌, ◌⊎◌, inl, inr, Bool, ◌&&◌, not, Option, none, some,
  List, [], ◌∷◌, arith, ltb, ◌==◌, if◌then◌else◌, ltb→lt, lt→ltb, le→ltb_false, ltb_false→le,
  Bool-cases,
}
use Prim.Native.Nat.{Ordering}
use trace_fox.Disk.{Timespec}

-- The sign of the result.
unfoldable pub timespec_compare : Timespec → Timespec → Ordering
timespec_compare left right =
    if ltb left.tv_sec right.tv_sec
    then Ordering.lt
    else if ltb right.tv_sec left.tv_sec
    then Ordering.gt
    else if ltb left.tv_nsec right.tv_nsec
    then Ordering.lt
    else if ltb right.tv_nsec left.tv_nsec
    then Ordering.gt
    else Ordering.eq

abbrev pub later : Timespec → ℕ → Timespec
later t interval_sec = record t { tv_sec = t.tv_sec + interval_sec }

-- The deadline that the thread sleeps to: the next of the schedule, or one interval from now if that has passed.
unfoldable pub next_deadline : Timespec → Timespec → ℕ → Timespec
next_deadline deadline now interval_sec =
    elim (timespec_compare (later deadline interval_sec) now) [
      | Ordering.gt ↦ later deadline interval_sec
      | Ordering.eq ↦ later now interval_sec
      | Ordering.lt ↦ later now interval_sec
    ]

-- One round of the loop: the flags `keep_running` and `reload_config_flag` before it, and what
-- `clock_nanosleep` returns.
pub record Sleep : Type 0 where
  pub keep_running : Bool
  pub reload_config_flag : Bool
  pub rc : ℕ

abbrev pub eintr : ℕ
eintr = 4

-- The loop over these rounds: its result, or `none` while the thread still sleeps after them.
unfoldable pub sleep_rounds : List Sleep → Option ℕ
sleep_rounds [] = none
sleep_rounds (r ∷ rs) =
    let more = sleep_rounds rs in
    if r.keep_running && not r.reload_config_flag
    then (if r.rc == 0 then some 0 else if r.rc == eintr then more else some r.rc)
    else some 0

-- `wait_for_next_sample`: the result and the deadline. `clock` is what `clock_gettime` yields, or its `errno`; a
-- failure without `errno` is `EINVAL`.
unfoldable pub wait_for_next_sample :
    Timespec → ℕ → ℕ × Option Timespec → List Sleep → Option ℕ × Timespec
wait_for_next_sample deadline interval_sec (errno, none) rounds =
    (some (if errno == 0 then 22 else errno), later deadline interval_sec)
wait_for_next_sample deadline interval_sec (errno, some now) rounds =
    (sleep_rounds rounds, next_deadline deadline now interval_sec)

-- A time as one number.
abbrev pub to_ns : Timespec → ℕ
to_ns t = t.tv_sec * 1000000000 + t.tv_nsec

pub record IsTime (t : Timespec) : Type 0 where
  pub nsec : t.tv_nsec < 1000000000

-- The order of two numbers.
abbrev pub order_of : ℕ → ℕ → Ordering
order_of m n = if ltb m n then Ordering.lt else if ltb n m then Ordering.gt else Ordering.eq

order_of-lt : (m n : ℕ) → m < n → order_of m n ≡ Ordering.lt
order_of-lt m n h = rw (lt→ltb m n h) refl

order_of-gt : (m n : ℕ) → n < m → order_of m n ≡ Ordering.gt
order_of-gt m n h = rw (le→ltb_false m n (omega (arith, h)), lt→ltb n m h) refl

order_of-eq : (m n : ℕ) → m ≡ n → order_of m n ≡ Ordering.eq
order_of-eq m n h =
    rw (le→ltb_false m n (omega (arith, h)), le→ltb_false n m (omega (arith, h))) refl

-- Times in the same second.
same_second :
    (a b : Timespec)
    → a.tv_sec ≡ b.tv_sec
    → order_of a.tv_nsec b.tv_nsec ≡ order_of (to_ns a) (to_ns b)
same_second a b same = elim (Bool-cases (ltb a.tv_nsec b.tv_nsec)) [
  | inl n ↦
      let less = ltb→lt a.tv_nsec b.tv_nsec n in
      rw n (sym (order_of-lt (to_ns a) (to_ns b) (omega arith)))
  | inr n ↦ elim (Bool-cases (ltb b.tv_nsec a.tv_nsec)) [
    | inl m ↦
        let less = ltb→lt b.tv_nsec a.tv_nsec m in
        rw (n, m) (sym (order_of-gt (to_ns a) (to_ns b) (omega arith)))
    | inr m ↦
        let le = ltb_false→le a.tv_nsec b.tv_nsec n in
        let ge = ltb_false→le b.tv_nsec a.tv_nsec m in
        rw (n, m) (sym (order_of-eq (to_ns a) (to_ns b) (omega arith)))
  ]
]

-- For times with less than 10 ^ 9 nanoseconds, `timespec_compare` is the order of the times as numbers of nanoseconds.
pub timespec_compare-order_of :
    (a b : Timespec) → IsTime a → IsTime b → timespec_compare a b ≡ order_of (to_ns a) (to_ns b)
unfolding timespec_compare
timespec_compare-order_of a b va vb = elim (Bool-cases (ltb a.tv_sec b.tv_sec)) [
  | inl s ↦ rw s (
      sym (
        order_of-lt (to_ns a) (to_ns b)
          (omega (arith, ltb→lt a.tv_sec b.tv_sec s, va.nsec, vb.nsec))))
  | inr s ↦ elim (Bool-cases (ltb b.tv_sec a.tv_sec)) [
    | inl t ↦
        rw (s, t)
          (sym (
            order_of-gt (to_ns a) (to_ns b)
              (omega (arith, ltb→lt b.tv_sec a.tv_sec t, va.nsec, vb.nsec))))
    | inr t ↦
        let same : a.tv_sec ≡ b.tv_sec =
          omega (arith, ltb_false→le a.tv_sec b.tv_sec s, ltb_false→le b.tv_sec a.tv_sec t) in
        rw (s, t) (same_second a b same)
  ]
]

compare_cases :
    (a b : Timespec)
    → IsTime a
    → IsTime b
    → ((timespec_compare a b ≡ Ordering.gt) × (to_ns b < to_ns a))
      ⊎ (((timespec_compare a b ≡ Ordering.lt) ⊎ (timespec_compare a b ≡ Ordering.eq))
          × (to_ns a ≤ to_ns b))
compare_cases a b va vb =
    let same = timespec_compare-order_of a b va vb in
    elim (Bool-cases (ltb (to_ns b) (to_ns a))) [
      | inl g ↦
          let more = ltb→lt (to_ns b) (to_ns a) g in
          inl (same ∙ order_of-gt (to_ns a) (to_ns b) more, more)
      | inr g ↦
          let le = ltb_false→le (to_ns b) (to_ns a) g in
          inr (
            elim (Bool-cases (ltb (to_ns a) (to_ns b))) [
              | inl l ↦ inl (same ∙ order_of-lt (to_ns a) (to_ns b) (ltb→lt (to_ns a) (to_ns b) l))
              | inr l ↦ inr (
                  same
                  ∙ order_of-eq (to_ns a) (to_ns b)
                      (omega (arith, le, ltb_false→le (to_ns a) (to_ns b) l)))
            ],
            le,
          )
    ]

-- The thread never sleeps to a time that has passed, and it keeps to the schedule unless it is late: the new deadline
-- lies after the present. It is one interval after the old one while that lies after the present, and one interval
-- after the present otherwise.
pub wait_for_next_sample-deadline :
    (deadline now : Timespec) (interval_sec errno : ℕ) (rounds : List Sleep)
    → IsTime deadline
    → IsTime now
    → 1 ≤ interval_sec
    → let (status, next) = wait_for_next_sample deadline interval_sec (errno, some now) rounds in
      (to_ns now < to_ns next)
      × (((to_ns now < to_ns (later deadline interval_sec)) × (next ≡ later deadline interval_sec))
          ⊎ ((to_ns (later deadline interval_sec) ≤ to_ns now) × (next ≡ later now interval_sec)))
unfolding wait_for_next_sample next_deadline
wait_for_next_sample-deadline deadline now interval_sec errno rounds vd vn pos =
    elim (compare_cases (later deadline interval_sec) now (record { nsec = vd.nsec }) vn) [
      | inl (e, lt) ↦ rw (e, wait_for_next_sample, next_deadline) (lt, inl (lt, refl))
      | inr (inl e, le) ↦ rw (e, wait_for_next_sample, next_deadline) (omega arith, inr (le, refl))
      | inr (inr e, le) ↦ rw (e, wait_for_next_sample, next_deadline) (omega arith, inr (le, refl))
    ]
