-- ===== src/Protocol/Branches.antt =====
-- The branches of the parser raise no exception on a value of sufficient length.
use trace_fox.Base.{
  ℕ, zero, suc, ◌+◌, ◌-◌, ◌*◌, ◌≤◌, ◌<◌, ◌≡◌, refl, ◌∙◌, inl, inr, ◌&&◌, List, [], ◌∷◌, arith, ltb,
  leb, leb→le, ltb_false→le, eq→==, Bool-cases, length, drop, length-take, length-drop, and_right,
}
use trace_fox.Protocol.{Outcome, parsed, raised, stuck, ◌>>=◌}
use trace_fox.Protocol.Decode.{slice, byte_at, unpack, fields, single, sum}
use trace_fox.Protocol.Handlers.{
  disk_wide, disk_narrow, parse_disk, mount_wide, mount_narrow, parse_fs, proc_group, parse_proc,
  top_thread, parse_top, parse_states, parse_thread,
}

-- A result, neither an exception nor a loop that ran out of fuel.
abbrev pub IsParsed {ℓ} : {A : Type ℓ} → Outcome A → Type 0
IsParsed (parsed a) = Unit
IsParsed raised = ⊥
IsParsed stuck = ⊥

pub bind_IsParsed :
    {A B : Type 0} (m : Outcome A) (f : A → Outcome B)
    → IsParsed m
    → ((a : A) → IsParsed (f a))
    → IsParsed (m >>= f)
bind_IsParsed (parsed a) f h k = k a
bind_IsParsed raised f h k = absurd h
bind_IsParsed stuck f h k = absurd h

pub parsed_of : {A : Type 0} (m : Outcome A) → IsParsed m → (a : A) × (m ≡ parsed a)
parsed_of (parsed a) h = (a, refl)
parsed_of raised h = absurd h
parsed_of stuck h = absurd h

pub length-slice : (b : List ℕ) (p q : ℕ) → q ≤ length b → length (slice b p q) ≡ q - p
unfolding slice
length-slice b p q h = omega (arith, length-take (q - p) (drop p b), length-drop p b)

unpack_parsed :
    (widths b : List ℕ) (p q : ℕ)
    → q ≤ length b
    → q - p ≡ sum widths
    → unpack widths (slice b p q) ≡ parsed (fields widths (slice b p q))
unfolding unpack
unpack_parsed widths b p q h size =
    rw (eq→== (length (slice b p q)) (sum widths) (length-slice b p q h ∙ size)) refl

pub byte_at-IsParsed : (b : List ℕ) (p : ℕ) → p < length b → IsParsed (byte_at b p)
unfolding byte_at
byte_at-IsParsed [] p h = absurd (omega arith)
byte_at-IsParsed (c ∷ b) zero h = tt
byte_at-IsParsed (c ∷ b) (suc p) h = byte_at-IsParsed b p (omega arith)

disk_wide-IsParsed : (val : List ℕ) (p : ℕ) → p + 66 ≤ length val → IsParsed (disk_wide val p)
unfolding disk_wide fields
disk_wide-IsParsed val p h =
    rw
      (
        unpack_parsed (8 ∷ 8 ∷ 8 ∷ 8 ∷ 8 ∷ 8 ∷ []) val (p + 8) (p + 56) (omega arith) (omega arith),
        unpack_parsed (4 ∷ 4 ∷ []) val (p + 56) (p + 64) (omega arith) (omega arith),
        unpack_parsed (2 ∷ []) val (p + 64) (p + 66) (omega arith) (omega arith),
      )
      tt

pub disk_narrow-IsParsed :
    (val : List ℕ) (p : ℕ) → p + 42 ≤ length val → IsParsed (disk_narrow val p)
unfolding disk_narrow fields
disk_narrow-IsParsed val p h =
    rw
      (
        unpack_parsed (4 ∷ 4 ∷ 4 ∷ 4 ∷ 4 ∷ 4 ∷ 4 ∷ 4 ∷ []) val (p + 8) (p + 40) (omega arith)
            (omega arith),
        unpack_parsed (2 ∷ []) val (p + 40) (p + 42) (omega arith) (omega arith),
      )
      tt

pub parse_disk-IsParsed :
    (count size : ℕ) (val : List ℕ) (p : ℕ) → IsParsed (parse_disk count size val p)
unfolding parse_disk
parse_disk-IsParsed zero size val p = tt
parse_disk-IsParsed (suc count) size val p =
    let wide = parse_disk-IsParsed count size val (p + 66) in
    let narrow = parse_disk-IsParsed count size val (p + 42) in
    elim (Bool-cases (leb 66 size && leb (p + 66) (length val))) [
      | inl e ↦
          rw (e, parse_disk)
            (bind_IsParsed (disk_wide val p) _
              (disk_wide-IsParsed val p (
                leb→le (p + 66) (length val)
                  (and_right (leb 66 size) (leb (p + 66) (length val)) e)))
              (λ d. bind_IsParsed (parse_disk count size val (p + 66)) _ wide (λ ds. tt)))
      | inr e ↦ elim (Bool-cases (leb (p + 42) (length val))) [
        | inl f ↦
            rw (e, f, parse_disk)
              (bind_IsParsed (disk_narrow val p) _
                (disk_narrow-IsParsed val p (leb→le (p + 42) (length val) f))
                (λ d. bind_IsParsed (parse_disk count size val (p + 42)) _ narrow (λ ds. tt)))
        | inr f ↦ rw (e, f, parse_disk) tt
      ]
    ]

mount_wide-IsParsed : (val : List ℕ) (p : ℕ) → p + 26 ≤ length val → IsParsed (mount_wide val p)
unfolding mount_wide fields single
mount_wide-IsParsed val p h =
    rw
      (
        unpack_parsed (8 ∷ []) val (p + 16) (p + 24) (omega arith) (omega arith),
        unpack_parsed (2 ∷ []) val (p + 24) (p + 26) (omega arith) (omega arith),
      )
      tt

pub mount_narrow-IsParsed :
    (val : List ℕ) (p : ℕ) → p + 22 ≤ length val → IsParsed (mount_narrow val p)
unfolding mount_narrow fields single
mount_narrow-IsParsed val p h =
    rw
      (
        unpack_parsed (4 ∷ []) val (p + 16) (p + 20) (omega arith) (omega arith),
        unpack_parsed (2 ∷ []) val (p + 20) (p + 22) (omega arith) (omega arith),
      )
      tt

pub parse_fs-IsParsed :
    (count size : ℕ) (val : List ℕ) (p : ℕ) → IsParsed (parse_fs count size val p)
unfolding parse_fs
parse_fs-IsParsed zero size val p = tt
parse_fs-IsParsed (suc count) size val p =
    let wide = parse_fs-IsParsed count size val (p + 26) in
    let narrow = parse_fs-IsParsed count size val (p + 22) in
    elim (Bool-cases (leb 26 size && leb (p + 26) (length val))) [
      | inl e ↦
          let room =
            leb→le (p + 26) (length val) (and_right (leb 26 size) (leb (p + 26) (length val)) e) in
          rw (e, parse_fs)
            (bind_IsParsed (mount_wide val p) _ (mount_wide-IsParsed val p room)
              (λ d. bind_IsParsed (parse_fs count size val (p + 26)) _ wide (λ ds. tt)))
      | inr e ↦ elim (Bool-cases (leb (p + 22) (length val))) [
        | inl f ↦
            rw (e, f, parse_fs)
              (bind_IsParsed (mount_narrow val p) _
                (mount_narrow-IsParsed val p (leb→le (p + 22) (length val) f))
                (λ d. bind_IsParsed (parse_fs count size val (p + 22)) _ narrow (λ ds. tt)))
        | inr f ↦ rw (e, f, parse_fs) tt
      ]
    ]

proc_group-IsParsed : (val : List ℕ) (p : ℕ) → p + 24 ≤ length val → IsParsed (proc_group val p)
unfolding proc_group fields single
proc_group-IsParsed val p h =
    rw
      (
        unpack_parsed (2 ∷ 2 ∷ []) val (p + 16) (p + 20) (omega arith) (omega arith),
        unpack_parsed (4 ∷ []) val (p + 20) (p + 24) (omega arith) (omega arith),
      )
      tt

pub parse_proc-IsParsed : (count : ℕ) (val : List ℕ) (p : ℕ) → IsParsed (parse_proc count val p)
unfolding parse_proc
parse_proc-IsParsed zero val p = tt
parse_proc-IsParsed (suc count) val p =
    let after = parse_proc-IsParsed count val (p + 24) in
    elim (Bool-cases (ltb (length val) (p + 24))) [
      | inl e ↦ rw (e, parse_proc) tt
      | inr e ↦
          rw (e, parse_proc)
            (bind_IsParsed (proc_group val p) _
              (proc_group-IsParsed val p (ltb_false→le (length val) (p + 24) e))
              (λ g. bind_IsParsed (parse_proc count val (p + 24)) _ after (λ gs. tt)))
    ]

top_thread-IsParsed : (val : List ℕ) (p : ℕ) → p + 28 ≤ length val → IsParsed (top_thread val p)
unfolding top_thread fields single
top_thread-IsParsed val p h =
    rw
      (
        unpack_parsed (2 ∷ 2 ∷ []) val (p + 16) (p + 20) (omega arith) (omega arith),
        unpack_parsed (4 ∷ 4 ∷ []) val (p + 20) (p + 28) (omega arith) (omega arith),
      )
      tt

parse_top-IsParsed : (count : ℕ) (val : List ℕ) (p : ℕ) → IsParsed (parse_top count val p)
unfolding parse_top
parse_top-IsParsed zero val p = tt
parse_top-IsParsed (suc count) val p =
    let after = parse_top-IsParsed count val (p + 28) in
    elim (Bool-cases (ltb (length val) (p + 28))) [
      | inl e ↦ rw (e, parse_top) tt
      | inr e ↦
          rw (e, parse_top)
            (bind_IsParsed (top_thread val p) _
              (top_thread-IsParsed val p (ltb_false→le (length val) (p + 28) e))
              (λ g. bind_IsParsed (parse_top count val (p + 28)) _ after (λ gs. tt)))
    ]

count_IsParsed :
    (val : List ℕ) (p : ℕ)
    → p + 2 ≤ length val
    → IsParsed (unpack (2 ∷ []) (slice val p (p + 2)) >>= single)
unfolding fields single
count_IsParsed val p h = rw (unpack_parsed (2 ∷ []) val p (p + 2) h (omega arith)) tt

parse_states-IsParsed :
    (n : ℕ) (val : List ℕ) (p : ℕ) → p + 2 * n ≤ length val → IsParsed (parse_states n val p)
unfolding parse_states
parse_states-IsParsed zero val p h = tt
parse_states-IsParsed (suc n) val p h =
    let after = parse_states-IsParsed n val (p + 2) (omega arith) in
    bind_IsParsed (unpack (2 ∷ []) (slice val p (p + 2)) >>= single) _
      (count_IsParsed val p (omega arith))
      (λ c. bind_IsParsed (parse_states n val (p + 2)) _ after (λ cs. tt))

pub parse_thread-IsParsed : (val : List ℕ) → 34 ≤ length val → IsParsed (parse_thread val)
unfolding parse_thread
parse_thread-IsParsed val h =
    bind_IsParsed (unpack (2 ∷ []) (slice val 16 18) >>= single) _
      (count_IsParsed val 16 (omega arith))
      (λ total. bind_IsParsed (byte_at val 18) _ (byte_at-IsParsed val 18 (omega arith)) (λ flags.
        bind_IsParsed (parse_states 7 val 19) _ (parse_states-IsParsed 7 val 19 (omega arith))
          (λ states.
            bind_IsParsed (byte_at val 33) _ (byte_at-IsParsed val 33 (omega arith)) (λ top_count.
              bind_IsParsed (parse_top top_count val 34) _ (parse_top-IsParsed top_count val 34)
                (λ top. tt)))))
