-- ===== src/Proc/Emit.antt =====
-- What `thread_push` and `proc_push` put into a frame, and that they never fail while it is valid.
use trace_fox.Base.{
  ℕ, zero, suc, ◌+◌, ◌-◌, ◌*◌, ◌≤◌, ◌<◌, min, ◌≡◌, refl, ◌⊎◌, inl, inr, Bool, ◌||◌, some, List, [],
  ◌∷◌, arith, ltb, if◌then◌else◌, lt→ltb, le→ltb_false, lt-or-le, ok, length, All, length-append,
}
use trace_fox.Bytes.{byte}
use trace_fox.Tlv.{TlvWriter, tlv_put}
use trace_fox.Tlv.Put.{IsValid}
use trace_fox.Protocol.Entries.{Entry}
use trace_fox.Collector.Pushed.{Pushed, Pushed-nil, Pushed-trans, tlv_put-Pushed, sent-short}
use trace_fox.Proc.{ThreadGroupEntry, tf_max_thread_top_n}
use trace_fox.Proc.Push.{
  fit_top, capped, remaining_of, emitted, flags_of, thread_payload, thread_push, tf_type_thread,
}
use trace_fox.RoundTrip.Threads.{IsGroup, length-thread_payload}

-- The number of threads that is sent: it is at most what is stored and at most seven, it fits the rest
-- of the frame if the head of the group does, and one thread more would not fit.
fit_top-le : (n remaining : ℕ) → fit_top n remaining ≤ n
unfolding fit_top
fit_top-le zero remaining = omega arith
fit_top-le (suc n) remaining = ground (arith, fit_top-le n remaining)

fit_top-fits : (n remaining : ℕ) → 36 ≤ remaining → 36 + 28 * fit_top n remaining ≤ remaining
unfolding fit_top
fit_top-fits zero remaining h = omega arith
fit_top-fits (suc n) remaining h = ground (arith, fit_top-fits n remaining h)

fit_top-most :
    (n remaining : ℕ) → fit_top n remaining < n → remaining < 36 + 28 * (fit_top n remaining + 1)
unfolding fit_top
fit_top-most zero remaining h = absurd (omega arith)
fit_top-most (suc n) remaining h = ground (arith, fit_top-most n remaining, fit_top-le n remaining)

capped-min : (n : ℕ) → capped n ≡ min 7 n
capped-min n = ground arith

-- The number of threads sent for a group whose head fits: no more than are stored and than seven, and
-- as many of these as the rest of the frame holds.
pub emitted_lem :
    (g : ThreadGroupEntry) (wrt : TlvWriter)
    → 36 ≤ remaining_of wrt
    → (emitted g wrt ≤ length g.top)
      × (emitted g wrt ≤ 7)
      × (36 + 28 * emitted g wrt ≤ remaining_of wrt)
      × ((emitted g wrt ≡ min 7 (length g.top))
          ⊎ (remaining_of wrt < 36 + 28 * (emitted g wrt + 1)))
unfolding emitted
emitted_lem g wrt h =
    let c = capped (length g.top) in
    let r = remaining_of wrt in
    let c_min : c ≡ min 7 (length g.top) = capped-min (length g.top) in
    let le = fit_top-le c r in
    let fits = fit_top-fits c r h in
    rw (← c_min) (
      omega arith,
      omega arith,
      fits,
      elim (lt-or-le (fit_top c r) c) [
        | inl less ↦ inr (fit_top-most c r less)
        | inr all ↦ inl (omega arith)
      ],
    )

-- The entries that the groups yield in a frame with `remaining` bytes left.
unfoldable pub thread_entries : List ThreadGroupEntry → ℕ → List Entry
thread_entries [] remaining = []
thread_entries (g ∷ gs) remaining =
    let emit = fit_top (capped (length g.top)) remaining in
    let rest = thread_entries gs (remaining - (36 + 28 * emit)) in
    if ltb remaining 36
    then []
    else (tf_type_thread, thread_payload g (flags_of g emit) emit) ∷ rest

-- One group whose head fits: it is put with as many threads as fit.
put_group :
    (g : ThreadGroupEntry) (w : TlvWriter)
    → IsValid w
    → IsGroup g
    → 36 ≤ remaining_of w
    → let payload = thread_payload g (flags_of g (emitted g w)) (emitted g w) in
      (length payload ≡ 34 + 28 * emitted g w)
      × (length payload < 256)
      × ((tlv_put w tf_type_thread (some payload) (byte (length payload))).0 ≡ ok)
      × Pushed w
          ((tf_type_thread, payload) ∷ [])
          (tlv_put w tf_type_thread (some payload) (byte (length payload))).1
put_group g w v valid room =
    let payload = thread_payload g (flags_of g (emitted g w)) (emitted g w) in
    let (stored, seven, fits, most) = emitted_lem g w room in
    let size : length payload ≡ 34 + 28 * emitted g w =
      length-thread_payload g (flags_of g (emitted g w)) (emitted g w) valid stored in
    let short : length payload < 256 = omega arith in
    let (status, pushed) = tlv_put-Pushed w tf_type_thread payload v (omega arith) in
    (size, short, status, rw (sent-short payload short) at pushed)

-- On a valid writer `thread_push` always succeeds. It appends the entries of the groups, each with as
-- many threads as fit, up to the first group whose head does not fit.
pub thread_push-Pushed :
    (gs : List ThreadGroupEntry) (warned : Bool) (w : TlvWriter)
    → IsValid w
    → All IsGroup gs
    → ((thread_push gs warned w).0 ≡ ok)
      × Pushed w (thread_entries gs (remaining_of w)) (thread_push gs warned w).2
unfolding thread_push thread_entries emitted
thread_push-Pushed [] warned w v valid = (refl, Pushed-nil w v)
thread_push-Pushed (g ∷ gs) warned w v (valid, others) = elim (lt-or-le (remaining_of w) 36) [
  | inl full ↦ rw (lt→ltb (remaining_of w) 36 full) (refl, Pushed-nil w v)
  | inr room ↦
      let payload = thread_payload g (flags_of g (emitted g w)) (emitted g w) in
      let put = tlv_put w tf_type_thread (some payload) (byte (length payload)) in
      let (size, short, status, pushed) = put_group g w v valid room in
      let left : remaining_of put.1 ≡ remaining_of w - (36 + 28 * emitted g w) =
        omega (arith, pushed.appended.grown, pushed.appended.same_cap, length-append payload []) in
      let reduced : Bool =
        ltb tf_max_thread_top_n (length g.top) || ltb (emitted g w) (length g.top) in
      let (all_ok, rest) = thread_push-Pushed gs (reduced || warned) put.1 pushed.valid others in
      rw
        (
          le→ltb_false (remaining_of w) 36 room,
          le→ltb_false 255 (length payload) (omega arith),
          status,
          ← left,
        )
        (all_ok, Pushed-trans pushed rest)
]

-- At most the stored threads are sent.
pub fit_top-stored :
    (g : ThreadGroupEntry) (remaining : ℕ)
    → fit_top (capped (length g.top)) remaining ≤ length g.top
fit_top-stored g remaining =
    omega (arith, fit_top-le (capped (length g.top)) remaining, capped-min (length g.top))
