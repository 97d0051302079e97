-- ===== src/Protocol/Total.antt =====
-- The parser raises no exception, whatever bytes arrive.
use trace_fox.Base.{
  ℕ, zero, suc, ◌+◌, ◌≤◌, ◌<◌, ◌≡◌, refl, sym, ap, ◌∙◌, ◌≢◌, ◌⊎◌, inl, inr, Bool, true, false, ◌&&◌,
  none, some, List, arith, ltb, leb, ◌==◌, if◌then◌else◌, ltb→lt, leb→le, ltb_false→le, eq→==,
  ==_iff, Bool-cases, length, and_right,
}
use mathlib.Core.Bool.{true≢false}
use trace_fox.Bytes.{from_be}
use trace_fox.Protocol.{Outcome, parsed, raised, stuck, ◌>>=◌, Result}
use trace_fox.Protocol.Decode.{slice, byte_at, unpack, fields}
use trace_fox.Protocol.Handlers.{
  parse_cpu, parse_mem, parse_disk, parse_fs, parse_proc, parse_thread,
}
use trace_fox.Protocol.Frame.{handle_entry, parse_tlv_entries, parse_frame, caught, empty_result}
use trace_fox.Protocol.Branches.{
  IsParsed, bind_IsParsed, byte_at-IsParsed, parsed_of, parse_disk-IsParsed, parse_fs-IsParsed,
  parse_proc-IsParsed, parse_thread-IsParsed,
}

if_IsParsed :
    (c : Bool) (x y : Outcome Result)
    → (c ≡ true → IsParsed x)
    → IsParsed y
    → IsParsed (if c then x else y)
if_IsParsed true x y hx hy = hx refl
if_IsParsed false x y hx hy = hy

parse_cpu-IsParsed : (val : List ℕ) → length val ≡ 10 → IsParsed (parse_cpu val)
unfolding parse_cpu unpack fields
parse_cpu-IsParsed val h = rw (eq→== (length val) 10 h) tt

parse_mem-IsParsed : (val : List ℕ) → length val ≡ 18 → IsParsed (parse_mem val)
unfolding parse_mem unpack fields
parse_mem-IsParsed val h = rw (eq→== (length val) 18 h) tt

counted_IsParsed :
    (val : List ℕ) (f : ℕ → Outcome Result) (t u : ℕ)
    → (t == u && leb 1 (length val)) ≡ true
    → ((count : ℕ) → IsParsed (f count))
    → IsParsed (byte_at val 0 >>= f)
counted_IsParsed val f t u e h =
    let some_byte = leb→le 1 (length val) (and_right (t == u) (leb 1 (length val)) e) in
    bind_IsParsed (byte_at val 0) f (byte_at-IsParsed val 0 (omega arith)) h

len_of : (val : List ℕ) (t u n : ℕ) → (t == u && length val == n) ≡ true → length val ≡ n
len_of val t u n e = (==_iff (length val) n).0 (and_right (t == u) (length val == n) e)

handle_entry-IsParsed : (t : ℕ) (val : List ℕ) (r : Result) → IsParsed (handle_entry t val r)
unfolding handle_entry
handle_entry-IsParsed t val r =
    if_IsParsed (t == 1 && length val == 10) _ _
      (λ e.
        bind_IsParsed (parse_cpu val) _ (parse_cpu-IsParsed val (len_of val t 1 10 e)) (λ c. tt))
      (if_IsParsed (t == 2 && length val == 18) _ _
        (λ e.
          bind_IsParsed (parse_mem val) _ (parse_mem-IsParsed val (len_of val t 2 18 e)) (λ c. tt))
        (if_IsParsed (t == 3 && leb 1 (length val)) _ _ (λ e. tt)
          (if_IsParsed (t == 4 && leb 1 (length val)) _ _
            (λ e. counted_IsParsed val _ t 4 e (λ count. tt))
            (if_IsParsed (t == 5 && leb 1 (length val)) _ _
              (λ e. counted_IsParsed val _ t 5 e (λ count.
                bind_IsParsed (parse_disk count _ val 1) _ (parse_disk-IsParsed count _ val 1)
                  (λ ds. tt)))
              (if_IsParsed (t == 6 && leb 1 (length val)) _ _
                (λ e. counted_IsParsed val _ t 6 e (λ count.
                  bind_IsParsed (parse_fs count _ val 1) _ (parse_fs-IsParsed count _ val 1)
                    (λ ms. tt)))
                (if_IsParsed (t == 7 && leb 1 (length val)) _ _
                  (λ e. counted_IsParsed val _ t 7 e (λ count.
                    bind_IsParsed (parse_proc count val 1) _ (parse_proc-IsParsed count val 1)
                      (λ gs. tt)))
                  (if_IsParsed (t == 8 && leb 34 (length val)) _ _
                    (λ e.
                      bind_IsParsed (parse_thread val) _
                        (parse_thread-IsParsed val
                          (leb→le 34 (length val) (and_right (t == 8) (leb 34 (length val)) e)))
                        (λ g. tt))
                    tt)))))))

parse_tlv_entries-IsParsed :
    (fuel : ℕ) (payload : List ℕ) (offset : ℕ) (r : Result)
    → 1 ≤ fuel
    → length payload < offset + fuel
    → IsParsed (parse_tlv_entries fuel payload offset r)
unfolding parse_tlv_entries
parse_tlv_entries-IsParsed zero payload offset r some_fuel enough = absurd (omega arith)
parse_tlv_entries-IsParsed (suc fuel) payload offset r some_fuel enough =
    if_IsParsed (leb (offset + 2) (length payload)) _ _
      (λ e.
        let room = leb→le (offset + 2) (length payload) e in
        bind_IsParsed (byte_at payload offset) _ (byte_at-IsParsed payload offset (omega arith))
          (λ t.
            bind_IsParsed (byte_at payload (offset + 1)) _
              (byte_at-IsParsed payload (offset + 1) (omega arith))
              (λ len.
                if_IsParsed (ltb (length payload) (offset + 2 + len)) _ _ (λ past. tt)
                  (bind_IsParsed (handle_entry t (slice payload (offset + 2) (offset + 2 + len)) r)
                    _ (handle_entry-IsParsed t (slice payload (offset + 2) (offset + 2 + len)) r)
                    (λ r'.
                      parse_tlv_entries-IsParsed fuel payload (offset + 2 + len) r' (omega arith)
                        (omega arith))))))
      tt

caught-IsParsed : (m : Outcome Result) → IsParsed m → (r : Result) × (caught m ≡ parsed (some r))
unfolding caught
caught-IsParsed (parsed r) h = (r, refl)
caught-IsParsed raised h = absurd h
caught-IsParsed stuck h = absurd h

parsed-injective : {a b : ℕ} → parsed a ≡ parsed b → a ≡ b
parsed-injective {a} h = ap (value a) h
  where
    value : ℕ → Outcome ℕ → ℕ
    value d (parsed n) = n
    value d _ = d

-- On any bytes the parser returns. For a frame below twelve bytes, or with another magic or another version,
-- `parse_frame` yields the empty dictionary; for every other frame it yields a dictionary: no branch raises one
-- of the exceptions that the `except` clause names, and the loop over the entries ends.
pub parse_frame_total :
    (payload : List ℕ)
    → (((length payload < 12)
          ⊎ ((from_be (slice payload 0 2) ≢ 0x5446) ⊎ (byte_at payload 2 ≢ parsed 2)))
        × (parse_frame payload ≡ parsed none))
      ⊎ ((12 ≤ length payload)
          × (from_be (slice payload 0 2) ≡ 0x5446)
          × (byte_at payload 2 ≡ parsed 2)
          × (r : Result) × (parse_frame payload ≡ parsed (some r)))
unfolding parse_frame
parse_frame_total payload = elim (Bool-cases (ltb (length payload) 12)) [
  | inl e ↦ inl (inl (ltb→lt (length payload) 12 e), rw (e, parse_frame) refl)
  | inr e ↦
      let room = ltb_false→le (length payload) 12 e in
      let magic = from_be (slice payload 0 2) in
      let (version, v) = parsed_of (byte_at payload 2) (byte_at-IsParsed payload 2 (omega arith)) in
      elim (Bool-cases (magic == 0x5446)) [
        | inr other ↦ inl (
          inr (inl (λ h. true≢false (sym (eq→== magic 0x5446 h) ∙ other))),
          rw (e, v, other, parse_frame) refl,
        )
        | inl same ↦ elim (Bool-cases (version == 2)) [
          | inr other ↦ inl (
            inr (
                inr
                  (λ h. true≢false (sym (eq→== version 2 (parsed-injective (sym v ∙ h))) ∙ other))),
            rw (e, v, same, other, parse_frame) refl,
          )
          | inl two ↦
              let start =
                empty_result magic version (from_be (slice payload 4 8))
                  (from_be (slice payload 8 12)) in
              let entries =
                parse_tlv_entries-IsParsed (length payload) payload 12 start (omega arith)
                  (omega arith) in
              let (r, c) =
                caught-IsParsed (parse_tlv_entries (length payload) payload 12 start) entries in
              inr (
                room,
                (==_iff magic 0x5446).0 same,
                v ∙ ap parsed ((==_iff version 2).0 two),
                r,
                rw (e, v, same, two, parse_frame) c,
              )
        ]
      ]
]
