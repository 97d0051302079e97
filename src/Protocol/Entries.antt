-- ===== src/Protocol/Entries.antt =====
-- The parser's loop against a plain description: a frame is a header and a list of entries, and the
-- parser applies the branch of each entry in turn.
use trace_fox.Base.{
  ℕ, zero, suc, ◌+◌, ◌*◌, ◌≤◌, ◌<◌, ◌≡◌, refl, sym, ap, ◌∙◌, List, [], ◌∷◌, ◌++◌, append_assoc,
  arith, le→leb, le→ltb_false, lt→leb_false, length, drop, length-append, length-drop,
}
use trace_fox.Bytes.{IsU32, from_be-be32, from_be-be16}
use trace_fox.Tlv.{tf_magic}
use trace_fox.Tlv.Put.{header}
use trace_fox.Protocol.{Outcome, parsed, raised, stuck, ◌>>=◌, Result}
use trace_fox.Protocol.Decode.{slice, byte_at}
use trace_fox.Protocol.Frame.{handle_entry, parse_tlv_entries, parse_frame, caught, empty_result}
use trace_fox.Protocol.Segment.{slice-Holds, drop-Holds, byte_at-Holds}

-- An entry: its type and its value.
abbrev pub Entry : Type 0
Entry = ℕ × List ℕ

abbrev pub encode_entry : Entry → List ℕ
encode_entry (t, v) = t ∷ length v ∷ v

abbrev pub encode : List Entry → List ℕ
encode [] = []
encode (e ∷ es) = encode_entry e ++ encode es

pub encode-append : (es fs : List Entry) → encode (es ++ fs) ≡ encode es ++ encode fs
encode-append [] fs = refl
encode-append ((t, v) ∷ es) fs =
    rw (encode-append es fs) (sym (append_assoc (t ∷ length v ∷ v) (encode es) (encode fs)))

-- The branches of all entries, in order; a branch that raises ends the parse.
unfoldable pub apply_all : List Entry → Result → Outcome Result
apply_all [] r = parsed r
apply_all ((t, v) ∷ es) r = handle_entry t v r >>= apply_all es

length-encode : (es : List Entry) → 2 * length es ≤ length (encode es)
length-encode [] = omega arith
length-encode ((t, v) ∷ es) = omega (arith, length-encode es, length-append v (encode es))

round_end :
    (fuel : ℕ) (payload : List ℕ) (offset : ℕ) (r : Result)
    → drop offset payload ≡ []
    → parse_tlv_entries (suc fuel) payload offset r ≡ parsed r
unfolding parse_tlv_entries
round_end fuel payload offset r h = rw (
    lt→leb_false (offset + 2) (length payload)
      (omega (arith, ap (length {A = ℕ}) h, length-drop offset payload)))

size_le :
    (payload : List ℕ) (offset t : ℕ) (v rest : List ℕ)
    → drop offset payload ≡ t ∷ length v ∷ (v ++ rest)
    → offset + 2 + length v ≤ length payload
size_le payload offset t v rest h =
    omega (arith, ap (length {A = ℕ}) h, length-append v rest, length-drop offset payload)

pub bind_ext :
    {A B : Type 0} (m : Outcome A) {f g : A → Outcome B}
    → ((a : A) → f a ≡ g a)
    → (m >>= f) ≡ (m >>= g)
bind_ext (parsed a) h = h a
bind_ext raised h = refl
bind_ext stuck h = refl

pub bind_assoc :
    {A B C : Type 0} (m : Outcome A) (f : A → Outcome B) (g : B → Outcome C)
    → (m >>= λ a. f a >>= g) ≡ (m >>= f >>= g)
bind_assoc (parsed a) f g = refl
bind_assoc raised f g = refl
bind_assoc stuck f g = refl

round_entry :
    (fuel : ℕ) (payload : List ℕ) (offset t : ℕ) (v rest : List ℕ) (r : Result)
    → drop offset payload ≡ t ∷ length v ∷ (v ++ rest)
    → parse_tlv_entries (suc fuel) payload offset r
      ≡ (handle_entry t v r >>= λ r'. parse_tlv_entries fuel payload (offset + 2 + length v) r')
unfolding parse_tlv_entries
round_entry fuel payload offset t v rest r h =
    let size = size_le payload offset t v rest h in
    let at_len : drop (offset + 1) payload ≡ length v ∷ (v ++ rest) =
      drop-Holds payload offset (offset + 1) (t ∷ []) (length v ∷ (v ++ rest)) h (omega arith) in
    let at_value : drop (offset + 2) payload ≡ v ++ rest =
      drop-Holds payload (offset + 1) (offset + 2) (length v ∷ []) (v ++ rest) at_len
        (omega arith) in
    rw (
      le→leb (offset + 2) (length payload) (omega arith),
      byte_at-Holds payload offset t (length v ∷ (v ++ rest)) h,
      byte_at-Holds payload (offset + 1) (length v) (v ++ rest) at_len,
      le→ltb_false (length payload) (offset + 2 + length v) size,
      slice-Holds payload (offset + 2) (offset + 2 + length v) v rest at_value refl,
    )

pub parse_tlv_entries-encode :
    (es : List Entry) (fuel : ℕ) (payload : List ℕ) (offset : ℕ) (r : Result)
    → length es < fuel
    → drop offset payload ≡ encode es
    → parse_tlv_entries fuel payload offset r ≡ apply_all es r
unfolding apply_all
parse_tlv_entries-encode es zero payload offset r enough h = absurd (omega arith)
parse_tlv_entries-encode [] (suc fuel) payload offset r enough h = round_end fuel payload offset r h
parse_tlv_entries-encode ((t, v) ∷ es) (suc fuel) payload offset r enough h =
    round_entry fuel payload offset t v (encode es) r h
    ∙ bind_ext (handle_entry t v r) (λ r'.
      parse_tlv_entries-encode es fuel payload (offset + 2 + length v) r' (omega arith) (
        drop-Holds payload offset (offset + 2 + length v) (t ∷ length v ∷ v) (encode es) h
          (omega arith)))

-- On the header that `tlv_init` writes and any list of entries behind it the parser runs the branches
-- of exactly these entries, in order, on a result that holds the magic, the version, the time and the
-- sequence number; an exception in a branch yields the empty dictionary.
pub parse_frame-encode :
    (timestamp seq : ℕ) (es : List Entry)
    → IsU32 timestamp
    → IsU32 seq
    → parse_frame (header timestamp seq ++ encode es)
      ≡ caught (apply_all es (empty_result 0x5446 2 timestamp seq))
unfolding parse_frame byte_at slice
parse_frame-encode timestamp seq es ts sq =
    let payload = header timestamp seq ++ encode es in
    let size = length-encode es in
    rw (
      from_be-be32 timestamp ts,
      from_be-be32 seq sq,
      from_be-be16 tf_magic (omega arith),
      le→ltb_false (length payload) 12 (omega arith),
      parse_tlv_entries-encode es (length payload) payload 12 (empty_result 0x5446 2 timestamp seq)
          (omega arith) refl,
    )
