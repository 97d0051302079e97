-- ===== src/Agent/Run/Capture.antt =====
-- The output file of agent/src/main.c, and the loop of agent/test_thread_capture.py that splits it into frames.
use trace_fox.Base.{
  ℕ, zero, suc, ◌+◌, ◌%◌, ◌^◌, ◌<◌, ◌≡◌, refl, sym, ap, ◌∙◌, Bool, ◌&&◌, not, Option, none, some,
  List, [], ◌∷◌, ◌++◌, append_assoc, arith, ltb, if◌then◌else◌, le→ltb_false, length, take, drop,
  All, length-append, take-append, drop-append,
}
use trace_fox.Base.CString.{bytes_eq}
use trace_fox.Bytes.{be16, from_be, from_be-be16, buf_put_be_u16}
use trace_fox.Agent.Setup.{file_header}
use trace_fox.Agent.Run.{file_record}

-- `while offset + 2 <= len(raw)` of `read_frames` on the bytes from `offset` on, on fuel: the bytes that each round hands
-- to the parser. `none` is the `AssertionError` of a frame that is cut off, or
-- that the fuel ran out.
unfoldable pub split_frames : ℕ → List ℕ → Option (List (List ℕ))
split_frames zero raw = none
split_frames (suc fuel) raw =
    let frame_len = from_be (take 2 raw) in
    let rest = drop 2 raw in
    let more = split_frames fuel (drop frame_len rest) in
    if ltb (length raw) 2
    then some []
    else if ltb (length rest) frame_len
    then none
    else (elim more [ none ↦ none | some fs ↦ some (take frame_len rest ∷ fs) ])

-- `raw[:5] == b"TFOX\x01"`
abbrev pub has_header : List ℕ → Bool
has_header raw = not (ltb (length raw) 8) && bytes_eq (take 5 raw) (take 5 file_header)

-- The frames of a file.
unfoldable pub capture_frames : List ℕ → Option (List (List ℕ))
capture_frames raw = if has_header raw then split_frames (length raw) (drop 8 raw) else none

-- The file that holds these frames.
unfoldable pub records : List (List ℕ) → List ℕ
records [] = []
records (f ∷ fs) = file_record (length f) f ++ records fs

abbrev pub log_of : List (List ℕ) → List ℕ
log_of fs = file_header ++ records fs

abbrev pub IsShort : List ℕ → Type 0
IsShort f = length f < 2 ^ 16

pub records-append : (fs gs : List (List ℕ)) → records (fs ++ gs) ≡ records fs ++ records gs
unfolding records
records-append [] gs = refl
records-append (f ∷ fs) gs =
    ap (λ t. file_record (length f) f ++ t) (records-append fs gs)
    ∙ sym (append_assoc (file_record (length f) f) (records fs) (records gs))

record_bytes : (f : List ℕ) → IsShort f → file_record (length f) f ≡ be16 (length f) ++ f
unfolding file_record buf_put_be_u16
record_bytes f h = let small : length f % 2 ^ 16 ≡ length f = omega arith in rw small refl

-- `frames.append`
abbrev cons_frame : List ℕ → Option (List (List ℕ)) → Option (List (List ℕ))
cons_frame f more = elim more [ none ↦ none | some fs ↦ some (f ∷ fs) ]

split_step :
    (fuel hi lo : ℕ) (body rest : List ℕ)
    → from_be (hi ∷ lo ∷ []) ≡ length body
    → split_frames (suc fuel) (hi ∷ lo ∷ (body ++ rest)) ≡ cons_frame body (split_frames fuel rest)
unfolding split_frames
split_step fuel hi lo body rest e =
    rw
      (
        e,
        le→ltb_false (length (hi ∷ lo ∷ (body ++ rest))) 2 (omega arith),
        le→ltb_false (length (body ++ rest)) (length body) (omega (arith, length-append body rest)),
        drop-append (length body) body rest refl,
      )
      (ap (λ (t : List ℕ). cons_frame t (split_frames fuel rest))
        (ap (λ n. take n (body ++ rest)) e ∙ take-append (length body) body rest refl))

split_end : (fuel : ℕ) → split_frames (suc fuel) [] ≡ some []
unfolding split_frames
split_end fuel = refl

split_record :
    (fuel : ℕ) (f rest : List ℕ)
    → IsShort f
    → split_frames (suc fuel) (file_record (length f) f ++ rest)
      ≡ cons_frame f (split_frames fuel rest)
split_record fuel f rest h =
    rw (record_bytes f h) (split_step fuel _ _ f rest (from_be-be16 (length f) h))

length-record : (f : List ℕ) → length (file_record (length f) f) ≡ length f + 2
unfolding file_record buf_put_be_u16
length-record f = omega arith

split_frames-records :
    (fuel : ℕ) (fs : List (List ℕ))
    → All IsShort fs
    → length (records fs) < fuel
    → split_frames fuel (records fs) ≡ some fs
unfolding records
split_frames-records zero fs h enough = absurd (omega arith)
split_frames-records (suc fuel) [] h enough = split_end fuel
split_frames-records (suc fuel) (f ∷ fs) (h, hs) enough =
    let less : length (records fs) < fuel =
      omega (arith, length-append (file_record (length f) f) (records fs), length-record f) in
    split_record fuel f (records fs) h ∙ ap (cons_frame f) (split_frames-records fuel fs hs less)

-- The reader of the capture test splits an output file of the agent into exactly the frames that were written.
pub capture_frames-log :
    (fs : List (List ℕ)) → All IsShort fs → capture_frames (log_of fs) ≡ some fs
unfolding capture_frames bytes_eq
capture_frames-log fs h =
    let size = length-append file_header (records fs) in
    rw (le→ltb_false (length (log_of fs)) 8 (omega arith))
      (split_frames-records (length (log_of fs)) fs h (omega arith))
