-- ===== src/Collector/Pushed.antt =====
-- What a successful push leaves in the frame: whole entries behind what was there.
use trace_fox.Base.{
  ℕ, ◌+◌, ◌≤◌, ◌<◌, ◌≡◌, refl, sym, ◌⊎◌, inl, inr, some, List, [], ◌∷◌, ◌++◌, append-nil, arith, ok,
  fail, length, take, length-take, take_all,
}
use trace_fox.Bytes.{byte}
use trace_fox.Tlv.{TlvWriter, tlv_put}
use trace_fox.Tlv.Put.{IsValid, Appended, Appended-trans, contents, tlv_put_lem}
use trace_fox.Protocol.Entries.{Entry, encode, encode-append}
use trace_fox.Collector.{put_payload}

-- The bytes of a payload that go out: its length is sent, and taken, modulo 256.
abbrev pub sent : List ℕ → List ℕ
sent payload = take (byte (length payload)) payload

pub length-sent : (payload : List ℕ) → length (sent payload) ≡ byte (length payload)
length-sent payload = omega (arith, length-take (byte (length payload)) payload)

pub sent-short : (payload : List ℕ) → length payload < 256 → sent payload ≡ payload
sent-short payload h = take_all (byte (length payload)) payload (omega arith)

-- The writer `w'` is valid, and its frame is that of `w` with these entries behind it.
pub record Pushed (w : TlvWriter) (es : List Entry) (w' : TlvWriter) : Type 0 where
  pub appended : Appended w (encode es) w'
  pub valid : IsValid w'

pub Pushed-nil : (w : TlvWriter) → IsValid w → Pushed w [] w
Pushed-nil w v = record {
  appended = record {
    bytes = sym (append-nil (contents w));
    grown = omega arith;
    same_cap = refl;
    same_size = refl;
    behind = λ m hm. refl;
  };
  valid = v;
}

pub Pushed-trans :
    {w w' w'' : TlvWriter} {es fs : List Entry}
    → Pushed w es w'
    → Pushed w' fs w''
    → Pushed w (es ++ fs) w''
Pushed-trans {es} {fs} p q = record {
  appended = rw (encode-append es fs) (Appended-trans p.appended q.appended);
  valid = q.valid;
}

-- An entry that fits is pushed.
pub tlv_put-Pushed :
    (w : TlvWriter) (type : ℕ) (payload : List ℕ)
    → IsValid w
    → w.len + 2 + byte (length payload) ≤ w.cap
    → ((tlv_put w type (some payload) (byte (length payload))).0 ≡ ok)
      × Pushed w
          ((type, sent payload) ∷ [])
          (tlv_put w type (some payload) (byte (length payload))).1
tlv_put-Pushed w type payload v room =
    go (tlv_put_lem w type (byte (length payload)) payload v (omega arith) (omega arith))
  where
    go :
        ((w.cap < w.len + 2 + byte (length payload))
            × ((tlv_put w type (some payload) (byte (length payload))).0 ≡ fail)
            × ((tlv_put w type (some payload) (byte (length payload))).1 ≡ w))
          ⊎ ((w.len + 2 + byte (length payload) ≤ w.cap)
              × ((tlv_put w type (some payload) (byte (length payload))).0 ≡ ok)
              × Appended w
                  (type ∷ byte (length payload) ∷ sent payload)
                  (tlv_put w type (some payload) (byte (length payload))).1
              × IsValid (tlv_put w type (some payload) (byte (length payload))).1)
        → ((tlv_put w type (some payload) (byte (length payload))).0 ≡ ok)
          × Pushed w
              ((type, sent payload) ∷ [])
              (tlv_put w type (some payload) (byte (length payload))).1
    go (inl (full, status, same)) = absurd (omega arith)
    go (inr (fits, status, appended, valid)) =
        (status, record { appended = rw (append-nil, length-sent payload) appended; valid = valid })

pub put_payload-Pushed :
    (w : TlvWriter) (type : ℕ) (payload : List ℕ)
    → IsValid w
    → w.len + 2 + byte (length payload) ≤ w.cap
    → ((put_payload w type payload).0 ≡ ok)
      × Pushed w ((type, sent payload) ∷ []) (put_payload w type payload).1
unfolding put_payload
put_payload-Pushed w type payload v room = tlv_put-Pushed w type payload v room

-- How much room the entries take.
pub Pushed-len :
    {w w' : TlvWriter} {es : List Entry}
    → Pushed w es w'
    → (w'.len ≡ w.len + length (encode es)) × (w'.cap ≡ w.cap)
Pushed-len p = (p.appended.grown, p.appended.same_cap)
