-- ===== src/Tlv/Put.antt =====
-- What `tlv_init` and `tlv_put` write into the frame buffer.
use trace_fox.Base.{
  ℕ, ◌+◌, ◌/◌, ◌^◌, ◌≤◌, ◌<◌, ◌≡◌, refl, ◌∙◌, ◌⊎◌, inl, inr, some, List, [], ◌∷◌, ◌++◌,
  append_assoc, arith, lt→ltb, le→ltb_false, lt-or-le, ok, fail, add64, length, take, drop,
  length-append, length-set, length-take, take-set,
}
use trace_fox.Bytes.{byte, be16, be32}
use trace_fox.Tlv.{
  TlvWriter, tf_magic, tf_version, tlv_put_u8, tlv_put_be_u16, tlv_put_be_u32, tlv_init, tlv_put,
  memcpy,
}
use trace_fox.Tlv.Memory.{drop-set, length-memcpy, take-memcpy, drop-memcpy}

-- The frame stays inside its capacity and that inside the buffer; no `size_t` sum wraps.
pub record IsValid (w : TlvWriter) : Type 0 where
  pub len_in : w.len ≤ w.cap
  pub cap_in : w.cap ≤ length w.buffer
  pub small : w.cap < 2 ^ 63

-- The bytes of the frame written so far.
abbrev pub contents : TlvWriter → List ℕ
contents w = take w.len w.buffer

pub record Appended (w : TlvWriter) (bs : List ℕ) (w' : TlvWriter) : Type 0 where
  pub bytes : contents w' ≡ contents w ++ bs
  pub grown : w'.len ≡ w.len + length bs
  pub same_cap : w'.cap ≡ w.cap
  pub same_size : length w'.buffer ≡ length w.buffer
  pub behind : (m : ℕ) → w'.len ≤ m → drop m w'.buffer ≡ drop m w.buffer

pub put_u8_lem :
    (w : TlvWriter) (b : ℕ)
    → w.len < length w.buffer
    → w.len < 2 ^ 63
    → Appended w (b ∷ []) (tlv_put_u8 w b)
unfolding tlv_put_u8
put_u8_lem w b h small =
    let e : add64 w.len 1 ≡ w.len + 1 = omega arith in
    record {
      bytes = rw e (take-set w.buffer w.len b h);
      grown = omega arith;
      same_cap = refl;
      same_size = length-set w.buffer w.len b;
      behind = λ m hm. drop-set w.buffer w.len m b (omega arith);
    }

pub Appended-trans :
    {w w' w'' : TlvWriter} {bs cs : List ℕ}
    → Appended w bs w'
    → Appended w' cs w''
    → Appended w (bs ++ cs) w''
Appended-trans {w} {w'} {w''} {bs} {cs} p q = record {
  bytes = q.bytes ∙ rw p.bytes (append_assoc (contents w) bs cs);
  grown = omega (arith, p.grown, q.grown, length-append bs cs);
  same_cap = q.same_cap ∙ p.same_cap;
  same_size = q.same_size ∙ p.same_size;
  behind = λ m hm. q.behind m hm ∙ p.behind m (omega (arith, q.grown));
}

pub put_be_u16_lem :
    (w : TlvWriter) (v : ℕ)
    → w.len + 2 ≤ length w.buffer
    → w.len + 2 < 2 ^ 63
    → Appended w (be16 v) (tlv_put_be_u16 w v)
unfolding tlv_put_be_u16
put_be_u16_lem w v h small =
    let p = put_u8_lem w (byte (v / 2 ^ 8)) (omega arith) (omega arith) in
    Appended-trans p
      (put_u8_lem _ (byte v) (omega (arith, p.grown, p.same_size)) (omega (arith, p.grown)))

pub put_be_u32_lem :
    (w : TlvWriter) (v : ℕ)
    → w.len + 4 ≤ length w.buffer
    → w.len + 4 < 2 ^ 63
    → Appended w (be32 v) (tlv_put_be_u32 w v)
unfolding tlv_put_be_u32
put_be_u32_lem w v h small =
    let p = put_u8_lem w (byte (v / 2 ^ 24)) (omega arith) (omega arith) in
    let q = Appended-trans p (
      put_u8_lem _ (byte (v / 2 ^ 16)) (omega (arith, p.grown, p.same_size))
        (omega (arith, p.grown))) in
    let r = Appended-trans q (
      put_u8_lem _ (byte (v / 2 ^ 8)) (omega (arith, q.grown, q.same_size))
        (omega (arith, q.grown))) in
    Appended-trans r
      (put_u8_lem _ (byte v) (omega (arith, r.grown, r.same_size)) (omega (arith, r.grown)))

memcpy-Appended :
    (w : TlvWriter) (bs : List ℕ) (n : ℕ)
    → length bs ≡ n
    → w.len + n ≤ length w.buffer
    → w.len + n < 2 ^ 63
    → Appended w bs (record w { buffer = memcpy w.buffer w.len bs; len = add64 w.len n })
memcpy-Appended w bs n hn h small =
    let e : add64 w.len n ≡ w.len + length bs = omega arith in
    record {
      bytes = rw e (take-memcpy w.buffer w.len bs (omega arith));
      grown = e;
      same_cap = refl;
      same_size = length-memcpy w.buffer w.len bs;
      behind = λ m hm. drop-memcpy w.buffer w.len m bs (omega arith);
    }

-- What is appended within the capacity leaves a valid writer.
Appended-IsValid :
    {w w' : TlvWriter} {bs : List ℕ}
    → Appended w bs w'
    → w.len + length bs ≤ w.cap
    → w.cap ≤ length w.buffer
    → w.cap < 2 ^ 63
    → IsValid w'
Appended-IsValid a fits room small = record {
  len_in = omega (arith, a.grown, a.same_cap);
  cap_in = omega (arith, a.same_size, a.same_cap);
  small = omega (arith, a.same_cap);
}

-- The twelve bytes in front of the entries.
abbrev pub header : ℕ → ℕ → List ℕ
header timestamp seq = be16 tf_magic ++ tf_version ∷ 0 ∷ be32 timestamp ++ be32 seq

init-Appended :
    (w : TlvWriter) (timestamp seq : ℕ)
    → w.len + 12 ≤ length w.buffer
    → w.len + 12 < 2 ^ 63
    → Appended w (header timestamp seq) (
        tlv_put_be_u32
          (tlv_put_be_u32
            (tlv_put_u8 (tlv_put_u8 (tlv_put_be_u16 w tf_magic) tf_version) 0)
            timestamp)
          seq)
init-Appended w timestamp seq h small =
    let p = put_be_u16_lem w tf_magic (omega arith) (omega arith) in
    let q =
      Appended-trans p
        (put_u8_lem _ tf_version (omega (arith, p.grown, p.same_size)) (omega (arith, p.grown))) in
    let r =
      Appended-trans q
        (put_u8_lem _ 0 (omega (arith, q.grown, q.same_size)) (omega (arith, q.grown))) in
    let s =
      Appended-trans r (
        put_be_u32_lem _ timestamp (omega (arith, r.grown, r.same_size))
          (omega (arith, r.grown))) in
    Appended-trans s
      (put_be_u32_lem _ seq (omega (arith, s.grown, s.same_size)) (omega (arith, s.grown)))

-- `tlv_init` refuses a capacity below twelve bytes and leaves the writer alone. On a buffer that holds
-- the capacity it otherwise yields a valid writer of that capacity, whose frame is the header.
pub tlv_init_lem :
    (w : TlvWriter) (buf : List ℕ) (cap timestamp seq : ℕ)
    → cap ≤ length buf
    → cap < 2 ^ 63
    → let (status, w') = tlv_init w (some buf) cap timestamp seq in
      ((cap < 12) × (status ≡ fail) × (w' ≡ w))
      ⊎ ((12 ≤ cap)
          × (status ≡ ok)
          × IsValid w'
          × (contents w' ≡ header timestamp seq)
          × (w'.cap ≡ cap))
unfolding tlv_init
tlv_init_lem w buf cap timestamp seq h small = elim (lt-or-le cap 12) [
  | inl p ↦ inl (p, rw (lt→ltb cap 12 p), rw (lt→ltb cap 12 p))
  | inr p ↦ inr (
      let a =
        init-Appended (record { buffer = buf; len = 0; cap = cap }) timestamp seq (omega arith)
          (omega arith) in
      rw (le→ltb_false cap 12 p) (
        p,
        refl,
        Appended-IsValid a (omega arith) (omega arith) (omega arith),
        a.bytes,
        a.same_cap,
      ))
]

-- `tlv_put` refuses an entry that does not fit the capacity and leaves the writer alone.
-- Otherwise the frame grows by exactly the type, the length and the value's bytes, the capacity
-- and the buffer behind the frame are unchanged, and the writer stays valid.
pub tlv_put_lem :
    (w : TlvWriter) (type len : ℕ) (value : List ℕ)
    → IsValid w
    → len < 2 ^ 8
    → len ≤ length value
    → let (status, w') = tlv_put w type (some value) len in
      ((w.cap < w.len + 2 + len) × (status ≡ fail) × (w' ≡ w))
      ⊎ ((w.len + 2 + len ≤ w.cap)
          × (status ≡ ok)
          × Appended w (type ∷ len ∷ take len value) w'
          × IsValid w')
unfolding tlv_put
tlv_put_lem w type len value v hl hv =
    let sum : add64 (add64 w.len 2) len ≡ w.len + 2 + len = omega arith in
    rw sum (elim (lt-or-le w.cap (w.len + 2 + len)) [
      | inl p ↦
          inl (p, rw (lt→ltb w.cap (w.len + 2 + len) p), rw (lt→ltb w.cap (w.len + 2 + len) p))
      | inr p ↦ inr (
          let a = put_u8_lem w type (omega arith) (omega arith) in
          let b =
            Appended-trans a
              (put_u8_lem _ len (omega (arith, a.grown, a.same_size)) (omega (arith, a.grown))) in
          let size : length (take len value) ≡ len = omega (arith, length-take len value) in
          let c = Appended-trans b (
            memcpy-Appended _ (take len value) len size (omega (arith, b.grown, b.same_size))
              (omega (arith, b.grown))) in
          rw (le→ltb_false w.cap (w.len + 2 + len) p)
            (p, refl, c, Appended-IsValid c (omega (arith, size)) (omega arith) (omega arith)))
    ])
