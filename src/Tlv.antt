-- ===== src/Tlv.antt =====
-- agent/src/tlv.c: the frame header and the TLV encoder. A `struct tlv_writer` is a record over the
-- bytes of the frame buffer; a NULL buffer or value is `none`. The writer itself is the address of a
-- local of `main` at every call, so it is no option. Each function returns the new writer.
pub mod Memory
pub mod Put
use trace_fox.Base.{
  ℕ, ◌+◌, ◌/◌, ◌^◌, Option, none, some, List, [], ◌∷◌, ltb, if◌then◌else◌, Status, ok, fail, add64,
  set, take,
}
use trace_fox.Bytes.{byte}

pub record TlvWriter : Type 0 where
  pub buffer : List ℕ
  pub len : ℕ
  pub cap : ℕ

abbrev pub tf_magic : ℕ
tf_magic = 0x5446

abbrev pub tf_version : ℕ
tf_version = 2

abbrev pub tlv_header_min_size : ℕ
tlv_header_min_size = 12

unfoldable pub tlv_put_u8 : TlvWriter → ℕ → TlvWriter
tlv_put_u8 wrt b = record wrt { buffer = set wrt.buffer wrt.len b; len = add64 wrt.len 1 }

-- `(uint8_t)((val >> k) & TF_BYTE_MASK)` is `byte (val / 2 ^ k)`.
unfoldable pub tlv_put_be_u16 : TlvWriter → ℕ → TlvWriter
tlv_put_be_u16 wrt val = tlv_put_u8 (tlv_put_u8 wrt (byte (val / 2 ^ 8))) (byte val)

unfoldable pub tlv_put_be_u32 : TlvWriter → ℕ → TlvWriter
tlv_put_be_u32 wrt val =
    let wrt1 = tlv_put_u8 wrt (byte (val / 2 ^ 24)) in
    let wrt2 = tlv_put_u8 wrt1 (byte (val / 2 ^ 16)) in
    let wrt3 = tlv_put_u8 wrt2 (byte (val / 2 ^ 8)) in tlv_put_u8 wrt3 (byte val)

unfoldable pub tlv_init : TlvWriter → Option (List ℕ) → ℕ → ℕ → ℕ → Status × TlvWriter
tlv_init writer none cap timestamp seq = (fail, writer)
tlv_init writer (some buf) cap timestamp seq =
    if ltb cap tlv_header_min_size
    then (fail, writer)
    else let wrt0 : TlvWriter = record { buffer = buf; len = 0; cap = cap } in
      let wrt1 = tlv_put_u8 (tlv_put_be_u16 wrt0 tf_magic) tf_version in
      let wrt2 = tlv_put_u8 wrt1 0 in (ok, tlv_put_be_u32 (tlv_put_be_u32 wrt2 timestamp) seq)

-- `memcpy(buf + i, bytes, length bytes)`
unfoldable pub memcpy : List ℕ → ℕ → List ℕ → List ℕ
memcpy buf i [] = buf
memcpy buf i (b ∷ bs) = memcpy (set buf i b) (i + 1) bs

-- `len` is a `uint8_t`; `memcpy` reads the first `len` bytes of the value.
unfoldable pub tlv_put : TlvWriter → ℕ → Option (List ℕ) → ℕ → Status × TlvWriter
tlv_put writer type none len = (fail, writer)
tlv_put writer type (some value) len =
    if ltb writer.cap (add64 (add64 writer.len 2) len)
    then (fail, writer)
    else let wrt = tlv_put_u8 (tlv_put_u8 writer type) len in
      (
        ok,
        record wrt { buffer = memcpy wrt.buffer wrt.len (take len value); len = add64 wrt.len len },
      )
