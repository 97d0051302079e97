-- ===== src/Collector.antt =====
-- agent/include/tracefox.h, `struct tf_collector`: the context that every collector owns, its
-- allocation and release, and the calls that go through the context pointer. NULL is `none`.
pub mod Pushed
use trace_fox.Base.{ℕ, Bool, true, false, Option, none, some, List, Status, ok, fail, length}
use trace_fox.Bytes.{byte}
use trace_fox.Tlv.{TlvWriter, tlv_put}

-- `calloc` of a context in `init`; the first argument says whether the allocation succeeds.
unfoldable pub calloc_ctx {ℓ} : {C : Type ℓ} → Bool → C → Option C → Status × Option C
calloc_ctx true zeroed ctx = (ok, some zeroed)
calloc_ctx false zeroed ctx = (fail, ctx)

-- `free(col->ctx); col->ctx = NULL`
unfoldable pub free_ctx {ℓ} : {C : Type ℓ} → Option C → Option C
free_ctx ctx = none

unfoldable pub with_ctx {ℓ} : {C : Type ℓ} → (C → Status × C) → Option C → Status × Option C
with_ctx f none = (fail, none)
with_ctx f (some ctx) = ((f ctx).0, some (f ctx).1)

-- `tlv_put(wrt, type, payload, (uint8_t)(payload_cursor - payload))`
unfoldable pub put_payload : TlvWriter → ℕ → List ℕ → Status × TlvWriter
put_payload wrt type payload = tlv_put wrt type (some payload) (byte (length payload))

-- `struct sample_context`
pub record SampleContext : Type 0 where
  pub cpu_total_diff : ℕ
