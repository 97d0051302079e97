-- ===== src/Net.antt =====
-- agent/src/net.c: the network collector. The contents of /proc/net/dev are an argument, `none`
-- where the file cannot be opened.
pub mod Collect
pub mod Reported
use trace_fox.Base.{
  ℕ, ◌+◌, ◌-◌, Bool, false, ◌&&◌, ◌||◌, Option, none, some, List, [], ◌∷◌, ◌++◌, ltb, leb, ◌==◌,
  if◌then◌else◌, Status, ok, fail, length, set, take, replicate,
}
use trace_fox.Base.CString.{c_str, str_eq, strncpy, name_field}
use trace_fox.Base.Stdio.{
  codes, Value, num, text, Directive, unsigned, skipped, span, literal, space, lines_of, scanf,
}
use trace_fox.Bytes.{byte, buf_put_be_u64}
use trace_fox.Tlv.{TlvWriter}
use trace_fox.Collector.{calloc_ctx, free_ctx, with_ctx, put_payload}

abbrev pub tf_max_interfaces : ℕ
tf_max_interfaces = 4

abbrev pub tf_net_name_size : ℕ
tf_net_name_size = 8

-- `struct net_entry`; the name is an array of eight bytes.
pub record NetEntry : Type 0 where
  pub name : List ℕ
  pub rx_bytes : ℕ
  pub tx_bytes : ℕ

-- `struct net_ctx`; the array `entries` always has `tf_max_interfaces` elements.
pub record NetCtx : Type 0 where
  pub entries : List NetEntry
  pub count : ℕ
  pub truncated : Bool

abbrev pub zero_entry : NetEntry
zero_entry = record { name = replicate tf_net_name_size 0; rx_bytes = 0; tx_bytes = 0 }

abbrev pub zero_ctx : NetCtx
zero_ctx = record { entries = replicate tf_max_interfaces zero_entry; count = 0; truncated = false }

unfoldable pub net_init : Bool → Option NetCtx → Status × Option NetCtx
unfolding calloc_ctx
net_init allocated ctx = calloc_ctx allocated zero_ctx ctx

unfoldable pub net_destroy : Option NetCtx → Option NetCtx
unfolding free_ctx
net_destroy ctx = free_ctx ctx

-- " %15[^:]: %llu %*u %*u %*u %*u %*u %*u %*u %llu"
abbrev pub net_format : List Directive
net_format =
    space
    ∷ span 15 b':'
    ∷ literal b':'
    ∷ space
    ∷ unsigned 64
    ∷ space
    ∷ skipped
    ∷ space
    ∷ skipped
    ∷ space
    ∷ skipped
    ∷ space
    ∷ skipped
    ∷ space
    ∷ skipped
    ∷ space
    ∷ skipped
    ∷ space
    ∷ skipped
    ∷ space
    ∷ unsigned 64
    ∷ []

-- The three values that the format assigns.
pub record NetLine : Type 0 where
  pub iface : List ℕ
  pub rx_bytes : ℕ
  pub tx_bytes : ℕ

unfoldable pub net_line_of : List Value → Option NetLine
net_line_of (text iface ∷ num rx ∷ num tx ∷ []) =
    some (record { iface = iface; rx_bytes = rx; tx_bytes = tx })
net_line_of _ = none

-- What a line contributes: nothing if it does not match, or if it is the loopback interface.
unfoldable pub net_line : List ℕ → Option NetLine
net_line line = elim (net_line_of (scanf net_format (c_str line)).0) [
  | none ↦ none
  | some l ↦ if str_eq l.iface (codes "lo") then none else some l
]

-- The entry is zeroed, its name copied, and its last byte set to NUL.
unfoldable pub entry_of : NetLine → NetEntry
entry_of l = record {
  name = set (strncpy zero_entry.name l.iface (tf_net_name_size - 1)) (tf_net_name_size - 1) 0;
  rx_bytes = l.rx_bytes;
  tx_bytes = l.tx_bytes;
}

-- The loop over the lines: the array, `idx`, and the lines that it has not read.
unfoldable pub net_loop : List (List ℕ) → List NetEntry → ℕ → List NetEntry × ℕ × List (List ℕ)
net_loop [] entries idx = (entries, idx, [])
net_loop (line ∷ lines) entries idx =
    let skip = net_loop lines entries idx in
    let keep = λ (l : NetLine). net_loop lines (set entries idx (entry_of l)) (idx + 1) in
    if ltb idx tf_max_interfaces
    then elim (net_line line) [ none ↦ skip | some l ↦ keep l ]
    else (entries, idx, line ∷ lines)

-- The lines behind the two header lines. `truncated` is set once a further line is left over.
unfoldable pub net_collect_lines : NetCtx → List (List ℕ) → Status × NetCtx
net_collect_lines ctx (title ∷ columns ∷ lines) =
    let (entries, idx, left) = net_loop lines ctx.entries 0 in
    let more : Bool = leb tf_max_interfaces idx && ltb 0 (length left) in
    (ok, record { entries = entries; count = idx; truncated = more || ctx.truncated })
net_collect_lines ctx _ = (fail, record ctx { count = 0 })

unfoldable pub net_collect : NetCtx → Option (List ℕ) → Status × NetCtx
net_collect ctx none = (fail, record ctx { count = 0 })
net_collect ctx (some file) = net_collect_lines ctx (lines_of 512 file)

abbrev pub tf_type_net : ℕ
tf_type_net = 0x04

-- The bytes of one entry: its name in eight bytes, and the two counters.
unfoldable pub net_entry_bytes : NetEntry → List ℕ
unfolding buf_put_be_u64
net_entry_bytes e =
    buf_put_be_u64 (buf_put_be_u64 (name_field tf_net_name_size e.name) e.rx_bytes) e.tx_bytes

unfoldable pub net_entries_bytes : List NetEntry → List ℕ
net_entries_bytes [] = []
net_entries_bytes (e ∷ es) = net_entry_bytes e ++ net_entries_bytes es

unfoldable pub net_payload : NetCtx → List ℕ
net_payload ctx = byte ctx.count ∷ net_entries_bytes (take ctx.count ctx.entries)

unfoldable pub net_push : NetCtx → TlvWriter → Status × TlvWriter
net_push ctx wrt =
    if ctx.count == 0 then (ok, wrt) else put_payload wrt tf_type_net (net_payload ctx)

unfoldable pub net_collect_api : Option NetCtx → Option (List ℕ) → Status × Option NetCtx
unfolding with_ctx
net_collect_api ctx file = with_ctx (λ c. net_collect c file) ctx

unfoldable pub net_push_api : Option NetCtx → TlvWriter → Status × TlvWriter
net_push_api none wrt = (fail, wrt)
net_push_api (some ctx) wrt = net_push ctx wrt
