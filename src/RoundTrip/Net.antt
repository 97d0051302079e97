-- ===== src/RoundTrip/Net.antt =====
-- agent/src/net.c against the branch `TF_TYPE_NET` of the parser.
use trace_fox.Base.{
  ℕ, suc, ◌+◌, ◌*◌, ◌≤◌, ◌≡◌, refl, sym, ap, ◌∙◌, some, List, [], ◌∷◌, ◌++◌, map, append-nil,
  append_assoc, arith, le→leb, le→ltb_false, length, take, drop, All, length-append, length-take,
}
use trace_fox.Base.CString.{c_str, name_field, length-name_field}
use trace_fox.Bytes.{byte, be64, IsU64, from_be-be64}
use trace_fox.Net.{NetEntry, NetCtx, net_entry_bytes, net_entries_bytes, net_payload}
use trace_fox.Protocol.{Iface, parsed, Result}
use trace_fox.Protocol.Frame.{handle_entry}
use trace_fox.Protocol.Decode.{ascii, byte_at}
use trace_fox.Protocol.Handlers.{parse_net}
use trace_fox.Protocol.Segment.{
  Holds, slice-Holds, drop-Holds, le-Holds, Holds-append, Holds-next, name_of-name_field,
}

-- The counters are words of 64 bits.
abbrev pub IsEntry : NetEntry → Type 0
IsEntry e = IsU64 e.rx_bytes × IsU64 e.tx_bytes

-- What the server sees of an entry: seven bytes of the name at most, and the counters.
abbrev pub iface_of : NetEntry → Iface
iface_of e = record {
  name = ascii (take 7 (c_str e.name));
  rx_bytes = e.rx_bytes;
  tx_bytes = e.tx_bytes;
}

entry_layout :
    (e : NetEntry) → net_entry_bytes e ≡ name_field 8 e.name ++ (be64 e.rx_bytes ++ be64 e.tx_bytes)
unfolding net_entry_bytes
entry_layout e = append_assoc (name_field 8 e.name) (be64 e.rx_bytes) (be64 e.tx_bytes)

length-net_entry_bytes : (e : NetEntry) → length (net_entry_bytes e) ≡ 24
length-net_entry_bytes e = rw (entry_layout e) (
    omega (
      arith,
      length-name_field 8 e.name,
      length-append (name_field 8 e.name) (be64 e.rx_bytes ++ be64 e.tx_bytes),
    ))

pub length-net_entries_bytes : (es : List NetEntry) → length (net_entries_bytes es) ≡ 24 * length es
unfolding net_entries_bytes
length-net_entries_bytes [] = refl
length-net_entries_bytes (e ∷ es) = omega (
  arith,
  length-append (net_entry_bytes e) (net_entries_bytes es),
  length-net_entry_bytes e,
  length-net_entries_bytes es,
)

-- One round of the parser's loop over an entry.
net_round :
    (e : NetEntry) (count p : ℕ) (val rest : List ℕ)
    → IsEntry e
    → Holds val p (net_entry_bytes e) rest
    → parse_net (suc count) val p ≡ iface_of e ∷ parse_net count val (p + 24)
unfolding parse_net
net_round e count p val rest (rx, tx) h =
    let name_size = length-name_field 8 e.name in
    let tail = be64 e.rx_bytes ++ (be64 e.tx_bytes ++ rest) in
    let at_name : drop p val ≡ name_field 8 e.name ++ tail =
      rw (entry_layout e, append_assoc) at h in
    let at_rx : drop (p + 8) val ≡ tail =
      drop-Holds val p (p + 8) (name_field 8 e.name) tail at_name (omega arith) in
    let at_tx : drop (p + 16) val ≡ be64 e.tx_bytes ++ rest =
      drop-Holds val (p + 8) (p + 16) (be64 e.rx_bytes) (be64 e.tx_bytes ++ rest) at_rx
        (omega arith) in
    let room : p + 24 ≤ length val =
      le-Holds val (p + 16) (p + 24) (be64 e.tx_bytes) rest at_tx (omega arith) (omega arith) in
    rw (
      le→ltb_false (length val) (p + 24) room,
      slice-Holds val p (p + 8) (name_field 8 e.name) tail at_name (omega arith),
      slice-Holds val (p + 8) (p + 16) (be64 e.rx_bytes) (be64 e.tx_bytes ++ rest) at_rx
          (omega arith),
      slice-Holds val (p + 16) (p + 24) (be64 e.tx_bytes) rest at_tx (omega arith),
      name_of-name_field 7 e.name,
      from_be-be64 e.rx_bytes rx,
      from_be-be64 e.tx_bytes tx,
    )

pub parse_net-entries :
    (es : List NetEntry) (val : List ℕ) (p : ℕ) (rest : List ℕ)
    → All IsEntry es
    → Holds val p (net_entries_bytes es) rest
    → parse_net (length es) val p ≡ map iface_of es
unfolding net_entries_bytes
parse_net-entries [] val p rest valid h = unfold parse_net in refl
parse_net-entries (e ∷ es) val p rest (valid, others) h =
    net_round e (length es) p val (net_entries_bytes es ++ rest) valid
      (Holds-append val p (net_entry_bytes e) (net_entries_bytes es) rest h)
    ∙ ap (λ t. iface_of e ∷ t)
        (parse_net-entries es val (p + 24) rest others (
          Holds-next val p (p + 24) (net_entry_bytes e) (net_entries_bytes es) rest h
            (omega (arith, length-net_entry_bytes e))))

-- The context after a sample: at most four entries, over counters of 64 bits.
pub record IsValid (ctx : NetCtx) : Type 0 where
  pub count_in : ctx.count ≤ 4
  pub stored : ctx.count ≤ length ctx.entries
  pub entries : All IsEntry (take ctx.count ctx.entries)

-- The server reads from the payload of `net_push` exactly the interfaces of the context, in order,
-- with names cut off at seven bytes, and changes nothing else of the result.
pub net_roundtrip :
    (ctx : NetCtx) (r : Result)
    → IsValid ctx
    → handle_entry 4 (net_payload ctx) r
      ≡ parsed (record r { net = some (map iface_of (take ctx.count ctx.entries)) })
unfolding handle_entry net_payload byte_at
net_roundtrip ctx r v =
    let es = take ctx.count ctx.entries in
    let size : byte ctx.count ≡ length es =
      omega (arith, length-take ctx.count ctx.entries, v.count_in, v.stored) in
    rw (
      le→leb 1 (suc (length (net_entries_bytes es))) (omega arith),
      size,
      parse_net-entries es (length es ∷ net_entries_bytes es) 1 [] v.entries
          (sym (append-nil (net_entries_bytes es))),
    )
