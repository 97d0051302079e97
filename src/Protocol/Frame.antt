-- ===== src/Protocol/Frame.antt =====
-- `_parse_tlv_entries` and `parse_frame`.
use trace_fox.Base.{
  ℕ, zero, suc, ◌+◌, ◌-◌, ◌/◌, ◌&&◌, ◌||◌, not, Option, none, some, List, [], ◌∷◌, ◌++◌, ltb, leb,
  ◌==◌, if◌then◌else◌, length,
}
use trace_fox.Bytes.{from_be}
use trace_fox.Protocol.{Outcome, parsed, raised, stuck, ◌>>=◌, ThreadGroup, Result}
use trace_fox.Protocol.Decode.{slice, byte_at, ascii, strip}
use trace_fox.Protocol.Handlers.{
  parse_cpu, parse_mem, parse_net, parse_disk, parse_fs, parse_proc, parse_thread,
}

-- `(length - 1) // count`, or 0
abbrev pub entry_size_of : ℕ → ℕ → ℕ
entry_size_of len count = if ltb 0 count then (len - 1) / count else 0

-- `result.setdefault("thread_groups", []).append(g)`
abbrev pub add_group : Option (List ThreadGroup) → ThreadGroup → Option (List ThreadGroup)
add_group none g = some (g ∷ [])
add_group (some gs) g = some (gs ++ g ∷ [])

-- The `if`/`elif` chain on one entry; its branches are tried in the source's order.
unfoldable pub handle_entry : ℕ → List ℕ → Result → Outcome Result
handle_entry t val r =
    let len = length val in
    if t == 1 && len == 10
    then (do c ← parse_cpu val; parsed (record r { cpu = some c }))
    else if t == 2 && len == 18
    then (do (m, l) ← parse_mem val; parsed (record r { mem = some m; load = some l }))
    else if t == 3 && leb 1 len
    then parsed (record r { host_label = some (strip (ascii val)) })
    else if t == 4 && leb 1 len
    then (do count ← byte_at val 0; parsed (record r { net = some (parse_net count val 1) }))
    else if t == 5 && leb 1 len
    then (do
      count ← byte_at val 0
      ds ← parse_disk count (entry_size_of len count) val 1
      parsed (record r { disk = some ds }))
    else if t == 6 && leb 1 len
    then (do
      count ← byte_at val 0
      ms ← parse_fs count (entry_size_of len count) val 1
      parsed (record r { fs = some ms }))
    else if t == 7 && leb 1 len
    then (do
      count ← byte_at val 0
      gs ← parse_proc count val 1
      parsed (record r { proc_groups = some gs }))
    else if t == 8 && leb 34 len
    then (do
      g ← parse_thread val
      parsed (record r { thread_groups = add_group r.thread_groups g }))
    else parsed r

-- `while offset + 2 <= len(payload)`, on fuel.
unfoldable pub parse_tlv_entries : ℕ → List ℕ → ℕ → Result → Outcome Result
parse_tlv_entries zero payload offset r = stuck
parse_tlv_entries (suc fuel) payload offset r =
    let next = λ (t len : ℕ).
      let end = offset + 2 + len in
      let val = slice payload (offset + 2) end in
      let more = λ (r' : Result). parse_tlv_entries fuel payload end r' in
      if ltb (length payload) end then parsed r else handle_entry t val r >>= more in
    if leb (offset + 2) (length payload)
    then (do t ← byte_at payload offset; len ← byte_at payload (offset + 1); next t len)
    else parsed r

abbrev pub empty_result : ℕ → ℕ → ℕ → ℕ → Result
empty_result magic version ts seq = record {
  magic = magic;
  version = version;
  ts = ts;
  seq = seq;
  cpu = none;
  mem = none;
  load = none;
  host_label = none;
  net = none;
  disk = none;
  fs = none;
  proc_groups = none;
  thread_groups = none;
}

-- What `parse_frame` returns: the empty dictionary is `none`. Its `except` clause turns an exception
-- of the entries into the empty dictionary.
unfoldable pub caught : Outcome Result → Outcome (Option Result)
caught (parsed r) = parsed (some r)
caught raised = parsed none
caught stuck = stuck

-- Every round reads two bytes at least, so `length payload` rounds are enough.
unfoldable pub parse_frame : List ℕ → Outcome (Option Result)
parse_frame payload = if ltb (length payload) 12 then parsed none else (do
  version ← byte_at payload 2
  let magic = from_be (slice payload 0 2)
  if not (magic == 0x5446) || not (version == 2)
      then parsed none
      else caught (
          parse_tlv_entries (length payload) payload 12 (
            empty_result magic version (from_be (slice payload 4 8))
              (from_be (slice payload 8 12)))))
