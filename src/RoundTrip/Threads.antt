-- ===== src/RoundTrip/Threads.antt =====
-- agent/src/proc.c, the thread groups, against the branch `TF_TYPE_THREAD` of the parser.
pub mod Entries
use trace_fox.Base.{
  ℕ, ◌+◌, ◌*◌, ◌≤◌, ◌≡◌, refl, sym, ◌∙◌, List, [], ◌∷◌, ◌++◌, map, append-nil, append_assoc, arith,
  le→leb, length, take, drop, All, length-append, length-take, All-take,
}
use trace_fox.Bytes.{be16, IsByte, IsU16}
use trace_fox.Proc.{ThreadGroupEntry}
use trace_fox.Proc.Push.{top_entries_bytes, state_bytes, thread_payload}
use trace_fox.Protocol.{ThreadGroup, parsed, Result}
use trace_fox.Protocol.Decode.{name_of, unpack, single}
use trace_fox.Protocol.Handlers.{parse_states, parse_top, parse_thread, has_flag}
use trace_fox.Protocol.Frame.{handle_entry, add_group}
use trace_fox.Protocol.Segment.{slice-Holds, drop-Holds, byte_at-Holds}
use trace_fox.RoundTrip.Threads.Entries.{
  IsTop, top_of, length-top_entries_bytes, parse_top-entries, unpack-state, parse_states-counts,
}

pub record IsGroup (g : ThreadGroupEntry) : Type 0 where
  pub name_size : length g.name ≡ 16
  pub total : IsU16 g.total_threads
  pub flags : IsByte g.flags
  pub states_size : length g.state_counts ≡ 7
  pub states : All IsU16 g.state_counts
  pub top : All IsTop g.top

-- What the server sees of a group that is sent with these flags and its first `emit` threads.
abbrev pub group_of : ThreadGroupEntry → ℕ → ℕ → ThreadGroup
group_of g flags emit = record {
  name = name_of g.name;
  total_threads = g.total_threads;
  include_tid = has_flag flags 0x01;
  truncated = has_flag flags 0x02;
  states = g.state_counts;
  top_threads = map top_of (take emit g.top);
}

length-state_bytes : (cs : List ℕ) → length (state_bytes cs) ≡ 2 * length cs
unfolding state_bytes
length-state_bytes [] = refl
length-state_bytes (c ∷ cs) = omega (arith, length-state_bytes cs)

thread_layout :
    (g : ThreadGroupEntry) (flags emit : ℕ)
    → thread_payload g flags emit
      ≡ g.name
        ++ (be16 g.total_threads
            ++ (flags
                ∷ (state_bytes g.state_counts ++ (emit ∷ top_entries_bytes (take emit g.top)))))
unfolding thread_payload
thread_layout g flags emit =
    append_assoc g.name (be16 g.total_threads)
      (flags ∷ (state_bytes g.state_counts ++ (emit ∷ top_entries_bytes (take emit g.top))))

pub length-thread_payload :
    (g : ThreadGroupEntry) (flags emit : ℕ)
    → IsGroup g
    → emit ≤ length g.top
    → length (thread_payload g flags emit) ≡ 34 + 28 * emit
length-thread_payload g flags emit v few = rw (thread_layout g flags emit) (
    omega (
      arith,
      v.name_size,
      v.states_size,
      length-append g.name (
          be16 g.total_threads
          ++ (flags
              ∷ (state_bytes g.state_counts ++ (emit ∷ top_entries_bytes (take emit g.top))))),
      length-append (state_bytes g.state_counts) (emit ∷ top_entries_bytes (take emit g.top)),
      length-state_bytes g.state_counts,
      length-top_entries_bytes (take emit g.top) (All-take IsTop emit g.top v.top),
      length-take emit g.top,
    ))

unpack-threads :
    (g : ThreadGroupEntry)
    → IsGroup g
    → unpack (2 ∷ []) (be16 g.total_threads) ≡ parsed (g.total_threads ∷ [])
unpack-threads g v = unpack-state g.total_threads v.total

parse_thread-payload :
    (g : ThreadGroupEntry) (flags emit : ℕ)
    → IsGroup g
    → emit ≤ length g.top
    → parse_thread (thread_payload g flags emit) ≡ parsed (group_of g flags emit)
unfolding parse_thread single
parse_thread-payload g flags emit v few =
    let val = thread_payload g flags emit in
    let tops = top_entries_bytes (take emit g.top) in
    let states = state_bytes g.state_counts in
    let name_size = v.name_size in
    let states_size : length states ≡ 14 =
      omega (arith, length-state_bytes g.state_counts, v.states_size) in
    let at_name : drop 0 val
        ≡ g.name ++ (be16 g.total_threads ++ (flags ∷ (states ++ (emit ∷ tops)))) =
      thread_layout g flags emit in
    let at_total : drop 16 val ≡ be16 g.total_threads ++ (flags ∷ (states ++ (emit ∷ tops))) =
      drop-Holds val 0 16 g.name (be16 g.total_threads ++ (flags ∷ (states ++ (emit ∷ tops))))
        at_name (omega arith) in
    let at_flags : drop 18 val ≡ flags ∷ (states ++ (emit ∷ tops)) =
      drop-Holds val 16 18 (be16 g.total_threads) (flags ∷ (states ++ (emit ∷ tops))) at_total
        (omega arith) in
    let at_states : drop 19 val ≡ states ++ (emit ∷ tops) =
      drop-Holds val 18 19 (flags ∷ []) (states ++ (emit ∷ tops)) at_flags (omega arith) in
    let at_count : drop 33 val ≡ emit ∷ tops =
      drop-Holds val 19 33 states (emit ∷ tops) at_states (omega arith) in
    let at_top : drop 34 val ≡ tops ++ [] =
      drop-Holds val 33 34 (emit ∷ []) tops at_count (omega arith) ∙ sym (append-nil tops) in
    let n : length (take emit g.top) ≡ emit = omega (arith, length-take emit g.top) in
    let seven : parse_states 7 val 19 ≡ parsed g.state_counts =
      rw v.states_size at
        (parse_states-counts g.state_counts val 19 (emit ∷ tops) v.states at_states) in
    let threads : parse_top emit val 34 ≡ parsed (map top_of (take emit g.top)) =
      rw n at
        (parse_top-entries (take emit g.top) val 34 [] (All-take IsTop emit g.top v.top) at_top) in
    rw (
      slice-Holds val 16 18 (be16 g.total_threads) (flags ∷ (states ++ (emit ∷ tops))) at_total
          (omega arith),
      unpack-threads g v,
      byte_at-Holds val 18 flags (states ++ (emit ∷ tops)) at_flags,
      seven,
      byte_at-Holds val 33 emit tops at_count,
      threads,
      slice-Holds val 0 16 g.name (be16 g.total_threads ++ (flags ∷ (states ++ (emit ∷ tops))))
          at_name (omega arith),
    )

-- The server reads from the payload of a group exactly what was sent of it, appends it to the groups
-- that it already has, and changes nothing else of the result.
pub thread_roundtrip :
    (g : ThreadGroupEntry) (flags emit : ℕ) (r : Result)
    → IsGroup g
    → emit ≤ length g.top
    → handle_entry 8 (thread_payload g flags emit) r
      ≡ parsed (record r { thread_groups = add_group r.thread_groups (group_of g flags emit) })
unfolding handle_entry
thread_roundtrip g flags emit r v few =
    let size = length-thread_payload g flags emit v few in
    rw (
      le→leb 34 (length (thread_payload g flags emit)) (omega arith),
      parse_thread-payload g flags emit v few,
    )
