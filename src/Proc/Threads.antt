-- ===== src/Proc/Threads.antt =====
-- agent/src/proc.c: the ticks that the collector remembers per thread, in a table with open addressing.
pub mod Slots
use trace_fox.Base.{
  ℕ, zero, suc, ◌+◌, ◌*◌, ◌%◌, ◌^◌, Bool, ◌&&◌, ◌||◌, not, Option, none, some, List, [], ◌∷◌, ◌==◌,
  if◌then◌else◌, get_or, set,
}
use trace_fox.Proc.{ThreadPrev, tf_thread_track}
use Prim.Native.Nat.{bit_xor}

abbrev pub free_thread : ThreadPrev
free_thread = record { pid = 0; tid = 0; starttime = 0; ticks = 0; generation = 0 }

-- `THREAD_HASH`, in 64-bit arithmetic.
unfoldable pub thread_hash : ℕ → ℕ → ℕ
thread_hash pid tid =
    bit_xor (pid % 2 ^ 32 * 11400714819323198485 % 2 ^ 64)
      (tid % 2 ^ 32 * 14029467366897019727 % 2 ^ 64)
    % tf_thread_track

abbrev pub is_thread : ℕ → ℕ → ThreadPrev → Bool
is_thread pid tid s = s.pid == pid && s.tid == tid

-- The loop of `find_thread_slot` with `left` probes to go: the first slot, from the probe on, that belongs to the
-- thread or is free.
unfoldable pub thread_probe : ℕ → ℕ → ℕ → ℕ → ℕ → List ThreadPrev → Option ℕ
thread_probe zero pid tid idx probe history = none
thread_probe (suc left) pid tid idx probe history =
    let i = (idx + probe) % tf_thread_track in
    let s = get_or history i free_thread in
    let rest = thread_probe left pid tid idx (probe + 1) history in
    if is_thread pid tid s || s.pid == 0 then some i else rest

-- The slot for the thread: a thread of another start time loses its ticks; a free slot keeps its generation.
unfoldable pub claimed : ℕ → ℕ → ℕ → ThreadPrev → ThreadPrev
claimed pid tid starttime s =
    if is_thread pid tid s
    then (if s.starttime == starttime then s else record s { starttime = starttime; ticks = 0 })
    else record s { pid = pid; tid = tid; starttime = starttime; ticks = 0 }

unfoldable pub find_thread_slot : List ThreadPrev → ℕ → ℕ → ℕ → Option (ℕ × List ThreadPrev)
find_thread_slot history pid tid starttime =
    elim (thread_probe tf_thread_track pid tid (thread_hash pid tid) 0 history) [
      | none ↦ none
      | some i ↦ some (i, set history i (claimed pid tid starttime (get_or history i free_thread)))
    ]

-- Slots that the current sample has not touched are freed.
unfoldable pub thread_history_gc : ℕ → List ThreadPrev → List ThreadPrev
thread_history_gc generation [] = []
thread_history_gc generation (s ∷ ss) =
    (if not (s.pid == 0) && not (s.generation == generation) then free_thread else s)
    ∷ thread_history_gc generation ss
