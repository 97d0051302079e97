-- ===== src/Proc/History.antt =====
-- agent/src/proc.c: the ticks that the collector remembers per process, and the lists of watched processes.
pub mod Slots
pub mod Listed
use trace_fox.Base.{
  ℕ, ◌+◌, ◌*◌, ◌%◌, ◌^◌, Bool, false, ◌||◌, Option, none, some, List, [], ◌∷◌, ◌++◌, ltb, ◌==◌,
  if◌then◌else◌, length, get_or, set,
}
use trace_fox.Base.CString.{strlen, strn_eq}
use trace_fox.Proc.{ProcPrev, WatchGroup, tf_proc_track}

abbrev pub free_prev : ProcPrev
free_prev = record { pid = 0; ticks = 0 }

-- `PID_HASH`, in 32-bit arithmetic.
unfoldable pub pid_hash : ℕ → ℕ
pid_hash pid = pid * 2654435761 % 2 ^ 32 % tf_proc_track

-- The first slot, from index `i` on, that belongs to `pid` or is free.
unfoldable pub find_probe : ℕ → ℕ → List ProcPrev → Option ℕ
find_probe pid i [] = none
find_probe pid i (s ∷ ss) =
    let rest = find_probe pid (i + 1) ss in if s.pid == pid || s.pid == 0 then some i else rest

-- The slot as it is if it belongs to `pid`; otherwise it is taken for `pid`.
unfoldable pub take_slot : List ProcPrev → ℕ → ℕ → List ProcPrev
take_slot history i pid =
    if (get_or history i free_prev).pid == pid
    then history
    else set history i (record { pid = pid; ticks = 0 })

-- `find_slot`: the index of the slot, and the history. If all slots belong to other processes, the slot at the
-- hash is returned as it is.
unfoldable pub find_slot : List ProcPrev → ℕ → ℕ × List ProcPrev
find_slot history pid =
    let idx = pid_hash pid in
    let at_hash = (get_or history idx free_prev).pid in
    if at_hash == pid || at_hash == 0
    then (idx, take_slot history idx pid)
    else elim (find_probe pid 0 history) [
      | none ↦ (idx, history)
      | some i ↦ (i, take_slot history i pid)
    ]

unfoldable pub has_pid : ℕ → List ℕ → Bool
has_pid pid [] = false
has_pid pid (p ∷ ps) = p == pid || has_pid pid ps

-- Whether some watched group lists the process.
unfoldable pub is_alive : List WatchGroup → ℕ → Bool
unfolding has_pid
is_alive [] pid = false
is_alive (g ∷ gs) pid = has_pid pid g.pids || is_alive gs pid

unfoldable pub history_gc : List WatchGroup → List ProcPrev → List ProcPrev
history_gc groups [] = []
history_gc groups (s ∷ ss) =
    (if s.pid == 0 || is_alive groups s.pid then s else free_prev) ∷ history_gc groups ss

unfoldable pub tracker_reset_lists : List WatchGroup → List WatchGroup
tracker_reset_lists [] = []
tracker_reset_lists (g ∷ gs) = record g { pids = [] } ∷ tracker_reset_lists gs

-- `strncmp(comm, name, strlen(name)) == 0`
unfoldable pub is_watched_by : List ℕ → WatchGroup → Bool
unfolding strlen
is_watched_by comm g = strn_eq comm g.name (strlen g.name)

-- The first group whose prefix matches takes the process, unless its list is full.
unfoldable pub tracker_add_pid : List ℕ → ℕ → List WatchGroup → List WatchGroup
tracker_add_pid comm pid [] = []
tracker_add_pid comm pid (g ∷ gs) =
    let others = tracker_add_pid comm pid gs in
    let added =
      if ltb (length g.pids) tf_proc_track then record g { pids = g.pids ++ pid ∷ [] } else g in
    if is_watched_by comm g then added ∷ gs else g ∷ others
