-- ===== src/Proc/Scan.antt =====
-- agent/src/proc.c: the scan of /proc for the watched processes (`tracker_scan_proc`), and what the collector reads.
pub mod Kept
use trace_fox.Base.{
  ℕ, ◌-◌, ◌^◌, min, Bool, false, ◌&&◌, not, Option, none, some, List, [], ◌∷◌, ltb, ◌==◌,
  if◌then◌else◌, get_or,
}
use trace_fox.Base.CString.{c_str}
use trace_fox.Base.Stdio.{isdigit, skip_space, sign_of, digits_of, fgets}
use trace_fox.Proc.{WatchGroup, ProcCtx, tf_comm_prefix_len}
use trace_fox.Proc.History.{tracker_reset_lists, tracker_add_pid, history_gc}

-- What the collector reads during one sample. Directories are the names that `readdir` yields in turn, files their
-- contents; `none` is that `opendir` or `fopen` fails. `now` is the first result of `time`, `scan_time` that after a
-- scan, `none` where it is -1; `online` is what `sysconf` yields for the processors, as a `size_t`.
pub record ProcFs : Type 0 where
  pub now : Option ℕ
  pub scan_time : Option ℕ
  pub proc_dir : Option (List (List ℕ))
  pub comm_file : ℕ → Option (List ℕ)
  pub stat_file : ℕ → Option (List ℕ)
  pub status_file : ℕ → Option (List ℕ)
  pub statm_file : ℕ → Option (List ℕ)
  pub task_dir : ℕ → Option (List (List ℕ))
  pub task_stat_file : ℕ → ℕ → Option (List ℕ)
  pub online : ℕ
  pub page_kb : ℕ

-- `isdigit(d_name[0])`
unfoldable pub is_number_name : List ℕ → Bool
unfolding isdigit
is_number_name name = isdigit (get_or name 0 0)

-- `strtol(d_name, NULL, 10)`, `none` where it is not positive; it stops at the largest value.
unfoldable pub pid_of : List ℕ → Option ℕ
unfolding skip_space sign_of digits_of
pid_of name =
    let (minus, t) = sign_of (skip_space name) in
    let (n, any, rest) = digits_of 0 false t in
    if any && (not minus && ltb 0 n) then some (min n (2 ^ 63 - 1)) else none

-- The line without its line feed.
unfoldable pub chomp : List ℕ → List ℕ
chomp [] = []
chomp (c ∷ s) = elim s [ [] ↦ if c == 10 then [] else c ∷ [] | d ∷ t ↦ c ∷ chomp s ]

-- The name of a process: the first line of /proc/<pid>/comm in a buffer of 32 bytes.
unfoldable pub comm_of : Option (List ℕ) → Option (List ℕ)
unfolding c_str chomp
comm_of none = none
comm_of (some file) = elim (fgets tf_comm_prefix_len file) [
  | none ↦ none
  | some (line, rest) ↦ some (chomp (c_str line))
]

-- One entry of /proc.
unfoldable pub scan_entry : ProcFs → List ℕ → List WatchGroup → List WatchGroup
scan_entry fs name groups = if not (is_number_name name) then groups else elim (pid_of name) [
  | none ↦ groups
  | some pid ↦ elim (comm_of (fs.comm_file pid)) [
    | none ↦ groups
    | some comm ↦ tracker_add_pid comm pid groups
  ]
]

unfoldable pub scan_entries : ProcFs → List (List ℕ) → List WatchGroup → List WatchGroup
scan_entries fs [] groups = groups
scan_entries fs (name ∷ names) groups = scan_entries fs names (scan_entry fs name groups)

unfoldable pub tracker_scan_proc : ProcFs → ProcCtx → ProcCtx
tracker_scan_proc fs ctx = elim fs.proc_dir [
  | none ↦ ctx
  | some names ↦
      let groups = scan_entries fs names (tracker_reset_lists ctx.watch_groups) in
      record ctx {
        watch_groups = groups;
        history = history_gc groups ctx.history;
        last_scan_time = fs.scan_time;
      }
]
