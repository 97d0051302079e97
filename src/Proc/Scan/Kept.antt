-- ===== src/Proc/Scan/Kept.antt =====
-- What a scan of /proc leaves in the history of the processes.
use trace_fox.Base.{
  ℕ, ◌≡◌, refl, ◌≢◌, ◌⊎◌, inl, inr, ◌||◌, none, List, ◌==◌, if◌then◌else◌, ==_iff, Bool-cases,
  Option-cases, get_or, ==_false→ne,
}
use trace_fox.Proc.{ProcPrev, WatchGroup, ProcCtx}
use trace_fox.Proc.History.{free_prev, is_alive, tracker_reset_lists}
use trace_fox.Proc.History.Listed.{Listed, is_alive-Listed, Listed-is_alive, history_gc-get}
use trace_fox.Proc.Scan.{ProcFs, scan_entries, tracker_scan_proc}

-- A slot before and after a scan that leaves these groups.
abbrev pub IsSwept : List WatchGroup → ProcPrev → ProcPrev → Type 0
IsSwept groups s s' =
    (((s.pid ≡ 0) ⊎ Listed s.pid groups) × (s' ≡ s))
    ⊎ ((s.pid ≢ 0) × (¬ Listed s.pid groups) × (s' ≡ free_prev))

swept :
    (groups : List WatchGroup) (s : ProcPrev)
    → IsSwept groups s (if s.pid == 0 || is_alive groups s.pid then s else free_prev)
swept groups s = elim (Bool-cases (s.pid == 0)) [
  | inl e ↦ rw e (inl (inl ((==_iff s.pid 0).0 e), refl))
  | inr e ↦ elim (Bool-cases (is_alive groups s.pid)) [
    | inl a ↦ simp (e, a) (inl (inr (is_alive-Listed s.pid groups a), refl))
    | inr a ↦
        simp (e, a)
          (inr (==_false→ne s.pid 0 e, λ l. absurd (cc (Listed-is_alive s.pid groups l, a)), refl))
  ]
]

-- If /proc cannot be opened, a scan changes nothing. Otherwise every slot of the history is left as it is where it is
-- free or where, after the scan, some group lists its process, and it is freed where no group does.
pub tracker_scan_proc-IsSwept :
    (fs : ProcFs) (c : ProcCtx) (i : ℕ)
    → let c' = tracker_scan_proc fs c in
      ((fs.proc_dir ≡ none) × (c' ≡ c))
      ⊎ ((fs.proc_dir ≢ none)
          × IsSwept c'.watch_groups (get_or c.history i free_prev) (get_or c'.history i free_prev))
unfolding tracker_scan_proc
tracker_scan_proc-IsSwept fs c i = elim (Option-cases fs.proc_dir) [
  | inl e ↦ inl (e, rw (e, tracker_scan_proc) refl)
  | inr (names, e) ↦
      let groups = scan_entries fs names (tracker_reset_lists c.watch_groups) in
      simp (e, tracker_scan_proc)
        (inr (
          λ h. absurd (cc (e, h)),
          rw (history_gc-get groups c.history i) (swept groups (get_or c.history i free_prev)),
        ))
]
