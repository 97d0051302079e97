-- ===== src/Proc/Collect/Sums.antt =====
-- The loops of `proc_collect` over the processes: they end, and the sums fit the entries.
use trace_fox.Base.{
  ℕ, zero, suc, ◌-◌, ◌^◌, ◌≤◌, ◌<◌, ◌≡◌, refl, ◌∙◌, inl, inr, ◌||◌, some, List, [], ◌∷◌, arith, ltb,
  ◌==◌, Bool-cases, Option-cases, length, get_or, set, All, length-set,
}
use trace_fox.Base.CString.{length-name_field}
use trace_fox.Proc.{WatchGroup, ProcPrev}
use trace_fox.Proc.History.{free_prev, find_slot}
use trace_fox.Proc.History.Slots.{find_slot-size}
use trace_fox.Proc.Rss.{parse_rss_kb-IsU32}
use trace_fox.Proc.Scan.{ProcFs}
use trace_fox.Proc.Candidates.{at_most_u16}
use trace_fox.Proc.Group.{get_cpu_count, scaled_share}
use trace_fox.Proc.Collect.{
  GroupSum, SumScan, zero_sum, add_process, at_most_u32, group_entry, output_groups, ticks_of,
  sum_pid, sum_pids, sum_groups,
}
use trace_fox.RoundTrip

-- The loops over the processes end, and the history of the processes keeps its size.
sum_pid_total :
    (fs : ProcFs) (diff pid : ℕ) (s : SumScan)
    → length s.history ≡ 64
    → (out : SumScan) × (sum_pid fs diff pid s ≡ some out) × (length out.history ≡ 64)
unfolding sum_pid
sum_pid_total fs diff pid s size = elim (Option-cases (ticks_of pid (fs.stat_file pid))) [
  | inl e ↦ (s, rw (e, sum_pid) refl, size)
  | inr (ticks, e) ↦
      let found = find_slot s.history pid in
      let same = find_slot-size s.history pid size in
      let kept : (t : ProcPrev) → length (set found.1 found.0 t) ≡ 64 =
        λ t. length-set found.1 found.0 t ∙ same in
      let slot = get_or found.1 found.0 free_prev in
      let prev_ticks = slot.ticks in
      let stored = set found.1 found.0 (record slot { ticks = ticks }) in
      elim (Bool-cases (prev_ticks == 0 || ltb ticks prev_ticks)) [
        | inl f ↦ (record s { history = stored }, rw (e, f, sum_pid) refl, kept _)
        | inr f ↦
            let (kb, g, small) =
              parse_rss_kb-IsU32 fs.page_kb (fs.status_file pid) (fs.statm_file pid) in
            let value =
              scaled_share (ticks - prev_ticks) (get_cpu_count fs.online s.cpu_count) diff in
            (
              record {
                history = stored;
                cpu_count = get_cpu_count fs.online s.cpu_count;
                sum = add_process value kb s.sum;
              },
              rw (e, f, g, sum_pid) refl,
              kept _,
            )
      ]
]

sum_pids_total :
    (fs : ProcFs) (diff : ℕ) (pids : List ℕ) (s : SumScan)
    → length s.history ≡ 64
    → (out : SumScan) × (sum_pids fs diff pids s ≡ some out) × (length out.history ≡ 64)
unfolding sum_pids
sum_pids_total fs diff [] s size = (s, refl, size)
sum_pids_total fs diff (pid ∷ pids) s size =
    let (s', e, size') = sum_pid_total fs diff pid s size in
    let (out, f, size'') = sum_pids_total fs diff pids s' size' in
    (out, rw (e, f, sum_pids) refl, size'')

pub sum_groups_total :
    (fs : ProcFs) (diff : ℕ) (groups : List WatchGroup) (history : List ProcPrev) (cpu_count : ℕ)
    → length history ≡ 64
    → (sums : List GroupSum) × (history' : List ProcPrev) × (cpu_count' : ℕ) × (sum_groups fs diff
          groups history cpu_count
        ≡ some (sums, history', cpu_count'))
      × (length history' ≡ 64)
unfolding sum_groups
sum_groups_total fs diff [] history cpu_count size = ([], history, cpu_count, refl, size)
sum_groups_total fs diff (g ∷ gs) history cpu_count size =
    let start : SumScan = record { history = history; cpu_count = cpu_count; sum = zero_sum } in
    let (s, e, size') = sum_pids_total fs diff g.pids start size in
    let (sums, history', cpu_count', f, size'') =
      sum_groups_total fs diff gs s.history s.cpu_count size' in
    (s.sum ∷ sums, history', cpu_count', rw (e, f, sum_groups) refl, size'')

at_most_u16-lt : (n : ℕ) → at_most_u16 n < 2 ^ 16
at_most_u16-lt n = ground arith

at_most_u32-lt : (n : ℕ) → at_most_u32 n < 2 ^ 32
at_most_u32-lt n = ground arith

group_entry-IsGroup : (g : WatchGroup) (s : GroupSum) → RoundTrip.Proc.IsGroup (group_entry g s)
unfolding group_entry
group_entry-IsGroup g s = record {
  name_size = length-name_field 16 g.name;
  inst = at_most_u16-lt s.inst_count;
  cpu = at_most_u16-lt s.cpu_sum_x10;
  rss = at_most_u32-lt s.rss_sum_kb;
}

pub output_groups-stored :
    (room : ℕ) (groups : List WatchGroup) (sums : List GroupSum)
    → (length (output_groups room groups sums) ≤ room)
      × All RoundTrip.Proc.IsGroup (output_groups room groups sums)
unfolding output_groups
output_groups-stored zero groups sums = (omega arith, tt)
output_groups-stored (suc room) [] sums = (omega arith, tt)
output_groups-stored (suc room) (g ∷ gs) [] = (omega arith, tt)
output_groups-stored (suc room) (g ∷ gs) (s ∷ sums) = elim (Bool-cases (s.inst_count == 0)) [
  | inl e ↦ rw (e, output_groups) (output_groups-stored (suc room) gs sums)
  | inr e ↦
      let (count, all) = output_groups-stored room gs sums in
      rw (e, output_groups) (omega arith, (group_entry-IsGroup g s, all))
]
