-- ===== src/Proc/Group/Tally.antt =====
-- Which threads `collect_thread_group` counts.
pub mod Counts
use trace_fox.Proc.Group.Tally.Counts.{Tally}
