-- ===== src/Agent/Run.antt =====
-- agent/src/main.c: the main loop as a step on the state of the agent. What the signal handler has set and what the
-- system calls yield during a round is the round's input.
pub mod Capture
pub mod Contexts
pub mod Started
pub mod Sampled
pub mod Numbered
pub mod Live
pub mod Journal
pub mod Progress
pub mod Ends
use trace_fox.Base.{
  ℕ, ◌+◌, ◌%◌, ◌^◌, Bool, true, false, not, Option, none, some, List, [], ◌∷◌, ◌++◌, ◌==◌,
  if◌then◌else◌, Status, ok, fail, take,
}
use trace_fox.Bytes.{buf_put_be_u16}
use trace_fox.Disk.{Timespec}
use trace_fox.Mem.{Double}
use trace_fox.Tlv.{TlvWriter}
use trace_fox.Proc.Group.{Qsort}
use trace_fox.Agent.{build_frame}
use trace_fox.Agent.Clock.{Sleep, wait_for_next_sample}
use trace_fox.Agent.Options.{Getopt}
use trace_fox.Agent.Sample.{System, collect_system}
use trace_fox.Agent.Setup.{Setup, Agent, init_agent_state, destroy_agent_state}

-- `handle_signal`: the flags `keep_running` and `reload_config_flag` after a signal.
unfoldable pub handle_signal : ℕ → Bool × Bool → Bool × Bool
handle_signal sig (keep_running, reload_config_flag) =
    if sig == 1 then (keep_running, true) else (false, reload_config_flag)

-- The flags after signals that arrive in turn.
unfoldable pub signals : List ℕ → Bool × Bool → Bool × Bool
unfolding handle_signal
signals [] flags = flags
signals (sig ∷ sigs) flags = signals sigs (handle_signal sig flags)

-- The flags at the start of a round, then for a reload what the set-up meets, and for a sample what the collectors
-- read, the time as a `uint32_t`, whether `sendto` succeeds, and what the wait for the next sample meets.
pub record Round : Type 0 where
  pub keep_running : Bool
  pub reload_config_flag : Bool
  pub setup : Setup
  pub system : System
  pub timestamp : ℕ
  pub is_sent : Bool
  pub clock : ℕ × Option Timespec
  pub sleeps : List Sleep

-- How a round ends: with the next one, with the end of `main` and its result, in a sleep that the round's input does
-- not end, or, for the model only, without fuel.
pub data Next : Type 0 where
  running : Agent → Next
  ended : ℕ → Agent → Next
  asleep : Agent → Next
  no_fuel : Next

abbrev contents_of : TlvWriter → List ℕ
contents_of w = take w.len w.buffer

-- A record of the output file: the length of the frame in two bytes, and the frame.
unfoldable pub file_record : ℕ → List ℕ → List ℕ
unfolding buf_put_be_u16
file_record len frame = buf_put_be_u16 [] (len % 2 ^ 16) ++ frame

-- The frame goes to the output file, or to the socket.
unfoldable pub emit : Bool → Agent → TlvWriter → Agent
emit is_sent a w =
    let frame = contents_of w in
    if a.globals.file_mode
    then record a { log = a.log ++ file_record w.len frame }
    else if is_sent
    then record a { sent = a.sent ++ frame ∷ [] }
    else a

-- `return` after the loop.
abbrev stop : Agent → Next
stop a = ended 0 (destroy_agent_state a)

unfoldable pub wait : Round → Agent → Next
wait r a =
    let (rc, next) = wait_for_next_sample a.next_sample a.cfg.interval_sec r.clock r.sleeps in
    let b = record a { next_sample = next } in
    elim rc [ none ↦ asleep b | some code ↦ if code == 0 then running b else stop b ]

-- What follows the set-up of a reload.
unfoldable pub resume : Option Timespec → Status × Agent → Next
resume clock (fail, b) = ended 1 b
resume none (ok, b) = stop b
resume (some now) (ok, b) = running (record b { next_sample = now })

unfoldable pub reload : Getopt → Round → Agent → Next
reload getopt r a = resume r.setup.clock (init_agent_state getopt r.setup (destroy_agent_state a))

-- After the collectors: the number goes up, whether or not the frame is built.
unfoldable pub send_frame : Round → Agent → Next
send_frame r a =
    let b = record a { seq = (a.seq + 1) % 2 ^ 32 } in
    elim (build_frame a.writer a.buffer a.cfg.host_label a.collectors r.timestamp a.seq) [
      | none ↦ stop b
      | some (errors, collectors, w) ↦
          wait r
            (emit r.is_sent (record b { collectors = collectors; writer = w; buffer = w.buffer }) w)
    ]

module _ (double : Double) (qsort : Qsort) where
  unfoldable pub sample_round : Round → Agent → Next
  sample_round r a =
      elim (collect_system double qsort r.system a.cfg.interval_sec a.collectors a.g_last_diff_total
        (record { cpu_total_diff = 1 })) [
          | none ↦ no_fuel
          | some (collectors, g, sctx) ↦
              send_frame r (record a { collectors = collectors; g_last_diff_total = g })
        ]

module _ (double : Double) (qsort : Qsort) (getopt : Getopt) where
  -- One round of the loop.
  unfoldable pub round : Round → Agent → Next
  round r a =
      if not r.keep_running
      then stop a
      else if r.reload_config_flag
      then reload getopt r a
      else sample_round double qsort r a

  -- The loop over the rounds.
  unfoldable pub rounds : List Round → Agent → Next
  rounds [] a = running a
  rounds (r ∷ rs) a = elim (round r a) [
    | running b ↦ rounds rs b
    | ended code b ↦ ended code b
    | asleep b ↦ asleep b
    | no_fuel ↦ no_fuel
  ]

  -- What follows the first set-up.
  unfoldable pub launch : Option Timespec → List Round → Status × Agent → Next
  launch clock rs (fail, b) = ended 1 b
  launch none rs (ok, b) = ended 1 (destroy_agent_state b)
  launch (some now) rs (ok, b) = rounds rs (record b { next_sample = now })

  -- `main` from the statics of the program.
  unfoldable pub main : Setup → Agent → List Round → Next
  main e a rs = launch e.clock rs (init_agent_state getopt e a)
