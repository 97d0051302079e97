-- ===== src/Agent/Run/Ends.antt =====
-- How the program ends, and what it holds until then.
pub mod Held
use trace_fox.Base.{
  ℕ, ◌≤◌, ◌≡◌, refl, ap, ◌∙◌, ◌≢◌, ◌⊎◌, inl, inr, Bool, false, Option, none, some, List, [], ◌∷◌,
  ◌++◌, arith, ne→==_false, Bool-cases, Status, ok, fail, length,
}
use trace_fox.Disk.{Timespec}
use trace_fox.Mem.{Double}
use trace_fox.Proc.Group.{Qsort}
use trace_fox.Proc.Group.Top.{IsQsort}
use trace_fox.Agent.Options.{Getopt}
use trace_fox.Agent.Setup.{Setup, Agent, init_agent_state, destroy_agent_state}
use trace_fox.Agent.Run.{
  Round, Next, running, ended, asleep, no_fuel, handle_signal, signals, round, rounds, launch, main,
}
use trace_fox.Agent.Run.Started.{destroy-Released}
use trace_fox.Agent.Run.Sampled.{sample_round-Sampled}
use trace_fox.Agent.Run.Ends.Held.{
  IsOpen, IsClosed, destroy-IsClosed, IsHeld, Ends, later_IsHeld, stop-Ends, after_sample,
  started_IsHeld, reload-Ends,
}

handled_off : (sig : ℕ) (reload_flag : Bool) → (handle_signal sig (false, reload_flag)).0 ≡ false
unfolding handle_signal
handled_off sig reload_flag = ground arith

signals_off :
    (sigs : List ℕ) (flags : Bool × Bool) → flags.0 ≡ false → (signals sigs flags).0 ≡ false
unfolding signals
signals_off [] flags h = h
signals_off (sig ∷ sigs) (on, reload_flag) h =
    signals_off sigs (handle_signal sig (on, reload_flag)) (rw h (handled_off sig reload_flag))

signals_stopped :
    (before after : List ℕ) (sig : ℕ) (flags : Bool × Bool)
    → sig ≢ 1
    → (signals (before ++ sig ∷ after) flags).0 ≡ false
unfolding signals handle_signal
signals_stopped [] after sig flags other =
    signals_off after (handle_signal sig flags) (rw (ne→==_false sig 1 other) refl)
signals_stopped (s ∷ before) after sig flags other =
    signals_stopped before after sig (handle_signal s flags) other

destroy-sent : (a : Agent) → (destroy_agent_state a).sent ≡ a.sent
unfolding destroy_agent_state
destroy-sent a = ground arith

module _ (double : Double) (qsort : Qsort) (getopt : Getopt) where
  round-Ends :
      (r : Round) (a : Agent) → IsQsort qsort → IsHeld a → Ends (round double qsort getopt r a)
  unfolding round
  round-Ends r a q v = elim (Bool-cases r.keep_running) [
    | inr h ↦ simp h (stop-Ends a v.output)
    | inl h ↦ elim (Bool-cases r.reload_config_flag) [
      | inl k ↦ simp (h, k) (reload-Ends getopt r a v)
      | inr k ↦ simp (h, k) (after_sample r a _ v (sample_round-Sampled double qsort r a q v.live))
    ]
  ]

  rounds-Ends :
      (rs : List Round) (a : Agent)
      → IsQsort qsort
      → IsHeld a
      → Ends (rounds double qsort getopt rs a)
  unfolding rounds
  rounds-Ends [] a q v = v
  rounds-Ends (r ∷ rs) a q v =
      go (λ b w. rounds-Ends rs b q w) (round double qsort getopt r a) (round-Ends r a q v)
    where
      go :
          ((b : Agent) → IsHeld b → Ends (rounds double qsort getopt rs b))
          → (n : Next) → Ends n
          → Ends (elim n [
            | running b ↦ rounds double qsort getopt rs b
            | ended code b ↦ ended code b
            | asleep b ↦ asleep b
            | no_fuel ↦ no_fuel
          ])
      go rest (running b) v = rest b v
      go rest (ended code b) v = v
      go rest (asleep b) v = v
      go rest no_fuel v = v

  launch-Ends :
      (clock : Option Timespec) (rs : List Round) (out : Status × Agent)
      → IsQsort qsort
      → ((out.0 ≡ fail) ⊎ IsHeld out.1)
      → Ends (launch double qsort getopt clock rs out)
  unfolding launch
  launch-Ends clock rs (fail, b) q h = inr refl
  launch-Ends none rs (ok, b) q h = inr refl
  launch-Ends (some now) rs (ok, b) q (inl f) = absurd (cc f)
  launch-Ends (some now) rs (ok, b) q (inr v) = rounds-Ends rs _ q (later_IsHeld b now v)

  -- From a program that holds nothing, with a buffer of at least 1400 bytes and a sorting function that does what the C
  -- library says of `qsort`, in both modes and whatever the system calls, the signals and the files under /proc yield: as
  -- long as `main` runs, every context is allocated and within its bounds, and exactly the one of the
  -- output file and the socket that the mode names is open, also after a reload; `main` ends with 0 or 1, and when it
  -- ends with 0, the file and the socket are closed and every context is released.
  pub main-Ends :
      (e : Setup) (a : Agent) (rs : List Round)
      → IsQsort qsort
      → IsClosed a
      → 1400 ≤ length a.buffer
      → Ends (main double qsort getopt e a rs)
  unfolding main
  main-Ends e a rs q v room =
      launch-Ends e.clock rs (init_agent_state getopt e a) q
        (started_IsHeld getopt e a v.log_file v.sock room)

  round_stopped :
      (r : Round) (a : Agent)
      → r.keep_running ≡ false
      → round double qsort getopt r a ≡ ended 0 (destroy_agent_state a)
  unfolding round
  round_stopped r a h = simp h refl

  -- When the output is open that the mode names, and a signal other than SIGHUP has arrived, in whatever order with
  -- others, the next round takes no sample and sends
  -- nothing: the program ends with 0, with everything released.
  pub rounds_stopped :
      (before after : List ℕ) (sig : ℕ) (flags : Bool × Bool) (r : Round) (rs : List Round)
      (a : Agent)
      → sig ≢ 1
      → r.keep_running ≡ (signals (before ++ sig ∷ after) flags).0
      → IsOpen a
      → (b : Agent) × (rounds double qsort getopt (r ∷ rs) a ≡ ended 0 b)
        × IsClosed b
        × (b.log ≡ a.log)
        × (b.sent ≡ a.sent)
  unfolding rounds
  rounds_stopped before after sig flags r rs a other h v = (
    destroy_agent_state a,
    ap
        (λ (n : Next). elim n [
          | running b ↦ rounds double qsort getopt rs b
          | ended code b ↦ ended code b
          | asleep b ↦ asleep b
          | no_fuel ↦ no_fuel
        ])
        (round_stopped r a (h ∙ signals_stopped before after sig flags other)),
    destroy-IsClosed a v,
    (destroy-Released a).log,
    destroy-sent a,
  )
