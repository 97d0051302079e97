-- ===== src/Agent/Run/Journal.antt =====
-- The whole program in file mode.
use trace_fox.Base.{
  ℕ, ◌≤◌, ◌≡◌, refl, ◌∙◌, ◌≢◌, ◌⊎◌, inl, inr, true, Option, none, some, List, [], ◌++◌, append-nil,
  Status, ok, fail, length, All,
}
use trace_fox.Disk.{Timespec}
use trace_fox.Mem.{Double}
use trace_fox.Proc.Group.{Qsort}
use trace_fox.Proc.Group.Top.{IsQsort}
use trace_fox.Agent.Options.{Getopt}
use trace_fox.Agent.Setup.{Setup, Agent, init_agent_state}
use trace_fox.Agent.Run.{Round, Next, running, ended, asleep, no_fuel, launch, main}
use trace_fox.Agent.Run.Capture.{IsShort, records, log_of, capture_frames, capture_frames-log}
use trace_fox.Agent.Run.Started.{
  LogKept, init_agent_state-SetUp, init_agent_state-log, init_agent_state-written,
}
use trace_fox.Agent.Run.Numbered.{Numbered}
use trace_fox.Agent.Run.Live.{rounds-Continues}
use trace_fox.Agent.Run.Live.Logged.{IsLogged, Logging, Continues, stopped, log-kept}

-- The state in which the rounds end.
abbrev pub state_of : Next → Option Agent
state_of (running a) = some a
state_of (ended code a) = some a
state_of (asleep a) = some a
state_of no_fuel = none

-- The output file at the end holds the frames `old` that it held before, and behind them frames with the numbers 0, 1
-- and so on; the reader finds exactly these.
pub record Journal (old : List (List ℕ)) (next : Next) : Type 0 where
  pub after : Agent
  pub ends : state_of next ≡ some after
  pub new : List (List ℕ)
  pub read : capture_frames after.log ≡ some (old ++ new)
  pub numbered : Numbered 0 new

file_read :
    (old new : List (List ℕ)) (next : Next) (a : Agent)
    → state_of next ≡ some a
    → IsLogged old new a.log
    → Journal old next
file_read old new next a ends v = record {
  after = a;
  ends = ends;
  new = new;
  read = rw v.same (capture_frames-log (old ++ new) v.short);
  numbered = v.numbered;
}

continued : (old : List (List ℕ)) (next : Next) → Continues old next → Journal old next
continued old (running a) (new, v) = file_read old new (running a) a refl v.logged
continued old (asleep a) (new, v) = file_read old new (asleep a) a refl v.logged
continued old (ended code a) (new, v) = file_read old new (ended code a) a refl v
continued old no_fuel h = absurd h

-- The output file before the start: of an earlier run, or empty.
abbrev pub HoldsFrames : List (List ℕ) → List ℕ → Type 0
HoldsFrames old log = (log ≡ log_of old) ⊎ ((log ≡ []) × (old ≡ []))

first_log :
    (a b : Agent) (old : List (List ℕ))
    → HoldsFrames old a.log
    → All IsShort old
    → LogKept a b
    → b.log ≢ []
    → IsLogged old [] b.log
unfolding records
first_log a b old (inl e) short kept some_bytes =
    log-kept a b old []
      (record { same = rw append-nil e; short = rw append-nil short; numbered = tt }) kept
first_log a b old (inr (empty, none_old)) short (inl same) some_bytes =
    absurd (some_bytes (same ∙ empty))
first_log a b old (inr (empty, none_old)) short (inr (e, head)) some_bytes = record {
  same = rw none_old head;
  short = rw none_old tt;
  numbered = tt;
}

module _ (double : Double) (qsort : Qsort) (getopt : Getopt) where
  launch-Journal :
      (clock : Option Timespec) (rs : List Round) (out : Status × Agent) (old : List (List ℕ))
      → IsQsort qsort
      → out.0 ≡ ok
      → Logging old [] out.1
      → Journal old (launch double qsort getopt clock rs out)
  unfolding launch
  launch-Journal clock rs (fail, b) old q h v = absurd (cc h)
  launch-Journal none rs (ok, b) old q h v = file_read old [] _ _ refl (stopped b old [] v.logged)
  launch-Journal (some now) rs (ok, b) old q h v = continued old _ (
      rounds-Continues double qsort getopt q rs (record b { next_sample = now }) old []
        (record {
          live = record {
            collecting = v.live.collecting;
            cfg = v.live.cfg;
            buffer = v.live.buffer;
          };
          mode = v.mode;
          seq = v.seq;
          logged = v.logged;
        }))

  -- Once the agent has started in file mode, with the number 0, a buffer of at least 1400 bytes, and a sorting function
  -- that does what the C library says of `qsort`, on an output file that is empty or holds the frames of earlier runs, each
  -- shorter than 2 ^ 16 bytes: `main` ends or still runs after any rounds, whatever the system calls, the signals and the
  -- files under /proc yield, reloads included, and no loop runs out of fuel. The reader of the capture test then splits the output file into exactly the
  -- earlier frames and, behind them, frames of at most 1400 bytes with the numbers 0, 1 and so on.
  pub main-Journal :
      (e : Setup) (a : Agent) (rs : List Round) (old : List (List ℕ))
      → IsQsort qsort
      → a.seq ≡ 0
      → 1400 ≤ length a.buffer
      → HoldsFrames old a.log
      → All IsShort old
      → (init_agent_state getopt e a).0 ≡ ok
      → (init_agent_state getopt e a).1.globals.file_mode ≡ true
      → Journal old (main double qsort getopt e a rs)
  unfolding main
  main-Journal e a rs old q first room held short started mode =
      let out = init_agent_state getopt e a in
      let logged =
        first_log a out.1 old held short (init_agent_state-log getopt e a)
          (init_agent_state-written getopt e a started mode) in
      elim (init_agent_state-SetUp getopt e a) [
        | inl f ↦ absurd (cc (f, started))
        | inr u ↦ launch-Journal e.clock rs out old q started (record {
          live = record { collecting = u.collecting; cfg = u.cfg; buffer = rw u.buffer room };
          mode = mode;
          seq = u.seq ∙ first;
          logged = logged;
        })
      ]
