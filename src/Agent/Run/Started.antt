-- ===== src/Agent/Run/Started.antt =====
-- What a set-up and a release of the agent leave.
pub mod Output
use trace_fox.Base.{
  ℕ, ◌≡◌, refl, ◌≢◌, ◌⊎◌, inl, inr, Bool, true, false, Option, none, some, List, [], ◌∷◌, arith,
  ◌==◌, if◌then◌else◌, ne→==_false, Status, ok, fail, length,
}
use trace_fox.Base.Scan.{IfSome}
use trace_fox.Agent.{Collectors}
use trace_fox.Agent.Frame.Parts.{allocated}
use trace_fox.Agent.Options.{Getopt, OptState, read_options}
use trace_fox.Agent.Options.Bounds.{IsUsable, read_options-IsUsable}
use trace_fox.Agent.Setup.{
  Setup, Agent, file_header, init_all, open_log, open_sock, open_output, init_rest,
  init_agent_state, destroy_agent_state,
}
use trace_fox.Agent.Run.Contexts.{IsCollecting, fresh, fresh-IsBounded, init_all-fresh}
use trace_fox.Agent.Run.Started.Output.{
  InMode, read_options-mode, Opened, open_log-Opened, open_sock-Opened, either-Opened,
}

-- A set-up that succeeds: from the state before it to the state after it.
pub record SetUp (a b : Agent) : Type 0 where
  pub collecting : IsCollecting b.collectors
  pub cfg : IsUsable b.cfg
  pub buffer : b.buffer ≡ a.buffer
  pub seq : b.seq ≡ a.seq
  pub log : (b.log ≡ a.log) ⊎ ((a.log ≡ []) × (b.log ≡ file_header))
  pub mode : a.globals.file_mode ≡ true → b.globals.file_mode ≡ true

open_output_SetUp :
    (a b : Agent)
    → IsUsable a.cfg
    → Opened (record a { collectors = allocated (fresh a.cfg) }) b
    → SetUp a b
open_output_SetUp a b v o = record {
  collecting = record {
    contexts = fresh a.cfg;
    same = o.collectors;
    bounded = fresh-IsBounded a.cfg;
  };
  cfg = rw o.cfg v;
  buffer = o.buffer;
  seq = o.seq;
  log = o.log;
  mode = λ h. rw o.globals h;
}

init_rest-SetUp :
    (e : Setup) (a : Agent)
    → IsUsable a.cfg
    → ((init_rest e a).0 ≡ fail) ⊎ SetUp a (init_rest e a).1
unfolding init_rest open_output
init_rest-SetUp e a v = elim (init_all-fresh e a.cfg a.collectors) [
  | inl f ↦ inl (rw (f, init_rest) refl)
  | inr s ↦
      let b : Agent = record a { collectors = allocated (fresh a.cfg) } in
      rw (s, init_rest)
        (inr (
          open_output_SetUp a _ v (
            either-Opened a.globals.file_mode b (open_log e.is_opened b) (open_sock e b)
              (open_log-Opened e.is_opened b) (open_sock-Opened e b))))
]

-- With the options read, the state before is that after them.
read-SetUp :
    (a b : Agent) (s : OptState)
    → (a.globals.file_mode ≡ true → s.globals.file_mode ≡ true)
    → SetUp (record a { argv = s.argv; cfg = s.cfg; globals = s.globals }) b
    → SetUp a b
read-SetUp a b s mode u = record {
  collecting = u.collecting;
  cfg = u.cfg;
  buffer = u.buffer;
  seq = u.seq;
  log = u.log;
  mode = λ h. u.mode (mode h);
}

-- A set-up fails, or it leaves fresh collectors within their bounds and a configuration within its bounds, and keeps
-- the number of the next frame and the output file, but for the header of an empty one.
pub init_agent_state-SetUp :
    (getopt : Getopt) (e : Setup) (a : Agent)
    → ((init_agent_state getopt e a).0 ≡ fail) ⊎ SetUp a (init_agent_state getopt e a).1
unfolding init_agent_state
init_agent_state-SetUp getopt e a =
    go (read_options getopt e.files a.argv a.globals)
      (read_options-IsUsable getopt e.files a.argv a.globals)
      (read_options-mode getopt e.files a.argv a.globals)
  where
    after : OptState → Agent
    after s = record a { argv = s.argv; cfg = s.cfg; globals = s.globals }

    go :
        (m : Option OptState)
        → IfSome (λ s. IsUsable s.cfg) m
        → (a.globals.file_mode ≡ true → InMode m)
        → let out : Status × Agent = elim m [
          | none ↦ (fail, a)
          | some s ↦ init_rest e (record a { argv = s.argv; cfg = s.cfg; globals = s.globals })
        ] in
          (out.0 ≡ fail) ⊎ SetUp a out.1
    go none v mode = inl refl
    go (some s) v mode = elim (init_rest-SetUp e (after s) v) [
      | inl f ↦ inl f
      | inr u ↦ inr (read-SetUp a _ s mode u)
    ]

-- The release leaves these parts alone.
pub record Released (a b : Agent) : Type 0 where
  pub globals : b.globals ≡ a.globals
  pub buffer : b.buffer ≡ a.buffer
  pub seq : b.seq ≡ a.seq
  pub log : b.log ≡ a.log

pub destroy-Released : (a : Agent) → Released a (destroy_agent_state a)
unfolding destroy_agent_state
destroy-Released a = record {
  globals = ground arith;
  buffer = ground arith;
  seq = ground arith;
  log = ground arith;
}

-- What a set-up may do to the output file.
abbrev pub LogKept : Agent → Agent → Type 0
LogKept a b = (b.log ≡ a.log) ⊎ ((a.log ≡ []) × (b.log ≡ file_header))

open_output-log :
    (e : Setup) (a : Agent) (p : Status × Collectors) → LogKept a (open_output e a p).1
unfolding open_output
open_output-log e a (fail, c) = inl refl
open_output-log e a (ok, c) =
    let b : Agent = record a { collectors = c } in
    let opened =
      either-Opened a.globals.file_mode b (open_log e.is_opened b) (open_sock e b)
        (open_log-Opened e.is_opened b) (open_sock-Opened e b) in
    opened.log

pub init_agent_state-log :
    (getopt : Getopt) (e : Setup) (a : Agent) → LogKept a (init_agent_state getopt e a).1
unfolding init_agent_state init_rest
init_agent_state-log getopt e a = go (read_options getopt e.files a.argv a.globals)
  where
    go :
        (m : Option OptState)
        → let out : Status × Agent = elim m [
          | none ↦ (fail, a)
          | some s ↦ init_rest e (record a { argv = s.argv; cfg = s.cfg; globals = s.globals })
        ] in
          LogKept a out.1
    go none = inl refl
    go (some s) =
        let b : Agent = record a { argv = s.argv; cfg = s.cfg; globals = s.globals } in
        open_output-log e b (init_all e b.cfg b.collectors)

headed_ne : (log : List ℕ) → (if length log == 0 then file_header else log) ≢ []
headed_ne [] h = cc
headed_ne (c ∷ s) h = absurd (cc (rw (ne→==_false (length (c ∷ s)) 0 (omega arith)) at h))

open_log-written : (b : Bool) (a : Agent) → (open_log b a).0 ≡ ok → (open_log b a).1.log ≢ []
unfolding open_log
open_log-written true a h = headed_ne a.log
open_log-written false a h = absurd (cc h)

open_output-written :
    (e : Setup) (a : Agent) (p : Status × Collectors)
    → (open_output e a p).0 ≡ ok
    → a.globals.file_mode ≡ true
    → (open_output e a p).1.log ≢ []
unfolding open_output
open_output-written e a (fail, c) h mode = absurd (cc h)
open_output-written e a (ok, c) h mode = go a.globals.file_mode mode h
  where
    b : Agent
    b = record a { collectors = c }

    go :
        (m : Bool)
        → m ≡ true
        → let out : Status × Agent = if m then open_log e.is_opened b else open_sock e b in
          out.0 ≡ ok → out.1.log ≢ []
    go true t h = open_log-written e.is_opened b h
    go false t h = absurd (cc t)

open_output-globals :
    (e : Setup) (a : Agent) (p : Status × Collectors) → (open_output e a p).1.globals ≡ a.globals
unfolding open_output
open_output-globals e a (fail, c) = refl
open_output-globals e a (ok, c) =
    let b : Agent = record a { collectors = c } in
    let opened =
      either-Opened a.globals.file_mode b (open_log e.is_opened b) (open_sock e b)
        (open_log-Opened e.is_opened b) (open_sock-Opened e b) in
    opened.globals

-- A set-up in file mode that succeeds leaves a file with a header.
pub init_agent_state-written :
    (getopt : Getopt) (e : Setup) (a : Agent)
    → (init_agent_state getopt e a).0 ≡ ok
    → (init_agent_state getopt e a).1.globals.file_mode ≡ true
    → (init_agent_state getopt e a).1.log ≢ []
unfolding init_agent_state init_rest
init_agent_state-written getopt e a h mode =
    go (read_options getopt e.files a.argv a.globals) h mode
  where
    go :
        (m : Option OptState)
        → let out : Status × Agent = elim m [
          | none ↦ (fail, a)
          | some s ↦ init_rest e (record a { argv = s.argv; cfg = s.cfg; globals = s.globals })
        ] in
          out.0 ≡ ok → out.1.globals.file_mode ≡ true → out.1.log ≢ []
    go none h mode = absurd (cc h)
    go (some s) h mode =
        let b : Agent = record a { argv = s.argv; cfg = s.cfg; globals = s.globals } in
        let p = init_all e b.cfg b.collectors in
        open_output-written e b p h (rw (open_output-globals e b p) at mode)
