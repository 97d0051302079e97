-- ===== src/Agent/Run/Started/Output.antt =====
-- The options of a set-up, and the file or the socket that it opens.
use trace_fox.Base.{
  ℕ, ◌≡◌, refl, ◌⊎◌, inl, inr, Bool, true, false, Option, none, some, List, [], ◌∷◌, arith, ◌==◌,
  if◌then◌else◌, ne→==_false, Status, length,
}
use trace_fox.Base.Scan.{IfSome}
use trace_fox.Config.{AgentConfig}
use trace_fox.Agent.Options.{
  Getopt, ConfigFiles, Globals, Opt, OptState, option_step, option_steps, read_options,
  config_init_from_sources,
}
use trace_fox.Agent.Resolve.{Destination, resolve_addr}
use trace_fox.Agent.Setup.{open_to, Setup, Agent, file_header, open_log, open_sock}

abbrev pub InMode : Option OptState → Type 0
InMode = IfSome (λ s. s.globals.file_mode ≡ true)

-- `-f` is never undone.
option_step-mode : (o : Opt) (s : OptState) → s.globals.file_mode ≡ true → InMode (option_step o s)
unfolding option_step
option_step-mode o s h = ground arith

option_steps-mode :
    (os : List Opt) (s : OptState) → s.globals.file_mode ≡ true → InMode (option_steps os s)
unfolding option_steps
option_steps-mode [] s h = h
option_steps-mode (o ∷ os) s h =
    go (λ s' k. option_steps-mode os s' k) (option_step o s) (option_step-mode o s h)
  where
    go :
        ((s' : OptState) → s'.globals.file_mode ≡ true → InMode (option_steps os s'))
        → (m : Option OptState) → InMode m
        → InMode (elim m [ none ↦ none | some s' ↦ option_steps os s' ])
    go rest none h = tt
    go rest (some s') h = rest s' h

pub read_options-mode :
    (getopt : Getopt) (fs : ConfigFiles) (argv : List (List ℕ)) (globals : Globals)
    → globals.file_mode ≡ true
    → InMode (read_options getopt fs argv globals)
unfolding read_options
read_options-mode getopt fs argv globals h = go (config_init_from_sources fs argv)
  where
    go :
        (m : Option AgentConfig)
        → InMode (elim m [
          | none ↦ none
          | some cfg ↦
              option_steps (getopt argv) (record { argv = argv; cfg = cfg; globals = globals })
        ])
    go none = tt
    go (some cfg) = option_steps-mode (getopt argv) _ h

-- Opening the output leaves all else alone; an empty file gets its header.
pub record Opened (a b : Agent) : Type 0 where
  pub collectors : b.collectors ≡ a.collectors
  pub cfg : b.cfg ≡ a.cfg
  pub globals : b.globals ≡ a.globals
  pub buffer : b.buffer ≡ a.buffer
  pub seq : b.seq ≡ a.seq
  pub log : (b.log ≡ a.log) ⊎ ((a.log ≡ []) × (b.log ≡ file_header))

headed :
    (log : List ℕ)
    → let out : List ℕ = if length log == 0 then file_header else log in
      (out ≡ log) ⊎ ((log ≡ []) × (out ≡ file_header))
headed [] = inr (refl, refl)
headed (c ∷ s) = inl (rw (ne→==_false (length (c ∷ s)) 0 (omega arith)) refl)

pub open_log-Opened : (b : Bool) (a : Agent) → Opened a (open_log b a).1
unfolding open_log
open_log-Opened true a = record {
  collectors = refl;
  cfg = refl;
  globals = refl;
  buffer = refl;
  seq = refl;
  log = headed a.log;
}
open_log-Opened false a = record {
  collectors = refl;
  cfg = refl;
  globals = refl;
  buffer = refl;
  seq = refl;
  log = inl refl;
}

open_to-Opened : (b : Bool) (a : Agent) (d : Option Destination) → Opened a (open_to b a d).1
unfolding open_to
open_to-Opened b a none = record {
  collectors = refl;
  cfg = refl;
  globals = refl;
  buffer = refl;
  seq = refl;
  log = inl refl;
}
open_to-Opened false a (some d) = record {
  collectors = refl;
  cfg = refl;
  globals = refl;
  buffer = refl;
  seq = refl;
  log = inl refl;
}
open_to-Opened true a (some d) = record {
  collectors = refl;
  cfg = refl;
  globals = refl;
  buffer = refl;
  seq = refl;
  log = inl refl;
}

pub open_sock-Opened : (e : Setup) (a : Agent) → Opened a (open_sock e a).1
unfolding open_sock
open_sock-Opened e a =
    open_to-Opened e.has_socket a (resolve_addr e.getaddrinfo a.cfg.server_host a.cfg.server_port)

pub either-Opened :
    (b : Bool) (a : Agent) (x y : Status × Agent)
    → Opened a x.1
    → Opened a y.1
    → let out : Status × Agent = if b then x else y in Opened a out.1
either-Opened true a x y h k = h
either-Opened false a x y h k = k
