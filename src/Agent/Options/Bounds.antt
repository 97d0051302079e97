-- ===== src/Agent/Options/Bounds.antt =====
-- The configuration that the agent starts with, from any command line.
use trace_fox.Base.{
  ℕ, ◌^◌, ◌≤◌, ◌<◌, ◌∙◌, inl, inr, Bool, true, false, Option, none, some, List, [], ◌∷◌, arith,
  ◌==◌, if◌then◌else◌, Bool-cases, Option-cases, drop, Status-cases,
}
use trace_fox.Base.CString.{strncpy, length-strncpy}
use trace_fox.Base.Scan.{IfSome}
use trace_fox.Base.Stdio.{skip_space, sign_of}
use trace_fox.Config.{AgentConfig, config_defaults, load_config_file, split_commas}
use trace_fox.Config.Bounds.{load_config_file-IsValid, config_defaults-IsValid}
use trace_fox.Config.Bounds.Settings.{IsValid}
use trace_fox.Config
use trace_fox.Agent.Options.{
  Opt, Getopt, ConfigFiles, Globals, OptState, explicit_path, find_config_file,
  config_init_from_sources, u16_of, with_interval, option_step, option_steps, read_options,
}

config_init-IsValid :
    (fs : ConfigFiles) (argv : List (List ℕ)) → IfSome IsValid (config_init_from_sources fs argv)
unfolding config_init_from_sources
config_init-IsValid fs argv = elim (Option-cases (explicit_path (drop 1 argv))) [
  | inr (path, e) ↦
      let valid = load_config_file-IsValid (fs.file path) in
      elim (Status-cases (load_config_file (fs.file path) config_defaults).0) [
        | inl s ↦ rw (e, s, config_init_from_sources) valid
        | inr s ↦ rw (e, s, config_init_from_sources) tt
      ]
  | inl e ↦ elim (Option-cases (find_config_file fs)) [
    | inr (path, f) ↦ rw (e, f, config_init_from_sources) (load_config_file-IsValid (fs.file path))
    | inl f ↦ rw (e, f, config_init_from_sources) config_defaults-IsValid
  ]
]

u16_of-lt : (s : List ℕ) → u16_of s < 2 ^ 16
unfolding u16_of
u16_of-lt s = elim (Bool-cases (sign_of (skip_space s)).0) [
  | inl e ↦ rw (e, u16_of) (omega arith)
  | inr e ↦ rw (e, u16_of) (omega arith)
]

at_least_one : (n : ℕ) → n < 2 ^ 16 → let m : ℕ = if n == 0 then 1 else n in (1 ≤ m) × (m ≤ 65535)
at_least_one n h = ground arith

-- Settings that are within their bounds but for the port, which `-p` may set to 0.
abbrev pub IsUsable : AgentConfig → Type 0
IsUsable cfg = Config.Bounds.Settings.IsWithin 0 cfg

pub IsValid-IsUsable : (cfg : AgentConfig) → IsValid cfg → IsUsable cfg
IsValid-IsUsable cfg v = record {
  host_size = v.host_size;
  label_size = v.label_size;
  port = (omega arith, v.port.1);
  interval = v.interval;
  prefixes = v.prefixes;
  prefix_sizes = v.prefix_sizes;
  thread_top_n = v.thread_top_n;
}

module _ (cfg : AgentConfig) (v : IsUsable cfg) (arg : List ℕ) where
  host-IsUsable : IsUsable (record cfg { server_host = strncpy cfg.server_host arg 63 })
  host-IsUsable = record {
    host_size = length-strncpy cfg.server_host arg 63 (omega (arith, v.host_size)) ∙ v.host_size;
    label_size = v.label_size;
    port = v.port;
    interval = v.interval;
    prefixes = v.prefixes;
    prefix_sizes = v.prefix_sizes;
    thread_top_n = v.thread_top_n;
  }

  port-IsUsable : IsUsable (record cfg { server_port = u16_of arg })
  port-IsUsable = record {
    host_size = v.host_size;
    label_size = v.label_size;
    port = (omega arith, omega (arith, u16_of-lt arg));
    interval = v.interval;
    prefixes = v.prefixes;
    prefix_sizes = v.prefix_sizes;
    thread_top_n = v.thread_top_n;
  }

  interval-IsUsable : IsUsable (with_interval cfg (u16_of arg))
  interval-IsUsable = record {
    host_size = v.host_size;
    label_size = v.label_size;
    port = v.port;
    interval = at_least_one (u16_of arg) (u16_of-lt arg);
    prefixes = v.prefixes;
    prefix_sizes = v.prefix_sizes;
    thread_top_n = v.thread_top_n;
  }

abbrev Usable : Option OptState → Type 0
Usable = IfSome (λ s. IsUsable s.cfg)

if_Usable : (b : Bool) (x y : Option OptState) → Usable x → Usable y → Usable (if b then x else y)
if_Usable true x y h k = h
if_Usable false x y h k = k

option_step-IsUsable : (o : Opt) (s : OptState) → IsUsable s.cfg → Usable (option_step o s)
unfolding option_step
option_step-IsUsable o s v = if_Usable (o.letter == b'c') _ _ v (
    if_Usable (o.letter == b'h') _ _ (host-IsUsable s.cfg v o.optarg) (
      if_Usable (o.letter == b'p') _ _ (port-IsUsable s.cfg v o.optarg) (
        if_Usable (o.letter == b'i') _ _ (interval-IsUsable s.cfg v o.optarg) (
          if_Usable (o.letter == b'f') _ _ v (
            if_Usable (o.letter == b'P') _ _
              (Config.Bounds.add_prefixes-IsWithin 0 (split_commas o.optarg) s.cfg v)
              (if_Usable (o.letter == b'v') _ _ v tt))))))

option_steps-IsUsable : (os : List Opt) (s : OptState) → IsUsable s.cfg → Usable (option_steps os s)
unfolding option_steps
option_steps-IsUsable [] s v = v
option_steps-IsUsable (o ∷ os) s v =
    go (λ s' h. option_steps-IsUsable os s' h) (option_step o s) (option_step-IsUsable o s v)
  where
    go :
        ((s' : OptState) → IsUsable s'.cfg → Usable (option_steps os s'))
        → (m : Option OptState) → Usable m
        → Usable (elim m [ none ↦ none | some s' ↦ option_steps os s' ])
    go rest none h = tt
    go rest (some s') h = rest s' h

-- Whatever the command line and the configuration files hold, a configuration that the agent starts with is within its
-- bounds: an interval from 1 to 65535, one to seven threads, at most 32 prefixes in arrays of 32 bytes, a host and a
-- label in arrays of 64 bytes; only the port may be 0.
pub read_options-IsUsable :
    (getopt : Getopt) (fs : ConfigFiles) (argv : List (List ℕ)) (globals : Globals)
    → IfSome (λ s. IsUsable s.cfg) (read_options getopt fs argv globals)
unfolding read_options
read_options-IsUsable getopt fs argv globals =
    go (config_init_from_sources fs argv) (config_init-IsValid fs argv)
  where
    start : AgentConfig → OptState
    start cfg = record { argv = argv; cfg = cfg; globals = globals }

    go :
        (m : Option AgentConfig)
        → IfSome IsValid m
        → Usable (elim m [
          | none ↦ none
          | some cfg ↦
              option_steps (getopt argv) (record { argv = argv; cfg = cfg; globals = globals })
        ])
    go none h = tt
    go (some cfg) h = option_steps-IsUsable (getopt argv) (start cfg) (IsValid-IsUsable cfg h)
