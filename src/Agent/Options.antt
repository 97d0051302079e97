-- ===== src/Agent/Options.antt =====
-- agent/src/main.c: the configuration from its sources (`config_init_from_sources`), and the options of the command
-- line (`init_agent_state`). `getopt` of the C library is a parameter.
pub mod Bounds
pub mod Reload
use trace_fox.Base.{
  ℕ, ◌+◌, ◌-◌, ◌%◌, ◌^◌, min, Bool, true, false, ◌&&◌, not, Option, none, some, List, [], ◌∷◌, ◌++◌,
  ◌==◌, if◌then◌else◌, ok, fail, length, get_or, set, take, drop, replicate,
}
use trace_fox.Base.CString.{c_str, strncpy, str_eq}
use trace_fox.Base.Stdio.{codes, skip_space, sign_of, digits_of}
use trace_fox.Config.{
  AgentConfig, config_defaults, load_config_file, split_commas, add_prefixes, trim_end,
}

-- What `getopt` yields: the letter, or another character for an error, and the argument: a string at an offset of
-- an element of `argv`.
pub record Opt : Type 0 where
  pub letter : ℕ
  pub optarg : List ℕ
  pub index : ℕ
  pub offset : ℕ

-- The options on a command line, in turn.
abbrev pub Getopt : Type 0
Getopt = List (List ℕ) → List Opt

-- The file system as the configuration sees it: which paths can be read, and what `fopen` finds there.
pub record ConfigFiles : Type 0 where
  pub is_readable : List ℕ → Bool
  pub file : List ℕ → Option (List ℕ)

abbrev pub config_search_paths : List (List ℕ)
config_search_paths =
    codes "config/agent.conf"
    ∷ codes "agent/config/agent.conf"
    ∷ codes "/etc/tracefox/agent.conf"
    ∷ []

-- The loop over the paths: the first that can be read.
unfoldable pub first_readable : (List ℕ → Bool) → List (List ℕ) → Option (List ℕ)
first_readable is_readable [] = none
first_readable is_readable (path ∷ paths) =
    if is_readable path then some path else first_readable is_readable paths

unfoldable pub find_config_file : ConfigFiles → Option (List ℕ)
unfolding first_readable
find_config_file fs = first_readable fs.is_readable config_search_paths

-- The scan for `-c` over the arguments from the second on: its argument, if it is not empty.
unfoldable pub explicit_path : List (List ℕ) → Option (List ℕ)
explicit_path [] = none
explicit_path (arg ∷ args) = elim args [
  | [] ↦ none
  | next ∷ more ↦
      if str_eq arg (codes "-c") && not (length (c_str next) == 0)
      then some next
      else explicit_path args
]

-- `none` is that the agent exits, for the file that the command line names cannot be opened.
unfoldable pub config_init_from_sources : ConfigFiles → List (List ℕ) → Option AgentConfig
config_init_from_sources fs argv = elim (explicit_path (drop 1 argv)) [
  | some path ↦
      let (status, cfg) = load_config_file (fs.file path) config_defaults in
      elim status [ ok ↦ some cfg | fail ↦ none ]
  | none ↦ elim (find_config_file fs) [
    | some path ↦ some (load_config_file (fs.file path) config_defaults).1
    | none ↦ some config_defaults
  ]
]

-- The statics of the file that the options set.
pub record Globals : Type 0 where
  pub file_mode : Bool
  pub output_file : List ℕ
  pub is_debug : Bool

pub record OptState : Type 0 where
  pub argv : List (List ℕ)
  pub cfg : AgentConfig
  pub globals : Globals

-- `(uint16_t)strtol(optarg, NULL, 10)`, which stops at the limits of a `long`.
unfoldable pub u16_of : List ℕ → ℕ
unfolding skip_space sign_of digits_of
u16_of s =
    let (minus, t) = sign_of (skip_space s) in
    let (n, any, rest) = digits_of 0 false t in
    if minus then (2 ^ 16 - min n (2 ^ 63) % 2 ^ 16) % 2 ^ 16 else min n (2 ^ 63 - 1) % 2 ^ 16

-- What `trim_inplace` leaves in memory of a part: its trailing white space is overwritten with NULs, unless it
-- is white space only.
unfoldable pub spent_part : List ℕ → List ℕ
spent_part p =
    if length (skip_space p) == 0
    then p
    else trim_end p ++ replicate (length p - length (trim_end p)) 0

-- What `strtok_r` leaves: the comma behind a part that is not empty is overwritten with a NUL.
unfoldable pub spent_parts : List (List ℕ) → List ℕ
spent_parts [] = []
spent_parts (p ∷ ps) = elim ps [
  | [] ↦ spent_part p
  | q ∷ qs ↦ spent_part p ++ (if length p == 0 then b',' else 0) ∷ spent_parts ps
]

-- The bytes of the argument of `-P` after its prefixes are read.
unfoldable pub spent : List ℕ → List ℕ
unfolding spent_parts
spent optarg = spent_parts (split_commas optarg)

-- `argv` with these bytes in the place of the argument.
unfoldable pub write_back : List (List ℕ) → Opt → List (List ℕ)
unfolding spent
write_back argv o =
    let arg = get_or argv o.index [] in
    set argv o.index
      (take o.offset arg ++ (spent o.optarg ++ drop (o.offset + length o.optarg) arg))

abbrev pub with_interval : AgentConfig → ℕ → AgentConfig
with_interval cfg n = record cfg { interval_sec = if n == 0 then 1 else n }

-- One option; `none` is that the usage is printed and the initialisation fails.
unfoldable pub option_step : Opt → OptState → Option OptState
unfolding write_back u16_of
option_step o s =
    let cfg = s.cfg in
    let globals = s.globals in
    if o.letter == b'c'
    then some s
    else if o.letter == b'h'
    then some (record s { cfg = record cfg { server_host = strncpy cfg.server_host o.optarg 63 } })
    else if o.letter == b'p'
    then some (record s { cfg = record cfg { server_port = u16_of o.optarg } })
    else if o.letter == b'i'
    then some (record s { cfg = with_interval cfg (u16_of o.optarg) })
    else if o.letter == b'f'
    then some (record s { globals = record globals { file_mode = true; output_file = o.optarg } })
    else if o.letter == b'P'
    then some
        (record s { cfg = add_prefixes (split_commas o.optarg) cfg; argv = write_back s.argv o })
    else if o.letter == b'v'
    then some (record s { globals = record globals { is_debug = true } })
    else none

unfoldable pub option_steps : List Opt → OptState → Option OptState
option_steps [] s = some s
option_steps (o ∷ os) s = elim (option_step o s) [ none ↦ none | some s' ↦ option_steps os s' ]

-- The first part of `init_agent_state`: the configuration and the options.
unfoldable pub read_options : Getopt → ConfigFiles → List (List ℕ) → Globals → Option OptState
read_options getopt fs argv globals = elim (config_init_from_sources fs argv) [
  | none ↦ none
  | some cfg ↦ option_steps (getopt argv) (record { argv = argv; cfg = cfg; globals = globals })
]
