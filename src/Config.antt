-- ===== src/Config.antt =====
-- agent/src/main.c: the configuration of the agent (`struct agent_config` in agent/include/tracefox.h), from its
-- defaults, the configuration file and the command line. The contents of the file are an argument, `none`
-- where it cannot be opened; the options are those that `getopt` yields, with their arguments.
pub mod Bounds
use trace_fox.Base.{
  ℕ, ◌+◌, ◌-◌, ◌^◌, Bool, true, false, ◌&&◌, ◌||◌, not, Option, none, some, List, [], ◌∷◌, ◌++◌,
  map, ltb, leb, ◌==◌, if◌then◌else◌, Status, ok, fail, length, get_or, set, replicate,
}
use trace_fox.Base.CString.{c_str, strncpy, str_eq, bytes_eq, name_field}
use trace_fox.Base.Stdio.{codes, isspace, skip_space, digits_of, sign_of, lines_of}
use trace_fox.Proc.{tf_comm_prefix_len, ThreadMode, off, summary, top}

abbrev pub tf_default_server_port : ℕ
tf_default_server_port = 9000

abbrev pub tf_default_interval_sec : ℕ
tf_default_interval_sec = 5

abbrev pub tf_default_thread_top_n : ℕ
tf_default_thread_top_n = 5

-- `struct agent_config`; `proc_prefixes` is the first `proc_prefix_count` elements of the array.
pub record AgentConfig : Type 0 where
  pub server_host : List ℕ
  pub server_port : ℕ
  pub interval_sec : ℕ
  pub host_label : List ℕ
  pub proc_prefixes : List (List ℕ)
  pub thread_mode : ThreadMode
  pub thread_top_n : ℕ
  pub thread_include_tid : Bool

-- The fields that it leaves at 0 are those of `memset`.
unfoldable pub config_defaults : AgentConfig
config_defaults = record {
  server_host = name_field 64 (codes "127.0.0.1");
  server_port = tf_default_server_port;
  interval_sec = tf_default_interval_sec;
  host_label = replicate 64 0;
  proc_prefixes = [];
  thread_mode = top;
  thread_top_n = tf_default_thread_top_n;
  thread_include_tid = false;
}

-- `tolower` in the C locale.
unfoldable pub lower : ℕ → ℕ
lower c = if leb b'A' c && leb c b'Z' then c + 32 else c

-- `strcasecmp(s, t) == 0`
unfoldable pub strcase_eq : List ℕ → List ℕ → Bool
unfolding c_str bytes_eq lower
strcase_eq s t = bytes_eq (map lower (c_str s)) (map lower (c_str t))

unfoldable pub parse_bool_value : List ℕ → Option Bool
parse_bool_value value =
    if str_eq value (codes "1")
      || strcase_eq value (codes "true")
      || strcase_eq value (codes "yes")
      || strcase_eq value (codes "on")
    then some true
    else if str_eq value (codes "0")
        || strcase_eq value (codes "false")
        || strcase_eq value (codes "no")
        || strcase_eq value (codes "off")
    then some false
    else none

-- Every byte of the string is printable ASCII.
unfoldable pub all_printable : List ℕ → Bool
all_printable [] = true
all_printable (c ∷ s) = if ltb c 0x20 || ltb 0x7E c then false else all_printable s

unfoldable pub is_ascii_safe : List ℕ → Bool
unfolding c_str all_printable
is_ascii_safe value = all_printable (c_str value)

-- The string without the white space at its end.
unfoldable pub trim_end : List ℕ → List ℕ
trim_end [] = []
trim_end (c ∷ s) = elim (trim_end s) [ [] ↦ if isspace c then [] else c ∷ [] | d ∷ t ↦ c ∷ d ∷ t ]

-- `trim_inplace`: what the returned pointer reads as.
unfoldable pub trim_inplace : List ℕ → List ℕ
unfolding c_str skip_space trim_end
trim_inplace string = trim_end (skip_space (c_str string))

-- `strchr(key, '=')`: the bytes in front of the first '=' and those behind it.
unfoldable pub split_assignment : List ℕ → Option (List ℕ × List ℕ)
split_assignment [] = none
split_assignment (c ∷ s) =
    let rest = split_assignment s in
    if c == b'='
    then some ([], s)
    else elim rest [ none ↦ none | some (key, value) ↦ some (c ∷ key, value) ]

-- `strtol(val, NULL, 10)` where `errno` stays 0: the sign and the magnitude. Without digits it is 0.
unfoldable pub strtol : List ℕ → Option (Bool × ℕ)
unfolding skip_space digits_of sign_of
strtol s =
    let (minus, t) = sign_of (skip_space s) in
    let (n, any, rest) = digits_of 0 false t in
    let limit : ℕ = if minus then 2 ^ 63 else 2 ^ 63 - 1 in
    if any then (if ltb limit n then none else some (minus, n)) else some (false, 0)

-- `errno == 0 && parsed > 0 && parsed <= limit`
unfoldable pub setting_of : List ℕ → ℕ → Option ℕ
setting_of val limit = elim (strtol val) [
  | none ↦ none
  | some (minus, n) ↦ if not minus && (ltb 0 n && leb n limit) then some n else none
]

-- The parts between the commas. `strtok_r` skips the empty ones, which the caller would skip as well.
unfoldable pub split_commas : List ℕ → List (List ℕ)
split_commas [] = [] ∷ []
split_commas (c ∷ s) =
    let parts = split_commas s in
    if c == b',' then [] ∷ parts else elim parts [ [] ↦ (c ∷ []) ∷ [] | p ∷ ps ↦ (c ∷ p) ∷ ps ]

-- `config_add_proc_prefix`: a prefix beyond `TF_MAX_COMM_PREFIX` is dropped.
unfoldable pub config_add_proc_prefix : AgentConfig → List ℕ → AgentConfig
config_add_proc_prefix cfg prefix = if leb 32 (length cfg.proc_prefixes) then cfg else record cfg {
  proc_prefixes = cfg.proc_prefixes ++ name_field tf_comm_prefix_len prefix ∷ [];
}

-- The loop over the parts of a value.
unfoldable pub add_prefixes : List (List ℕ) → AgentConfig → AgentConfig
add_prefixes [] cfg = cfg
add_prefixes (part ∷ parts) cfg =
    let prefix = trim_inplace part in
    add_prefixes parts (if length prefix == 0 then cfg else config_add_proc_prefix cfg prefix)

unfoldable pub set_server_port : List ℕ → AgentConfig → AgentConfig
set_server_port val cfg = elim (setting_of val 65535) [
  | none ↦ cfg
  | some n ↦ record cfg { server_port = n }
]

unfoldable pub set_interval : List ℕ → AgentConfig → AgentConfig
set_interval val cfg = elim (setting_of val 65535) [
  | none ↦ cfg
  | some n ↦ record cfg { interval_sec = n }
]

unfoldable pub set_host_label : List ℕ → AgentConfig → AgentConfig
set_host_label val cfg =
    if length val == 0
    then record cfg { host_label = set cfg.host_label 0 0 }
    else if is_ascii_safe val
    then record cfg { host_label = set (strncpy cfg.host_label val 63) 63 0 }
    else cfg

unfoldable pub set_thread_mode : List ℕ → AgentConfig → AgentConfig
set_thread_mode val cfg =
    if strcase_eq val (codes "off")
    then record cfg { thread_mode = off }
    else if strcase_eq val (codes "summary")
    then record cfg { thread_mode = summary }
    else if strcase_eq val (codes "top")
    then record cfg { thread_mode = top }
    else cfg

unfoldable pub set_thread_top_n : List ℕ → AgentConfig → AgentConfig
set_thread_top_n val cfg = elim (setting_of val 7) [
  | none ↦ cfg
  | some n ↦ record cfg { thread_top_n = n }
]

unfoldable pub set_include_tid : List ℕ → AgentConfig → AgentConfig
set_include_tid val cfg = elim (parse_bool_value val) [
  | none ↦ cfg
  | some b ↦ record cfg { thread_include_tid = b }
]

unfoldable pub set_server_host : List ℕ → AgentConfig → AgentConfig
set_server_host val cfg =
    if length val == 0 then cfg else record cfg { server_host = strncpy cfg.server_host val 63 }

-- The chain of comparisons on the key of an assignment.
unfoldable pub config_key : List ℕ → List ℕ → AgentConfig → AgentConfig
config_key key val cfg =
    if str_eq key (codes "server_host")
    then set_server_host val cfg
    else if str_eq key (codes "server_port")
    then set_server_port val cfg
    else if str_eq key (codes "interval")
    then set_interval val cfg
    else if str_eq key (codes "host_label")
    then set_host_label val cfg
    else if str_eq key (codes "proc_prefix")
    then add_prefixes (split_commas val) cfg
    else if str_eq key (codes "thread_mode")
    then set_thread_mode val cfg
    else if str_eq key (codes "thread_top_n")
    then set_thread_top_n val cfg
    else if str_eq key (codes "thread_include_tid")
    then set_include_tid val cfg
    else cfg

-- One line: empty lines, comments and lines without an assignment change nothing.
unfoldable pub config_line : List ℕ → AgentConfig → AgentConfig
config_line line cfg =
    let text = trim_inplace line in
    if get_or text 0 0 == 0 || get_or text 0 0 == b'#' then cfg else elim (split_assignment text) [
      | none ↦ cfg
      | some (key, value) ↦ config_key (trim_inplace key) (trim_inplace value) cfg
    ]

unfoldable pub config_lines : List (List ℕ) → AgentConfig → AgentConfig
config_lines [] cfg = cfg
config_lines (line ∷ lines) cfg = config_lines lines (config_line line cfg)

unfoldable pub load_config_file : Option (List ℕ) → AgentConfig → Status × AgentConfig
load_config_file none cfg = (fail, cfg)
load_config_file (some file) cfg = (ok, config_lines (lines_of 256 file) cfg)
