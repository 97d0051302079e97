-- ===== src/Config/Bounds.antt =====
-- Every configuration file leaves every setting within its bounds.
pub mod Settings
use trace_fox.Base.{
  ℕ, ◌≤◌, ◌≡◌, refl, inl, inr, Bool, true, false, Option, none, some, List, [], ◌∷◌, ◌++◌, arith,
  leb, ◌==◌, if◌then◌else◌, Bool-cases, length, length-append, All-append, leb_false→lt,
}
use trace_fox.Base.CString.{name_field, length-name_field}
use trace_fox.Base.Stdio.{codes, lines_of}
use trace_fox.Config.{
  AgentConfig, config_defaults, config_add_proc_prefix, add_prefixes, trim_inplace, config_key,
  config_line, config_lines, load_config_file, split_commas, split_assignment,
}
use trace_fox.Config.Bounds.Settings.{
  IsWithin, IsValid, set_server_port-IsValid, set_interval-IsValid, set_thread_top_n-IsValid,
  set_thread_mode-IsValid, set_include_tid-IsValid, set_server_host-IsValid, set_host_label-IsValid,
}

config_add_proc_prefix-IsWithin :
    (lowest : ℕ) (cfg : AgentConfig) (prefix : List ℕ)
    → IsWithin lowest cfg
    → IsWithin lowest (config_add_proc_prefix cfg prefix)
unfolding config_add_proc_prefix
config_add_proc_prefix-IsWithin lowest cfg prefix v =
    let ps = cfg.proc_prefixes in
    let p = name_field 32 prefix in
    elim (Bool-cases (leb 32 (length ps))) [
      | inl full ↦ rw (full, config_add_proc_prefix) v
      | inr room ↦
          let few : length (ps ++ p ∷ []) ≤ 32 =
            omega (arith, length-append ps (p ∷ []), leb_false→lt 32 (length ps) room) in
          let sizes =
            All-append (λ q. length q ≡ 32) ps (p ∷ []) v.prefix_sizes
              (length-name_field 32 prefix, tt) in
          rw (room, config_add_proc_prefix)
            (record {
              host_size = v.host_size;
              label_size = v.label_size;
              port = v.port;
              interval = v.interval;
              prefixes = few;
              prefix_sizes = sizes;
              thread_top_n = v.thread_top_n;
            })
    ]

pub add_prefixes-IsWithin :
    (lowest : ℕ) (parts : List (List ℕ)) (cfg : AgentConfig)
    → IsWithin lowest cfg
    → IsWithin lowest (add_prefixes parts cfg)
unfolding add_prefixes
add_prefixes-IsWithin lowest [] cfg v = v
add_prefixes-IsWithin lowest (part ∷ parts) cfg v =
    let prefix = trim_inplace part in
    elim (Bool-cases (length prefix == 0)) [
      | inl e ↦ rw e (add_prefixes-IsWithin lowest parts cfg v)
      | inr e ↦ rw e (
          add_prefixes-IsWithin lowest parts (config_add_proc_prefix cfg prefix)
            (config_add_proc_prefix-IsWithin lowest cfg prefix v))
    ]

if_IsValid : (c : Bool) (a b : AgentConfig) → IsValid a → IsValid b → IsValid (if c then a else b)
if_IsValid true a b ha hb = ha
if_IsValid false a b ha hb = hb

config_key-IsValid :
    (key val : List ℕ) (cfg : AgentConfig) → IsValid cfg → IsValid (config_key key val cfg)
unfolding config_key
config_key-IsValid key val cfg v = if_IsValid _ _ _ (set_server_host-IsValid val cfg v) (
    if_IsValid _ _ _ (set_server_port-IsValid val cfg v) (
      if_IsValid _ _ _ (set_interval-IsValid val cfg v) (
        if_IsValid _ _ _ (set_host_label-IsValid val cfg v) (
          if_IsValid _ _ _ (add_prefixes-IsWithin 1 (split_commas val) cfg v) (
            if_IsValid _ _ _ (set_thread_mode-IsValid val cfg v) (
              if_IsValid _ _ _ (set_thread_top_n-IsValid val cfg v)
                (if_IsValid _ _ _ (set_include_tid-IsValid val cfg v) v)))))))

config_line-IsValid :
    (line : List ℕ) (cfg : AgentConfig) → IsValid cfg → IsValid (config_line line cfg)
unfolding config_line
config_line-IsValid line cfg v =
    let t = trim_inplace line in if_IsValid _ _ _ v (assigned (split_assignment t))
  where
    assigned :
        (m : Option (List ℕ × List ℕ))
        → IsValid (elim m [
          | none ↦ cfg
          | some (key, value) ↦ config_key (trim_inplace key) (trim_inplace value) cfg
        ])
    assigned none = v
    assigned (some (key, value)) = config_key-IsValid (trim_inplace key) (trim_inplace value) cfg v

config_lines-IsValid :
    (lines : List (List ℕ)) (cfg : AgentConfig) → IsValid cfg → IsValid (config_lines lines cfg)
unfolding config_lines
config_lines-IsValid [] cfg v = v
config_lines-IsValid (line ∷ lines) cfg v =
    config_lines-IsValid lines (config_line line cfg) (config_line-IsValid line cfg v)

pub config_defaults-IsValid : IsValid config_defaults
unfolding config_defaults
config_defaults-IsValid = record {
  host_size = length-name_field 64 (codes "127.0.0.1");
  label_size = refl;
  port = (omega arith, omega arith);
  interval = (omega arith, omega arith);
  prefixes = omega arith;
  prefix_sizes = tt;
  thread_top_n = (omega arith, omega arith);
}

-- Whatever the configuration file holds, the settings that it leaves over the defaults are within their bounds: a
-- port and an interval from 1 to 65535, one to seven threads, at most 32 prefixes in arrays of 32 bytes, and
-- a host and a label in arrays of 64 bytes.
pub load_config_file-IsValid :
    (file : Option (List ℕ)) → IsValid (load_config_file file config_defaults).1
unfolding load_config_file
load_config_file-IsValid none = config_defaults-IsValid
load_config_file-IsValid (some file) =
    config_lines-IsValid (lines_of 256 file) config_defaults config_defaults-IsValid
