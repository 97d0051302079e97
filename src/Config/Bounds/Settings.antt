-- ===== src/Config/Bounds/Settings.antt =====
-- The bounds of a configuration, and that the setters of the single keys keep them.
use trace_fox.Base.{
  ℕ, ◌≤◌, ◌≡◌, ◌∙◌, inl, inr, Bool, ◌&&◌, not, List, arith, ltb, leb, ◌==◌, ltb→lt, leb→le,
  Bool-cases, Option-cases, length, set, All, length-set, and_left, and_right,
}
use trace_fox.Base.CString.{strncpy, length-strncpy}
use trace_fox.Base.Stdio.{codes}
use trace_fox.Proc.{ThreadMode, off, summary, top}
use trace_fox.Base.Scan.{IfSome}
use trace_fox.Config.{
  AgentConfig, strtol, setting_of, set_server_port, set_interval, set_host_label, set_thread_mode,
  set_thread_top_n, set_include_tid, set_server_host, is_ascii_safe, parse_bool_value, strcase_eq,
}

-- Arrays keep their sizes, the port and the interval are 16-bit numbers, the interval positive and the port at
-- least `lowest`, one to seven threads are reported, and there are at most 32 prefixes.
pub record IsWithin (lowest : ℕ) (cfg : AgentConfig) : Type 0 where
  pub host_size : length cfg.server_host ≡ 64
  pub label_size : length cfg.host_label ≡ 64
  pub port : (lowest ≤ cfg.server_port) × (cfg.server_port ≤ 65535)
  pub interval : (1 ≤ cfg.interval_sec) × (cfg.interval_sec ≤ 65535)
  pub prefixes : length cfg.proc_prefixes ≤ 32
  pub prefix_sizes : All (λ p. length p ≡ 32) cfg.proc_prefixes
  pub thread_top_n : (1 ≤ cfg.thread_top_n) × (cfg.thread_top_n ≤ 7)

abbrev pub IsValid : AgentConfig → Type 0
IsValid cfg = IsWithin 1 cfg

setting_of-bounds :
    (val : List ℕ) (limit : ℕ) → IfSome (λ n. (1 ≤ n) × (n ≤ limit)) (setting_of val limit)
unfolding setting_of
setting_of-bounds val limit = elim (Option-cases (strtol val)) [
  | inl e ↦ rw (e, setting_of) tt
  | inr ((minus, n), e) ↦
      let in_range : Bool = ltb 0 n && leb n limit in
      elim (Bool-cases (not minus && in_range)) [
        | inr off_range ↦ rw (e, off_range, setting_of) tt
        | inl on_range ↦
            let both = and_right (not minus) in_range on_range in
            let positive = ltb→lt 0 n (and_left (ltb 0 n) (leb n limit) both) in
            let at_most = leb→le n limit (and_right (ltb 0 n) (leb n limit) both) in
            rw (e, on_range, setting_of) (omega arith, at_most)
      ]
]

pub set_server_port-IsValid :
    (val : List ℕ) (cfg : AgentConfig) → IsValid cfg → IsValid (set_server_port val cfg)
unfolding set_server_port
set_server_port-IsValid val cfg v = elim (Option-cases (setting_of val 65535)) [
  | inl e ↦ rw (e, set_server_port) v
  | inr (n, e) ↦
      let bounds : (1 ≤ n) × (n ≤ 65535) = rw e at (setting_of-bounds val 65535) in
      rw (e, set_server_port)
        (record {
          host_size = v.host_size;
          label_size = v.label_size;
          port = bounds;
          interval = v.interval;
          prefixes = v.prefixes;
          prefix_sizes = v.prefix_sizes;
          thread_top_n = v.thread_top_n;
        })
]

pub set_interval-IsValid :
    (val : List ℕ) (cfg : AgentConfig) → IsValid cfg → IsValid (set_interval val cfg)
unfolding set_interval
set_interval-IsValid val cfg v = elim (Option-cases (setting_of val 65535)) [
  | inl e ↦ rw (e, set_interval) v
  | inr (n, e) ↦
      let bounds : (1 ≤ n) × (n ≤ 65535) = rw e at (setting_of-bounds val 65535) in
      rw (e, set_interval)
        (record {
          host_size = v.host_size;
          label_size = v.label_size;
          port = v.port;
          interval = bounds;
          prefixes = v.prefixes;
          prefix_sizes = v.prefix_sizes;
          thread_top_n = v.thread_top_n;
        })
]

pub set_thread_top_n-IsValid :
    (val : List ℕ) (cfg : AgentConfig) → IsValid cfg → IsValid (set_thread_top_n val cfg)
unfolding set_thread_top_n
set_thread_top_n-IsValid val cfg v = elim (Option-cases (setting_of val 7)) [
  | inl e ↦ rw (e, set_thread_top_n) v
  | inr (n, e) ↦
      let bounds : (1 ≤ n) × (n ≤ 7) = rw e at (setting_of-bounds val 7) in
      rw (e, set_thread_top_n)
        (record {
          host_size = v.host_size;
          label_size = v.label_size;
          port = v.port;
          interval = v.interval;
          prefixes = v.prefixes;
          prefix_sizes = v.prefix_sizes;
          thread_top_n = bounds;
        })
]

-- A change of the fields without bounds.
mode_changed :
    (cfg : AgentConfig) (mode : ThreadMode)
    → IsValid cfg
    → IsValid (record cfg { thread_mode = mode })
mode_changed cfg mode v = record {
  host_size = v.host_size;
  label_size = v.label_size;
  port = v.port;
  interval = v.interval;
  prefixes = v.prefixes;
  prefix_sizes = v.prefix_sizes;
  thread_top_n = v.thread_top_n;
}

tid_changed :
    (cfg : AgentConfig) (b : Bool) → IsValid cfg → IsValid (record cfg { thread_include_tid = b })
tid_changed cfg b v = record {
  host_size = v.host_size;
  label_size = v.label_size;
  port = v.port;
  interval = v.interval;
  prefixes = v.prefixes;
  prefix_sizes = v.prefix_sizes;
  thread_top_n = v.thread_top_n;
}

pub set_thread_mode-IsValid :
    (val : List ℕ) (cfg : AgentConfig) → IsValid cfg → IsValid (set_thread_mode val cfg)
unfolding set_thread_mode
set_thread_mode-IsValid val cfg v = elim (Bool-cases (strcase_eq val (codes "off"))) [
  | inl a ↦ rw (a, set_thread_mode) (mode_changed cfg off v)
  | inr a ↦ elim (Bool-cases (strcase_eq val (codes "summary"))) [
    | inl b ↦ rw (a, b, set_thread_mode) (mode_changed cfg summary v)
    | inr b ↦ elim (Bool-cases (strcase_eq val (codes "top"))) [
      | inl c ↦ rw (a, b, c, set_thread_mode) (mode_changed cfg top v)
      | inr c ↦ rw (a, b, c, set_thread_mode) v
    ]
  ]
]

pub set_include_tid-IsValid :
    (val : List ℕ) (cfg : AgentConfig) → IsValid cfg → IsValid (set_include_tid val cfg)
unfolding set_include_tid
set_include_tid-IsValid val cfg v = elim (Option-cases (parse_bool_value val)) [
  | inl e ↦ rw (e, set_include_tid) v
  | inr (b, e) ↦ rw (e, set_include_tid) (tid_changed cfg b v)
]

pub set_server_host-IsValid :
    (val : List ℕ) (cfg : AgentConfig) → IsValid cfg → IsValid (set_server_host val cfg)
unfolding set_server_host
set_server_host-IsValid val cfg v =
    let size : length (strncpy cfg.server_host val 63) ≡ 64 =
      length-strncpy cfg.server_host val 63 (omega (arith, v.host_size)) ∙ v.host_size in
    elim (Bool-cases (length val == 0)) [
      | inl e ↦ rw (e, set_server_host) v
      | inr e ↦
          rw (e, set_server_host)
            (record {
              host_size = size;
              label_size = v.label_size;
              port = v.port;
              interval = v.interval;
              prefixes = v.prefixes;
              prefix_sizes = v.prefix_sizes;
              thread_top_n = v.thread_top_n;
            })
    ]

pub set_host_label-IsValid :
    (val : List ℕ) (cfg : AgentConfig) → IsValid cfg → IsValid (set_host_label val cfg)
unfolding set_host_label
set_host_label-IsValid val cfg v =
    let copy = strncpy cfg.host_label val 63 in
    let size : length copy ≡ 64 =
      length-strncpy cfg.host_label val 63 (omega (arith, v.label_size)) ∙ v.label_size in
    let cleared : length (set cfg.host_label 0 0) ≡ 64 =
      length-set cfg.host_label 0 0 ∙ v.label_size in
    let stored : length (set copy 63 0) ≡ 64 = length-set copy 63 0 ∙ size in
    elim (Bool-cases (length val == 0)) [
      | inl e ↦
          rw (e, set_host_label)
            (record {
              host_size = v.host_size;
              label_size = cleared;
              port = v.port;
              interval = v.interval;
              prefixes = v.prefixes;
              prefix_sizes = v.prefix_sizes;
              thread_top_n = v.thread_top_n;
            })
      | inr e ↦ elim (Bool-cases (is_ascii_safe val)) [
        | inr bad ↦ rw (e, bad, set_host_label) v
        | inl safe ↦
            rw (e, safe, set_host_label)
              (record {
                host_size = v.host_size;
                label_size = stored;
                port = v.port;
                interval = v.interval;
                prefixes = v.prefixes;
                prefix_sizes = v.prefix_sizes;
                thread_top_n = v.thread_top_n;
              })
      ]
    ]
