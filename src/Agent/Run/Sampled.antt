-- ===== src/Agent/Run/Sampled.antt =====
-- What a round that takes a sample does: one frame, with the number of the round, goes out.
use trace_fox.Base.{
  ℕ, ◌+◌, ◌%◌, ◌^◌, ◌≤◌, ◌≡◌, refl, ap, ◌∙◌, Option, none, some, List, ◌++◌, arith, Status, ok,
  fail, length, length-take,
}
use trace_fox.Tlv.{TlvWriter, tlv_init}
use trace_fox.Tlv.Put.{contents, header}
use trace_fox.Protocol.Entries.{Entry, encode}
use trace_fox.Collector.{SampleContext}
use trace_fox.Mem.{Double}
use trace_fox.Proc.Group.{Qsort}
use trace_fox.Proc.Group.Top.{IsQsort}
use trace_fox.Agent.{Collectors, build_frame, push_all, put_label}
use trace_fox.Agent.Frame.{build_frame-Built}
use trace_fox.Agent.Frame.Parts.{Contexts, allocated, frame_entries}
use trace_fox.Agent.Sample.{collect_system, collect_system-Collected, IsBounded-IsReady}
use trace_fox.Agent.Sample.Bounded.{IsBounded}
use trace_fox.Agent.Options.Bounds.{IsUsable}
use trace_fox.Agent.Setup.{Agent, destroy_agent_state}
use trace_fox.Agent.Run.{Round, Next, ended, no_fuel, emit, wait, send_frame, sample_round}
use trace_fox.Agent.Run.Contexts.{IsCollecting, push_all-IsCollecting}

-- What every round starts from.
pub record IsLive (a : Agent) : Type 0 where
  pub collecting : IsCollecting a.collectors
  pub cfg : IsUsable a.cfg
  pub buffer : 1400 ≤ length a.buffer

-- A frame with this number: the header and some entries, within 1400 bytes.
pub record IsFrame (seq : ℕ) (frame : List ℕ) : Type 0 where
  pub timestamp : ℕ
  pub entries : List Entry
  pub bytes : frame ≡ header timestamp seq ++ encode entries
  pub size : length frame ≤ 1400

-- The state after the frame of a round is built and before it goes out.
abbrev pub framed : Agent → Collectors → ℕ → TlvWriter → Agent
framed a collectors g w = record a {
  collectors = collectors;
  g_last_diff_total = g;
  seq = (a.seq + 1) % 2 ^ 32;
  writer = w;
  buffer = w.buffer;
}

-- What a sample comes to.
pub record Sampled (r : Round) (a : Agent) (next : Next) : Type 0 where
  pub collectors : Collectors
  pub g_last_diff_total : ℕ
  pub w : TlvWriter
  pub same : next ≡ wait r (emit r.is_sent (framed a collectors g_last_diff_total w) w)
  pub collecting : IsCollecting collectors
  pub buffer : 1400 ≤ length w.buffer
  pub frame : IsFrame a.seq (contents w)
  pub len : length (contents w) ≡ w.len

some_frame :
    (s : Status) (x out : ℕ × Collectors × TlvWriter)
    → let built : Option (ℕ × Collectors × TlvWriter) = elim s [ fail ↦ none | ok ↦ some x ] in
      built ≡ some out → x ≡ out
some_frame ok x out h = cc
some_frame fail x out h = absurd (cc h)

build_frame-IsCollecting :
    (writer : TlvWriter) (buffer label : List ℕ) (c : Contexts) (timestamp seq : ℕ)
    (out : ℕ × Collectors × TlvWriter)
    → build_frame writer buffer label (allocated c) timestamp seq ≡ some out
    → IsBounded c
    → IsCollecting out.1
unfolding build_frame
build_frame-IsCollecting writer buffer label c timestamp seq out h v =
    let init = tlv_init writer (some buffer) 1400 timestamp seq in
    let w = put_label label init.1 in
    rw (← some_frame init.0 (push_all (allocated c) w) out h) (push_all-IsCollecting c w v)

-- What `send_frame` makes of the frame, and a round of the sample.
abbrev after : Round → Agent → Option (ℕ × Collectors × TlvWriter) → Next
after r b built = elim built [
  | none ↦ ended 0 (destroy_agent_state b)
  | some (errors, collectors, w) ↦
      wait r
        (emit r.is_sent (record b { collectors = collectors; writer = w; buffer = w.buffer }) w)
]

abbrev sampled : Round → Agent → Option (Collectors × ℕ × SampleContext) → Next
sampled r a collected = elim collected [
  | none ↦ no_fuel
  | some (collectors, g, sctx) ↦
      send_frame r (record a { collectors = collectors; g_last_diff_total = g })
]

-- The part of a round behind the collectors.
send_frame-Sampled :
    (r : Round) (a : Agent) (c : Contexts)
    → a.collectors ≡ allocated c
    → IsBounded c
    → IsUsable a.cfg
    → 1400 ≤ length a.buffer
    → Sampled r a (send_frame r a)
unfolding send_frame
send_frame-Sampled r a c same v cfg room =
    let (out, built, frame) =
      build_frame-Built a.writer a.buffer a.cfg.host_label c r.timestamp a.seq room cfg.label_size
        (IsBounded-IsReady c v) in
    let w = out.2 in
    let counted = record a { seq = (a.seq + 1) % 2 ^ 32 } in
    let started : build_frame a.writer a.buffer a.cfg.host_label a.collectors r.timestamp a.seq
        ≡ some out =
      ap (λ x. build_frame a.writer a.buffer a.cfg.host_label x r.timestamp a.seq) same ∙ built in
    record {
      collectors = out.1;
      g_last_diff_total = a.g_last_diff_total;
      w = w;
      same = ap (after r counted) started;
      collecting =
          build_frame-IsCollecting a.writer a.buffer a.cfg.host_label c r.timestamp a.seq out built
            v;
      buffer = omega (arith, frame.cap, frame.valid.cap_in);
      frame = record {
        timestamp = r.timestamp;
        entries = frame_entries a.cfg.host_label c;
        bytes = frame.frame;
        size = omega (arith, length-take w.len w.buffer, frame.cap, frame.valid.len_in);
      };
      len = length-take w.len w.buffer ∙ (omega (arith, frame.valid.len_in, frame.valid.cap_in));
    }

-- A sample that starts from the contexts of a round.
from_contexts :
    (r : Round) (a : Agent) (c : Contexts) (g : ℕ)
    → Sampled r
        (record a { collectors = allocated c; g_last_diff_total = g })
        (send_frame r (record a { collectors = allocated c; g_last_diff_total = g }))
    → Sampled r a (send_frame r (record a { collectors = allocated c; g_last_diff_total = g }))
from_contexts r a c g s = record {
  collectors = s.collectors;
  g_last_diff_total = s.g_last_diff_total;
  w = s.w;
  same = s.same;
  collecting = s.collecting;
  buffer = s.buffer;
  frame = s.frame;
  len = s.len;
}

module _ (double : Double) (qsort : Qsort) where
  -- A round that takes a sample never fails before it waits: the collectors end, the frame is built, and it carries the
  -- number of the round.
  pub sample_round-Sampled :
      (r : Round) (a : Agent)
      → IsQsort qsort
      → IsLive a
      → Sampled r a (sample_round double qsort r a)
  unfolding sample_round
  sample_round-Sampled r a q v =
      let c = v.collecting.contexts in
      let sctx : SampleContext = record { cpu_total_diff = 1 } in
      let h =
        collect_system-Collected double qsort r.system a.cfg.interval_sec c a.g_last_diff_total sctx
          q v.collecting.bounded in
      let b = record a { collectors = allocated h.next; g_last_diff_total = h.g_last_diff_total } in
      let collected : collect_system double qsort r.system a.cfg.interval_sec a.collectors
            a.g_last_diff_total sctx
          ≡ some (allocated h.next, h.g_last_diff_total, h.sctx) =
        ap (λ x. collect_system double qsort r.system a.cfg.interval_sec x a.g_last_diff_total sctx)
          v.collecting.same
        ∙ h.collected in
      let s =
        from_contexts r a h.next h.g_last_diff_total
          (send_frame-Sampled r b h.next refl h.bounded v.cfg v.buffer) in
      record {
        collectors = s.collectors;
        g_last_diff_total = s.g_last_diff_total;
        w = s.w;
        same = ap (sampled r a) collected ∙ s.same;
        collecting = s.collecting;
        buffer = s.buffer;
        frame = s.frame;
        len = s.len;
      }
