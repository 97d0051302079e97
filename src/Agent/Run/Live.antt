-- ===== src/Agent/Run/Live.antt =====
-- The main loop in file mode: from any input, the output file holds exactly the frames of the rounds.
pub mod Logged
use trace_fox.Base.{
  ℕ, ◌+◌, ◌%◌, ◌^◌, ◌≤◌, ◌≡◌, ap, ◌⊎◌, inl, inr, Bool, true, false, not, Option, none, some, List,
  [], ◌∷◌, ◌++◌, arith, ◌==◌, if◌then◌else◌, Status, ok, fail, length, length-append,
}
use trace_fox.Disk.{Timespec}
use trace_fox.Mem.{Double}
use trace_fox.Tlv.{TlvWriter}
use trace_fox.Tlv.Put.{contents}
use trace_fox.Proc.Group.{Qsort}
use trace_fox.Proc.Group.Top.{IsQsort}
use trace_fox.Agent.Clock.{wait_for_next_sample}
use trace_fox.Agent.Options.{Getopt}
use trace_fox.Agent.Setup.{Agent, init_agent_state, destroy_agent_state}
use trace_fox.Agent.Run.{
  Round, Next, running, ended, asleep, no_fuel, file_record, emit, wait, resume, reload, round,
  rounds,
}
use trace_fox.Agent.Run.Started.{
  SetUp, init_agent_state-SetUp, init_agent_state-log, destroy-Released,
}
use trace_fox.Agent.Run.Sampled.{IsFrame, Sampled, framed, sample_round-Sampled}
use trace_fox.Agent.Run.Live.Logged.{IsLogged, Logging, Continues, add_record, log-kept, stopped}

-- The wait changes the time of the next sample only.
wait-Continues :
    (r : Round) (a : Agent) (old new : List (List ℕ)) → Logging old new a → Continues old (wait r a)
unfolding wait
wait-Continues r a old new v =
    go (wait_for_next_sample a.next_sample a.cfg.interval_sec r.clock r.sleeps).0
  where
    b : Agent
    b = record a {
      next_sample = (wait_for_next_sample a.next_sample a.cfg.interval_sec r.clock r.sleeps).1;
    }

    later_v : Logging old new b
    later_v = record {
      live = record { collecting = v.live.collecting; cfg = v.live.cfg; buffer = v.live.buffer };
      mode = v.mode;
      seq = v.seq;
      logged = v.logged;
    }

    coded :
        (code : Bool) → Continues old (if code then running b else ended 0 (destroy_agent_state b))
    coded true = (new, later_v)
    coded false = (new, stopped b old new v.logged)

    go :
        (rc : Option ℕ)
        → Continues old (elim rc [
          | none ↦ asleep b
          | some code ↦ if code == 0 then running b else ended 0 (destroy_agent_state b)
        ])
    go none = (new, later_v)
    go (some code) = coded (code == 0)

emit_file :
    (is_sent : Bool) (a : Agent) (w : TlvWriter)
    → a.globals.file_mode ≡ true
    → emit is_sent a w ≡ record a { log = a.log ++ file_record w.len (contents w) }
unfolding emit
emit_file is_sent a w h =
    ap
      (λ (b : Bool).
        let frame = contents w in
        if b
        then record a { log = a.log ++ file_record w.len frame }
        else if is_sent
        then record a { sent = a.sent ++ frame ∷ [] }
        else a)
      h

-- One sample: one record more.
one_record :
    (r : Round) (a : Agent) (old new : List (List ℕ)) (next : Next)
    → Logging old new a
    → Sampled r a next
    → Continues old next
one_record r a old new next v s =
    let f = contents s.w in
    let b = framed a s.collectors s.g_last_diff_total s.w in
    let frame : IsFrame (length new % 2 ^ 32) f = rw v.seq at s.frame in
    let longer : length (new ++ f ∷ []) ≡ length new + 1 = length-append new (f ∷ []) in
    let logging : Logging old (new ++ f ∷ [])
        (record b { log = a.log ++ file_record s.w.len (contents s.w) }) =
      record {
        live = record { collecting = s.collecting; cfg = v.live.cfg; buffer = s.buffer };
        mode = v.mode;
        seq = omega (arith, v.seq, longer);
        logged = rw s.len at (add_record old new a.log f v.logged frame);
      } in
    rw (s.same, emit_file r.is_sent b s.w v.mode) (wait-Continues r _ old (new ++ f ∷ []) logging)

-- A set-up from a state whose output file is kept.
pub after_init :
    (a b : Agent) (old new : List (List ℕ))
    → SetUp a b
    → a.globals.file_mode ≡ true
    → 1400 ≤ length a.buffer
    → a.seq ≡ length new % 2 ^ 32
    → IsLogged old new b.log
    → Logging old new b
after_init a b old new u mode buffer seq v = record {
  live = record { collecting = u.collecting; cfg = u.cfg; buffer = rw u.buffer buffer };
  mode = u.mode mode;
  seq = rw u.seq seq;
  logged = v;
}

resume-Continues :
    (clock : Option Timespec) (out : Status × Agent) (old new : List (List ℕ))
    → IsLogged old new out.1.log
    → ((out.0 ≡ fail) ⊎ Logging old new out.1)
    → Continues old (resume clock out)
unfolding resume
resume-Continues clock (fail, b) old new logged h = (new, logged)
resume-Continues none (ok, b) old new logged h = (new, stopped b old new logged)
resume-Continues (some now) (ok, b) old new logged (inl e) = absurd (cc e)
resume-Continues (some now) (ok, b) old new logged (inr v) = (
  new,
  record {
    live = record { collecting = v.live.collecting; cfg = v.live.cfg; buffer = v.live.buffer };
    mode = v.mode;
    seq = v.seq;
    logged = v.logged;
  },
)

reload-Continues :
    (getopt : Getopt) (r : Round) (a : Agent) (old new : List (List ℕ))
    → Logging old new a
    → Continues old (reload getopt r a)
unfolding reload
reload-Continues getopt r a old new v =
    let b = destroy_agent_state a in
    let out = init_agent_state getopt r.setup b in
    let k = destroy-Released a in
    let logged =
      log-kept b out.1 old new (stopped a old new v.logged)
        (init_agent_state-log getopt r.setup b) in
    resume-Continues r.setup.clock out old new logged
      (elim (init_agent_state-SetUp getopt r.setup b) [
        | inl e ↦ inl e
        | inr u ↦ inr (
            after_init b out.1 old new u (rw k.globals v.mode) (rw k.buffer v.live.buffer)
              (rw k.seq v.seq) logged)
      ])

module _ (double : Double) (qsort : Qsort) (getopt : Getopt) (q : IsQsort qsort) where
  if_Continues :
      (old : List (List ℕ)) (b : Bool) (x y : Next)
      → Continues old x
      → Continues old y
      → Continues old (if b then x else y)
  if_Continues old true x y h k = h
  if_Continues old false x y h k = k

  round-Continues :
      (r : Round) (a : Agent) (old new : List (List ℕ))
      → Logging old new a
      → Continues old (round double qsort getopt r a)
  unfolding round
  round-Continues r a old new v =
      if_Continues old (not r.keep_running) _ _ (new, stopped a old new v.logged)
        (if_Continues old r.reload_config_flag _ _ (reload-Continues getopt r a old new v)
          (one_record r a old new _ v (sample_round-Sampled double qsort r a q v.live)))

  pub rounds-Continues :
      (rs : List Round) (a : Agent) (old new : List (List ℕ))
      → Logging old new a
      → Continues old (rounds double qsort getopt rs a)
  unfolding rounds
  rounds-Continues [] a old new v = (new, v)
  rounds-Continues (r ∷ rs) a old new v =
      go (λ b new' w. rounds-Continues rs b old new' w) (round double qsort getopt r a)
        (round-Continues r a old new v)
    where
      go :
          ((b : Agent) (new' : List (List ℕ))
            → Logging old new' b
            → Continues old (rounds double qsort getopt rs b))
          → (n : Next) → Continues old n
          → Continues old (elim n [
            | running b ↦ rounds double qsort getopt rs b
            | ended code b ↦ ended code b
            | asleep b ↦ asleep b
            | no_fuel ↦ no_fuel
          ])
      go rest (running b) (new', w) = rest b new' w
      go rest (ended code b) h = h
      go rest (asleep b) h = h
      go rest no_fuel h = h
