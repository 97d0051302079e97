-- ===== src/Agent/Run/Progress.antt =====
-- The main loop without disturbance: every round sends one frame, and the loop goes on.
use trace_fox.Base.{
  ℕ, suc, ◌+◌, ◌%◌, ◌^◌, ◌≡◌, refl, sym, ap, ◌∙◌, Bool, true, false, Option, none, some, List, [],
  ◌∷◌, ◌++◌, append-nil, append_assoc, arith, ◌==◌, if◌then◌else◌, length, All, length-append,
}
use trace_fox.Bytes.{IsU32}
use trace_fox.Disk.{Timespec}
use trace_fox.Mem.{Double}
use trace_fox.Tlv.{TlvWriter}
use trace_fox.Tlv.Put.{contents}
use trace_fox.Proc.Group.{Qsort}
use trace_fox.Proc.Group.Top.{IsQsort}
use trace_fox.Agent.Clock.{sleep_rounds, wait_for_next_sample}
use trace_fox.Agent.Options.{Getopt}
use trace_fox.Agent.Setup.{Agent, destroy_agent_state}
use trace_fox.Agent.Run.{
  Round, Next, running, ended, asleep, no_fuel, file_record, emit, wait, round, rounds,
}
use trace_fox.Agent.Run.Capture.{records, records-append}
use trace_fox.Agent.Run.Sampled.{IsLive, Sampled, framed, sample_round-Sampled}
use trace_fox.Agent.Run.Numbered.{Numbered, Numbered-mod, Numbered-append}

-- A round without a signal, in which the system calls for the clock, the wait and the socket succeed.
pub record IsCalm (r : Round) : Type 0 where
  pub kept : r.keep_running ≡ true
  pub unchanged : r.reload_config_flag ≡ false
  pub errno : ℕ
  pub now : Timespec
  pub clock : r.clock ≡ (errno, some now)
  pub slept : sleep_rounds r.sleeps ≡ some 0
  pub taken : r.is_sent ≡ true

-- What has gone out: the bytes in the file, and the datagrams.
abbrev pub output : Agent → List ℕ × List (List ℕ)
output a = (a.log, a.sent)

-- The same with these frames more.
abbrev add_frames : Bool → List ℕ × List (List ℕ) → List (List ℕ) → List ℕ × List (List ℕ)
add_frames file_mode (log, sent) fs =
    if file_mode then (log ++ records fs, sent) else (log, sent ++ fs)

abbrev pub with_frames : Agent → List (List ℕ) → List ℕ × List (List ℕ)
with_frames a fs = add_frames a.globals.file_mode (output a) fs

-- The loop goes on, and has sent `count` frames more.
pub record Delivered (count : ℕ) (a : Agent) (next : Next) : Type 0 where
  pub after : Agent
  pub same : next ≡ running after
  pub live : IsLive after
  pub globals : after.globals ≡ a.globals
  pub seq : after.seq ≡ (a.seq + count) % 2 ^ 32
  pub frames : List (List ℕ)
  pub number : length frames ≡ count
  pub numbered : Numbered a.seq frames
  pub out : output after ≡ with_frames a frames

waited :
    (deadline : Timespec) (interval_sec : ℕ) (r : Round)
    → IsCalm r
    → (wait_for_next_sample deadline interval_sec r.clock r.sleeps).0 ≡ some 0
unfolding wait_for_next_sample
waited deadline interval_sec r v = rw v.clock v.slept

wait_calm :
    (r : Round) (a : Agent)
    → IsCalm r
    → wait r a
      ≡ running (record a {
        next_sample = (wait_for_next_sample a.next_sample a.cfg.interval_sec r.clock r.sleeps).1;
      })
unfolding wait
wait_calm r a v =
    let b = record a {
      next_sample = (wait_for_next_sample a.next_sample a.cfg.interval_sec r.clock r.sleeps).1;
    } in
    ap
      (λ (rc : Option ℕ). elim rc [
        | none ↦ asleep b
        | some code ↦ if code == 0 then running b else ended 0 (destroy_agent_state b)
      ])
      (waited a.next_sample a.cfg.interval_sec r v)

emit_calm :
    (a : Agent) (w : TlvWriter)
    → length (contents w) ≡ w.len
    → output (emit true a w) ≡ with_frames a (contents w ∷ [])
unfolding emit records
emit_calm a w h = rw (append-nil, h) (go a.globals.file_mode)
  where
    go :
        (m : Bool)
        → output (
            if m
            then record a { log = a.log ++ file_record w.len (contents w) }
            else record a { sent = a.sent ++ contents w ∷ [] })
          ≡ (if m
              then (a.log ++ file_record w.len (contents w), a.sent)
              else (a.log, a.sent ++ contents w ∷ []))
    go true = refl
    go false = refl

-- What sending a frame leaves as it is.
record Kept (a b : Agent) : Type 0 where
  globals : b.globals ≡ a.globals
  seq : b.seq ≡ a.seq
  live : IsLive a → IsLive b

emit-Kept : (a : Agent) (w : TlvWriter) → Kept a (emit true a w)
unfolding emit
emit-Kept a w = go a.globals.file_mode
  where
    go :
        (m : Bool)
        → Kept a (
            if m
            then record a { log = a.log ++ file_record w.len (contents w) }
            else record a { sent = a.sent ++ contents w ∷ [] })
    go true = record {
      globals = refl;
      seq = refl;
      live = λ v. record { collecting = v.collecting; cfg = v.cfg; buffer = v.buffer };
    }
    go false = record {
      globals = refl;
      seq = refl;
      live = λ v. record { collecting = v.collecting; cfg = v.cfg; buffer = v.buffer };
    }

one_frame :
    (r : Round) (a : Agent) (next : Next)
    → IsCalm r
    → IsU32 a.seq
    → IsLive a
    → Sampled r a next
    → Delivered 1 a next
one_frame r a next calm small v s =
    let b = framed a s.collectors s.g_last_diff_total s.w in
    let c = emit true b s.w in
    let kept = emit-Kept b s.w in
    let live = kept.live (record { collecting = s.collecting; cfg = v.cfg; buffer = s.buffer }) in
    let same_number : a.seq % 2 ^ 32 ≡ a.seq = omega arith in
    record {
      after = record c {
        next_sample = (wait_for_next_sample c.next_sample c.cfg.interval_sec r.clock r.sleeps).1;
      };
      same = s.same ∙ ap (λ x. wait r (emit x b s.w)) calm.taken ∙ wait_calm r c calm;
      live = record { collecting = live.collecting; cfg = live.cfg; buffer = live.buffer };
      globals = kept.globals;
      seq = kept.seq;
      frames = contents s.w ∷ [];
      number = refl;
      numbered = (rw same_number s.frame, tt);
      out = emit_calm b s.w s.len;
    }

add_frames-append :
    (m : Bool) (o : List ℕ × List (List ℕ)) (fs gs : List (List ℕ))
    → add_frames m (add_frames m o fs) gs ≡ add_frames m o (fs ++ gs)
add_frames-append true (log, sent) fs gs =
    rw (records-append fs gs) (ap (λ t. (t, sent)) (append_assoc log (records fs) (records gs)))
add_frames-append false (log, sent) fs gs = ap (λ t. (log, t)) (append_assoc sent fs gs)

add_frames-nil : (m : Bool) (o : List ℕ × List (List ℕ)) → add_frames m o [] ≡ o
unfolding records
add_frames-nil true (log, sent) = ap (λ t. (t, sent)) (append-nil log)
add_frames-nil false (log, sent) = ap (λ t. (log, t)) (append-nil sent)

join_rounds :
    (n : ℕ) (a : Agent) (next : Next) (d : Delivered 1 a next) (rest last : Next)
    → Delivered n d.after rest
    → last ≡ rest
    → Delivered (suc n) a last
join_rounds n a next d rest last k e = record {
  after = k.after;
  same = e ∙ k.same;
  live = k.live;
  globals = k.globals ∙ d.globals;
  seq = omega (arith, k.seq, d.seq);
  frames = d.frames ++ k.frames;
  number = length-append d.frames k.frames ∙ omega (arith, k.number, d.number);
  numbered =
      Numbered-append a.seq d.frames k.frames d.numbered
        (Numbered-mod d.after.seq _ k.frames (omega (arith, d.seq, d.number)) k.numbered);
  out =
      k.out
      ∙ ap (λ g. add_frames g.file_mode (output d.after) k.frames) d.globals
      ∙ ap (λ o. add_frames a.globals.file_mode o k.frames) d.out
      ∙ add_frames-append a.globals.file_mode (output a) d.frames k.frames;
}

module _ (double : Double) (qsort : Qsort) (getopt : Getopt) (q : IsQsort qsort) where
  round-Delivered :
      (r : Round) (a : Agent)
      → IsCalm r
      → IsU32 a.seq
      → IsLive a
      → Delivered 1 a (round double qsort getopt r a)
  unfolding round
  round-Delivered r a calm small v =
      simp (calm.kept, calm.unchanged)
        (one_frame r a _ calm small v (sample_round-Sampled double qsort r a q v))

  -- From contexts, a configuration and a buffer within their bounds, with a 32-bit number and a sorting function that does
  -- what the C library says of `qsort`: as long as no signal arrives and the clock, the wait and the socket do not fail,
  -- the loop goes on. After any such rounds the agent still runs, and has sent exactly one frame for each round, to the file or to the socket, with the
  -- numbers that follow in turn modulo 2 ^ 32.
  pub rounds-Delivered :
      (rs : List Round) (a : Agent)
      → All IsCalm rs
      → IsU32 a.seq
      → IsLive a
      → Delivered (length rs) a (rounds double qsort getopt rs a)
  unfolding rounds
  rounds-Delivered [] a calm small v = record {
    after = a;
    same = refl;
    live = v;
    globals = refl;
    seq = omega arith;
    frames = [];
    number = refl;
    numbered = tt;
    out = sym (add_frames-nil a.globals.file_mode (output a));
  }
  rounds-Delivered (r ∷ rs) a (calm, calms) small v =
      let d = round-Delivered r a calm small v in
      let k = rounds-Delivered rs d.after calms (omega (arith, d.seq)) d.live in
      join_rounds (length rs) a _ d _ _ k (
        ap
          (λ (n : Next). elim n [
            | running b ↦ rounds double qsort getopt rs b
            | ended code b ↦ ended code b
            | asleep b ↦ asleep b
            | no_fuel ↦ no_fuel
          ])
          d.same)
