-- ===== src/Agent/Run/Ends/Held.antt =====
-- What the program holds from round to round, and what a set-up, a release and a sample make of it.
use trace_fox.Base.{
  ℕ, ◌≤◌, ◌≡◌, refl, sym, ◌⊎◌, inl, inr, Bool, true, false, not, Option, none, some, List, [], ◌∷◌,
  ◌++◌, arith, ◌==◌, if◌then◌else◌, Bool-cases, Status, ok, fail, length,
}
use trace_fox.Cpu.{cpu_destroy}
use trace_fox.Net.{net_destroy}
use trace_fox.Disk.{Timespec, disk_destroy}
use trace_fox.Fs.{fs_destroy}
use trace_fox.Mem.{mem_destroy}
use trace_fox.Tlv.{TlvWriter}
use trace_fox.Tlv.Put.{contents}
use trace_fox.Proc.Collect.{proc_destroy}
use trace_fox.Agent.{Collectors}
use trace_fox.Agent.Clock.{wait_for_next_sample}
use trace_fox.Agent.Options.{Getopt, OptState, read_options}
use trace_fox.Agent.Resolve.{Destination, resolve_addr}
use trace_fox.Agent.Setup.{
  open_to, Setup, Agent, init_all, open_log, open_sock, open_output, init_rest, init_agent_state,
  destroy_all, destroy_agent_state,
}
use trace_fox.Agent.Run.{
  Round, Next, running, ended, asleep, no_fuel, file_record, emit, wait, resume, reload,
}
use trace_fox.Agent.Run.Started.{init_agent_state-SetUp, destroy-Released}
use trace_fox.Agent.Run.Sampled.{IsLive, Sampled, framed}

-- Of the output file and the socket, the one that the mode names is open, and the other is closed.
pub record IsOpen (a : Agent) : Type 0 where
  pub log_file : a.log_file ≡ a.globals.file_mode
  pub sock : a.sock ≡ not a.globals.file_mode

abbrev pub no_collectors : Collectors
no_collectors = record { cpu = none; mem = none; net = none; disk = none; fs = none; proc = none }

-- Nothing is open, and no context is allocated.
pub record IsClosed (a : Agent) : Type 0 where
  pub log_file : a.log_file ≡ false
  pub sock : a.sock ≡ false
  pub collectors : a.collectors ≡ no_collectors

destroy_all-none : (c : Collectors) → destroy_all c ≡ no_collectors
unfolding destroy_all cpu_destroy mem_destroy net_destroy disk_destroy fs_destroy proc_destroy
destroy_all-none c = refl

pub destroy-IsClosed : (a : Agent) → IsOpen a → IsClosed (destroy_agent_state a)
unfolding destroy_agent_state
destroy-IsClosed a v = record {
  log_file = ground (arith, v.log_file, v.sock);
  sock = ground (arith, v.log_file, v.sock);
  collectors = destroy_all-none a.collectors;
}

open_log-IsOpen :
    (b : Bool) (a : Agent)
    → a.globals.file_mode ≡ true
    → a.sock ≡ false
    → ((open_log b a).0 ≡ fail) ⊎ IsOpen (open_log b a).1
unfolding open_log
open_log-IsOpen false a h k = inl refl
open_log-IsOpen true a h k = inr (record { log_file = sym h; sock = rw (h, k) refl })

open_to-IsOpen :
    (b : Bool) (a : Agent) (d : Option Destination)
    → a.globals.file_mode ≡ false
    → a.log_file ≡ false
    → ((open_to b a d).0 ≡ fail) ⊎ IsOpen (open_to b a d).1
unfolding open_to
open_to-IsOpen b a none h k = inl refl
open_to-IsOpen false a (some d) h k = inl refl
open_to-IsOpen true a (some d) h k = inr (record { log_file = rw (h, k) refl; sock = rw h refl })

open_sock-IsOpen :
    (e : Setup) (a : Agent)
    → a.globals.file_mode ≡ false
    → a.log_file ≡ false
    → ((open_sock e a).0 ≡ fail) ⊎ IsOpen (open_sock e a).1
unfolding open_sock
open_sock-IsOpen e a h k =
    open_to-IsOpen e.has_socket a (resolve_addr e.getaddrinfo a.cfg.server_host a.cfg.server_port) h
      k

open_output-IsOpen :
    (e : Setup) (a : Agent) (p : Status × Collectors)
    → a.log_file ≡ false
    → a.sock ≡ false
    → ((open_output e a p).0 ≡ fail) ⊎ IsOpen (open_output e a p).1
unfolding open_output
open_output-IsOpen e a (fail, c) l k = inl refl
open_output-IsOpen e a (ok, c) l k =
    let b : Agent = record a { collectors = c } in
    elim (Bool-cases a.globals.file_mode) [
      | inl h ↦ simp h (open_log-IsOpen e.is_opened b h k)
      | inr h ↦ simp h (open_sock-IsOpen e b h l)
    ]

init_agent_state-IsOpen :
    (getopt : Getopt) (e : Setup) (a : Agent)
    → a.log_file ≡ false
    → a.sock ≡ false
    → ((init_agent_state getopt e a).0 ≡ fail) ⊎ IsOpen (init_agent_state getopt e a).1
unfolding init_agent_state init_rest
init_agent_state-IsOpen getopt e a l k = go (read_options getopt e.files a.argv a.globals)
  where
    go :
        (m : Option OptState)
        → let out : Status × Agent = elim m [
          | none ↦ (fail, a)
          | some s ↦ init_rest e (record a { argv = s.argv; cfg = s.cfg; globals = s.globals })
        ] in
          (out.0 ≡ fail) ⊎ IsOpen out.1
    go none = inl refl
    go (some s) =
        let b : Agent = record a { argv = s.argv; cfg = s.cfg; globals = s.globals } in
        open_output-IsOpen e b (init_all e b.cfg b.collectors) l k

-- A round starts from this.
pub record IsHeld (a : Agent) : Type 0 where
  pub live : IsLive a
  pub output : IsOpen a

-- The program that runs, or sleeps, holds its output; one that has ended with 0 holds nothing more.
abbrev pub Ends : Next → Type 0
Ends (running a) = IsHeld a
Ends (asleep a) = IsHeld a
Ends (ended code a) = ((code ≡ 0) × IsClosed a) ⊎ (code ≡ 1)
Ends no_fuel = ⊥

pub later_IsHeld : (a : Agent) (t : Timespec) → IsHeld a → IsHeld (record a { next_sample = t })
later_IsHeld a t v = record {
  live = record { collecting = v.live.collecting; cfg = v.live.cfg; buffer = v.live.buffer };
  output = record { log_file = v.output.log_file; sock = v.output.sock };
}

pub stop-Ends : (a : Agent) → IsOpen a → Ends (ended 0 (destroy_agent_state a))
stop-Ends a v = inl (refl, destroy-IsClosed a v)

wait-Ends : (r : Round) (a : Agent) → IsHeld a → Ends (wait r a)
unfolding wait
wait-Ends r a v = go (wait_for_next_sample a.next_sample a.cfg.interval_sec r.clock r.sleeps).0
  where
    b : Agent
    b = record a {
      next_sample = (wait_for_next_sample a.next_sample a.cfg.interval_sec r.clock r.sleeps).1;
    }

    held : IsHeld b
    held = later_IsHeld a b.next_sample v

    coded : (code : Bool) → Ends (if code then running b else ended 0 (destroy_agent_state b))
    coded true = held
    coded false = stop-Ends b held.output

    go :
        (rc : Option ℕ)
        → Ends (elim rc [
          | none ↦ asleep b
          | some code ↦ if code == 0 then running b else ended 0 (destroy_agent_state b)
        ])
    go none = held
    go (some code) = coded (code == 0)

emit-IsHeld : (is_sent : Bool) (a : Agent) (w : TlvWriter) → IsHeld a → IsHeld (emit is_sent a w)
unfolding emit
emit-IsHeld is_sent a w v = go a.globals.file_mode is_sent
  where
    frame : List ℕ
    frame = contents w

    live :
        {b : Agent} → b.collectors ≡ a.collectors → b.cfg ≡ a.cfg → b.buffer ≡ a.buffer → IsLive b
    live h k e = record {
      collecting = rw h v.live.collecting;
      cfg = rw k v.live.cfg;
      buffer = rw e v.live.buffer;
    }

    go :
        (m is_sent : Bool)
        → IsHeld (
            if m
            then record a { log = a.log ++ file_record w.len frame }
            else if is_sent
            then record a { sent = a.sent ++ frame ∷ [] }
            else a)
    go true is_sent = record {
      live = live refl refl refl;
      output = record { log_file = v.output.log_file; sock = v.output.sock };
    }
    go false true = record {
      live = live refl refl refl;
      output = record { log_file = v.output.log_file; sock = v.output.sock };
    }
    go false false = v

pub after_sample : (r : Round) (a : Agent) (next : Next) → IsHeld a → Sampled r a next → Ends next
after_sample r a next v s =
    let b = framed a s.collectors s.g_last_diff_total s.w in
    let held : IsHeld b = record {
      live = record { collecting = s.collecting; cfg = v.live.cfg; buffer = s.buffer };
      output = record { log_file = v.output.log_file; sock = v.output.sock };
    } in
    rw s.same (wait-Ends r (emit r.is_sent b s.w) (emit-IsHeld r.is_sent b s.w held))

-- A set-up from a state that holds nothing.
pub started_IsHeld :
    (getopt : Getopt) (e : Setup) (a : Agent)
    → a.log_file ≡ false
    → a.sock ≡ false
    → 1400 ≤ length a.buffer
    → let out = init_agent_state getopt e a in (out.0 ≡ fail) ⊎ IsHeld out.1
started_IsHeld getopt e a l k room = elim (init_agent_state-SetUp getopt e a) [
  | inl f ↦ inl f
  | inr u ↦ elim (init_agent_state-IsOpen getopt e a l k) [
    | inl f ↦ inl f
    | inr o ↦ inr (record {
      live = record { collecting = u.collecting; cfg = u.cfg; buffer = rw u.buffer room };
      output = o;
    })
  ]
]

resume-Ends :
    (clock : Option Timespec) (out : Status × Agent)
    → ((out.0 ≡ fail) ⊎ IsHeld out.1)
    → Ends (resume clock out)
unfolding resume
resume-Ends clock (fail, b) h = inr refl
resume-Ends none (ok, b) (inl f) = absurd (cc f)
resume-Ends none (ok, b) (inr v) = stop-Ends b v.output
resume-Ends (some now) (ok, b) (inl f) = absurd (cc f)
resume-Ends (some now) (ok, b) (inr v) = later_IsHeld b now v

pub reload-Ends : (getopt : Getopt) (r : Round) (a : Agent) → IsHeld a → Ends (reload getopt r a)
unfolding reload
reload-Ends getopt r a v =
    let b = destroy_agent_state a in
    let closed = destroy-IsClosed a v.output in
    resume-Ends r.setup.clock (init_agent_state getopt r.setup b) (
      started_IsHeld getopt r.setup b closed.log_file closed.sock
        (rw (destroy-Released a).buffer v.live.buffer))
