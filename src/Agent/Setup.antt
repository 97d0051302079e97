-- ===== src/Agent/Setup.antt =====
-- agent/src/main.c: the state of the agent, and its set-up and release (`init_agent_state`, `destroy_agent_state`), with the
-- file and the socket that frames go to.
use trace_fox.Base.{
  ℕ, Bool, true, false, ◌&&◌, Option, none, some, List, [], ◌∷◌, ◌++◌, ◌==◌, if◌then◌else◌, Status,
  ok, fail, length,
}
use trace_fox.Base.Stdio.{codes}
use trace_fox.Config.{AgentConfig}
use trace_fox.Disk.{Timespec}
use trace_fox.Cpu.{cpu_init, cpu_destroy}
use trace_fox.Mem.{mem_init, mem_destroy}
use trace_fox.Net.{net_init, net_destroy}
use trace_fox.Disk.{disk_init, disk_destroy}
use trace_fox.Fs.{fs_init, fs_destroy}
use trace_fox.Proc.Collect.{proc_init, proc_destroy}
use trace_fox.Tlv.{TlvWriter}
use trace_fox.Agent.{Collectors}
use trace_fox.Agent.Resolve.{Getaddrinfo, Destination, resolve_addr}
use trace_fox.Agent.Options.{Getopt, ConfigFiles, Globals, read_options}

-- What a set-up meets: the files, whether each allocation, the opening of the output file and the
-- socket succeed, what `getaddrinfo` finds, and the clock after it.
pub record Setup : Type 0 where
  pub files : ConfigFiles
  pub cpu_allocated : Bool
  pub mem_allocated : Bool
  pub net_allocated : Bool
  pub disk_allocated : Bool
  pub fs_allocated : Bool
  pub proc_allocated : Bool
  pub is_opened : Bool
  pub getaddrinfo : Getaddrinfo
  pub has_socket : Bool
  pub clock : Option Timespec

-- The locals of `main` and the statics of the agent. `log` is the content of the output file, which only the agent
-- writes, `sent` what the socket has taken; `log_file` and `sock` say whether the file and the socket are open, `dest` is
-- where datagrams go, and `g_last_diff_total` is the static of the CPU collector.
pub record Agent : Type 0 where
  pub argv : List (List ℕ)
  pub cfg : AgentConfig
  pub globals : Globals
  pub collectors : Collectors
  pub g_last_diff_total : ℕ
  pub log_file : Bool
  pub log : List ℕ
  pub sock : Bool
  pub dest : Destination
  pub sent : List (List ℕ)
  pub seq : ℕ
  pub writer : TlvWriter
  pub buffer : List ℕ
  pub next_sample : Timespec

abbrev pub file_header : List ℕ
file_header = codes "TFOX" ++ 0x01 ∷ 0 ∷ 0 ∷ 0 ∷ []

-- The next collector is set up only if those in front of it succeed.
abbrev pub and_then : Status × Collectors → (Collectors → Status × Collectors) → Status × Collectors
and_then (ok, c) f = f c
and_then (fail, c) f = (fail, c)

-- The loop over `init`.
unfoldable pub init_all : Setup → AgentConfig → Collectors → Status × Collectors
init_all e cfg c0 =
    and_then
      (and_then
        (and_then
          (and_then
            (and_then (let (s, x) = cpu_init e.cpu_allocated c0.cpu in (s, record c0 { cpu = x }))
              (λ c. let (s, x) = mem_init e.mem_allocated c.mem in (s, record c { mem = x })))
            (λ c. let (s, x) = net_init e.net_allocated c.net in (s, record c { net = x })))
          (λ c. let (s, x) = disk_init e.disk_allocated c.disk in (s, record c { disk = x })))
        (λ c. let (s, x) = fs_init e.fs_allocated c.fs in (s, record c { fs = x })))
      (λ c. let (s, x) = proc_init e.proc_allocated cfg c.proc in (s, record c { proc = x }))

-- The loop over `destroy`.
unfoldable pub destroy_all : Collectors → Collectors
destroy_all c = record {
  cpu = cpu_destroy c.cpu;
  mem = mem_destroy c.mem;
  net = net_destroy c.net;
  disk = disk_destroy c.disk;
  fs = fs_destroy c.fs;
  proc = proc_destroy c.proc;
}

-- The output file is opened for appending, and an empty one gets the header of the format.
unfoldable pub open_log : Bool → Agent → Status × Agent
open_log is_opened a =
    let headed = if length a.log == 0 then file_header else a.log in
    if is_opened then (ok, record a { log_file = true; log = headed }) else (fail, a)

-- The socket for a destination that is found.
unfoldable pub open_to : Bool → Agent → Option Destination → Status × Agent
open_to has_socket a none = (fail, a)
open_to false a (some d) = (fail, record a { dest = d })
open_to true a (some d) = (ok, record a { dest = d; sock = true })

unfoldable pub open_sock : Setup → Agent → Status × Agent
open_sock e a =
    open_to e.has_socket a (resolve_addr e.getaddrinfo a.cfg.server_host a.cfg.server_port)

-- After the collectors: the file or the socket.
unfoldable pub open_output : Setup → Agent → Status × Collectors → Status × Agent
open_output e a (fail, collectors) = (fail, record a { collectors = collectors })
open_output e a (ok, collectors) =
    let b = record a { collectors = collectors } in
    if a.globals.file_mode then open_log e.is_opened b else open_sock e b

unfoldable pub init_rest : Setup → Agent → Status × Agent
init_rest e a = open_output e a (init_all e a.cfg a.collectors)

-- A failure ends the process; the state that it leaves is then of no account.
unfoldable pub init_agent_state : Getopt → Setup → Agent → Status × Agent
init_agent_state getopt e a = elim (read_options getopt e.files a.argv a.globals) [
  | none ↦ (fail, a)
  | some s ↦ init_rest e (record a { argv = s.argv; cfg = s.cfg; globals = s.globals })
]

unfoldable pub destroy_agent_state : Agent → Agent
destroy_agent_state a =
    let closed =
      if a.globals.file_mode && a.log_file
      then record a { log_file = false }
      else if a.sock
      then record a { sock = false }
      else a in
    record closed { collectors = destroy_all a.collectors }
