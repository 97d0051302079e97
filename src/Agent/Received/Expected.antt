-- ===== src/Agent/Received/Expected.antt =====
-- The result that the server recovers from a frame.
use trace_fox.Base.{
  ℕ, ◌+◌, ◌-◌, ◌*◌, some, List, [], ◌∷◌, map, ltb, ◌==◌, if◌then◌else◌, length, get_or, take,
}
use trace_fox.Base.CString.{c_str}
use trace_fox.Protocol.{Result}
use trace_fox.Protocol.Decode.{ascii, strip}
use trace_fox.Protocol.Frame.{empty_result, add_group}
use trace_fox.Protocol.Entries.{encode}
use trace_fox.Net.{NetCtx}
use trace_fox.Disk.{DiskCtx}
use trace_fox.Fs.{FsCtx}
use trace_fox.Proc.{ProcCtx, ThreadGroupEntry, is_off}
use trace_fox.Proc.Push.{fit_top, capped, flags_of, proc_payload}
use trace_fox.RoundTrip
use trace_fox.Agent.Frame.Parts.{Contexts, front_entries}

-- The updates that the server makes for each collector, in the order of the frame.
abbrev pub with_label : List ℕ → Result → Result
with_label label r =
    if get_or label 0 0 == 0
    then r
    else record r { host_label = some (strip (ascii (c_str label))) }

abbrev pub with_system : Contexts → Result → Result
with_system c r = record r {
  cpu = some (RoundTrip.System.cpu_of c.cpu.last_payload);
  mem = some (RoundTrip.System.mem_of c.mem);
  load = some (RoundTrip.System.load_of c.mem);
}

abbrev pub with_net : NetCtx → Result → Result
with_net ctx r =
    if ctx.count == 0
    then r
    else record r { net = some (map RoundTrip.Net.iface_of (take ctx.count ctx.entries)) }

abbrev pub with_disk : DiskCtx → Result → Result
with_disk ctx r =
    if ctx.count == 0
    then r
    else record r { disk = some (map RoundTrip.Disk.disk_of (take ctx.count ctx.entries)) }

abbrev pub with_fs : FsCtx → Result → Result
with_fs ctx r =
    if ctx.count == 0
    then r
    else record r { fs = some (map RoundTrip.Fs.mount_of (take ctx.count ctx.entries)) }

-- The thread groups that fit `remaining` bytes, each with the threads that fit.
unfoldable pub with_threads : List ThreadGroupEntry → ℕ → Result → Result
with_threads [] remaining r = r
with_threads (g ∷ gs) remaining r =
    let emit = fit_top (capped (length g.top)) remaining in
    let group = RoundTrip.Threads.group_of g (flags_of g emit) emit in
    let rest =
      with_threads gs (remaining - (36 + 28 * emit))
        (record r { thread_groups = add_group r.thread_groups group }) in
    if ltb remaining 36 then r else rest

abbrev pub with_proc : ProcCtx → ℕ → Result → Result
with_proc ctx remaining r =
    let groups = record r { proc_groups = some (map RoundTrip.Proc.group_of ctx.last_payload) } in
    let left = remaining - (2 + length (proc_payload ctx.last_payload)) in
    if ctx.disabled
    then r
    else (if is_off ctx.thread_mode
        then groups
        else with_threads ctx.last_thread_payload left groups)

-- The result for a whole frame.
abbrev pub received : List ℕ → Contexts → ℕ → ℕ → Result
received label c timestamp seq =
    with_proc c.proc (1400 - (12 + length (encode (front_entries label c)))) (
      with_fs c.fs (
        with_disk c.disk (
          with_net c.net (with_system c (with_label label (empty_result 0x5446 2 timestamp seq))))))
