-- ===== src/Agent.antt =====
-- agent/src/main.c: one frame of the main loop. The collectors stand in the order of
-- agent/include/collector_list.def.
pub mod Frame
pub mod Received
pub mod Sample
pub mod Clock
pub mod Options
pub mod Resolve
pub mod Setup
pub mod Run
use trace_fox.Base.{
  ℕ, ◌+◌, min, Option, none, some, List, ◌==◌, if◌then◌else◌, Status, ok, fail, length, get_or,
}
use trace_fox.Base.CString.{c_str}
use trace_fox.Tlv.{TlvWriter, tlv_init, tlv_put}
use trace_fox.Cpu.{CpuCtx, cpu_push_api}
use trace_fox.Mem.{MemCtx, mem_push_api}
use trace_fox.Net.{NetCtx, net_push_api}
use trace_fox.Disk.{DiskCtx}
use trace_fox.Disk.Collect.{disk_push_api}
use trace_fox.Fs.{FsCtx, fs_push_api}
use trace_fox.Proc.{ProcCtx}
use trace_fox.Proc.Push.{proc_push_api}

abbrev pub tf_frame_buf_size : ℕ
tf_frame_buf_size = 1400

abbrev pub tf_host_label_size : ℕ
tf_host_label_size = 64

abbrev pub tf_type_host_label : ℕ
tf_type_host_label = 0x03

-- The contexts of `g_collectors`; NULL is `none`.
pub record Collectors : Type 0 where
  pub cpu : Option CpuCtx
  pub mem : Option MemCtx
  pub net : Option NetCtx
  pub disk : Option DiskCtx
  pub fs : Option FsCtx
  pub proc : Option ProcCtx

-- `if (err != 0) push_errors++`
abbrev pub count_error : Status → ℕ → ℕ
count_error ok n = n
count_error fail n = n + 1

-- `strnlen(s, n)`
abbrev pub strnlen : List ℕ → ℕ → ℕ
strnlen s n = min n (length (c_str s))

-- The host label is put if it is not empty; a failure is only logged.
unfoldable pub put_label : List ℕ → TlvWriter → TlvWriter
put_label label wrt =
    let len : ℕ = min 255 (strnlen label tf_host_label_size) in
    if get_or label 0 0 == 0 then wrt else (tlv_put wrt tf_type_host_label (some label) len).1

-- The loop over `push`: the number of errors, the collectors and the writer.
unfoldable pub push_all : Collectors → TlvWriter → ℕ × Collectors × TlvWriter
push_all c wrt =
    let p1 = cpu_push_api c.cpu wrt in
    let p2 = mem_push_api c.mem p1.1 in
    let p3 = net_push_api c.net p2.1 in
    let p4 = disk_push_api c.disk p3.1 in
    let p5 = fs_push_api c.fs p4.1 in
    let p6 = proc_push_api c.proc p5.1 in
    let errors = count_error p6.0 (
      count_error p5.0
        (count_error p4.0 (count_error p3.0 (count_error p2.0 (count_error p1.0 0))))) in
    (errors, record c { proc = p6.1 }, p6.2)

-- From `tlv_init` to the end of the push loop; `none` is that `tlv_init` fails, which ends `main`.
unfoldable pub build_frame :
    TlvWriter → List ℕ → List ℕ → Collectors → ℕ → ℕ → Option (ℕ × Collectors × TlvWriter)
build_frame writer buffer label c timestamp seq =
    let init = tlv_init writer (some buffer) tf_frame_buf_size timestamp seq in
    elim init.0 [ fail ↦ none | ok ↦ some (push_all c (put_label label init.1)) ]
