-- ===== src/Agent/Frame/Parts.antt =====
-- The entries of a frame, and which of them each push function appends.
use trace_fox.Base.{
  ℕ, ◌+◌, ◌-◌, ◌≤◌, ◌<◌, min, ◌≡◌, refl, ◌⊎◌, inl, inr, some, List, [], ◌∷◌, ◌++◌, append-nil,
  arith, ◌==◌, if◌then◌else◌, Bool-cases, ok, fail, length, get_or, take, All, length-append,
}
use trace_fox.Base.CString.{c_str, length-c_str, take-c_str}
use trace_fox.Tlv.{TlvWriter, tlv_put}
use trace_fox.Tlv.Put.{IsValid, Appended, tlv_put_lem}
use trace_fox.Protocol.Entries.{Entry, encode}
use trace_fox.Collector.{put_payload}
use trace_fox.Collector.Pushed.{
  Pushed, Pushed-nil, Pushed-trans, put_payload-Pushed, sent, sent-short, length-sent,
}
use trace_fox.Cpu.{CpuCtx, cpu_payload_bytes, cpu_push, cpu_push_api}
use trace_fox.Mem.{MemCtx, mem_payload_bytes, mem_push, mem_push_api}
use trace_fox.Net.{NetCtx, net_payload, net_push, net_push_api}
use trace_fox.Disk.{DiskCtx}
use trace_fox.Disk.Collect.{disk_payload, disk_push, disk_push_api}
use trace_fox.Fs.{FsCtx, fs_payload, fs_push, fs_push_api}
use trace_fox.Proc.{ProcCtx, is_off}
use trace_fox.Proc.Push.{proc_payload, proc_push, remaining_of}
use trace_fox.Proc.Emit.{thread_entries, thread_push-Pushed}
use trace_fox.RoundTrip
use trace_fox.RoundTrip.Proc.{length-proc_payload}
use trace_fox.Agent.{Collectors, put_label}

pub record Contexts : Type 0 where
  pub cpu : CpuCtx
  pub mem : MemCtx
  pub net : NetCtx
  pub disk : DiskCtx
  pub fs : FsCtx
  pub proc : ProcCtx

abbrev pub allocated : Contexts → Collectors
allocated c = record {
  cpu = some c.cpu;
  mem = some c.mem;
  net = some c.net;
  disk = some c.disk;
  fs = some c.fs;
  proc = some c.proc;
}

-- The entry of a collector that has nothing to send while its count is 0.
abbrev pub counted : ℕ → ℕ → List ℕ → List Entry
counted count type payload = if count == 0 then [] else (type, sent payload) ∷ []

abbrev pub label_entries : List ℕ → List Entry
label_entries label = if get_or label 0 0 == 0 then [] else (3, c_str label) ∷ []

abbrev pub system_entries : Contexts → List Entry
system_entries c =
    (1, cpu_payload_bytes c.cpu.last_payload)
    ∷ (2, mem_payload_bytes c.mem)
    ∷ (counted c.net.count 4 (net_payload c.net)
        ++ (counted c.disk.count 5 (disk_payload c.disk) ++ counted c.fs.count 6 (fs_payload c.fs)))

-- How much of the frame a list of at most one entry takes.
sent-lt : (payload : List ℕ) → length (sent payload) < 256
sent-lt payload = omega (arith, length-sent payload)

pub counted-len :
    (count type : ℕ) (payload : List ℕ) → length (encode (counted count type payload)) ≤ 257
counted-len count type payload = elim (Bool-cases (count == 0)) [
  | inl e ↦ rw e (omega arith)
  | inr e ↦ rw e (omega (arith, sent-lt payload, length-append (sent payload) []))
]

-- A counted push.
counted-Pushed :
    (count type : ℕ) (payload : List ℕ) (w : TlvWriter)
    → IsValid w
    → w.len + 257 ≤ w.cap
    → let out = (if count == 0 then (ok, w) else put_payload w type payload) in
      (out.0 ≡ ok) × Pushed w (counted count type payload) out.1
counted-Pushed count type payload w v room = elim (Bool-cases (count == 0)) [
  | inl none_left ↦ rw none_left (refl, Pushed-nil w v)
  | inr some_left ↦ rw some_left (put_payload-Pushed w type payload v (omega arith))
]

label_entry :
    (label : List ℕ) (w : TlvWriter)
    → IsValid w
    → length label ≡ 64
    → w.len + 66 ≤ w.cap
    → Pushed w ((3, c_str label) ∷ []) (tlv_put w 3 (some label) (length (c_str label))).1
label_entry label w v size room = go (
    tlv_put_lem w 3 (length (c_str label)) label v (omega (arith, length-c_str label))
      (length-c_str label))
  where
    go :
        ((w.cap < w.len + 2 + length (c_str label))
            × ((tlv_put w 3 (some label) (length (c_str label))).0 ≡ fail)
            × ((tlv_put w 3 (some label) (length (c_str label))).1 ≡ w))
          ⊎ ((w.len + 2 + length (c_str label) ≤ w.cap)
              × ((tlv_put w 3 (some label) (length (c_str label))).0 ≡ ok)
              × Appended w
                  (3 ∷ length (c_str label) ∷ take (length (c_str label)) label)
                  (tlv_put w 3 (some label) (length (c_str label))).1
              × IsValid (tlv_put w 3 (some label) (length (c_str label))).1)
        → Pushed w ((3, c_str label) ∷ []) (tlv_put w 3 (some label) (length (c_str label))).1
    go (inl (full, status, same)) = absurd (omega (arith, length-c_str label))
    go (inr (fits, status, appended, valid)) = record {
      appended = rw append-nil (rw (take-c_str label) at appended);
      valid = valid;
    }

-- The label's array has 64 bytes, so that its length fits a byte.
pub put_label-Pushed :
    (label : List ℕ) (w : TlvWriter)
    → IsValid w
    → length label ≡ 64
    → w.len + 66 ≤ w.cap
    → Pushed w (label_entries label) (put_label label w)
unfolding put_label
put_label-Pushed label w v size room =
    let short : length (c_str label) ≤ 64 = omega (arith, length-c_str label) in
    let len : min 255 (min 64 (length (c_str label))) ≡ length (c_str label) = omega arith in
    elim (Bool-cases (get_or label 0 0 == 0)) [
      | inl e ↦ rw e (Pushed-nil w v)
      | inr e ↦ rw (e, len) (label_entry label w v size room)
    ]

pub label_entries-len :
    (label : List ℕ) → length label ≡ 64 → length (encode (label_entries label)) ≤ 66
label_entries-len label size = elim (Bool-cases (get_or label 0 0 == 0)) [
  | inl e ↦ rw e (omega arith)
  | inr e ↦ rw e (omega (arith, length-c_str label, length-append (c_str label) []))
]

-- The entries of the process collector in a frame with `remaining` bytes left.
abbrev pub proc_entries : ProcCtx → ℕ → List Entry
proc_entries ctx remaining =
    let payload = proc_payload ctx.last_payload in
    let threads = thread_entries ctx.last_thread_payload (remaining - (2 + length payload)) in
    if ctx.disabled then [] else (7, payload) ∷ (if is_off ctx.thread_mode then [] else threads)

pub proc_push-Pushed :
    (ctx : ProcCtx) (w : TlvWriter)
    → IsValid w
    → length ctx.last_payload ≤ 8
    → All RoundTrip.Proc.IsGroup ctx.last_payload
    → All RoundTrip.Threads.IsGroup ctx.last_thread_payload
    → w.len + 257 ≤ w.cap
    → ((proc_push ctx w).0 ≡ ok) × Pushed w (proc_entries ctx (remaining_of w)) (proc_push ctx w).2
unfolding proc_push
proc_push-Pushed ctx w v few groups threads room =
    let payload = proc_payload ctx.last_payload in
    let size = length-proc_payload ctx.last_payload few groups in
    let (status, cut) = put_payload-Pushed w 7 payload v (omega arith) in
    let pushed : Pushed w ((7, payload) ∷ []) (put_payload w 7 payload).1 =
      rw (sent-short payload (omega arith)) at cut in
    let left : remaining_of (put_payload w 7 payload).1 ≡ remaining_of w - (2 + length payload) =
      omega (arith, pushed.appended.grown, pushed.appended.same_cap, length-append payload []) in
    let (status', rest) =
      thread_push-Pushed ctx.last_thread_payload ctx.thread_frame_warned (put_payload w 7 payload).1
        pushed.valid threads in
    elim (Bool-cases ctx.disabled) [
      | inl e ↦ rw e (refl, Pushed-nil w v)
      | inr e ↦ elim (Bool-cases (is_off ctx.thread_mode)) [
        | inl none_sent ↦ rw (e, status, none_sent) (refl, pushed)
        | inr some_sent ↦ rw (e, status, some_sent, ← left) (status', Pushed-trans pushed rest)
      ]
    ]

-- What every sample leaves in the contexts: payloads within the bounds of their arrays.
pub record IsReady (c : Contexts) : Type 0 where
  pub proc_count : length c.proc.last_payload ≤ 8
  pub groups : All RoundTrip.Proc.IsGroup c.proc.last_payload
  pub threads : All RoundTrip.Threads.IsGroup c.proc.last_thread_payload

-- All entries of a frame; those of the threads depend on the room that the others leave.
abbrev pub front_entries : List ℕ → Contexts → List Entry
front_entries label c = label_entries label ++ system_entries c

abbrev pub frame_entries : List ℕ → Contexts → List Entry
frame_entries label c =
    front_entries label c
    ++ proc_entries c.proc (1400 - (12 + length (encode (front_entries label c))))

pub record AllPushed (w : TlvWriter) (es : List Entry) (out : ℕ × Collectors × TlvWriter)
    : Type 0 where
  pub no_errors : out.0 ≡ 0
  pub pushed : Pushed w es out.2

-- The pushes of the single collectors.
module _ (w : TlvWriter) (v : IsValid w) (room : w.len + 257 ≤ w.cap) where
  pub cpu_push_api-Pushed :
      (ctx : CpuCtx)
      → ((cpu_push_api (some ctx) w).0 ≡ ok)
        × Pushed w ((1, cpu_payload_bytes ctx.last_payload) ∷ []) (cpu_push_api (some ctx) w).1
  unfolding cpu_push_api cpu_push cpu_payload_bytes
  cpu_push_api-Pushed ctx =
      put_payload-Pushed w 1 (cpu_payload_bytes ctx.last_payload) v (omega arith)

  pub mem_push_api-Pushed :
      (ctx : MemCtx)
      → ((mem_push_api (some ctx) w).0 ≡ ok)
        × Pushed w ((2, mem_payload_bytes ctx) ∷ []) (mem_push_api (some ctx) w).1
  unfolding mem_push_api mem_push mem_payload_bytes
  mem_push_api-Pushed ctx = put_payload-Pushed w 2 (mem_payload_bytes ctx) v (omega arith)

  pub net_push_api-Pushed :
      (ctx : NetCtx)
      → ((net_push_api (some ctx) w).0 ≡ ok)
        × Pushed w (counted ctx.count 4 (net_payload ctx)) (net_push_api (some ctx) w).1
  unfolding net_push_api net_push
  net_push_api-Pushed ctx = counted-Pushed ctx.count 4 (net_payload ctx) w v room

  pub disk_push_api-Pushed :
      (ctx : DiskCtx)
      → ((disk_push_api (some ctx) w).0 ≡ ok)
        × Pushed w (counted ctx.count 5 (disk_payload ctx)) (disk_push_api (some ctx) w).1
  unfolding disk_push_api disk_push
  disk_push_api-Pushed ctx = counted-Pushed ctx.count 5 (disk_payload ctx) w v room

  pub fs_push_api-Pushed :
      (ctx : FsCtx)
      → ((fs_push_api (some ctx) w).0 ≡ ok)
        × Pushed w (counted ctx.count 6 (fs_payload ctx)) (fs_push_api (some ctx) w).1
  unfolding fs_push_api fs_push
  fs_push_api-Pushed ctx = counted-Pushed ctx.count 6 (fs_payload ctx) w v room
