-- ===== src/Agent/Frame.antt =====
-- The frame that one round of the main loop builds.
pub mod Parts
use trace_fox.Base.{
  ℕ, ◌+◌, ◌-◌, ◌≤◌, ◌≡◌, refl, ap, ◌∙◌, inl, inr, some, List, [], ◌++◌, append_assoc, arith, length,
  length-append, length-take,
}
use trace_fox.Tlv.{TlvWriter, tlv_init}
use trace_fox.Tlv.Put.{IsValid, contents, header, tlv_init_lem}
use trace_fox.Protocol.Entries.{Entry, encode, encode-append}
use trace_fox.Collector.Pushed.{Pushed, Pushed-trans}
use trace_fox.Cpu.{CpuCtx, cpu_payload_bytes, cpu_push_api}
use trace_fox.Mem.{MemCtx, mem_payload_bytes, mem_push_api}
use trace_fox.Net.{net_payload, net_push_api}
use trace_fox.Disk.Collect.{disk_payload, disk_push_api}
use trace_fox.Fs.{fs_payload, fs_push_api}
use trace_fox.Proc.Push.{proc_push_api, remaining_of}
use trace_fox.RoundTrip
use trace_fox.Agent.{Collectors, put_label, push_all, build_frame}
use trace_fox.Agent.Frame.Parts.{
  cpu_push_api-Pushed, mem_push_api-Pushed, net_push_api-Pushed, disk_push_api-Pushed,
  fs_push_api-Pushed, Contexts, allocated, label_entries, system_entries, counted-len,
  put_label-Pushed, label_entries-len, proc_entries, proc_push-Pushed, IsReady, frame_entries,
  AllPushed,
}

-- The contexts after a successful start.
length-cpu_payload_bytes : (c : CpuCtx) → length (cpu_payload_bytes c.last_payload) ≡ 10
unfolding cpu_payload_bytes
length-cpu_payload_bytes c = refl

length-mem_payload_bytes : (c : MemCtx) → length (mem_payload_bytes c) ≡ 18
unfolding mem_payload_bytes
length-mem_payload_bytes c = refl

-- The room that the entries in front of the processes leave.
entries_room :
    {w w' : TlvWriter} {es : List Entry} (k m : ℕ)
    → Pushed w es w'
    → length (encode es) ≤ k
    → w.len + k + m ≤ w.cap
    → w'.len + m ≤ w'.cap
entries_room k m p few room = omega (arith, p.appended.grown, p.appended.same_cap)

push_all-Pushed :
    (c : Contexts) (w : TlvWriter)
    → IsValid w
    → IsReady c
    → w.len + 1060 ≤ w.cap
    → AllPushed w
        (system_entries c
          ++ proc_entries c.proc (remaining_of w - length (encode (system_entries c))))
        (push_all (allocated c) w)
unfolding push_all proc_push_api
push_all-Pushed c w v ready room =
    let cpu = length-cpu_payload_bytes c.cpu in
    let mem = length-mem_payload_bytes c.mem in
    let net = counted-len c.net.count 4 (net_payload c.net) in
    let disk = counted-len c.disk.count 5 (disk_payload c.disk) in
    let fs = counted-len c.fs.count 6 (fs_payload c.fs) in
    let w1 = (cpu_push_api (some c.cpu) w).1 in
    let w2 = (mem_push_api (some c.mem) w1).1 in
    let w3 = (net_push_api (some c.net) w2).1 in
    let w4 = (disk_push_api (some c.disk) w3).1 in
    let w5 = (fs_push_api (some c.fs) w4).1 in
    let (s1, p1) = cpu_push_api-Pushed w v (omega arith) c.cpu in
    let r1 =
      entries_room 12 1048 p1
        (omega (arith, cpu, length-append (cpu_payload_bytes c.cpu.last_payload) []))
        (omega arith) in
    let (s2, p2) = mem_push_api-Pushed w1 p1.valid (omega arith) c.mem in
    let r2 =
      entries_room 20 1028 p2 (omega (arith, mem, length-append (mem_payload_bytes c.mem) []))
        (omega arith) in
    let (s3, p3) = net_push_api-Pushed w2 p2.valid (omega arith) c.net in
    let r3 = entries_room 257 771 p3 net (omega arith) in
    let (s4, p4) = disk_push_api-Pushed w3 p3.valid (omega arith) c.disk in
    let r4 = entries_room 257 514 p4 disk (omega arith) in
    let (s5, p5) = fs_push_api-Pushed w4 p4.valid (omega arith) c.fs in
    let r5 = entries_room 257 257 p5 fs (omega arith) in
    let front : Pushed w (system_entries c) w5 =
      Pushed-trans p1 (Pushed-trans p2 (Pushed-trans p3 (Pushed-trans p4 p5))) in
    let left : remaining_of w5 ≡ remaining_of w - length (encode (system_entries c)) =
      omega (arith, front.appended.grown, front.appended.same_cap) in
    let (s6, p6) =
      proc_push-Pushed c.proc w5 p5.valid ready.proc_count ready.groups ready.threads r5 in
    rw (← left) (record { no_errors = rw (s1, s2, s3, s4, s5, s6); pushed = Pushed-trans front p6 })

-- A frame in the agent's buffer: no push has failed, the bytes are the header and the entries, and the
-- frame is within its capacity of 1400 bytes.
pub record Built (label : List ℕ) (c : Contexts) (timestamp seq : ℕ)
    (out : ℕ × Collectors × TlvWriter) : Type 0 where
  pub no_errors : out.0 ≡ 0
  pub frame : contents out.2 ≡ header timestamp seq ++ encode (frame_entries label c)
  pub valid : IsValid out.2
  pub cap : out.2.cap ≡ 1400

label_and_all :
    (w0 : TlvWriter) (label : List ℕ) (c : Contexts) (timestamp seq : ℕ)
    → length label ≡ 64
    → IsReady c
    → IsValid w0
    → contents w0 ≡ header timestamp seq
    → w0.cap ≡ 1400
    → Built label c timestamp seq (push_all (allocated c) (put_label label w0))
label_and_all w0 label c timestamp seq size ready v head cap =
    let twelve : w0.len ≡ 12 =
      omega (arith, ap (length {A = ℕ}) head, length-take w0.len w0.buffer) in
    let p = put_label-Pushed label w0 v size (omega arith) in
    let few = label_entries-len label size in
    let all =
      push_all-Pushed c (put_label label w0) p.valid ready
        (entries_room 66 1060 p few (omega arith)) in
    let front = label_entries label in
    let left : remaining_of (put_label label w0) - length (encode (system_entries c))
        ≡ 1400 - (12 + length (encode (front ++ system_entries c))) =
      omega (
        arith,
        p.appended.grown,
        p.appended.same_cap,
        ap (length {A = ℕ}) (encode-append front (system_entries c)),
        length-append (encode front) (encode (system_entries c)),
      ) in
    let whole = Pushed-trans p all.pushed in
    record {
      no_errors = all.no_errors;
      frame =
          whole.appended.bytes
          ∙ rw
              (
                head,
                left,
                append_assoc front (system_entries c) (
                    proc_entries c.proc
                      (1400 - (12 + length (encode (front ++ system_entries c))))),
              )
              refl;
      valid = whole.valid;
      cap = whole.appended.same_cap ∙ cap;
    }

-- In the agent's buffer a frame is always built, without any push error, whatever the sample holds: it
-- is the header and the entries in the order of the collectors, within 1400 bytes.
pub build_frame-Built :
    (writer : TlvWriter) (buffer label : List ℕ) (c : Contexts) (timestamp seq : ℕ)
    → 1400 ≤ length buffer
    → length label ≡ 64
    → IsReady c
    → (out : ℕ × Collectors × TlvWriter) × (build_frame writer buffer label
          (allocated c)
          timestamp
          seq
        ≡ some out)
      × Built label c timestamp seq out
unfolding build_frame
build_frame-Built writer buffer label c timestamp seq size label_size ready =
    elim (tlv_init_lem writer buffer 1400 timestamp seq (omega arith) (omega arith)) [
      | inl (small, status, same) ↦ absurd (omega arith)
      | inr (fits, status, valid, head, capacity) ↦ (
        push_all (allocated c)
            (put_label label (tlv_init writer (some buffer) 1400 timestamp seq).1),
        rw (status, build_frame),
        label_and_all (tlv_init writer (some buffer) 1400 timestamp seq).1 label c timestamp seq
            label_size ready valid head capacity,
      )
    ]
