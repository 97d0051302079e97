-- ===== src/Agent/Received.antt =====
-- What the server recovers from a frame of the agent.
pub mod Expected
pub mod Entries
use trace_fox.Base.{ℕ, ◌≤◌, ◌≡◌, ◌∙◌, some, List, length, take, All}
use trace_fox.Bytes.{IsU32}
use trace_fox.Tlv.{TlvWriter}
use trace_fox.Tlv.Put.{contents}
use trace_fox.Protocol.{parsed, Result}
use trace_fox.Protocol.Frame.{parse_frame, caught, empty_result}
use trace_fox.Protocol.Entries.{Entry, apply_all, parse_frame-encode}
use trace_fox.RoundTrip
use trace_fox.RoundTrip.System.{cpu_roundtrip, mem_roundtrip}
use trace_fox.Agent.{Collectors, build_frame}
use trace_fox.Agent.Frame.{build_frame-Built}
use trace_fox.Agent.Frame.Parts.{Contexts, IsReady, allocated, system_entries, frame_entries}
use trace_fox.Agent.Received.Expected.{with_system, with_net, with_disk, with_fs, received}
use trace_fox.Agent.Received.Entries.{
  Yields, Yields-append, Yields-one, label-Yields, net-Yields, disk-Yields, fs-Yields, proc-Yields,
}

-- The bounds within which the payload lengths fit the byte that carries them, and every field its width.
pub record InBounds (c : Contexts) : Type 0 where
  pub ready : IsReady c
  pub cpu : RoundTrip.System.IsCpu c.cpu.last_payload
  pub mem : RoundTrip.System.IsMem c.mem
  pub net : RoundTrip.Net.IsValid c.net
  pub disk_count : c.disk.count ≤ 3
  pub disk_stored : c.disk.count ≤ length c.disk.entries
  pub disks : All RoundTrip.Disk.IsEntry (take c.disk.count c.disk.entries)
  pub fs_count : c.fs.count ≤ 9
  pub fs_stored : c.fs.count ≤ length c.fs.entries
  pub mounts : All RoundTrip.Fs.IsEntry (take c.fs.count c.fs.entries)

system-Yields :
    (c : Contexts) (r : Result)
    → InBounds c
    → Yields
        (system_entries c)
        r
        (with_fs c.fs (with_disk c.disk (with_net c.net (with_system c r))))
system-Yields c r v = Yields-append (Yields-one (cpu_roundtrip c.cpu.last_payload r v.cpu)) (
    Yields-append (Yields-one (mem_roundtrip c.mem _ v.mem)) (
      Yields-append (net-Yields c.net _ v.net) (
        Yields-append (disk-Yields c.disk _ v.disk_count v.disk_stored v.disks)
          (fs-Yields c.fs _ v.fs_count v.fs_stored v.mounts))))

frame-Yields :
    (label : List ℕ) (c : Contexts) (timestamp seq : ℕ)
    → InBounds c
    → Yields
        (frame_entries label c)
        (empty_result 0x5446 2 timestamp seq)
        (received label c timestamp seq)
frame-Yields label c timestamp seq v =
    Yields-append (Yields-append (label-Yields label _) (system-Yields c _ v))
      (proc-Yields c.proc _ _ v.ready.proc_count v.ready.groups v.ready.threads)

received_as :
    {es : List Entry} {r r' : Result} → Yields es r r' → caught (apply_all es r) ≡ parsed (some r')
unfolding caught
received_as y = rw y.yields

-- Within these bounds the agent builds the frame, and the server's parser recovers from its bytes the
-- time, the sequence number, the label and the view of every collector's sample, the thread groups cut to
-- what the frame has room for.
pub frame_received :
    (writer : TlvWriter) (buffer label : List ℕ) (c : Contexts) (timestamp seq : ℕ)
    → 1400 ≤ length buffer
    → length label ≡ 64
    → IsU32 timestamp
    → IsU32 seq
    → InBounds c
    → (out : ℕ × Collectors × TlvWriter) × (build_frame writer buffer label
          (allocated c)
          timestamp
          seq
        ≡ some out)
      × (parse_frame (contents out.2) ≡ parsed (some (received label c timestamp seq)))
frame_received writer buffer label c timestamp seq size label_size time number v =
    let (out, built, frame) =
      build_frame-Built writer buffer label c timestamp seq size label_size v.ready in
    (
      out,
      built,
      rw frame.frame (
          parse_frame-encode timestamp seq (frame_entries label c) time number
          ∙ received_as (frame-Yields label c timestamp seq v)),
    )
