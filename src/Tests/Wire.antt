-- ===== src/Tests/Wire.antt =====
-- The claims about frames and their entries at concrete inputs.
use trace_fox.Base.{
  ℕ, ◌+◌, ◌*◌, ◌≤◌, ◌<◌, ◌≡◌, refl, ◌⊎◌, false, none, some, List, [], ◌∷◌, ◌++◌, arith, ok, fail,
  length, length-replicate,
}
use trace_fox.Base.CString.{name_field}
use trace_fox.Base.Stdio.{codes}
use trace_fox.Tlv.{TlvWriter, tlv_put}
use trace_fox.Tlv.Put.{IsValid, Appended, contents, header, tlv_put_lem}
use trace_fox.Collector.Pushed.{Pushed}
use trace_fox.Cpu.{cpu_payload_bytes}
use trace_fox.Disk.Collect.{disk_payload}
use trace_fox.Fs.{fs_payload}
use trace_fox.Proc.Push.{proc_payload, thread_payload, emitted, thread_push}
use trace_fox.Proc.Emit.{emitted_lem, thread_entries, thread_push-Pushed}
use trace_fox.Protocol.{parsed, Result}
use trace_fox.Protocol.Frame.{handle_entry, parse_frame, caught, empty_result, add_group}
use trace_fox.Protocol.Entries.{encode, apply_all, parse_frame-encode}
use trace_fox.RoundTrip
use trace_fox.RoundTrip.Disk.{disk_roundtrip}
use trace_fox.RoundTrip.Fs.{fs_roundtrip}
use trace_fox.RoundTrip.Proc.{proc_roundtrip}
use trace_fox.RoundTrip.Threads.{thread_roundtrip}
use trace_fox.Agent.{Collectors, build_frame}
use trace_fox.Agent.Frame.{Built, build_frame-Built}
use trace_fox.Agent.Frame.Parts.{allocated}
use trace_fox.Agent.Received.{frame_received}
use trace_fox.Agent.Received.Expected.{received}
use trace_fox.Tests.{
  blank, fresh, fresh-IsValid, some_cpu, some_disk, sda, sda-IsEntry, some_fs, root_fs,
  root_fs-IsEntry, nginx, nginx-IsGroup, nginx_threads, nginx_threads-IsGroup, some_contexts,
  some_contexts-IsReady, some_contexts-InBounds,
}

abbrev empty : Result
empty = empty_result 0x5446 2 1700000000 7

abbrev some_label : List ℕ
some_label = name_field 64 (codes "web-1")

label_size : length some_label ≡ 64
unfolding name_field
label_size = refl

frame_received_example :
    (out : ℕ × Collectors × TlvWriter) × (build_frame fresh blank some_label
        (allocated some_contexts)
        1700000000
        7
      ≡ some out)
    × (parse_frame (contents out.2)
        ≡ parsed (some (received some_label some_contexts 1700000000 7)))
frame_received_example =
    frame_received fresh blank some_label some_contexts 1700000000 7
      (omega (arith, length-replicate {A = ℕ} 1400 0)) label_size (omega arith) (omega arith)
      some_contexts-InBounds

build_frame-Built_example :
    (out : ℕ × Collectors × TlvWriter) × (build_frame fresh blank some_label
        (allocated some_contexts)
        1700000000
        7
      ≡ some out)
    × Built some_label some_contexts 1700000000 7 out
build_frame-Built_example =
    build_frame-Built fresh blank some_label some_contexts 1700000000 7
      (omega (arith, length-replicate {A = ℕ} 1400 0)) label_size some_contexts-IsReady

parse_frame-encode_example :
    parse_frame (header 1700000000 7 ++ encode ((1, cpu_payload_bytes some_cpu) ∷ []))
    ≡ caught (apply_all ((1, cpu_payload_bytes some_cpu) ∷ []) empty)
parse_frame-encode_example =
    parse_frame-encode 1700000000 7 ((1, cpu_payload_bytes some_cpu) ∷ []) (omega arith)
      (omega arith)

some_disk-IsValid : RoundTrip.Disk.IsValid some_disk
some_disk-IsValid = record {
  count_in = omega arith;
  some_disk = omega arith;
  stored = omega arith;
  entries = (sda-IsEntry, tt);
}

disk_roundtrip_example :
    handle_entry 5 (disk_payload some_disk) empty
    ≡ parsed (record empty { disk = some (RoundTrip.Disk.disk_of sda ∷ []) })
disk_roundtrip_example = disk_roundtrip some_disk empty some_disk-IsValid

some_fs-IsValid : RoundTrip.Fs.IsValid some_fs
some_fs-IsValid = record {
  count_in = omega arith;
  some_mount = omega arith;
  stored = omega arith;
  entries = (root_fs-IsEntry, tt);
}

fs_roundtrip_example :
    handle_entry 6 (fs_payload some_fs) empty
    ≡ parsed (record empty { fs = some (RoundTrip.Fs.mount_of root_fs ∷ []) })
fs_roundtrip_example = fs_roundtrip some_fs empty some_fs-IsValid

proc_roundtrip_example :
    handle_entry 7 (proc_payload (nginx ∷ [])) empty
    ≡ parsed (record empty { proc_groups = some (RoundTrip.Proc.group_of nginx ∷ []) })
proc_roundtrip_example = proc_roundtrip (nginx ∷ []) empty (omega arith) (nginx-IsGroup, tt)

thread_roundtrip_example :
    handle_entry 8 (thread_payload nginx_threads 1 1) empty
    ≡ parsed (record empty {
      thread_groups = add_group none (RoundTrip.Threads.group_of nginx_threads 1 1);
    })
thread_roundtrip_example =
    thread_roundtrip nginx_threads 1 1 empty nginx_threads-IsGroup (omega arith)

emitted_lem_example :
    (emitted nginx_threads fresh ≤ 1)
    × (emitted nginx_threads fresh ≤ 7)
    × (36 + 28 * emitted nginx_threads fresh ≤ 1388)
    × ((emitted nginx_threads fresh ≡ 1) ⊎ (1388 < 36 + 28 * (emitted nginx_threads fresh + 1)))
emitted_lem_example = emitted_lem nginx_threads fresh (omega arith)

thread_push-Pushed_example :
    ((thread_push (nginx_threads ∷ []) false fresh).0 ≡ ok)
    × Pushed fresh
        (thread_entries (nginx_threads ∷ []) 1388)
        (thread_push (nginx_threads ∷ []) false fresh).2
thread_push-Pushed_example =
    thread_push-Pushed (nginx_threads ∷ []) false fresh fresh-IsValid (nginx_threads-IsGroup, tt)

tlv_put_lem_example :
    let (status, w') = tlv_put fresh 3 (some (codes "web-1")) 5 in
    ((1400 < 19) × (status ≡ fail) × (w' ≡ fresh))
    ⊎ ((19 ≤ 1400) × (status ≡ ok) × Appended fresh (3 ∷ 5 ∷ codes "web-1") w' × IsValid w')
tlv_put_lem_example =
    tlv_put_lem fresh 3 5 (codes "web-1") fresh-IsValid (omega arith) (omega arith)
