-- ===== src/Agent/Received/Entries.antt =====
-- How the parser turns each entry of a frame into an update of the result.
use trace_fox.Base.{
  ℕ, suc, ◌+◌, ◌-◌, ◌*◌, ◌≤◌, ◌<◌, ◌≡◌, refl, ◌∙◌, inl, inr, false, some, List, [], ◌∷◌, ◌++◌,
  arith, ltb, ◌==◌, le→leb, Bool-cases, length, get_or, take, All, length-take,
}
use trace_fox.Base.CString.{c_str}
use trace_fox.Protocol.{parsed, ◌>>=◌, Result}
use trace_fox.Protocol.Decode.{ascii, strip}
use trace_fox.Protocol.Frame.{handle_entry, add_group}
use trace_fox.Protocol.Entries.{Entry, apply_all, bind_ext, bind_assoc}
use trace_fox.Collector.Pushed.{sent-short}
use trace_fox.Net.{NetCtx, net_payload}
use trace_fox.Disk.{DiskCtx}
use trace_fox.Disk.Collect.{disk_payload}
use trace_fox.Fs.{FsCtx, fs_payload}
use trace_fox.Proc.{ProcCtx, ThreadGroupEntry, is_off}
use trace_fox.Proc.Push.{fit_top, capped, flags_of}
use trace_fox.Proc.Emit.{thread_entries, fit_top-stored}
use trace_fox.RoundTrip
use trace_fox.RoundTrip.Net.{net_roundtrip, length-net_entries_bytes}
use trace_fox.RoundTrip.Disk.{disk_roundtrip, length-disk_entries_bytes}
use trace_fox.RoundTrip.Fs.{fs_roundtrip, length-fs_entries_bytes}
use trace_fox.RoundTrip.Proc.{proc_roundtrip}
use trace_fox.RoundTrip.Threads.{thread_roundtrip}
use trace_fox.Agent.Frame.Parts.{counted, label_entries, proc_entries}
use trace_fox.Agent.Received.Expected.{
  with_label, with_net, with_disk, with_fs, with_threads, with_proc,
}

-- A list of entries that turns one result into another.
pub record Yields (es : List Entry) (r r' : Result) : Type 0 where
  pub yields : apply_all es r ≡ parsed r'

apply_all-append :
    (es fs : List Entry) (r : Result) → apply_all (es ++ fs) r ≡ (apply_all es r >>= apply_all fs)
unfolding apply_all
apply_all-append [] fs r = refl
apply_all-append ((t, v) ∷ es) fs r =
    bind_ext (handle_entry t v r) (λ r'. apply_all-append es fs r')
    ∙ bind_assoc (handle_entry t v r) (apply_all es) (apply_all fs)

pub Yields-append :
    {es fs : List Entry} {r r' r'' : Result}
    → Yields es r r'
    → Yields fs r' r''
    → Yields (es ++ fs) r r''
Yields-append {es} {fs} {r} p q = record {
  yields = apply_all-append es fs r ∙ rw p.yields q.yields;
}

Yields-nil : (r : Result) → Yields [] r r
unfolding apply_all
Yields-nil r = record { yields = refl }

pub Yields-one :
    {t : ℕ} {v : List ℕ} {r r' : Result}
    → handle_entry t v r ≡ parsed r'
    → Yields ((t, v) ∷ []) r r'
unfolding apply_all
Yields-one h = record { yields = rw h }

label_branch :
    (label : List ℕ) (r : Result)
    → (get_or label 0 0 == 0) ≡ false
    → handle_entry 3 (c_str label) r
      ≡ parsed (record r { host_label = some (strip (ascii (c_str label))) })
unfolding handle_entry c_str
label_branch [] r h = cc
label_branch (c ∷ s) r h = rw (h, le→leb 1 (suc (length (c_str s))) (omega arith))

net_payload-lt : (ctx : NetCtx) → RoundTrip.Net.IsValid ctx → length (net_payload ctx) < 256
unfolding net_payload
net_payload-lt ctx v = omega (
  arith,
  v.count_in,
  length-net_entries_bytes (take ctx.count ctx.entries),
  length-take ctx.count ctx.entries,
)

disk_payload-lt : (ctx : DiskCtx) → ctx.count ≤ 3 → length (disk_payload ctx) < 256
unfolding disk_payload
disk_payload-lt ctx few = omega (
  arith,
  length-disk_entries_bytes (take ctx.count ctx.entries),
  length-take ctx.count ctx.entries,
)

fs_payload-lt : (ctx : FsCtx) → ctx.count ≤ 9 → length (fs_payload ctx) < 256
unfolding fs_payload
fs_payload-lt ctx few =
    omega (
      arith,
      length-fs_entries_bytes (take ctx.count ctx.entries),
      length-take ctx.count ctx.entries,
    )

pub label-Yields :
    (label : List ℕ) (r : Result) → Yields (label_entries label) r (with_label label r)
label-Yields label r = elim (Bool-cases (get_or label 0 0 == 0)) [
  | inl e ↦ rw e (Yields-nil r)
  | inr e ↦ rw e (Yields-one (label_branch label r e))
]

pub net-Yields :
    (ctx : NetCtx) (r : Result)
    → RoundTrip.Net.IsValid ctx
    → Yields (counted ctx.count 4 (net_payload ctx)) r (with_net ctx r)
net-Yields ctx r v = elim (Bool-cases (ctx.count == 0)) [
  | inl e ↦ rw e (Yields-nil r)
  | inr e ↦
      rw (e, sent-short (net_payload ctx) (net_payload-lt ctx v))
        (Yields-one (net_roundtrip ctx r v))
]

pub disk-Yields :
    (ctx : DiskCtx) (r : Result)
    → ctx.count ≤ 3
    → ctx.count ≤ length ctx.entries
    → All RoundTrip.Disk.IsEntry (take ctx.count ctx.entries)
    → Yields (counted ctx.count 5 (disk_payload ctx)) r (with_disk ctx r)
disk-Yields ctx r few stored valid = elim (Bool-cases (ctx.count == 0)) [
  | inl e ↦ rw e (Yields-nil r)
  | inr e ↦
      rw (e, sent-short (disk_payload ctx) (disk_payload-lt ctx few))
        (Yields-one (
          disk_roundtrip ctx r (record {
            count_in = omega arith;
            some_disk = ground arith;
            stored = stored;
            entries = valid;
          })))
]

pub fs-Yields :
    (ctx : FsCtx) (r : Result)
    → ctx.count ≤ 9
    → ctx.count ≤ length ctx.entries
    → All RoundTrip.Fs.IsEntry (take ctx.count ctx.entries)
    → Yields (counted ctx.count 6 (fs_payload ctx)) r (with_fs ctx r)
fs-Yields ctx r few stored valid = elim (Bool-cases (ctx.count == 0)) [
  | inl e ↦ rw e (Yields-nil r)
  | inr e ↦
      rw (e, sent-short (fs_payload ctx) (fs_payload-lt ctx few))
        (Yields-one (
          fs_roundtrip ctx r (record {
            count_in = omega arith;
            some_mount = ground arith;
            stored = stored;
            entries = valid;
          })))
]

threads-Yields :
    (gs : List ThreadGroupEntry) (remaining : ℕ) (r : Result)
    → All RoundTrip.Threads.IsGroup gs
    → Yields (thread_entries gs remaining) r (with_threads gs remaining r)
unfolding thread_entries with_threads
threads-Yields [] remaining r v = Yields-nil r
threads-Yields (g ∷ gs) remaining r (v, vs) =
    let emit = fit_top (capped (length g.top)) remaining in
    let flags = flags_of g emit in
    let r' : Result = record r {
      thread_groups = add_group r.thread_groups (RoundTrip.Threads.group_of g flags emit);
    } in
    elim (Bool-cases (ltb remaining 36)) [
      | inl e ↦ rw e (Yields-nil r)
      | inr e ↦ rw e (
          Yields-append
            (Yields-one (thread_roundtrip g flags emit r v (fit_top-stored g remaining)))
            (threads-Yields gs (remaining - (36 + 28 * emit)) r' vs))
    ]

pub proc-Yields :
    (ctx : ProcCtx) (remaining : ℕ) (r : Result)
    → length ctx.last_payload ≤ 8
    → All RoundTrip.Proc.IsGroup ctx.last_payload
    → All RoundTrip.Threads.IsGroup ctx.last_thread_payload
    → Yields (proc_entries ctx remaining) r (with_proc ctx remaining r)
proc-Yields ctx remaining r few groups threads = elim (Bool-cases ctx.disabled) [
  | inl e ↦ rw e (Yields-nil r)
  | inr e ↦ elim (Bool-cases (is_off ctx.thread_mode)) [
    | inl none_sent ↦ rw (e, none_sent) (Yields-one (proc_roundtrip ctx.last_payload r few groups))
    | inr some_sent ↦
        rw (e, some_sent)
          (Yields-append (Yields-one (proc_roundtrip ctx.last_payload r few groups))
            (threads-Yields ctx.last_thread_payload _ _ threads))
  ]
]
