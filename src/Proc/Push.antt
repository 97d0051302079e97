-- ===== src/Proc/Push.antt =====
-- agent/src/proc.c: `thread_push` and `proc_push`.
use trace_fox.Base.{
  ℕ, zero, suc, ◌+◌, ◌-◌, ◌*◌, Bool, true, ◌||◌, Option, none, some, List, [], ◌∷◌, ◌++◌, ltb,
  if◌then◌else◌, Status, ok, fail, length, take,
}
use Prim.Native.Nat.{bit_or}
use trace_fox.Bytes.{byte, buf_put_be_u16, buf_put_be_u32}
use trace_fox.Tlv.{TlvWriter, tlv_put}
use trace_fox.Collector.{put_payload}
use trace_fox.Proc.{
  is_off, ProcGroupEntry, ThreadTopEntry, ThreadGroupEntry, ProcCtx, tf_max_thread_top_n,
  tf_max_proc_groups,
}

abbrev pub tf_type_proc : ℕ
tf_type_proc = 0x07

abbrev pub tf_type_thread : ℕ
tf_type_thread = 0x08

abbrev pub flag_truncated : ℕ
flag_truncated = 0x02

unfoldable pub top_entry_bytes : ThreadTopEntry → List ℕ
unfolding buf_put_be_u16 buf_put_be_u32
top_entry_bytes e =
    let c1 = buf_put_be_u16 e.name e.inst_count in
    let c2 = buf_put_be_u16 c1 e.cpu_pct_x10 in buf_put_be_u32 (buf_put_be_u32 c2 e.pid) e.tid

unfoldable pub top_entries_bytes : List ThreadTopEntry → List ℕ
top_entries_bytes [] = []
top_entries_bytes (e ∷ es) = top_entry_bytes e ++ top_entries_bytes es

unfoldable pub state_bytes : List ℕ → List ℕ
unfolding buf_put_be_u16
state_bytes [] = []
state_bytes (c ∷ cs) = buf_put_be_u16 [] c ++ state_bytes cs

-- The payload of a group with its first `emit` threads.
unfoldable pub thread_payload : ThreadGroupEntry → ℕ → ℕ → List ℕ
unfolding buf_put_be_u16
thread_payload g flags emit =
    buf_put_be_u16 g.name g.total_threads
    ++ (flags ∷ (state_bytes g.state_counts ++ (emit ∷ top_entries_bytes (take emit g.top))))

-- The loop that lowers `emit_top_count` until the entry fits the rest of the frame.
unfoldable pub fit_top : ℕ → ℕ → ℕ
fit_top zero remaining = 0
fit_top (suc n) remaining =
    let less = fit_top n remaining in if ltb remaining (2 + 34 + suc n * 28) then less else suc n

-- `emit_top_count` before the loop.
abbrev pub capped : ℕ → ℕ
capped top_count = if ltb tf_max_thread_top_n top_count then tf_max_thread_top_n else top_count

-- `cap > len ? cap - len : 0`
abbrev pub remaining_of : TlvWriter → ℕ
remaining_of wrt = wrt.cap - wrt.len

-- The number of threads sent for a group, and the flags sent with them.
unfoldable pub emitted : ThreadGroupEntry → TlvWriter → ℕ
emitted g wrt = fit_top (capped (length g.top)) (remaining_of wrt)

unfoldable pub flags_of : ThreadGroupEntry → ℕ → ℕ
flags_of g emit =
    if ltb tf_max_thread_top_n (length g.top) || ltb emit (length g.top)
    then bit_or g.flags flag_truncated
    else g.flags

-- The loop over the groups: the status, whether a warning was given, and the writer. It stops early,
-- with success, once not even the head of a group fits.
unfoldable pub thread_push : List ThreadGroupEntry → Bool → TlvWriter → Status × Bool × TlvWriter
thread_push [] warned wrt = (ok, warned, wrt)
thread_push (g ∷ gs) warned wrt =
    let emit = emitted g wrt in
    let reduced : Bool = ltb tf_max_thread_top_n (length g.top) || ltb emit (length g.top) in
    let payload = thread_payload g (flags_of g emit) emit in
    let put = tlv_put wrt tf_type_thread (some payload) (byte (length payload)) in
    let more = thread_push gs (reduced || warned) put.1 in
    if ltb (remaining_of wrt) (2 + 34)
    then (ok, true, wrt)
    else if ltb 255 (length payload)
    then (fail, reduced || warned, wrt)
    else (elim put.0 [ fail ↦ (fail, reduced || warned, put.1) | ok ↦ more ])

unfoldable pub group_bytes : ProcGroupEntry → List ℕ
unfolding buf_put_be_u16 buf_put_be_u32
group_bytes g =
    buf_put_be_u32 (buf_put_be_u16 (buf_put_be_u16 g.name g.inst_count) g.cpu_pct_x10) g.rss_kb_sum

unfoldable pub groups_bytes : List ProcGroupEntry → List ℕ
groups_bytes [] = []
groups_bytes (g ∷ gs) = group_bytes g ++ groups_bytes gs

unfoldable pub proc_payload : List ProcGroupEntry → List ℕ
proc_payload gs = byte (length gs) ∷ groups_bytes (take tf_max_proc_groups gs)

unfoldable pub proc_push : ProcCtx → TlvWriter → Status × ProcCtx × TlvWriter
proc_push ctx wrt =
    let put = put_payload wrt tf_type_proc (proc_payload ctx.last_payload) in
    let threads = thread_push ctx.last_thread_payload ctx.thread_frame_warned put.1 in
    if ctx.disabled then (ok, ctx, wrt) else elim put.0 [
      | fail ↦ (fail, ctx, put.1)
      | ok ↦
          if is_off ctx.thread_mode
          then (ok, ctx, put.1)
          else (threads.0, record ctx { thread_frame_warned = threads.1 }, threads.2)
    ]

unfoldable pub proc_push_api : Option ProcCtx → TlvWriter → Status × Option ProcCtx × TlvWriter
proc_push_api none wrt = (fail, none, wrt)
proc_push_api (some ctx) wrt =
    let (status, ctx', wrt') = proc_push ctx wrt in (status, some ctx', wrt')
