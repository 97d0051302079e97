-- ===== src/Net/Collect.antt =====
-- Which interfaces net.c reports, and the bounds of what it stores.
use trace_fox.Base.{
  ℕ, zero, suc, ◌+◌, ◌-◌, ◌≤◌, ◌<◌, min, ◌≡◌, refl, sym, inl, inr, Option, none, some, List, [],
  ◌∷◌, ◌++◌, map, append-nil, append_assoc, arith, ltb, if◌then◌else◌, ltb→lt, ltb_false→le,
  Bool-cases, Option-cases, ok, length, get_or, set, take, All, length-set, take_all, All-set,
  All-replicate, take-set,
}
use trace_fox.Base.CString.{c_str, strncpy, length-strncpy, str_eq}
use trace_fox.Base.Stdio.{codes, Value, num, text, scanf, lines_of}
use trace_fox.Base.Scan.{IsWord, IfSome, scanf_lem}
use trace_fox.Bytes.{IsU64}
use trace_fox.Net.{
  zero_ctx, zero_entry, NetEntry, NetCtx, NetLine, net_format, net_line_of, net_line, entry_of,
  net_loop, net_collect_lines, net_collect,
}

-- The counters fit their words, and the name's array ends with a NUL.
pub record IsStored (e : NetEntry) : Type 0 where
  pub name_size : length e.name ≡ 8
  pub ends : get_or e.name 7 1 ≡ 0
  pub rx : IsU64 e.rx_bytes
  pub tx : IsU64 e.tx_bytes

pub record IsBounded (ctx : NetCtx) : Type 0 where
  pub size : length ctx.entries ≡ 4
  pub count_in : ctx.count ≤ 4
  pub stored : All IsStored ctx.entries

IsLine : NetLine → Type 0
IsLine l = IsU64 l.rx_bytes × IsU64 l.tx_bytes

net_line_of-IsLine : (vs : List Value) → All IsWord vs → IfSome IsLine (net_line_of vs)
unfolding net_line_of IsLine
net_line_of-IsLine (text i ∷ num a ∷ num b ∷ []) (i_fits, (a_fits, (b_fits, end))) =
    (a_fits, b_fits)
net_line_of-IsLine _ h = tt

get-set : (xs : List ℕ) (i v d : ℕ) → i < length xs → get_or (set xs i v) i d ≡ v
get-set [] i v d h = absurd (omega arith)
get-set (x ∷ xs) zero v d h = refl
get-set (x ∷ xs) (suc i) v d h = get-set xs i v d (omega arith)

net_line-IsLine : (line : List ℕ) → IfSome IsLine (net_line line)
unfolding net_line
net_line-IsLine line =
    go (net_line_of (scanf net_format (c_str line)).0)
      (net_line_of-IsLine (scanf net_format (c_str line)).0 (scanf_lem net_format (c_str line)).0)
  where
    go :
        (m : Option NetLine)
        → IfSome IsLine m
        → IfSome IsLine
            (elim m [ none ↦ none | some l ↦ if str_eq l.iface (codes "lo") then none else some l ])
    go none h = tt
    go (some l) h = elim (Bool-cases (str_eq l.iface (codes "lo"))) [
      | inl e ↦ rw e tt
      | inr e ↦ rw e h
    ]

entry_of-IsStored : (l : NetLine) → IsLine l → IsStored (entry_of l)
unfolding entry_of IsLine
entry_of-IsStored l (rx, tx) =
    let copy = strncpy zero_entry.name l.iface 7 in
    let size : length copy ≡ 8 = length-strncpy zero_entry.name l.iface 7 (omega arith) in
    record {
      name_size = omega (arith, length-set copy 7 0);
      ends = get-set copy 7 0 1 (omega arith);
      rx = rx;
      tx = tx;
    }

-- The lines that match and are not the loopback interface, in order.
unfoldable pub interfaces : List (List ℕ) → List NetLine
interfaces [] = []
interfaces (line ∷ lines) = elim (net_line line) [
  | none ↦ interfaces lines
  | some l ↦ l ∷ interfaces lines
]

-- What the loop over the lines makes of the array.
record Looped (found : List NetLine) (entries : List NetEntry) (idx : ℕ)
    (out : List NetEntry × ℕ × List (List ℕ)) : Type 0 where
  pub size : length out.0 ≡ 4
  pub count : out.1 ≡ idx + min (4 - idx) (length found)
  pub front : take out.1 out.0 ≡ take idx entries ++ map entry_of (take (4 - idx) found)
  pub stored : All IsStored out.0

one_more :
    {out : List NetEntry × ℕ × List (List ℕ)} (found : List NetLine) (l : NetLine)
    (entries : List NetEntry) (idx : ℕ)
    → idx < 4
    → length entries ≡ 4
    → Looped found (set entries idx (entry_of l)) (idx + 1) out
    → Looped (l ∷ found) entries idx out
one_more found l entries idx room size h =
    let more : 4 - idx ≡ suc (4 - (idx + 1)) = omega arith in
    record {
      size = h.size;
      count = omega (arith, h.count);
      front =
          rw
            (
              more,
              ← append_assoc (take idx entries) (entry_of l ∷ [])
                  (map entry_of (take (4 - (idx + 1)) found)),
              ← take-set entries idx (entry_of l) (omega arith),
            )
            h.front;
      stored = h.stored;
    }

net_loop-Looped :
    (lines : List (List ℕ)) (entries : List NetEntry) (idx : ℕ)
    → length entries ≡ 4
    → idx ≤ 4
    → All IsStored entries
    → Looped (interfaces lines) entries idx (net_loop lines entries idx)
unfolding net_loop interfaces
net_loop-Looped [] entries idx size few stored = record {
  size = size;
  count = omega arith;
  front = rw take_none (sym (append-nil (take idx entries)));
  stored = stored;
}
  where
    take_none : take {A = NetLine} (4 - idx) [] ≡ []
    take_none = take_all (4 - idx) [] (omega arith)
net_loop-Looped (line ∷ lines) entries idx size few stored = elim (Bool-cases (ltb idx 4)) [
  | inr full ↦
      let none_left : 4 - idx ≡ 0 = omega (arith, ltb_false→le idx 4 full) in
      rw full (record {
        size = size;
        count = omega arith;
        front = rw none_left (sym (append-nil (take idx entries)));
        stored = stored;
      })
  | inl room ↦ elim (Option-cases (net_line line)) [
    | inl n ↦
        let ih = net_loop-Looped lines entries idx size few stored in rw (room, n, interfaces) ih
    | inr (l, n) ↦
        let fits : IsLine l = rw n at (net_line-IsLine line) in
        let e = entry_of l in
        let ih =
          net_loop-Looped lines (set entries idx e) (idx + 1)
            (omega (arith, length-set entries idx e)) (omega (arith, ltb→lt idx 4 room))
            (All-set IsStored entries idx e stored (entry_of-IsStored l fits)) in
        rw (room, n, interfaces)
          (one_more (interfaces lines) l entries idx (ltb→lt idx 4 room) size ih)
  ]
]

net_collect_lines-IsBounded :
    (ctx : NetCtx) (lines : List (List ℕ))
    → IsBounded ctx
    → IsBounded (net_collect_lines ctx lines).1
unfolding net_collect_lines
net_collect_lines-IsBounded ctx [] v = record {
  size = v.size;
  count_in = omega arith;
  stored = v.stored;
}
net_collect_lines-IsBounded ctx (title ∷ []) v = record {
  size = v.size;
  count_in = omega arith;
  stored = v.stored;
}
net_collect_lines-IsBounded ctx (title ∷ columns ∷ lines) v =
    let h = net_loop-Looped lines ctx.entries 0 v.size (omega arith) v.stored in
    record { size = h.size; count_in = omega (arith, h.count); stored = h.stored }

-- Whatever /proc/net/dev holds, and also if it cannot be opened or ends early, `net_collect` keeps four entries
-- in the array, at most four of them in use, each with a name that ends within its eight bytes and with
-- counters that fit their words.
pub net_collect-IsBounded :
    (ctx : NetCtx) (file : Option (List ℕ)) → IsBounded ctx → IsBounded (net_collect ctx file).1
unfolding net_collect
net_collect-IsBounded ctx none v = record {
  size = v.size;
  count_in = omega arith;
  stored = v.stored;
}
net_collect-IsBounded ctx (some file) v = net_collect_lines-IsBounded ctx (lines_of 512 file) v

-- From a file with the two header lines `net_collect` succeeds, and it stores the first four interfaces in order.
pub net_collect_front :
    (ctx : NetCtx) (file title columns : List ℕ) (lines : List (List ℕ))
    → IsBounded ctx
    → lines_of 512 file ≡ title ∷ columns ∷ lines
    → let (status, ctx') = net_collect ctx (some file) in
      (status ≡ ok) × (take ctx'.count ctx'.entries ≡ map entry_of (take 4 (interfaces lines)))
unfolding net_collect net_collect_lines
net_collect_front ctx file title columns lines v h =
    rw h (refl, (net_loop-Looped lines ctx.entries 0 v.size (omega arith) v.stored).front)

pub zero_ctx-IsBounded : IsBounded zero_ctx
zero_ctx-IsBounded = record {
  size = refl;
  count_in = omega arith;
  stored =
      All-replicate IsStored 4 zero_entry
        (record { name_size = refl; ends = refl; rx = omega arith; tx = omega arith });
}
