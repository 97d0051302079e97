-- ===== src/Net/Reported.antt =====
-- What net.c reports, in terms of the lines of /proc/net/dev.
use trace_fox.Base.{
  ℕ, zero, suc, ◌<◌, ◌≡◌, refl, sym, ap, ap₂, ◌∙◌, ◌≢◌, inl, inr, Option, none, some, List, [], ◌∷◌,
  ◌++◌, map, arith, ◌==◌, if◌then◌else◌, Bool-cases, Option-cases, ok, length, set, take, All,
  length-take, take_all, All-take,
}
use trace_fox.Base.CString.{c_str, bytes_eq, bytes_eq_refl, str_eq, strncpy, copied, c_str-copied}
use trace_fox.Base.Stdio.{codes, Value, num, text, scanf, lines_of}
use trace_fox.Net.{
  NetEntry, NetCtx, NetLine, net_format, net_line_of, net_line, entry_of, net_collect,
}
use trace_fox.Net.Collect.{IsBounded, interfaces, net_collect_front}

-- A name with its received and sent bytes.
abbrev pub Counters : Type 0
Counters = List ℕ × ℕ × ℕ

-- What a line says, if the format finds all three values: the text is the name, the first number what is received, the
-- second what is sent.
abbrev pub said : List Value → Option Counters
said (text name ∷ num received ∷ num sent ∷ []) = some (c_str name, received, sent)
said _ = none

abbrev pub loopback : List ℕ
loopback = codes "lo"

-- What the lines say of the interfaces besides the loopback interface, each name cut off at seven bytes.
unfoldable pub visible : List (List ℕ) → List Counters
unfolding bytes_eq
visible [] = []
visible (line ∷ lines) =
    let rest = visible lines in
    elim (said (scanf net_format (c_str line)).0) [
      | none ↦ rest
      | some (name, received, sent) ↦
          if bytes_eq name loopback then rest else (take 7 name, received, sent) ∷ rest
    ]

abbrev pub view : NetEntry → Counters
view e = (c_str e.name, e.rx_bytes, e.tx_bytes)

said-net_line_of :
    (vs : List Value)
    → said vs ≡ elim (net_line_of vs) [
      | none ↦ none
      | some l ↦ some (c_str l.iface, l.rx_bytes, l.tx_bytes)
    ]
unfolding net_line_of
said-net_line_of (text name ∷ num received ∷ num sent ∷ []) = refl
said-net_line_of _ = refl

set-end : (n : ℕ) (s : List ℕ) → set (copied n s ++ 0 ∷ []) n 0 ≡ copied n s ++ 0 ∷ []
unfolding copied
set-end zero s = refl
set-end (suc n) [] = ap (λ t. 0 ∷ t) (set-end n [])
set-end (suc n) (c ∷ s) = ap (λ t. c ∷ t) (set-end n (if c == 0 then [] else s))

view-entry_of : (l : NetLine) → view (entry_of l) ≡ (take 7 (c_str l.iface), l.rx_bytes, l.tx_bytes)
unfolding entry_of strncpy
view-entry_of l =
    ap (λ t. (t, l.rx_bytes, l.tx_bytes)) (ap c_str (set-end 7 l.iface) ∙ c_str-copied 7 l.iface [])

visible-interfaces :
    (lines : List (List ℕ)) → map (λ l. view (entry_of l)) (interfaces lines) ≡ visible lines
unfolding visible interfaces net_line str_eq
visible-interfaces [] = refl
visible-interfaces (line ∷ lines) =
    let vs = (scanf net_format (c_str line)).0 in
    let same = said-net_line_of vs in
    let rest = visible-interfaces lines in
    elim (Option-cases (net_line_of vs)) [
      | inl e ↦
          let nothing : said vs ≡ none = rw e at same in rw (e, nothing, interfaces, visible) rest
      | inr (l, e) ↦
          let something : said vs ≡ some (c_str l.iface, l.rx_bytes, l.tx_bytes) = rw e at same in
          elim (Bool-cases (bytes_eq (c_str l.iface) loopback)) [
            | inl f ↦ rw (e, something, f, interfaces, visible) rest
            | inr f ↦
                rw (e, something, f, interfaces, visible)
                  (ap₂ (λ x t. x ∷ t) (view-entry_of l) rest)
          ]
    ]

map-take {ℓ κ} :
    {A : Type ℓ} {B : Type κ} (f : A → B) (n : ℕ) (xs : List A)
    → map f (take n xs) ≡ take n (map f xs)
map-take f zero xs = refl
map-take f (suc n) [] = refl
map-take f (suc n) (x ∷ xs) = ap (λ t. f x ∷ t) (map-take f n xs)

map-map {ℓ κ μ} :
    {A : Type ℓ} {B : Type κ} {C : Type μ} (f : A → B) (g : B → C) (xs : List A)
    → map g (map f xs) ≡ map (λ x. g (f x)) xs
map-map f g [] = refl
map-map f g (x ∷ xs) = ap (λ t. g (f x) ∷ t) (map-map f g xs)

abbrev pub NotLoopback : Counters → Type 0
NotLoopback c = c.0 ≢ loopback

short_take : (n : ℕ) (s t : List ℕ) → take n s ≡ t → length t < n → s ≡ t
short_take n s t h lt =
    sym (take_all n s (omega (arith, length-take n s, ap (length {A = ℕ}) h))) ∙ h

visible-NotLoopback : (lines : List (List ℕ)) → All NotLoopback (visible lines)
unfolding visible
visible-NotLoopback [] = tt
visible-NotLoopback (line ∷ lines) =
    let rest = visible-NotLoopback lines in
    elim (Option-cases (said (scanf net_format (c_str line)).0)) [
      | inl e ↦ rw (e, visible) rest
      | inr ((name, received, sent), e) ↦ elim (Bool-cases (bytes_eq name loopback)) [
        | inl f ↦ rw (e, f, visible) rest
        | inr f ↦
            rw (e, f, visible)
              (
                λ h.
                    let same : name ≡ loopback = short_take 7 name loopback h (omega arith) in
                    absurd (cc (ap (λ n. bytes_eq n loopback) same, bytes_eq_refl loopback, f)),
                rest,
              )
      ]
    ]

-- From a file with the two header lines `net_collect` succeeds, and what it reports is what the first four lines say
-- that the format matches and that are not of the loopback interface, in the order of the file: the name cut off
-- at seven bytes, the first number as received and the second as sent. No reported name is "lo".
pub net_collect-interfaces :
    (ctx : NetCtx) (file title columns : List ℕ) (lines : List (List ℕ))
    → IsBounded ctx
    → lines_of 512 file ≡ title ∷ columns ∷ lines
    → let (status, ctx') = net_collect ctx (some file) in
      let reported = map view (take ctx'.count ctx'.entries) in
      (status ≡ ok) × (reported ≡ take 4 (visible lines)) × All NotLoopback reported
net_collect-interfaces ctx file title columns lines v h =
    let (succeeds, front) = net_collect_front ctx file title columns lines v h in
    let ls = interfaces lines in
    let same =
      ap (map view) front
      ∙ map-map entry_of view (take 4 ls)
      ∙ map-take (λ l. view (entry_of l)) 4 ls
      ∙ ap (take 4) (visible-interfaces lines) in
    (succeeds, same, rw same (All-take NotLoopback 4 (visible lines) (visible-NotLoopback lines)))
