-- ===== src/Agent/Options/Reload.antt =====
-- What the option -P of agent/src/main.c leaves for the next reading of the command line, when SIGHUP reloads the
-- configuration.
use trace_fox.Base.{
  ℕ, ◌+◌, ◌-◌, ◌≤◌, ◌≡◌, refl, ◌≢◌, inl, inr, false, List, [], ◌∷◌, ◌++◌, arith, leb, ◌==◌,
  if◌then◌else◌, ne→==_false, Bool-cases, length, replicate, All, length-append, All-append,
  All-replicate, ==_false→ne,
}
use trace_fox.Base.CString.{c_str}
use trace_fox.Base.Stdio.{isspace, skip_space}
use trace_fox.Config.{
  AgentConfig, split_commas, add_prefixes, config_add_proc_prefix, trim_inplace, trim_end,
}
use trace_fox.Agent.Options.{spent_part, spent_parts, spent}

-- No byte is a comma.
abbrev IsPart : List ℕ → Type 0
IsPart = All (λ c. c ≢ b',')

split_commas-parts : (s : List ℕ) → All IsPart (split_commas s)
unfolding split_commas
split_commas-parts [] = (tt, tt)
split_commas-parts (c ∷ s) = elim (Bool-cases (c == b',')) [
  | inl e ↦ rw (e, split_commas) (tt, split_commas-parts s)
  | inr e ↦
      rw (e, split_commas) (joined (==_false→ne c b',' e) (split_commas s) (split_commas-parts s))
]
  where
    joined :
        c ≢ b','
        → (ps : List (List ℕ)) → All IsPart ps
        → All IsPart (elim ps [ [] ↦ (c ∷ []) ∷ [] | p ∷ qs ↦ (c ∷ p) ∷ qs ])
    joined ne [] h = ((ne, tt), tt)
    joined ne (p ∷ qs) (h, hs) = ((ne, h), hs)

split_part : (s : List ℕ) → IsPart s → split_commas s ≡ s ∷ []
unfolding split_commas
split_part [] h = refl
split_part (c ∷ s) (ne, h) = rw (ne→==_false c b',' ne, split_part s h) refl

trim_end-IsPart : (s : List ℕ) → IsPart s → IsPart (trim_end s)
unfolding trim_end
trim_end-IsPart [] h = tt
trim_end-IsPart (c ∷ s) (ne, h) = go (trim_end s) (trim_end-IsPart s h)
  where
    go :
        (t : List ℕ)
        → IsPart t
        → IsPart (elim t [ [] ↦ if isspace c then [] else c ∷ [] | d ∷ t ↦ c ∷ d ∷ t ])
    go [] k = elim (Bool-cases (isspace c)) [ inl e ↦ rw e tt | inr e ↦ rw e (ne, tt) ]
    go (d ∷ t) k = (ne, k)

zeros-IsPart : (n : ℕ) → IsPart (replicate n 0)
zeros-IsPart n = All-replicate (λ c. c ≢ b',') n 0 (omega arith)

spent_part-IsPart : (p : List ℕ) → IsPart p → IsPart (spent_part p)
unfolding spent_part
spent_part-IsPart p h = elim (Bool-cases (length (skip_space p) == 0)) [
  | inl e ↦ rw (e, spent_part) h
  | inr e ↦
      rw (e, spent_part)
        (All-append _ (trim_end p) (replicate (length p - length (trim_end p)) 0)
          (trim_end-IsPart p h) (zeros-IsPart (length p - length (trim_end p))))
]

-- The string that ends at the NUL behind a part.
c_str-IsPart : (s rest : List ℕ) → IsPart s → IsPart (c_str (s ++ 0 ∷ rest))
unfolding c_str
c_str-IsPart [] rest h = tt
c_str-IsPart (c ∷ s) rest (ne, h) = elim (Bool-cases (c == 0)) [
  | inl e ↦ rw e tt
  | inr e ↦ rw e (ne, c_str-IsPart s rest h)
]

c_str-IsPart_end : (s : List ℕ) → IsPart s → IsPart (c_str s)
unfolding c_str
c_str-IsPart_end [] h = tt
c_str-IsPart_end (c ∷ s) (ne, h) = elim (Bool-cases (c == 0)) [
  | inl e ↦ rw e tt
  | inr e ↦ rw e (ne, c_str-IsPart_end s h)
]

-- Commas, and one part behind them.
data IsSingle : List ℕ → Type 0 where
  part : {s : List ℕ} → IsPart s → IsSingle s
  comma : {s : List ℕ} → IsSingle s → IsSingle (b',' ∷ s)

-- The empty parts in front add nothing.
count : AgentConfig → ℕ
count cfg = length cfg.proc_prefixes

add_prefix-le :
    (cfg : AgentConfig) (p : List ℕ) → count (config_add_proc_prefix cfg p) ≤ count cfg + 1
unfolding config_add_proc_prefix count
add_prefix-le cfg p = elim (Bool-cases (leb 32 (length cfg.proc_prefixes))) [
  | inl e ↦ rw (e, config_add_proc_prefix) (omega arith)
  | inr e ↦ rw (e, config_add_proc_prefix) (omega (arith, length-append cfg.proc_prefixes (_ ∷ [])))
]

add_one-le : (p : List ℕ) (cfg : AgentConfig) → count (add_prefixes (p ∷ []) cfg) ≤ count cfg + 1
unfolding add_prefixes
add_one-le p cfg = elim (Bool-cases (length (trim_inplace p) == 0)) [
  | inl e ↦ rw (e, add_prefixes) (omega arith)
  | inr e ↦ rw (e, add_prefixes) (add_prefix-le cfg (trim_inplace p))
]

add_empty :
    (ps : List (List ℕ)) (cfg : AgentConfig) → add_prefixes ([] ∷ ps) cfg ≡ add_prefixes ps cfg
unfolding add_prefixes trim_inplace
add_empty ps cfg = refl

split_comma : (s : List ℕ) → split_commas (b',' ∷ s) ≡ [] ∷ split_commas s
unfolding split_commas
split_comma s = refl

single-le :
    {s : List ℕ} (cfg : AgentConfig)
    → IsSingle s
    → count (add_prefixes (split_commas s) cfg) ≤ count cfg + 1
single-le {s} cfg (part h) = rw (split_part s h) (add_one-le s cfg)
single-le cfg (comma {s = s} h) =
    rw (split_comma s) (rw (add_empty (split_commas s) cfg) (single-le cfg h))

spent_parts-IsSingle : (ps : List (List ℕ)) → All IsPart ps → IsSingle (c_str (spent_parts ps))
unfolding spent_parts spent_part skip_space c_str
spent_parts-IsSingle [] h = part tt
spent_parts-IsSingle (p ∷ []) (h, hs) =
    part (c_str-IsPart_end (spent_part p) (spent_part-IsPart p h))
spent_parts-IsSingle ([] ∷ q ∷ qs) (h, hs) = comma (spent_parts-IsSingle (q ∷ qs) hs)
spent_parts-IsSingle ((c ∷ p) ∷ q ∷ qs) (h, hs) =
    let long : (length (c ∷ p) == 0) ≡ false = ne→==_false (length (c ∷ p)) 0 (omega arith) in
    rw long (
      part (c_str-IsPart (spent_part (c ∷ p)) (spent_parts (q ∷ qs)) (spent_part-IsPart (c ∷ p) h)))

-- Reading the prefixes of -P overwrites the commas of the argument in place. When SIGHUP makes the agent read its
-- command line again, at most one prefix of the argument is left.
pub spent_le :
    (optarg : List ℕ) (cfg : AgentConfig)
    → length (add_prefixes (split_commas (c_str (spent optarg))) cfg).proc_prefixes
      ≤ length cfg.proc_prefixes + 1
unfolding spent count
spent_le optarg cfg =
    single-le cfg (spent_parts-IsSingle (split_commas optarg) (split_commas-parts optarg))
