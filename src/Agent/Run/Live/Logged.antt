-- ===== src/Agent/Run/Live/Logged.antt =====
-- What the output file holds from round to round.
use trace_fox.Base.{
  ℕ, ◌+◌, ◌%◌, ◌^◌, ◌≡◌, refl, inl, inr, true, List, [], ◌∷◌, ◌++◌, append-nil, append_assoc, arith,
  length, All, All-append,
}
use trace_fox.Agent.Setup.{Agent, destroy_agent_state}
use trace_fox.Agent.Run.{Next, running, ended, asleep, no_fuel, file_record}
use trace_fox.Agent.Run.Capture.{IsShort, records, records-append, log_of}
use trace_fox.Agent.Run.Started.{LogKept, destroy-Released}
use trace_fox.Agent.Run.Numbered.{Numbered, Numbered-mod, Numbered-append}
use trace_fox.Agent.Run.Sampled.{IsLive, IsFrame}

-- An output file that held the frames `old`, and to which the agent has added the frames `new` since it was started.
pub record IsLogged (old new : List (List ℕ)) (log : List ℕ) : Type 0 where
  pub same : log ≡ log_of (old ++ new)
  pub short : All IsShort (old ++ new)
  pub numbered : Numbered 0 new

pub record Logging (old new : List (List ℕ)) (a : Agent) : Type 0 where
  pub live : IsLive a
  pub mode : a.globals.file_mode ≡ true
  pub seq : a.seq ≡ length new % 2 ^ 32
  pub logged : IsLogged old new a.log

-- How a round, or several, may end.
abbrev pub Continues : List (List ℕ) → Next → Type 0
Continues old (running b) = (new : List (List ℕ)) × Logging old new b
Continues old (asleep b) = (new : List (List ℕ)) × Logging old new b
Continues old (ended code b) = (new : List (List ℕ)) × IsLogged old new b.log
Continues old no_fuel = ⊥

pub add_record :
    (old new : List (List ℕ)) (log f : List ℕ)
    → IsLogged old new log
    → IsFrame (length new % 2 ^ 32) f
    → IsLogged old (new ++ f ∷ []) (log ++ file_record (length f) f)
unfolding records
add_record old new log f v frame =
    let more : (old ++ new) ++ f ∷ [] ≡ old ++ (new ++ f ∷ []) = append_assoc old new (f ∷ []) in
    let written : log ++ file_record (length f) f ≡ log_of ((old ++ new) ++ f ∷ []) =
      rw (v.same, records-append (old ++ new) (f ∷ []), append-nil) refl in
    record {
      same = rw more at written;
      short =
          rw more at
            (All-append IsShort (old ++ new) (f ∷ []) v.short (omega (arith, frame.size), tt));
      numbered =
          Numbered-append 0 new (f ∷ []) v.numbered
            (Numbered-mod (length new) (0 + length new) (f ∷ []) (omega arith) (frame, tt));
    }

pub log-kept :
    (a b : Agent) (old new : List (List ℕ))
    → IsLogged old new a.log
    → LogKept a b
    → IsLogged old new b.log
log-kept a b old new v (inl e) = rw e v
log-kept a b old new v (inr (none_yet, e)) = absurd (cc (v.same, none_yet))

pub stopped :
    (a : Agent) (old new : List (List ℕ))
    → IsLogged old new a.log
    → IsLogged old new (destroy_agent_state a).log
stopped a old new v = rw (destroy-Released a).log v
