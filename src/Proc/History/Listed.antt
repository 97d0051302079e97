-- ===== src/Proc/History/Listed.antt =====
-- Which processes the groups list, and which slots of the history are left.
use trace_fox.Base.{
  ℕ, zero, suc, ◌≡◌, refl, ap, inl, inr, true, ◌||◌, List, [], ◌∷◌, ◌++◌, arith, ◌==◌,
  if◌then◌else◌, eq→==, ==_iff, Bool-cases, get_or,
}
use trace_fox.Proc.{ProcPrev, WatchGroup}
use trace_fox.Proc.History.{free_prev, has_pid, is_alive, history_gc}

-- Some group lists the process, at some place.
pub record Listed (pid : ℕ) (groups : List WatchGroup) : Type 0 where
  pub front : List WatchGroup
  pub group : WatchGroup
  pub back : List WatchGroup
  pub before : List ℕ
  pub after : List ℕ
  pub in_groups : groups ≡ front ++ group ∷ back
  pub in_group : group.pids ≡ before ++ pid ∷ after

has_pid-Listed :
    (pid : ℕ) (ps : List ℕ)
    → has_pid pid ps ≡ true
    → (before : List ℕ) × (after : List ℕ) × (ps ≡ before ++ pid ∷ after)
unfolding has_pid
has_pid-Listed pid [] h = absurd (cc h)
has_pid-Listed pid (p ∷ ps) h = elim (Bool-cases (p == pid)) [
  | inl e ↦ ([], ps, ap (λ q. q ∷ ps) ((==_iff p pid).0 e))
  | inr e ↦
      let (before, after, same) = has_pid-Listed pid ps (rw e at h) in
      (p ∷ before, after, ap (λ l. p ∷ l) same)
]

pub is_alive-Listed :
    (pid : ℕ) (groups : List WatchGroup) → is_alive groups pid ≡ true → Listed pid groups
unfolding is_alive
is_alive-Listed pid [] h = absurd (cc h)
is_alive-Listed pid (g ∷ gs) h = elim (Bool-cases (has_pid pid g.pids)) [
  | inl e ↦
      let (before, after, same) = has_pid-Listed pid g.pids e in
      record {
        front = [];
        group = g;
        back = gs;
        before = before;
        after = after;
        in_groups = refl;
        in_group = same;
      }
  | inr e ↦
      let l = is_alive-Listed pid gs (rw e at h) in
      record {
        front = g ∷ l.front;
        group = l.group;
        back = l.back;
        before = l.before;
        after = l.after;
        in_groups = ap (λ r. g ∷ r) l.in_groups;
        in_group = l.in_group;
      }
]

has_pid-at : (pid : ℕ) (before after : List ℕ) → has_pid pid (before ++ pid ∷ after) ≡ true
unfolding has_pid
has_pid-at pid [] after = rw (eq→== pid pid refl) refl
has_pid-at pid (p ∷ before) after = ground (arith, has_pid-at pid before after)

is_alive-at :
    (pid : ℕ) (front back : List WatchGroup) (g : WatchGroup)
    → has_pid pid g.pids ≡ true
    → is_alive (front ++ g ∷ back) pid ≡ true
unfolding is_alive
is_alive-at pid [] back g h = rw h refl
is_alive-at pid (f ∷ front) back g h = ground (arith, is_alive-at pid front back g h)

pub Listed-is_alive :
    (pid : ℕ) (groups : List WatchGroup) → Listed pid groups → is_alive groups pid ≡ true
Listed-is_alive pid groups l =
    rw l.in_groups
      (is_alive-at pid l.front l.back l.group (rw l.in_group (has_pid-at pid l.before l.after)))

pub history_gc-get :
    (groups : List WatchGroup) (h : List ProcPrev) (i : ℕ)
    → get_or (history_gc groups h) i free_prev ≡ (
        let s = get_or h i free_prev in
        if s.pid == 0 || is_alive groups s.pid then s else free_prev)
unfolding history_gc
history_gc-get groups [] i = refl
history_gc-get groups (s ∷ ss) zero = refl
history_gc-get groups (s ∷ ss) (suc i) = history_gc-get groups ss i
