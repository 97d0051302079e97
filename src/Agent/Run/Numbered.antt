-- ===== src/Agent/Run/Numbered.antt =====
-- The numbers of the frames that follow each other.
use trace_fox.Base.{ℕ, ◌+◌, ◌%◌, ◌^◌, ◌≡◌, List, [], ◌∷◌, ◌++◌, arith, length}
use trace_fox.Agent.Run.Sampled.{IsFrame}

-- Frames with these numbers in turn, modulo 2 ^ 32.
abbrev pub Numbered : ℕ → List (List ℕ) → Type 0
Numbered n [] = Unit
Numbered n (f ∷ fs) = IsFrame (n % 2 ^ 32) f × Numbered (n + 1) fs

pub Numbered-mod :
    (m n : ℕ) (fs : List (List ℕ)) → m % 2 ^ 32 ≡ n % 2 ^ 32 → Numbered m fs → Numbered n fs
Numbered-mod m n [] e h = tt
Numbered-mod m n (f ∷ fs) e (h, hs) =
    (rw (← e) h, Numbered-mod (m + 1) (n + 1) fs (omega (arith, e)) hs)

pub Numbered-append :
    (n : ℕ) (fs gs : List (List ℕ))
    → Numbered n fs
    → Numbered (n + length fs) gs
    → Numbered n (fs ++ gs)
Numbered-append n [] gs h k = Numbered-mod (n + 0) n gs (omega arith) k
Numbered-append n (f ∷ fs) gs (h, hs) k =
    (h, Numbered-append (n + 1) fs gs hs (Numbered-mod _ (n + 1 + length fs) gs (omega arith) k))
