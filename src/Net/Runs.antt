-- ===== src/Net/Runs.antt =====
-- Programs over a protocol, against an automaton that says which calls may follow.
use letterbox.Prelude.{◌≡◌, Bool, Option, some, [], ◌∷◌, ◌>>=◌}
use letterbox.Net.{Result, Trace, Program}

module _ {C S : Type 0} (start : S) (accept : C → Bool → S → Option S) where
  -- The state of the automaton after the calls, none where one of them was not allowed.
  abbrev pub replay : Trace C → Option S
  replay [] = some start
  replay ((c, done) ∷ w) = replay w >>= accept c done

  -- From any calls that leave the automaton in s, the program's result and the state have Q.
  abbrev pub Runs : {E A : Type 0} → Program C E A → S → (Result E A → Option S → Type 0) → Type 0
  Runs m s Q = (w : Trace C) → replay w ≡ some s → Q (m w).0 (replay (m w).1)
