-- ===== src/Net.antt =====
-- Clients of a network protocol (internal/smtp/client.go, internal/imap/client.go and
-- internal/sync): programs that make calls of a protocol library, each of which may fail.
-- The state is the list of the calls made, newest first, with what became of them.
pub mod Runs
use letterbox.Prelude.{Bool, true, false, ◌||◌, Option, none, some, List, [], ◌∷◌}

-- An error of the network, the TLS library or the protocol library, by what the program asks of it:
-- whether it is a net.Error that timed out, an error of TLS, or says that there is no such mailbox.
pub record Fault : Type 0 where
  pub timed_out : Bool
  pub is_tls : Bool
  pub no_mailbox : Bool

pub data Result (E A : Type 0) : Type 0 where
  ok : A → Result E A
  err : E → Result E A

abbrev pub Trace : Type 0 → Type 0
Trace C = List (C × Bool)

abbrev pub Program : Type 0 → Type 0 → Type 0 → Type 0
Program C E A = Trace C → Result E A × Trace C

module _ {C E : Type 0} where
  abbrev pub continue : {A B : Type 0} → Result E A → (A → Program C E B) → Program C E B
  continue (ok a) k w = k a w
  continue (err e) k w = (err e, w)

  infixl 5 ◌>>=◌ ◌>>◌
  unfoldable pub ◌>>=◌ : {A B : Type 0} → Program C E A → (A → Program C E B) → Program C E B
  ◌>>=◌ m k w = let (r, w') = m w in continue r k w'

  abbrev pub ◌>>◌ : {A B : Type 0} → Program C E A → Program C E B → Program C E B
  m >> n = m >>= λ _. n

  unfoldable pub pure : {A : Type 0} → A → Program C E A
  pure a w = (ok a, w)

  unfoldable pub raise : {A : Type 0} → E → Program C E A
  raise e w = (err e, w)

  abbrev pub called : C → (Fault → E) → Option Fault → Program C E Unit
  called c wrap none w = (ok tt, (c, true) ∷ w)
  called c wrap (some fault) w = (err (wrap fault), (c, false) ∷ w)

  -- A call, with what its error becomes.
  unfoldable pub call : (Trace C → C → Option Fault) → (Fault → E) → C → Program C E Unit
  call fails wrap c w = called c wrap (fails w c) w

  abbrev pub with_failure : C → {A : Type 0} → Result E A → Program C E A
  with_failure c (ok a) w = (ok a, w)
  with_failure c (err e) w = (err e, (c, true) ∷ w)

  -- A call that is made where the program fails, and whose own error is ignored.
  unfoldable pub on_failure : {A : Type 0} → C → Program C E A → Program C E A
  on_failure c m w = let (r, w') = m w in with_failure c r w'

  -- `defer`: a call that is made in the end, whatever became of the program.
  unfoldable pub deferred : {A : Type 0} → C → Program C E A → Program C E A
  deferred c m w = let (r, w') = m w in (r, (c, true) ∷ w')

  abbrev pub with_error : (E → E) → {A : Type 0} → Result E A → Program C E A
  with_error wrap (ok a) w = (ok a, w)
  with_error wrap (err e) w = (err (wrap e), w)

  unfoldable pub map_error : {A : Type 0} → (E → E) → Program C E A → Program C E A
  map_error wrap m w = let (r, w') = m w in with_error wrap r w'
