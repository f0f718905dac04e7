-- ===== src/Accounts/Examples.antt =====
-- The theorem on accounts at a concrete input.
use letterbox.Prelude.{ℕ, ◌+◌, ◌-◌, ◌≡◌, refl, ap, Text, codes, false, some, none, [], ◌∷◌, arith}
use letterbox.Prelude.Int.{pos}
use letterbox.Domain.{CreateAccountInput}
use letterbox.Crypto.{Cipher}
use letterbox.Accounts.{Env, World, create, find_account}
use letterbox.Accounts.RoundTrip.{IsWorking, IsReadBack, create-IsReadBack}

-- A cipher that adds one to every byte.
abbrev shift : Text → Text
shift [] = []
shift (c ∷ s) = (c + 1) ∷ shift s

abbrev unshift : Text → Text
unshift [] = []
unshift (c ∷ s) = (c - 1) ∷ unshift s

unshift-shift : (s : Text) → unshift (shift s) ≡ s
unshift-shift [] = refl
unshift-shift (c ∷ s) = ground (arith, unshift-shift s)

abbrev shifting : Cipher
shifting = record {
  nonce_size = 2;
  seal = λ key nonce s. shift s;
  open_sealed = λ key nonce s. some (unshift s);
  encode_base64 = λ s. s;
  decode_base64 = λ s. some s;
}

abbrev env : Env
env = record {
  cipher = shifting;
  encryption_key = codes "0123456789abcdef0123456789abcdef";
  random = λ n. some (codes "no");
  fails = λ n. false;
  new_id = λ n. n;
  now = λ n. n;
  ties = λ n row other. false;
}

env-IsWorking : IsWorking env
env-IsWorking = record {
  lawful = record {
    opens = λ key nonce s. ap some (unshift-shift s);
    nonce_some = omega arith;
    encodes_some = λ s given. given;
    decodes = λ s. refl;
  };
  key = omega arith;
  nonces = λ n. (codes "no", refl, omega arith);
  queries = λ n. refl;
}

abbrev input : CreateAccountInput
input = record {
  name = codes "n";
  imap_host = codes "h";
  imap_port = pos 993;
  imap_user = codes "u";
  imap_password = codes "p";
  smtp_host = [];
  smtp_port = pos 0;
  smtp_user = [];
  smtp_password = codes "q";
}

abbrev empty : World
empty = record { accounts = []; calls = 0 }

nobody : (n : ℕ) → find_account (env.new_id n) empty.accounts ≡ none
unfolding find_account
nobody n = refl

create-IsReadBack_example : IsReadBack env env-IsWorking input [] (create env input empty)
create-IsReadBack_example =
    create-IsReadBack env env-IsWorking input empty (λ e. cc) (omega arith) (omega arith) nobody
