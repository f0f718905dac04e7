-- ===== src/Api/AccountHandler/Examples.antt =====
-- The theorem on new accounts at a concrete request.
use letterbox.Prelude.{codes, false, none, some, [], ◌∷◌}
use letterbox.Prelude.Int.{pos}
use letterbox.Crypto.{Cipher}
use letterbox.Api.AccountHandler.{CreateAccountRequest, Env, World}

abbrev plain : Cipher
plain = record {
  nonce_size = 2;
  seal = λ key nonce s. s;
  open_sealed = λ key nonce s. some s;
  encode_base64 = λ s. s;
  decode_base64 = λ s. some s;
}

abbrev env : Env
env = record {
  accounts = record {
    cipher = plain;
    encryption_key = codes "0123456789abcdef0123456789abcdef";
    random = λ n. some (codes "no");
    fails = λ n. false;
    new_id = λ n. n;
    now = λ n. n;
    ties = λ n row other. false;
  };
  imap = record {
    fails = λ w c. none;
    mailboxes = λ w. codes "INBOX" ∷ [];
    num_messages = λ w. 0;
    bodies = λ w. [];
    all_uids = λ w c. [];
    status_messages = λ w. none;
  };
  smtp = record {
    fails = λ w c. none;
    extension_of = λ w name. some (codes "PLAIN");
    to_upper = λ s. s;
  };
  validation = λ req. none;
  parse_uuid = λ s. some 1;
}

abbrev request : CreateAccountRequest
request = record {
  name = codes "n";
  imap_host = codes "h";
  imap_port = pos 993;
  imap_user = codes "u";
  imap_password = codes "p";
  smtp_host = codes "h";
  smtp_port = pos 587;
  smtp_user = codes "u";
  smtp_password = codes "p";
}

abbrev empty : World
empty = record { store = record { accounts = []; calls = 0 }; imap_calls = []; smtp_calls = [] }
