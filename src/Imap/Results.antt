-- ===== src/Imap/Results.antt =====
-- What the IMAP operations give (internal/imap/client.go).
use letterbox.Prelude.{
  ℕ, ◌+◌, ◌%◌, ◌^◌, ◌≡◌, ◌≢◌, ◌≤◌, ◌<◌, refl, sym, ◌∙◌, Text, true, false, ◌||◌, none, List, [],
  ◌∷◌, ◌++◌, if◌then◌else◌, if_ind, arith, ltb, lt→ltb, leb, ◌==◌, All,
}
use letterbox.Prelude.Int.{ℤ}
use letterbox.Net
use letterbox.Net.{
  Fault, Result, ok, err, Trace, Program, continue, pure, raise, call, on_failure, deferred,
  map_error, with_error,
}
use letterbox.Imap.{
  Call, dial_tcp, handshake, new_start_tls, select, login, close_conn, close_client, uid_search,
  everything, uids_from, ImapError, raw, auth_failed, Env, selecting, criteria, dial_implicit_tls,
  dial_start_tls, dial, is_port, search_uids, with_login, fetch_uids_after,
}

-- The UIDs of n:* in a mailbox whose last UID is given, by RFC 3501: the range holds the last
-- message also where n is above it.
abbrev pub in_range : ℕ → ℕ → List ℕ → List ℕ
in_range n last [] = []
in_range n last (u ∷ uids) =
    let rest = in_range n last uids in if leb n u || u == last then u ∷ rest else rest

-- The server answers SEARCH by the mailbox's UIDs.
pub record IsServer (env : Env) (uids : List ℕ) (last : ℕ) : Type 0 where
  pub every : (w : Trace Call) → env.all_uids w everything ≡ uids
  pub range : (w : Trace Call) (n : ℕ) → 0 < n → env.all_uids w (uids_from n) ≡ in_range n last uids

-- Every member of a list is at most a bound.
abbrev pub AtMost : ℕ → List ℕ → Type 0
AtMost n = All (λ u. u ≤ n)

-- The UIDs above n.
abbrev pub above : ℕ → List ℕ → List ℕ
above n [] = []
above n (u ∷ uids) = let rest = above n uids in if ltb n u then u ∷ rest else rest

in_range-above : (n last : ℕ) (uids : List ℕ) → n < last → in_range (n + 1) last uids ≡ above n uids
in_range-above n last [] h = refl
in_range-above n last (u ∷ uids) h = ground (arith, in_range-above n last uids h)

in_range-last :
    (n last : ℕ) (uids : List ℕ)
    → All (λ u. u < last) uids
    → last ≤ n
    → in_range (n + 1) last (uids ++ last ∷ []) ≡ last ∷ []
in_range-last n last [] h le = ground arith
in_range-last n last (u ∷ uids) (lt, h) le = ground (arith, in_range-last n last uids h le)

above-none :
    (n last : ℕ) (uids : List ℕ)
    → All (λ u. u < last) uids
    → last ≤ n
    → above n (uids ++ last ∷ []) ≡ []
above-none n last [] h le = ground arith
above-none n last (u ∷ uids) (lt, h) le = ground (arith, above-none n last uids h le)

above-zero : (uids : List ℕ) → All (λ u. 0 < u) uids → above 0 uids ≡ uids
above-zero [] h = refl
above-zero (u ∷ uids) (lt, h) = ground (arith, above-zero uids h)

-- The program succeeds from any state, with this result.
abbrev Gives : {A : Type 0} → Program Call ImapError A → A → Type 0
Gives m a = (w : Trace Call) → (m w).0 ≡ ok a

bind-Gives :
    {A B : Type 0} (m : Program Call ImapError A) (k : A → Program Call ImapError B) (a : A) (b : B)
    → Gives m a
    → Gives (k a) b
    → Gives (Net.◌>>=◌ m k) b
unfolding Net.◌>>=◌
bind-Gives m k a b h g w = rw (h w) (g (m w).1)

on_failure-Gives :
    {A : Type 0} (c : Call) (m : Program Call ImapError A) (a : A)
    → Gives m a
    → Gives (on_failure c m) a
unfolding on_failure
on_failure-Gives c m a h w = rw (h w) refl

deferred-Gives :
    {A : Type 0} (c : Call) (m : Program Call ImapError A) (a : A)
    → Gives m a
    → Gives (deferred c m) a
unfolding deferred
deferred-Gives c m a h w = h w

map_error-Gives :
    {A : Type 0} (wrap : ImapError → ImapError) (m : Program Call ImapError A) (a : A)
    → Gives m a
    → Gives (map_error wrap m) a
unfolding map_error
map_error-Gives wrap m a h w = rw (h w) refl

wraps : (n last : ℕ) → n < last → last < 2 ^ 32 → (n + 1) % 2 ^ 32 ≡ n + 1
wraps n last below bound = omega arith

no_messages : (n : ℕ) → 0 < n → (n == 0) ≢ true
no_messages n pos h = ground arith

zero_of : (n : ℕ) → ltb 0 n ≡ false → n ≡ 0
zero_of n h = ground arith

module _ (env : Env) (uids : List ℕ) (last : ℕ) (server : IsServer env uids last)
    (fine : (w : Trace Call) → (c : Call) → env.fails w c ≡ none)
    (some_messages : (w : Trace Call) → 0 < env.num_messages w) where
  call-Gives : (wrap : Fault → ImapError) (c : Call) → Gives (call env.fails wrap c) tt
  unfolding call
  call-Gives wrap c w = rw (fine w c) refl

  dial_implicit_tls-Gives : (host : Text) → Gives (dial_implicit_tls env host) tt
  unfolding dial_implicit_tls
  dial_implicit_tls-Gives host =
      bind-Gives (on_failure close_conn (call env.fails raw (handshake host))) _ tt tt
        (on_failure-Gives close_conn (call env.fails raw (handshake host)) tt
          (call-Gives raw (handshake host)))
        (λ w. refl)

  dial_start_tls-Gives : (host : Text) → Gives (dial_start_tls env host) tt
  unfolding dial_start_tls
  dial_start_tls-Gives host =
      on_failure-Gives close_conn (call env.fails raw (new_start_tls host)) tt
        (call-Gives raw (new_start_tls host))

  dial-Gives : (host : Text) (port : ℤ) → Gives (dial env host port) tt
  unfolding dial
  dial-Gives host port =
      bind-Gives (call env.fails raw (dial_tcp host port)) _ tt tt
        (call-Gives raw (dial_tcp host port))
        (if_ind (λ (m : Program Call ImapError Unit). Gives m tt) (is_port env port) _ _
          (λ _. dial_implicit_tls-Gives host) (λ _. dial_start_tls-Gives host))

  with_login-Gives :
      {A : Type 0} (host : Text) (port : ℤ) (user password : Text) (m : Program Call ImapError A)
      (a : A)
      → Gives m a
      → Gives (with_login env host port user password m) a
  unfolding with_login
  with_login-Gives host port user password m a h =
      bind-Gives _ _ tt a (map_error-Gives _ _ tt (dial-Gives host port)) (
        deferred-Gives close_client
          (Net.◌>>=◌ (call env.fails (λ _. auth_failed) (login user password)) (λ _. m)) a
          (bind-Gives _ _ tt a (call-Gives _ (login user password)) h))

  searched :
      (after_uid : ℕ) (found : List ℕ)
      → ((w : Trace Call) → env.all_uids w (criteria after_uid) ≡ found)
      → (n : ℕ) → 0 < n
      → Gives (search_uids env after_uid n) found
  unfolding pure
  searched after_uid found h n pos w =
      if_ind (λ (m : Program Call ImapError (List ℕ)). (m w).0 ≡ ok found) (n == 0) _ _
        (λ empty. absurd (no_messages n pos empty))
        (λ _.
          bind-Gives (call env.fails raw (uid_search (criteria after_uid))) _ tt found
            (call-Gives raw (uid_search (criteria after_uid))) (λ w. rw (h w) refl) w)

  fetch_uids_after-Gives :
      (host : Text) (port : ℤ) (user password folder : Text) (after_uid : ℕ) (found : List ℕ)
      → ((w : Trace Call) → env.all_uids w (criteria after_uid) ≡ found)
      → Gives (fetch_uids_after env host port user password folder after_uid) found
  unfolding fetch_uids_after deferred Net.◌>>=◌
  fetch_uids_after-Gives host port user password folder after_uid found h =
      with_login-Gives host port user password _ found (λ w.
        bind-Gives (call env.fails selecting (select folder)) _ tt found
          (call-Gives selecting (select folder))
          (λ w. searched after_uid found h (env.num_messages w) (some_messages w) w) w)

  -- Let no call fail, and let the mailbox hold a message and the server answer searches by RFC 3501.
  -- For a UID below the mailbox's last one, FetchUIDsAfter gives the UIDs above it, in the
  -- mailbox's order; for 0 these are all.
  pub fetch_uids_after-above :
      (host : Text) (port : ℤ) (user password folder : Text) (after_uid : ℕ)
      → All (λ u. 0 < u) uids
      → after_uid < last
      → last < 2 ^ 32
      → (w : Trace Call)
      → (fetch_uids_after env host port user password folder after_uid w).0
        ≡ ok (above after_uid uids)
  fetch_uids_after-above host port user password folder after_uid valid below bound =
      fetch_uids_after-Gives host port user password folder after_uid _ (λ w.
        if_ind (λ c. env.all_uids w c ≡ above after_uid uids) (ltb 0 after_uid) _ _
          (λ some_uid. rw (wraps after_uid last below bound) (
            server.range w (after_uid + 1) (omega arith)
            ∙ in_range-above after_uid last uids below))
          (λ none_uid.
            server.every w ∙ (rw (zero_of after_uid none_uid) (sym (above-zero uids valid)))))

  -- Let no call fail, and let the mailbox hold a message and the server answer searches by RFC 3501.
  -- Where no UID is above the one given, which is not 0 or the largest, FetchUIDsAfter still gives
  -- one: the mailbox's last UID, which is at most the one given.
  pub fetch_uids_after-last :
      (host : Text) (port : ℤ) (user password folder : Text) (after_uid : ℕ) (before : List ℕ)
      → uids ≡ before ++ last ∷ []
      → All (λ u. u < last) before
      → last ≤ after_uid
      → 0 < after_uid
      → after_uid + 1 < 2 ^ 32
      → (w : Trace Call)
      → ((fetch_uids_after env host port user password folder after_uid w).0 ≡ ok (last ∷ []))
        × (above after_uid uids ≡ [])
  fetch_uids_after-last host port user password folder after_uid before is less le pos bound w = (
    fetch_uids_after-Gives host port user password folder after_uid (last ∷ [])
        (λ w.
          rw (lt→ltb 0 after_uid pos, wraps after_uid (after_uid + 1) (omega arith) bound)
            (server.range w (after_uid + 1) (omega arith)
              ∙ rw is (in_range-last after_uid last before less le)))
        w,
    rw is (above-none after_uid last before less le),
  )
