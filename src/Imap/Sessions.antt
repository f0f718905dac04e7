-- ===== src/Imap/Sessions.antt =====
-- The order of the calls that the IMAP client makes (internal/imap/client.go), against an automaton
-- of the states of RFC 3501.
use letterbox.Prelude.{
  ℕ, ◌≡◌, refl, Text, Bool, true, Option, some, none, List, [], ◌∷◌, if◌then◌else◌, Option-cases,
  inl, inr, arith, ◌>>=◌,
}
use letterbox.Prelude.Int.{ℤ}
use letterbox.Net
use letterbox.Net.{
  Fault, Result, ok, err, Trace, Program, continue, pure, raise, call, on_failure, deferred,
  map_error, with_error,
}
use letterbox.Net.Runs.{replay, Runs}
use letterbox.Imap.{
  Call, dial_tcp, handshake, new_start_tls, select, status, login, new_client, close_conn,
  close_client, logout, list, caps, idle, stop_idle, fetch, uid_search, ImapError, auth_failed, Env,
  Folder, classify_error, dial_implicit_tls, dial_start_tls, dial, with_login, log_out,
  test_connection, fetch_raw, fetch_uids_after, quietly, folder_of, count_folders, list_folders,
}

-- No connection, a TCP or TLS connection with nothing said, then the states of the protocol, all of
-- them over TLS: not authenticated, authenticated, with a mailbox selected, in IDLE, logged out.
pub data Session : Type 0 where
  offline connected secured not_authenticated authenticated selected idling logged_out : Session

-- What a call makes of the session, by whether it succeeded; none where it must not be made.
abbrev pub accept : Call → Bool → Session → Option Session
accept (dial_tcp host port) done offline = some (if done then connected else offline)
accept (handshake host) done connected = some (if done then secured else connected)
accept (new_start_tls host) done connected = some (if done then not_authenticated else connected)
accept new_client done secured = some not_authenticated
accept (login user password) done not_authenticated =
    some (if done then authenticated else not_authenticated)
accept list done authenticated = some authenticated
accept caps done authenticated = some authenticated
accept (status name) done authenticated = some authenticated
accept (select folder) done authenticated = some (if done then selected else authenticated)
accept (fetch uid) done selected = some selected
accept (uid_search criteria) done selected = some selected
accept idle done selected = some (if done then idling else selected)
accept stop_idle done idling = some selected
accept logout done authenticated = some logged_out
accept logout done selected = some logged_out
accept close_conn done connected = some offline
accept close_conn done secured = some offline
accept close_client done not_authenticated = some offline
accept close_client done authenticated = some offline
accept close_client done selected = some offline
accept close_client done logged_out = some offline
accept _ _ _ = none

abbrev IsOffline : {A : Type 0} → Result ImapError A → Option Session → Type 0
IsOffline r o = o ≡ some offline

abbrev pub IsDialled : {A : Type 0} → Result ImapError A → Option Session → Type 0
IsDialled (ok _) o = o ≡ some not_authenticated
IsDialled (err _) o = o ≡ some offline

abbrev IsClosable : {A : Type 0} → Result ImapError A → Option Session → Type 0
IsClosable r o = (o >>= accept close_client true) ≡ some offline

module _ (env : Env) where
  abbrev Does :
      {A : Type 0}
      → Program Call ImapError A
      → Session
      → (Result ImapError A → Option Session → Type 0)
      → Type 0
  Does = Runs offline accept

  pub dial-IsDialled : (host : Text) (port : ℤ) → Does (dial env host port) offline IsDialled
  unfolding dial dial_implicit_tls dial_start_tls call on_failure Net.◌>>=◌
  dial-IsDialled host port w here = ground arith

  entered :
      {A : Type 0} (user password : Text) (m : Program Call ImapError A)
      → Does m authenticated IsClosable
      → (r : Result ImapError Unit) (w : Trace Call) → IsDialled r (replay offline accept w)
      → let d = with_error classify_error r w in
        replay offline accept
          (continue d.0
            (λ _.
              deferred close_client
                (Net.◌>>=◌ (call env.fails (λ _. auth_failed) (login user password)) (λ _. m)))
            d.1).1
        ≡ some offline
  unfolding deferred call Net.◌>>=◌
  entered user password m h (err e) w d = d
  entered user password m h (ok u) w d = elim (Option-cases (env.fails w (login user password))) [
    | inl fine ↦
        let after : Trace Call = (login user password, true) ∷ w in rw fine (h after (rw d refl))
    | inr (fault, broken) ↦ rw (broken, d) refl
  ]

  with_login-IsOffline :
      {A : Type 0} (host : Text) (port : ℤ) (user password : Text) (m : Program Call ImapError A)
      → Does m authenticated IsClosable
      → Does (with_login env host port user password m) offline IsOffline
  unfolding with_login map_error Net.◌>>=◌
  with_login-IsOffline host port user password m h w here =
      let r = dial env host port w in
      entered user password m h r.0 r.1 (dial-IsDialled host port w here)

  pub test_connection-IsOffline :
      (host : Text) (port : ℤ) (user password : Text)
      → Does (test_connection env host port user password) offline IsOffline
  unfolding test_connection call log_out Net.◌>>=◌
  test_connection-IsOffline host port user password =
      with_login-IsOffline host port user password _ (λ w here. ground arith)

  fetch_raw-IsOffline :
      (host : Text) (port : ℤ) (user password folder : Text) (uid : ℕ)
      → Does (fetch_raw env host port user password folder uid) offline IsOffline
  unfolding fetch_raw call Net.◌>>=◌ deferred raise pure
  fetch_raw-IsOffline host port user password folder uid =
      with_login-IsOffline host port user password _ (λ w here. ground arith)

  fetch_uids_after-IsOffline :
      (host : Text) (port : ℤ) (user password folder : Text) (after_uid : ℕ)
      → Does (fetch_uids_after env host port user password folder after_uid) offline IsOffline
  unfolding fetch_uids_after call Net.◌>>=◌ deferred pure
  fetch_uids_after-IsOffline host port user password folder after_uid =
      with_login-IsOffline host port user password _ (λ w here. ground arith)

  collected :
      (folder : Folder) (r : Result ImapError (List Folder)) (w : Trace Call)
      → (continue r (λ folders. pure (folder ∷ folders)) w).1 ≡ w
  unfolding pure
  collected folder (ok folders) w = refl
  collected folder (err e) w = refl

  count_folders-authenticated :
      (names : List Text)
      → Does (count_folders env names) authenticated (λ r o. o ≡ some authenticated)
  unfolding count_folders Net.◌>>=◌ pure
  count_folders-authenticated [] w here = here
  count_folders-authenticated (name ∷ names) w here =
      let after = quietly env.fails (status name) w in
      let rest = count_folders env names after in
      rw (collected (folder_of env name w) rest.0 rest.1)
        (count_folders-authenticated names after (rw here refl))

  list_folders-IsOffline :
      (host : Text) (port : ℤ) (user password : Text)
      → Does (list_folders env host port user password) offline IsOffline
  unfolding list_folders call Net.◌>>=◌ deferred
  list_folders-IsOffline host port user password =
      with_login-IsOffline host port user password _ (λ w here.
        elim (Option-cases (env.fails w list)) [
          | inl fine ↦
              let after : Trace Call = (list, true) ∷ w in
              rw (fine, count_folders-authenticated (env.mailboxes after) after (rw here refl)) refl
          | inr (fault, broken) ↦ rw (broken, here) refl
        ])

  -- From no connection, each operation keeps to the protocol whichever calls fail, and ends with no
  -- connection: the password goes over TLS alone, a message is fetched and UIDs are searched in a
  -- selected mailbox alone, and a connection that was opened is closed.
  pub operations-IsOffline :
      (host : Text) (port : ℤ) (user password folder : Text) (uid : ℕ) (w : Trace Call)
      → replay offline accept w ≡ some offline
      → (replay offline accept (test_connection env host port user password w).1 ≡ some offline)
        × (replay offline accept (fetch_raw env host port user password folder uid w).1
            ≡ some offline)
        × (replay offline accept (fetch_uids_after env host port user password folder uid w).1
            ≡ some offline)
        × (replay offline accept (list_folders env host port user password w).1 ≡ some offline)
  operations-IsOffline host port user password folder uid w here = (
    test_connection-IsOffline host port user password w here,
    fetch_raw-IsOffline host port user password folder uid w here,
    fetch_uids_after-IsOffline host port user password folder uid w here,
    list_folders-IsOffline host port user password w here,
  )
