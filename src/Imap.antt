-- ===== src/Imap.antt =====
-- The IMAP client (internal/imap/client.go) over net, crypto/tls and go-imap, whose calls succeed or
-- fail as `Env` says. A deadline is an error of the call that it interrupts.
pub mod Sessions
pub mod Results
mod Examples
use letterbox.Prelude.{
  ℕ, ◌+◌, ◌%◌, ◌^◌, Text, Bool, true, false, Option, none, some, List, [], ◌∷◌, ◌==◌, ltb,
  if◌then◌else◌,
}
use letterbox.Prelude.Int.{ℤ, pos, negsuc}
use letterbox.Net.{
  Fault, Result, ok, Trace, Program, call, on_failure, deferred, map_error, pure, raise, ◌>>=◌,
  ◌>>◌,
}

-- imap.SearchCriteria: every message, or the UIDs from one up to the last.
pub data SearchCriteria : Type 0 where
  everything : SearchCriteria
  uids_from : ℕ → SearchCriteria

-- What the program asks of the libraries. `close_conn` is Close of the connection below the client
-- (net or TLS), `close_client` that of the client. imapclient.New cannot fail, and neither can Caps;
-- `idle` and `stop_idle` are of IDLE (internal/sync/idle.go).
pub data Call : Type 0 where
  dial_tcp : Text → ℤ → Call
  handshake new_start_tls select status : Text → Call
  login : Text → Text → Call
  new_client close_conn close_client logout list caps idle stop_idle : Call
  fetch : ℕ → Call
  uid_search : SearchCriteria → Call

-- The sentinel that an error wraps, or an error of the libraries.
pub data ImapError : Type 0 where
  connection_failed tls_failed auth_failed timeout list_folders_failed folder_not_found : ImapError
  select_failed message_not_found fetch_failed : ImapError
  raw : Fault → ImapError

-- What the calls give where they succeed, by the calls made before: the mailboxes of LIST, the
-- messages' number of SELECT, the bodies of FETCH, the UIDs of SEARCH, and the number of STATUS.
pub record Env : Type 0 where
  pub fails : Trace Call → Call → Option Fault
  pub mailboxes : Trace Call → List Text
  pub num_messages : Trace Call → ℕ
  pub bodies : Trace Call → List (Option Text)
  pub all_uids : Trace Call → SearchCriteria → List ℕ
  pub status_messages : Trace Call → Option ℕ

pub record Folder : Type 0 where
  pub name : Text
  pub message_count : ℕ

unfoldable pub is_timeout_error : ImapError → Bool
is_timeout_error (raw fault) = fault.timed_out
is_timeout_error _ = false

unfoldable pub is_tls_error : ImapError → Bool
is_tls_error (raw fault) = fault.is_tls
is_tls_error _ = false

unfoldable pub classify_error : ImapError → ImapError
unfolding is_timeout_error is_tls_error
classify_error e =
    if is_timeout_error e then timeout else if is_tls_error e then tls_failed else connection_failed

unfoldable pub is_no_such_mailbox_error : Fault → Bool
is_no_such_mailbox_error fault = fault.no_mailbox

unfoldable pub selecting : Fault → ImapError
unfolding is_no_such_mailbox_error
selecting fault = if is_no_such_mailbox_error fault then folder_not_found else select_failed

module _ {A : Type 0} where
  abbrev pub gets : (Trace Call → A) → Program Call ImapError A
  gets f w = (ok (f w), w)

-- A call that may fail with no effect on the result.
abbrev pub quietly : (Trace Call → Call → Option Fault) → Call → Trace Call → Trace Call
quietly fails c w = (c, elim (fails w c) [ none ↦ true | some _ ↦ false ]) ∷ w

-- afterUID+1 of uint32
abbrev pub criteria : ℕ → SearchCriteria
criteria after_uid = if ltb 0 after_uid then uids_from ((after_uid + 1) % 2 ^ 32) else everything

module _ (env : Env) where
  unfoldable pub dial_implicit_tls : Text → Program Call ImapError Unit
  unfolding call on_failure ◌>>=◌
  dial_implicit_tls host = on_failure close_conn (call env.fails raw (handshake host)) >> λ w.
      (ok tt, (new_client, true) ∷ w)

  unfoldable pub dial_start_tls : Text → Program Call ImapError Unit
  unfolding call on_failure
  dial_start_tls host = on_failure close_conn (call env.fails raw (new_start_tls host))

  abbrev pub is_port : ℤ → Bool
  is_port (pos n) = n == 993
  is_port (negsuc _) = false

  unfoldable pub dial : Text → ℤ → Program Call ImapError Unit
  unfolding call ◌>>=◌ dial_implicit_tls dial_start_tls
  dial host port =
      call env.fails raw (dial_tcp host port)
      >> (if is_port port then dial_implicit_tls host else dial_start_tls host)

  -- Each operation dials and logs in, and closes the client in the end.
  unfoldable pub with_login :
      {A : Type 0} → Text → ℤ → Text → Text → Program Call ImapError A → Program Call ImapError A
  unfolding call ◌>>=◌ map_error dial deferred
  with_login host port user password m =
      map_error classify_error (dial host port)
      >> deferred close_client (call env.fails (λ _. auth_failed) (login user password) >> m)

  unfoldable pub log_out : {A : Type 0} → A → Program Call ImapError A
  log_out a w = (ok a, quietly env.fails logout w)

  -- The names of the folders
  unfoldable pub test_connection : Text → ℤ → Text → Text → Program Call ImapError (List Text)
  unfolding call ◌>>=◌ with_login log_out
  test_connection host port user password =
      with_login host port user password
        (call env.fails (λ _. list_folders_failed) list >> (gets env.mailboxes >>= log_out))

  abbrev first_body : List (Option Text) → Program Call ImapError Text
  first_body [] = raise message_not_found
  first_body (none ∷ _) = raise message_not_found
  first_body (some raw_body ∷ _) = pure raw_body

  unfoldable pub fetch_raw : Text → ℤ → Text → Text → Text → ℕ → Program Call ImapError Text
  unfolding call ◌>>=◌ with_login deferred raise pure selecting
  fetch_raw host port user password folder uid = with_login host port user password (
      deferred logout (
        call env.fails selecting (select folder)
        >> call env.fails (λ _. fetch_failed) (fetch uid)
        >> (gets env.bodies >>= first_body)))

  abbrev pub search_uids : ℕ → ℕ → Program Call ImapError (List ℕ)
  search_uids after_uid messages =
      if messages == 0
      then pure []
      else (call env.fails raw (uid_search (criteria after_uid))
          >> gets (λ w. env.all_uids w (criteria after_uid)))

  unfoldable pub fetch_uids_after :
      Text → ℤ → Text → Text → Text → ℕ → Program Call ImapError (List ℕ)
  unfolding call ◌>>=◌ with_login deferred pure selecting
  fetch_uids_after host port user password folder after_uid = with_login host port user password (
      deferred logout (
        call env.fails selecting (select folder)
        >> (gets env.num_messages >>= search_uids after_uid)))

  abbrev or_zero : Option ℕ → ℕ
  or_zero none = 0
  or_zero (some n) = n

  abbrev counted : Text → Option Fault → Trace Call → ℕ
  counted name none w = or_zero (env.status_messages ((status name, true) ∷ w))
  counted name (some _) w = 0

  abbrev pub folder_of : Text → Trace Call → Folder
  folder_of name w = record {
    name = name;
    message_count = counted name (env.fails w (status name)) w;
  }

  unfoldable pub count_folders : List Text → Program Call ImapError (List Folder)
  unfolding pure ◌>>=◌
  count_folders [] = pure []
  count_folders (name ∷ names) = λ w.
      (count_folders names >>= λ folders. pure (folder_of name w ∷ folders))
        (quietly env.fails (status name) w)

  unfoldable pub list_folders : Text → ℤ → Text → Text → Program Call ImapError (List Folder)
  unfolding call ◌>>=◌ with_login deferred count_folders
  list_folders host port user password = with_login host port user password (
      deferred logout
        (call env.fails (λ _. list_folders_failed) list >> (gets env.mailboxes >>= count_folders)))
