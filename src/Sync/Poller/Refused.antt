-- ===== src/Sync/Poller/Refused.antt =====
-- A server that keeps to IMAP refuses every STATUS of the poller (internal/sync/poller.go).
use letterbox.Prelude.{
  ℕ, ◌+◌, ◌≡◌, ◌≢◌, refl, Text, true, if_ind, Option, none, some, List, [], ◌∷◌, All, Option-cases,
  inl, inr,
}
use letterbox.Net
use letterbox.Net.{Result, ok, err, Trace, call, deferred, map_error, continue, with_error}
use letterbox.Net.Runs.{replay}
use letterbox.Imap
use letterbox.Imap.{Call, ImapError, status, login, logout, close_client, connection_failed, dial}
use letterbox.Imap.Sessions.{
  offline, not_authenticated, logged_out, accept, IsDialled, dial-IsDialled,
}
use letterbox.Sync.{IdleConfig}
use letterbox.Sync.Poller.{FolderStatus, PollerEntry, polls, poll}
use letterbox.Sync.Poller.Status.{status_session, fetch_status, status_or_none, fetch_all, poll_all}

-- After LOGOUT the server answers no STATUS (RFC 3501, 6.1.3 and 7.1.5).
abbrev pub Refuses : Imap.Env → Type 0
Refuses env =
    (w : Trace Call) (folder : Text)
    → replay offline accept w ≡ some logged_out
    → env.fails w (status folder) ≢ none

module _ (env : Imap.Env) (uid_next : Trace Call → ℕ) (refuses : Refuses env) where
  status_session-none :
      (config : IdleConfig) (w : Trace Call)
      → replay offline accept w ≡ some not_authenticated
      → status_or_none (status_session env uid_next config w).0 ≡ none
  unfolding status_session call Net.◌>>=◌
  status_session-none config w here =
      elim (Option-cases (env.fails w (login config.username config.password))) [
        | inl fine ↦
            let left =
              Imap.quietly env.fails logout ((login config.username config.password, true) ∷ w) in
            elim (Option-cases (env.fails left (status config.folder))) [
              | inl answered ↦ absurd (refuses left config.folder (rw here refl) answered)
              | inr (fault, refused) ↦ rw fine (rw refused refl)
            ]
        | inr (fault, broken) ↦ rw broken refl
      ]

  entered-none :
      (config : IdleConfig) (r : Result ImapError Unit) (w : Trace Call)
      → IsDialled r (replay offline accept w)
      → let d = with_error (λ _. connection_failed) r w in
        status_or_none
          (continue d.0 (λ _. deferred close_client (status_session env uid_next config)) d.1).0
        ≡ none
  unfolding deferred
  entered-none config (err e) w d = refl
  entered-none config (ok u) w d = status_session-none config w d

  fetch_status-none :
      (config : IdleConfig) (w : Trace Call)
      → replay offline accept w ≡ some offline
      → status_or_none (fetch_status env uid_next config w).0 ≡ none
  unfolding fetch_status map_error Net.◌>>=◌
  fetch_status-none config w here =
      let r = dial env config.host config.port w in
      entered-none config r.0 r.1 (dial-IsDialled env config.host config.port w here)

fetch_all-none :
    (uid_next : Trace Call → ℕ) (servers : List Imap.Env) (config : IdleConfig)
    → All Refuses servers
    → All (λ (o : Option FolderStatus). o ≡ none) (fetch_all uid_next servers config)
unfolding fetch_all
fetch_all-none uid_next [] config refuse = tt
fetch_all-none uid_next (env ∷ servers) config refuse = (
  fetch_status-none env uid_next refuse.0 config [] refl,
  fetch_all-none uid_next servers config refuse.1,
)

polls-none :
    (statuses : List (Option FolderStatus)) (entry : PollerEntry)
    → All (λ (o : Option FolderStatus). o ≡ none) statuses
    → ((polls statuses entry).1 ≡ []) × ((polls statuses entry).0.initialized ≡ entry.initialized)
unfolding polls poll
polls-none [] entry h = (refl, refl)
polls-none (o ∷ statuses) entry h = rw h.0 (
    if_ind
      (λ (e : PollerEntry).
        ((polls statuses e).1 ≡ []) × ((polls statuses e).0.initialized ≡ entry.initialized))
      entry.initialized _ _ (λ _. polls-none statuses entry h.1)
      (λ _. polls-none statuses (record entry { failed_polls = entry.failed_polls + 1 }) h.1))

-- Let every server refuse STATUS after LOGOUT, as IMAP says. Since fetchStatus sends LOGOUT before
-- STATUS, every poll of an account fails: whatever arrives, the poller emits no event, and an
-- account that was not initialised stays so.
pub poll_all-silent :
    (uid_next : Trace Call → ℕ) (servers : List Imap.Env) (entry : PollerEntry)
    → All Refuses servers
    → ((poll_all uid_next servers entry).1 ≡ [])
      × ((poll_all uid_next servers entry).0.initialized ≡ entry.initialized)
unfolding poll_all
poll_all-silent uid_next servers entry refuse =
    polls-none (fetch_all uid_next servers entry.config) entry
      (fetch_all-none uid_next servers entry.config refuse)
