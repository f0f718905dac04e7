-- ===== src/Sync/Pool/Backoff.antt =====
-- The backoff of an account (handleConnectionError and runAccount in internal/sync/pool.go).
use native.Mathlib.Numerals.{add-one}
use native.Mathlib.Nat.{pow-suc}
use Prim.Native.Nat.{min}
use letterbox.Prelude.{ℕ, ◌+◌, ◌*◌, ◌^◌, ◌<◌, ◌≡◌, refl, ap, Bool, true, false, arith}
use letterbox.Sync.{IdleConfig}
use letterbox.Sync.Pool.{
  AccountEntry, new_entry, max_backoff, handle_connection_error, next_retry_in, established,
  close_connection, Attempt, wait, failed, connection, idle_not_supported, run_round,
  connection_lost,
}

-- The backoff is doubled with each failure since the last connection, up to the maximum; a
-- connected account has no failures since.
pub record IsBackedOff (entry : AccountEntry) : Type 0 where
  pub doubled : entry.backoff ≡ min max_backoff (2 ^ entry.retry_count)
  pub reset : entry.connected ≡ true → entry.retry_count ≡ 0

pow_next : (r : ℕ) → 2 ^ (r + 1) ≡ 2 ^ r * 2
pow_next r = rw add-one (pow-suc 2 r)

handle_connection_error-IsBackedOff :
    (entry : AccountEntry)
    → entry.connected ≡ false
    → IsBackedOff entry
    → IsBackedOff (handle_connection_error entry)
unfolding handle_connection_error
handle_connection_error-IsBackedOff entry idle h = record {
  doubled = ground (arith, pow_next entry.retry_count);
  reset = λ up. absurd (cc (up, idle));
}

-- One round leaves an entry backed off.
pub run_round-IsBackedOff :
    (stopped : Bool) (attempt : Attempt) (entry : AccountEntry)
    → entry.connected ≡ false
    → IsBackedOff entry
    → IsBackedOff (run_round stopped attempt entry).0
unfolding run_round established close_connection
run_round-IsBackedOff true attempt entry idle h = record {
  doubled = h.doubled;
  reset = λ up. absurd (cc);
}
run_round-IsBackedOff false idle_not_supported entry idle h = h
run_round-IsBackedOff false failed entry idle h = handle_connection_error-IsBackedOff entry idle h
run_round-IsBackedOff false connection entry idle h = record { doubled = refl; reset = λ up. refl }

pub new_entry-IsBackedOff : (config : IdleConfig) → IsBackedOff (new_entry config)
new_entry-IsBackedOff config = record { doubled = refl; reset = λ up. refl }

pub connection_lost-IsBackedOff :
    (e : AccountEntry) → IsBackedOff e → IsBackedOff (connection_lost e)
unfolding connection_lost
connection_lost-IsBackedOff e h = record { doubled = h.doubled; reset = λ up. absurd (cc) }

-- An account whose backoff is positive and below the maximum waits, after a failure, twice its
-- backoff, at most the maximum. This is longer than the wait that the log announces.
pub run_round-waits :
    (entry : AccountEntry)
    → 0 < entry.backoff
    → entry.backoff < max_backoff
    → ((run_round false failed entry).1 ≡ wait (min max_backoff (entry.backoff * 2)))
      × (next_retry_in entry < min max_backoff (entry.backoff * 2))
unfolding run_round handle_connection_error next_retry_in
run_round-waits entry some_wait below = (ap wait (ground arith), ground arith)
