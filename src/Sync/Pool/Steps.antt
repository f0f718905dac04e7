-- ===== src/Sync/Pool/Steps.antt =====
-- The steps of the pool's callers, of its accounts' goroutines and of its Close, in any order
-- (internal/sync/pool.go).
use letterbox.Prelude.{
  ◌≡◌, ◌≢◌, Text, text_eq, Bool, true, false, Option, none, some, List, [], ◌∷◌, ◌++◌, All,
}
use letterbox.Prelude.Maps.{lookup, insert}
use letterbox.Sync.{IdleEvent, IdleConfig, SyncError}
use letterbox.Sync.Pool.{
  AccountEntry, IdlePool, new_idle_pool, add_account, remove_account, begin_close, finish_close,
  Attempt, run_round, connection_lost, may_send, send_event,
}

-- Whose a goroutine is: an account's of the map, that of one which RemoveAccount took out of the
-- map and waits for, or one that Close took out and waits for.
pub data Owner : Type 0 where
  listed removed waited : Owner

-- A goroutine of `runAccount`, with the event for which it saw that the pool is open, and which it
-- has not sent yet.
pub record Loop : Type 0 where
  pub account : Text
  pub owner : Owner
  pub pending : Option IdleEvent

pub record Machine : Type 0 where
  pub pool : IdlePool
  pub loops : List Loop

abbrev pub started : Option SyncError → Text → List Loop → List Loop
started none id loops = loops ++ record { account = id; owner = listed; pending = none } ∷ []
started (some e) id loops = loops

abbrev owner_after_removal : Bool → Owner → Owner
owner_after_removal true listed = removed
owner_after_removal _ owner = owner

abbrev pub take_out : Text → List Loop → List Loop
take_out id [] = []
take_out id (l ∷ ls) =
    record l { owner = owner_after_removal (text_eq l.account id) l.owner } ∷ take_out id ls

abbrev pub taken_out : Option SyncError → Text → List Loop → List Loop
taken_out none id loops = take_out id loops
taken_out (some e) id loops = loops

abbrev pub owner_after_close : Owner → Owner
owner_after_close listed = waited
owner_after_close owner = owner

abbrev pub await_all : List Loop → List Loop
await_all [] = []
await_all (l ∷ ls) = record l { owner = owner_after_close l.owner } ∷ await_all ls

abbrev pub awaited : Option SyncError → List Loop → List Loop
awaited none loops = await_all loops
awaited (some e) loops = loops

abbrev pub added : IdleConfig → Machine → Machine
added config m =
    let r = add_account config m.pool in
    record { pool = r.1; loops = started r.0 config.account_id m.loops }

abbrev pub without : Text → Machine → Machine
without id m =
    let r = remove_account id m.pool in record { pool = r.1; loops = taken_out r.0 id m.loops }

abbrev pub closing : Machine → Machine
closing m = let r = begin_close m.pool in record { pool = r.1; loops = awaited r.0 m.loops }

-- What the pool's callers, its accounts' goroutines and the mail servers can do. A round of a
-- goroutine starts without a connection, since the loop of `runAccount` clears it. A goroutine can
-- end whenever it has no event to send.
pub data Step (m : Machine) : Machine → Type 0 where
  add : (config : IdleConfig) → Step m (added config m)
  remove : (id : Text) → Step m (without id m)
  close_starts : Step m (closing m)
  close_ends :
      m.pool.closed ≡ true
      → All (λ l. l.owner ≢ waited) m.loops
      → Step m (record m { pool = finish_close m.pool })
  check :
      (before after : List Loop) (l : Loop) (event : IdleEvent)
      → m.loops ≡ before ++ l ∷ after
      → l.pending ≡ none
      → may_send m.pool ≡ true
      → Step m (record m { loops = before ++ record l { pending = some event } ∷ after })
  send :
      (before after : List Loop) (l : Loop) (event : IdleEvent) (p : IdlePool)
      → m.loops ≡ before ++ l ∷ after
      → l.pending ≡ some event
      → send_event event m.pool ≡ some p
      → Step m (record { pool = p; loops = before ++ record l { pending = none } ∷ after })
  exit :
      (before after : List Loop) (l : Loop)
      → m.loops ≡ before ++ l ∷ after
      → l.pending ≡ none
      → Step m (record m { loops = before ++ after })
  round :
      (id : Text) (entry : AccountEntry) (stopped : Bool) (attempt : Attempt)
      → lookup id m.pool.accounts ≡ some entry
      → entry.connected ≡ false
      → m.pool.closed ≡ false
      → Step m (record m {
        pool = record m.pool {
          accounts = insert id (run_round stopped attempt entry).0 m.pool.accounts;
        };
      })
  lost :
      (id : Text) (entry : AccountEntry)
      → lookup id m.pool.accounts ≡ some entry
      → m.pool.closed ≡ false
      → Step m (record m {
        pool = record m.pool { accounts = insert id (connection_lost entry) m.pool.accounts };
      })

abbrev pub new_machine : Machine
new_machine = record { pool = new_idle_pool; loops = [] }

pub data Reach : Machine → Type 0 where
  start : Reach new_machine
  next : {m n : Machine} → Reach m → Step m n → Reach n
