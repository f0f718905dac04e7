-- ===== src/Sync/Pool/Soundness.antt =====
-- What holds of the pool however its steps interleave (internal/sync/pool.go).
use letterbox.Prelude.{
  ◌≤◌, ◌≡◌, ◌≢◌, refl, Bool-cases, inl, inr, Text, true, false, Option, none, some, List, [], ◌∷◌,
  ◌++◌, length, length-append, ltb, All, if_ind, ltb→lt, arith,
}
use mathlib.Core.Path.{subst}
use letterbox.Prelude.Maps.{Map, lookup, insert, delete, All-delete, All-lookup}
use letterbox.Sync.{IdleEvent, IdleConfig, SyncError, capacity, try_send, validate}
use letterbox.Sync.Pool.{
  AccountEntry, IdlePool, new_entry, add_account, remove_account, begin_close, send_event, is_some,
  add_validated,
}
use letterbox.Sync.Pool.Backoff.{
  IsBackedOff, new_entry-IsBackedOff, run_round-IsBackedOff, connection_lost-IsBackedOff,
}
use letterbox.Sync.Pool.Steps.{
  Owner, listed, removed, waited, Loop, Machine, started, taken_out, take_out, owner_after_close,
  await_all, awaited, without, closing, Step, add, remove, close_starts, close_ends, check, send,
  exit, round, lost, Reach, start, next,
}

pub record IsSound (m : Machine) : Type 0 where
  pub backed_off : All (λ e. IsBackedOff e.1) m.pool.accounts
  pub bounded : length m.pool.events ≤ capacity
  pub emptied : m.pool.closed ≡ true → m.pool.accounts ≡ []
  pub unlisted : m.pool.closed ≡ true → All (λ l. l.owner ≢ listed) m.loops
  pub channel : m.pool.events_closed ≡ true → m.pool.closed ≡ true
  pub gone : m.pool.events_closed ≡ true → All (λ l. l.owner ≡ removed) m.loops

-- While the pool is open, its accounts may be replaced by others that are backed off, and its
-- goroutines by any.
open-IsSound :
    (m : Machine) (accounts : Map AccountEntry) (loops : List Loop)
    → m.pool.closed ≡ false
    → All (λ e. IsBackedOff e.1) accounts
    → IsSound m
    → IsSound (record { pool = record m.pool { accounts = accounts }; loops = loops })
open-IsSound m accounts loops running backed h = record {
  backed_off = backed;
  bounded = h.bounded;
  emptied = λ shut. absurd (cc (shut, running));
  unlisted = λ shut. absurd (cc (shut, running));
  channel = h.channel;
  gone = λ shut. absurd (cc (h.channel shut, running));
}

insert-IsSound :
    (m : Machine) (id : Text) (entry : AccountEntry) (loops : List Loop)
    → m.pool.closed ≡ false
    → IsBackedOff entry
    → IsSound m
    → IsSound (record {
      pool = record m.pool { accounts = insert id entry m.pool.accounts };
      loops = loops;
    })
unfolding insert
insert-IsSound m id entry loops running backed h =
    open-IsSound m (insert id entry m.pool.accounts) loops running
      (backed, All-delete IsBackedOff id m.pool.accounts h.backed_off) h

add_validated-IsSound :
    (config : IdleConfig) (e : Option SyncError) (m : Machine)
    → IsSound m
    → let r = add_validated config e m.pool in
      IsSound (record { pool = r.1; loops = started r.0 config.account_id m.loops })
unfolding add_validated
add_validated-IsSound config (some e) m h = h
add_validated-IsSound config none m h =
    let Sound : Option SyncError × IdlePool → Type 0 =
      λ r. IsSound (record { pool = r.1; loops = started r.0 config.account_id m.loops }) in
    if_ind Sound m.pool.closed _ _ (λ _. h)
      (λ running.
        if_ind Sound (is_some (lookup config.account_id m.pool.accounts)) _ _ (λ _. h)
          (λ _.
            insert-IsSound m config.account_id (new_entry config)
              (started none config.account_id m.loops) running (new_entry-IsBackedOff config) h))

remove_account-IsSound : (id : Text) (m : Machine) → IsSound m → IsSound (without id m)
unfolding remove_account
remove_account-IsSound id m h =
    let Sound : Option SyncError × IdlePool → Type 0 =
      λ r. IsSound (record { pool = r.1; loops = taken_out r.0 id m.loops }) in
    if_ind Sound m.pool.closed _ _ (λ _. h)
      (λ running.
        if_ind Sound (is_some (lookup id m.pool.accounts)) _ _
          (λ _.
            open-IsSound m (delete id m.pool.accounts) (take_out id m.loops) running
              (All-delete IsBackedOff id m.pool.accounts h.backed_off) h)
          (λ _. h))

unlisted-await_all : (loops : List Loop) → All (λ l. l.owner ≢ listed) (await_all loops)
unlisted-await_all [] = tt
unlisted-await_all (l ∷ ls) = (unlisted l.owner, unlisted-await_all ls)
  where
    unlisted : (o : Owner) → owner_after_close o ≢ listed
    unlisted listed e = cc
    unlisted removed e = cc
    unlisted waited e = cc

begin_close-IsSound : (m : Machine) → IsSound m → IsSound (closing m)
unfolding begin_close
begin_close-IsSound m h =
    if_ind
      (λ (r : Option SyncError × IdlePool).
        IsSound (record { pool = r.1; loops = awaited r.0 m.loops }))
      m.pool.closed _ _ (λ _. h)
      (λ running. record {
        backed_off = tt;
        bounded = h.bounded;
        emptied = λ _. refl;
        unlisted = λ _. unlisted-await_all m.loops;
        channel = λ shut. absurd (cc (h.channel shut, running));
        gone = λ shut. absurd (cc (h.channel shut, running));
      })

-- Nobody of the map and nobody that is waited for: only removed ones are left.
only_removed :
    (loops : List Loop)
    → All (λ l. l.owner ≢ listed) loops
    → All (λ l. l.owner ≢ waited) loops
    → All (λ l. l.owner ≡ removed) loops
only_removed [] h h' = tt
only_removed (l ∷ ls) h h' = (left l.owner h.0 h'.0, only_removed ls h.1 h'.1)
  where
    left : (o : Owner) → o ≢ listed → o ≢ waited → o ≡ removed
    left listed a b = absurd (a refl)
    left removed a b = refl
    left waited a b = absurd (b refl)

module _ (P : Owner → Type 0) (l : Loop) (after : List Loop) where
  owners-replaced :
      (l' : Loop) (before : List Loop)
      → l'.owner ≡ l.owner
      → All (λ l. P l.owner) (before ++ l ∷ after)
      → All (λ l. P l.owner) (before ++ l' ∷ after)
  owners-replaced l' [] same h = (rw same h.0, h.1)
  owners-replaced l' (x ∷ before) same h = (h.0, owners-replaced l' before same h.1)

  owners-without :
      (before : List Loop)
      → All (λ l. P l.owner) (before ++ l ∷ after)
      → All (λ l. P l.owner) (before ++ after)
  owners-without [] h = h.1
  owners-without (x ∷ before) h = (h.0, owners-without before h.1)

-- The goroutines may change as long as their owners are those of before.
with_loops-IsSound :
    (m : Machine) (loops : List Loop)
    → ((P : Owner → Type 0) → All (λ l. P l.owner) m.loops → All (λ l. P l.owner) loops)
    → IsSound m
    → IsSound (record m { loops = loops })
with_loops-IsSound m loops keeps h = record {
  backed_off = h.backed_off;
  bounded = h.bounded;
  emptied = h.emptied;
  unlisted = λ shut. keeps (λ o. o ≢ listed) (h.unlisted shut);
  channel = h.channel;
  gone = λ shut. keeps (λ o. o ≡ removed) (h.gone shut);
}

try_send-bounded :
    (e : IdleEvent) (events : List IdleEvent)
    → length events ≤ capacity
    → length (try_send e events) ≤ capacity
unfolding try_send
try_send-bounded e events h =
    if_ind (λ es. length es ≤ capacity) (ltb (length events) capacity) (events ++ e ∷ []) events
      (λ room. omega (arith, ltb→lt (length events) capacity room, length-append events (e ∷ [])))
      (λ _. h)

opened : {o : Option IdlePool} {p q : IdlePool} → o ≡ some p → o ≡ some q → p ≡ q
opened is is' = cc (is, is')

sent_open :
    (e : IdleEvent) (p : IdlePool)
    → p.events_closed ≡ false
    → send_event e p ≡ some (record p { events = try_send e p.events })
unfolding send_event
sent_open e p unshut = rw unshut refl

send_event-IsSound :
    (e : IdleEvent) (m : Machine) (p : IdlePool)
    → send_event e m.pool ≡ some p
    → IsSound m
    → IsSound (record m { pool = p })
unfolding send_event
send_event-IsSound e m p sent h = elim (Bool-cases m.pool.events_closed) [
  | inl shut ↦ absurd (cc (sent, shut))
  | inr unshut ↦
      subst (λ q. IsSound (record m { pool = q })) (opened (sent_open e m.pool unshut) sent)
        (record {
          backed_off = h.backed_off;
          bounded = try_send-bounded e m.pool.events h.bounded;
          emptied = h.emptied;
          unlisted = h.unlisted;
          channel = h.channel;
          gone = h.gone;
        })
]

Step-IsSound : {m n : Machine} → Step m n → IsSound m → IsSound n
unfolding add_account
Step-IsSound {m = m} (add config) h = add_validated-IsSound config (validate config) m h
Step-IsSound {m = m} (remove id) h = remove_account-IsSound id m h
Step-IsSound {m = m} close_starts h = begin_close-IsSound m h
Step-IsSound {m = m} (close_ends shut waits) h = record {
  backed_off = h.backed_off;
  bounded = h.bounded;
  emptied = h.emptied;
  unlisted = h.unlisted;
  channel = λ _. shut;
  gone = λ _. only_removed m.loops (h.unlisted shut) waits;
}
Step-IsSound {m = m} (check before after l event is idle running) h =
    with_loops-IsSound m _
      (λ P k.
        owners-replaced P l after (record l { pending = some event }) before refl
          (subst (λ ls. All (λ l. P l.owner) ls) is k))
      h
Step-IsSound {m = m} (send before after l event p is ready sent) h =
    with_loops-IsSound (record m { pool = p }) _
      (λ P k.
        owners-replaced P l after (record l { pending = none }) before refl
          (subst (λ ls. All (λ l. P l.owner) ls) is k))
      (send_event-IsSound event m p sent h)
Step-IsSound {m = m} (exit before after l is idle) h =
    with_loops-IsSound m _
      (λ P k. owners-without P l after before (subst (λ ls. All (λ l. P l.owner) ls) is k)) h
Step-IsSound {m = m} (round id entry stopped attempt here idle running) h =
    insert-IsSound m id _ m.loops running
      (run_round-IsBackedOff stopped attempt entry idle
        (All-lookup IsBackedOff id m.pool.accounts entry h.backed_off here))
      h
Step-IsSound {m = m} (lost id entry here running) h =
    insert-IsSound m id _ m.loops running
      (connection_lost-IsBackedOff entry
        (All-lookup IsBackedOff id m.pool.accounts entry h.backed_off here))
      h

-- Whatever the callers do and the servers answer, in any order, with Close between its lock and
-- its end too: the backoff of every account is 2 to the number of its failures since the last
-- connection, at most the maximum of five minutes; a connected account has none; the buffer of
-- events is within its capacity; a closed pool has no accounts, and no goroutine of one; its channel
-- is closed only if it is, and then every goroutine that is left is of an account that
-- RemoveAccount took out, so that no other can send on the closed channel.
pub Reach-IsSound : {m : Machine} → Reach m → IsSound m
Reach-IsSound start = record {
  backed_off = tt;
  bounded = omega arith;
  emptied = λ shut. absurd (cc);
  unlisted = λ shut. tt;
  channel = λ shut. absurd (cc);
  gone = λ shut. tt;
}
Reach-IsSound (next r step) = Step-IsSound step (Reach-IsSound r)
