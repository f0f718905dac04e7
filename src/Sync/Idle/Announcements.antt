-- ===== src/Sync/Idle/Announcements.antt =====
-- No announcement of the server is lost while a connection is open (internal/sync/idle.go).
use mathlib.Core.List.{append-nil}
use letterbox.Prelude.{
  ◌+◌, ◌≤◌, ◌<◌, ◌≡◌, refl, ap, ◌∙◌, sym, false, Option, none, some, List, [], ◌∷◌, ◌++◌,
  append_assoc, length, length-append, lt→ltb, arith,
}
use letterbox.Sync.{IdleEvent, IdleConfig, new_message, expunge, capacity}
use letterbox.Sync.Idle.{
  IdleConnection, new_connection, try_send, emit, handle_mailbox_update, handle_expunge, receive,
  received_from,
}
use letterbox.Sync.Idle.Channels.{Step, exists, expunged, received, closes, after, step}

-- The events that an open connection makes of what the server announces.
abbrev pub announced : IdleConfig → Step → List IdleEvent
announced config (exists (some n)) =
    record {
      event_type = new_message;
      account_id = config.account_id;
      folder = config.folder;
      num_messages = some n;
      seq_num = 0;
    }
    ∷ []
announced config (expunged seq_num) =
    record {
      event_type = expunge;
      account_id = config.account_id;
      folder = config.folder;
      num_messages = none;
      seq_num = seq_num;
    }
    ∷ []
announced config _ = []

abbrev pub announcements : IdleConfig → List Step → List IdleEvent
announcements config [] = []
announcements config (s ∷ steps) = announced config s ++ announcements config steps

abbrev given : Option IdleEvent → List IdleEvent
given none = []
given (some event) = event ∷ []

-- What a receive gives.
abbrev pub taken : Step → IdleConnection → List IdleEvent
taken received ic = given (receive ic).0
taken _ ic = []

abbrev onward :
    List IdleEvent → (IdleConnection → List IdleEvent) → Option IdleConnection → List IdleEvent
onward before rest none = before
onward before rest (some ic) = before ++ rest ic

-- The events received over the steps, and those that wait in the end.
abbrev pub seen : List Step → IdleConnection → List IdleEvent
seen [] ic = ic.events.buffer
seen (s ∷ steps) ic = onward (taken s ic) (seen steps) (step s ic)

abbrev pub NoClose : List Step → Type 0
NoClose [] = Unit
NoClose (closes ∷ steps) = ⊥
NoClose (_ ∷ steps) = NoClose steps

abbrev IsOpen : IdleConfig → IdleConnection → Type 0
IsOpen config ic = (ic.config ≡ config) × ((ic.closed ≡ false) × (ic.events.shut ≡ false))

-- A step that puts the events it announces behind those that wait.
abbrev Keeps : IdleConfig → Step → IdleConnection → IdleConnection → Type 0
Keeps config s ic ic' =
    IsOpen config ic' × (taken s ic ++ ic'.events.buffer ≡ ic.events.buffer ++ announced config s)

emit-Keeps :
    (event : IdleEvent) (ic : IdleConnection)
    → ic.closed ≡ false
    → ic.events.shut ≡ false
    → length ic.events.buffer < capacity
    → emit event ic
      ≡ some (record ic { events = record ic.events { buffer = ic.events.buffer ++ event ∷ [] } })
unfolding emit try_send
emit-Keeps event ic up unshut room =
    rw (up, unshut, lt→ltb (length ic.events.buffer) capacity room) refl

received_from-Keeps :
    (ic : IdleConnection) (buffer : List IdleEvent)
    → ic.events.buffer ≡ buffer
    → let r = received_from ic buffer in given r.0 ++ r.1.events.buffer ≡ ic.events.buffer ++ []
received_from-Keeps ic [] e = sym (append-nil ic.events.buffer)
received_from-Keeps ic (event ∷ rest) e = sym e ∙ sym (append-nil ic.events.buffer)

received_from-IsOpen :
    (config : IdleConfig) (ic : IdleConnection) (buffer : List IdleEvent)
    → IsOpen config ic
    → IsOpen config (received_from ic buffer).1
received_from-IsOpen config ic [] h = h
received_from-IsOpen config ic (event ∷ rest) h = h

step-Keeps :
    (config : IdleConfig) (s : Step) (ic : IdleConnection)
    → NoClose (s ∷ [])
    → IsOpen config ic
    → length ic.events.buffer + length (announced config s) ≤ capacity
    → (ic' : IdleConnection) × (step s ic ≡ some ic') × Keeps config s ic ic'
unfolding handle_mailbox_update handle_expunge receive
step-Keeps config (exists none) ic _ h room = (ic, refl, (h, sym (append-nil ic.events.buffer)))
step-Keeps config (exists (some n)) ic _ h room =
    rw (← h.0) (_, emit-Keeps _ ic h.1.0 h.1.1 (omega (arith, room)), ((refl, h.1), refl))
step-Keeps config (expunged seq_num) ic _ h room =
    rw (← h.0) (_, emit-Keeps _ ic h.1.0 h.1.1 (omega (arith, room)), ((refl, h.1), refl))
step-Keeps config closes ic shuts h room = elim shuts [ ]
step-Keeps config received ic _ h room = (
  (receive ic).1,
  refl,
  (received_from-IsOpen config ic ic.events.buffer h, received_from-Keeps ic ic.events.buffer refl),
)

NoClose-head :
    (s : Step) (steps : List Step) → NoClose (s ∷ steps) → NoClose (s ∷ []) × NoClose steps
NoClose-head (exists n) steps h = (tt, h)
NoClose-head (expunged seq_num) steps h = (tt, h)
NoClose-head received steps h = (tt, h)
NoClose-head closes steps h = elim h [ ]

remaining :
    (seen before new rest after : List IdleEvent)
    → seen ++ after ≡ before ++ new
    → length before + length (new ++ rest) ≤ capacity
    → (length before + length new ≤ capacity) × (length after + length rest ≤ capacity)
remaining seen before new rest after e fits =
    omega (
      arith,
      ap length e,
      length-append seen after,
      length-append before new,
      length-append new rest,
    )

seen-announcements :
    (config : IdleConfig) (steps : List Step) (ic : IdleConnection)
    → NoClose steps
    → IsOpen config ic
    → length ic.events.buffer + length (announcements config steps) ≤ capacity
    → seen steps ic ≡ ic.events.buffer ++ announcements config steps
seen-announcements config [] ic open_until h fits = sym (append-nil ic.events.buffer)
seen-announcements config (s ∷ steps) ic open_until h fits =
    let rest = announcements config steps in
    let parts = NoClose-head s steps open_until in
    let split =
      remaining [] ic.events.buffer (announced config s) rest
        (ic.events.buffer ++ announced config s) refl fits in
    let (ic', goes, (still, moved)) = step-Keeps config s ic parts.0 h split.0 in
    let fits' =
      (remaining (taken s ic) ic.events.buffer (announced config s) rest ic'.events.buffer moved
        fits).1 in
    ap (onward (taken s ic) (seen steps)) goes
    ∙ ap (λ t. taken s ic ++ t) (seen-announcements config steps ic' parts.1 still fits')
    ∙ sym (append_assoc (taken s ic) ic'.events.buffer rest)
    ∙ ap (λ t. t ++ rest) moved
    ∙ append_assoc ic.events.buffer (announced config s) rest

-- As long as a connection is open and the server announces at most 100 changes, none is lost: the
-- events that are received and those that wait are, in order, those announced, however the
-- receives fall between the announcements.
pub seen-new_connection :
    (config : IdleConfig) (steps : List Step)
    → NoClose steps
    → length (announcements config steps) ≤ 100
    → seen steps (new_connection config) ≡ announcements config steps
seen-new_connection config steps open_until fits =
    seen-announcements config steps (new_connection config) open_until (refl, (refl, refl))
      (omega (arith, fits))
