-- ===== src/Api/Sending/Outcomes.antt =====
-- What a request to send a message comes to (SendMessage in internal/api/message_handler.go).
use letterbox.Prelude.{
  ℕ, ◌+◌, ◌≤◌, ◌≡◌, refl, Text, codes, is_empty, Bool, true, false, Option, none, some, List, [],
  ◌∷◌, ◌++◌, if◌then◌else◌, if_ind, arith, ==_iff, text_eq_iff,
}
use letterbox.Domain.{Account, Email}
use letterbox.Ingest
use letterbox.Ingest.{AccountLookup, exists_by_uid, create_email, same_message}
use letterbox.Ingest.Unique.{exists_by_uid-append}
use letterbox.Composer
use letterbox.Composer.{ComposeEmail, Built, raw, build, all_recipients}
use letterbox.Composer.Building.{IsBuilt, build-IsBuilt}
use letterbox.Api.Threads.{extract_message_id}
use letterbox.Api.Originals.{Found, found, failed, ReplyForwardContext}
use letterbox.Api.Sending.{
  Env, World, Sent, Response, success, error, SendMessageRequest, sent_input, store_sent_email,
  compose,
}
use letterbox.Api.Sending.Handler.{
  sent_as, deliver, send_composed, is_not_found, is_about_attachments, after_reply, after_forward,
  with_context, with_attachments, with_account, with_request, with_id, send_message, is_refused,
}

-- A message was sent, which the SMTP server accepted and which is a valid one that was built, for the
-- recipients of its envelope; or
-- none was sent, and the status is that of an error.
pub data Outcome (env : Env) (sent : List Sent) : Response × World → Type 0 where
  delivered :
      (s : Sent) (e : ComposeEmail) (uuid : Text) (now n : ℕ) (store : Ingest.World)
      → env.smtp_accepts n s ≡ true
      → IsBuilt env.parses env.encode uuid now e s.bytes
      → s.recipients ≡ all_recipients e
      → Outcome env sent
          (success (extract_message_id s.bytes), record { store = store; sent = sent ++ s ∷ [] })
  refused :
      (code : ℕ) (store : Ingest.World)
      → 400 ≤ code
      → Outcome env sent (error code, record { store = store; sent = sent })

module _ (env : Env) where
  deliver-Outcome :
      (account : Account) (req : SendMessageRequest) (e : ComposeEmail) (uuid : Text) (now : ℕ)
      (b : Built) (w : World)
      → build env.parses env.encode uuid now e ≡ b
      → Outcome env w.sent (deliver env account req e b w)
  unfolding deliver
  deliver-Outcome account req e uuid now (Built.invalid _) w eq = refused 400 w.store (omega arith)
  deliver-Outcome account req e uuid now Built.encoding_failed w eq =
      refused 400 w.store (omega arith)
  deliver-Outcome account req e uuid now (raw bytes) w eq =
      if_ind (Outcome env w.sent) (env.smtp_accepts w.store.calls (sent_as env account e bytes)) _ _
        (λ accepted.
          delivered (sent_as env account e bytes) e uuid now w.store.calls
            (store_sent_email env account bytes req (Ingest.tick w.store)) accepted
            (build-IsBuilt env.parses env.encode uuid now e bytes eq) refl)
        (λ _. refused 502 (Ingest.tick w.store) (omega arith))

  send_composed-Outcome :
      (account : Account) (req : SendMessageRequest) (e : ComposeEmail) (w : World)
      → Outcome env w.sent (send_composed env account req e w)
  unfolding send_composed
  send_composed-Outcome account req e w =
      deliver-Outcome account req e _ _ _ (record w { store = Ingest.tick w.store }) refl

  -- Any code of an error is at least 400.
  refused_if :
      (b : Bool) (code code' : ℕ) (store : Ingest.World) (sent : List Sent)
      → 400 ≤ code
      → 400 ≤ code'
      → Outcome env sent (error (if b then code else code'), record { store = store; sent = sent })
  refused_if true code code' store sent h h' = refused code store h
  refused_if false code code' store sent h h' = refused code' store h'

  after_reply-Outcome :
      (account : Account) (req : SendMessageRequest) (atts : List Composer.Attachment)
      (sent : List Sent) (r : Found ReplyForwardContext) (store : Ingest.World)
      → Outcome env sent (after_reply env account req atts sent (r, store))
  unfolding after_reply
  after_reply-Outcome account req atts sent (failed e) store =
      refused_if (is_not_found env e) 404 500 store sent (omega arith) (omega arith)
  after_reply-Outcome account req atts sent (found context) store =
      send_composed-Outcome account req (compose account req (some context) atts)
        (record { store = store; sent = sent })

  error_code : (b : Bool) → 400 ≤ (if b then 502 else 500)
  error_code true = omega arith
  error_code false = omega arith

  after_forward-Outcome :
      (account : Account) (req : SendMessageRequest) (atts : List Composer.Attachment)
      (sent : List Sent) (r : Found (ReplyForwardContext × List Composer.Attachment))
      (store : Ingest.World)
      → Outcome env sent (after_forward env account req atts sent (r, store))
  unfolding after_forward
  after_forward-Outcome account req atts sent (failed e) store =
      refused_if (is_not_found env e) 404 (if is_about_attachments env e then 502 else 500) store
        sent (omega arith) (error_code (is_about_attachments env e))
  after_forward-Outcome account req atts sent (found (context, originals)) store =
      send_composed-Outcome account req (compose account req (some context) (originals ++ atts))
        (record { store = store; sent = sent })

  with_context-Outcome :
      (id : ℕ) (account : Account) (req : SendMessageRequest) (atts : List Composer.Attachment)
      (reply_to forward : Option ℕ) (w : World)
      → Outcome env w.sent (with_context env id account req atts reply_to forward w)
  unfolding with_context
  with_context-Outcome id account req atts (some uid) forward w =
      after_reply-Outcome account req atts w.sent _ _
  with_context-Outcome id account req atts none (some uid) w =
      after_forward-Outcome account req atts w.sent _ _
  with_context-Outcome id account req atts none none w =
      send_composed-Outcome account req (compose account req none atts) w

  with_attachments-Outcome :
      (id : ℕ) (account : Account) (req : SendMessageRequest)
      (atts : Option (List Composer.Attachment)) (w : World)
      → Outcome env w.sent (with_attachments env id account req atts w)
  unfolding with_attachments
  with_attachments-Outcome id account req none w = refused 400 w.store (omega arith)
  with_attachments-Outcome id account req (some atts) w =
      with_context-Outcome id account req atts req.reply_to req.forward w

  with_account-Outcome :
      (id : ℕ) (req : SendMessageRequest) (l : AccountLookup) (w : World)
      → Outcome env w.sent (with_account env id req l w)
  unfolding with_account
  with_account-Outcome id req AccountLookup.not_found w = refused 404 w.store (omega arith)
  with_account-Outcome id req AccountLookup.failed w = refused 500 w.store (omega arith)
  with_account-Outcome id req (AccountLookup.found account) w =
      if_ind (Outcome env w.sent) (is_empty account.smtp_host) _ _
        (λ _. refused 400 w.store (omega arith)) (λ _. with_attachments-Outcome id account req _ w)

  with_request-Outcome :
      (id : ℕ) (o : Option SendMessageRequest) (w : World)
      → Outcome env w.sent (with_request env id o w)
  unfolding with_request
  with_request-Outcome id none w = refused 400 w.store (omega arith)
  with_request-Outcome id (some req) w =
      if_ind (Outcome env w.sent) (is_refused env req) _ _ (λ _. refused 400 w.store (omega arith))
        (λ _. with_account-Outcome id req _ (record w { store = Ingest.tick w.store }))

  with_id-Outcome :
      (o : Option ℕ) (body : Text) (w : World) → Outcome env w.sent (with_id env o body w)
  unfolding with_id
  with_id-Outcome none body w = refused 400 w.store (omega arith)
  with_id-Outcome (some id) body w = with_request-Outcome id (env.decode_json body) w

  -- Whatever the request, and whatever fails: SendMessage either answers with success, and exactly
  -- one message was sent, a valid one that was built, which the SMTP server accepted for all of its
  -- recipients, and the answer is what extractMessageID reads of its bytes; or it answers with an
  -- error of 400 or more, and nothing was sent.
  pub send_message-Outcome :
      (account_id body : Text) (w : World) → Outcome env w.sent (send_message env account_id body w)
  unfolding send_message
  send_message-Outcome account_id body w = with_id-Outcome (env.parse_uuid account_id) body w

  stays :
      (account : Account) (bytes : Text) (req : SendMessageRequest) (store : Ingest.World)
      → exists_by_uid account.id (codes "Sent") 0 store.emails ≡ true
      → (store_sent_email env account bytes req store).emails ≡ store.emails
  unfolding store_sent_email create_email
  stays account bytes req store old = ground (arith, old)

  -- A message that storeSentEmail adds to the table: the sent bytes, under folder Sent and UID 0.
  pub record IsStored (account : Account) (bytes : Text) (before after : List Email) : Type 0 where
    pub row : Email
    pub appended : after ≡ before ++ row ∷ []
    pub account_eq : row.account_id ≡ account.id
    pub folder_eq : row.folder ≡ codes "Sent"
    pub uid_eq : row.uid ≡ 0
    pub raw_eq : row.raw ≡ bytes

  stores :
      (account : Account) (bytes : Text) (req : SendMessageRequest) (store : Ingest.World)
      → exists_by_uid account.id (codes "Sent") 0 store.emails ≡ false
      → env.originals.ingester.fails (store.calls + 1) ≡ false
      → IsStored account bytes store.emails (store_sent_email env account bytes req store).emails
  unfolding store_sent_email create_email
  stores account bytes req store new works = record {
    row =
        Ingest.inserted env.originals.ingester
          (sent_input env account bytes req (env.originals.ingester.now store.calls))
          (store.calls + 1);
    appended = rw (works, store_sent_email) (rw (new, create_email) refl);
    account_eq = refl;
    folder_eq = refl;
    uid_eq = refl;
    raw_eq = refl;
  }

  stored-exists :
      (account : Account) (bytes : Text) (before after : List Email)
      → IsStored account bytes before after
      → exists_by_uid account.id (codes "Sent") 0 after ≡ true
  unfolding same_message
  stored-exists account bytes before after h = rw h.appended (
      ground (
        arith,
        exists_by_uid-append account.id (codes "Sent") 0 before h.row,
        ==_iff h.row.account_id account.id,
        text_eq_iff h.row.folder (codes "Sent"),
        ==_iff h.row.uid 0,
      ))

  -- Let an account have no stored message of folder Sent and UID 0, and the insert work. Then
  -- storeSentEmail stores the first message that is sent, with its bytes; and a second one of the
  -- account that is sent after it, whichever it is, is not stored: the table stays as after the
  -- first.
  pub store_sent_email-second :
      (account : Account) (bytes bytes' : Text) (req req' : SendMessageRequest)
      (store : Ingest.World)
      → exists_by_uid account.id (codes "Sent") 0 store.emails ≡ false
      → env.originals.ingester.fails (store.calls + 1) ≡ false
      → let first = store_sent_email env account bytes req store in
        IsStored account bytes store.emails first.emails
        × ((store_sent_email env account bytes' req' first).emails ≡ first.emails)
  store_sent_email-second account bytes bytes' req req' store new works =
      let first = store_sent_email env account bytes req store in
      let h = stores account bytes req store new works in
      (h, stays account bytes' req' first (stored-exists account bytes store.emails first.emails h))
