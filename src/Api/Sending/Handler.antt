-- ===== src/Api/Sending/Handler.antt =====
-- The handler of requests to send a message (SendMessage in internal/api/message_handler.go).
use letterbox.Prelude.{
  ℕ, Text, is_empty, Bool, true, false, ◌&&◌, ◌||◌, not, Option, none, some, List, [], ◌∷◌, ◌++◌,
  if◌then◌else◌,
}
use letterbox.Domain.{Account}
use letterbox.Ingest
use letterbox.Ingest.{
  AccountLookup, FetchError, Result, ok, err, IngestError, uploading, storing_attachment,
  create_email,
}
use letterbox.Composer
use letterbox.Composer.{ComposeEmail, Call, Built, raw, build, all_recipients}
use letterbox.Api.Threads.{extract_message_id}
use letterbox.Api.Originals.{
  OriginalError, Found, found, failed, ReplyForwardContext, build_reply_context,
  build_forward_context,
}
use letterbox.Api.Sending.{
  SendMessageRequest, Sent, Env, World, Response, success, error, or_default, folder_of,
  smtp_config, compose, parse_attachments, store_sent_email,
}

module _ (env : Env) where
  abbrev pub sent_as : Account → ComposeEmail → Text → Sent
  sent_as account e bytes = record {
    config = smtp_config account;
    sender = account.imap_user;
    recipients = all_recipients e;
    bytes = bytes;
  }

  -- From the built message to the response
  unfoldable pub deliver :
      Account → SendMessageRequest → ComposeEmail → Built → World → Response × World
  unfolding store_sent_email smtp_config all_recipients extract_message_id
  deliver account req e (Built.invalid _) w = (error 400, w)
  deliver account req e Built.encoding_failed w = (error 400, w)
  deliver account req e (raw bytes) w =
      let store = Ingest.tick w.store in
      if env.smtp_accepts w.store.calls (sent_as account e bytes)
      then (
        success (extract_message_id bytes),
        record {
          store = store_sent_email env account bytes req store;
          sent = w.sent ++ sent_as account e bytes ∷ [];
        },
      )
      else (error 502, record w { store = store })

  unfoldable pub send_composed :
      Account → SendMessageRequest → ComposeEmail → World → Response × World
  unfolding deliver build
  send_composed account req e w =
      deliver account req e
        (build env.parses env.encode (env.new_uuid w.store.calls)
          (env.originals.ingester.now w.store.calls) e)
        (record w { store = Ingest.tick w.store })

  unfoldable pub is_not_found : OriginalError → Bool
  is_not_found OriginalError.email_not_found = true
  is_not_found (OriginalError.ingesting (IngestError.fetching FetchError.message_not_found)) = true
  is_not_found _ = false

  unfoldable pub is_about_attachments : OriginalError → Bool
  is_about_attachments OriginalError.fetching_attachments = true
  is_about_attachments (OriginalError.ingesting uploading) = true
  is_about_attachments (OriginalError.ingesting storing_attachment) = true
  is_about_attachments e = env.mentions_attachment e

  unfoldable pub after_reply :
      Account
      → SendMessageRequest
      → List Composer.Attachment
      → List Sent
      → Found ReplyForwardContext × Ingest.World
      → Response × World
  unfolding send_composed is_not_found compose
  after_reply account req atts sent (failed e, store) =
      (error (if is_not_found e then 404 else 500), record { store = store; sent = sent })
  after_reply account req atts sent (found context, store) =
      send_composed account req (compose account req (some context) atts)
        (record { store = store; sent = sent })

  unfoldable pub after_forward :
      Account
      → SendMessageRequest
      → List Composer.Attachment
      → List Sent
      → Found (ReplyForwardContext × List Composer.Attachment) × Ingest.World
      → Response × World
  unfolding send_composed is_not_found is_about_attachments compose
  after_forward account req atts sent (failed e, store) = (
    error (if is_not_found e then 404 else if is_about_attachments e then 502 else 500),
    record { store = store; sent = sent },
  )
  after_forward account req atts sent (found (context, originals), store) =
      send_composed account req (compose account req (some context) (originals ++ atts))
        (record { store = store; sent = sent })

  unfoldable pub with_context :
      ℕ
      → Account
      → SendMessageRequest
      → List Composer.Attachment
      → Option ℕ
      → Option ℕ
      → World
      → Response × World
  unfolding after_reply after_forward build_reply_context build_forward_context
  with_context id account req atts (some uid) _ w = after_reply account req atts w.sent (
      build_reply_context env.originals id (folder_of req) uid (or_default true req.quote_original)
        w.store)
  with_context id account req atts none (some uid) w = after_forward account req atts w.sent (
      build_forward_context env.originals id (folder_of req) uid
        (or_default true req.quote_original) req.include_attachments w.store)
  with_context id account req atts none none w =
      send_composed account req (compose account req none atts) w

  unfoldable pub with_attachments :
      ℕ
      → Account
      → SendMessageRequest
      → Option (List Composer.Attachment)
      → World
      → Response × World
  unfolding with_context
  with_attachments id account req none w = (error 400, w)
  with_attachments id account req (some atts) w =
      with_context id account req atts req.reply_to req.forward w

  unfoldable pub with_account : ℕ → SendMessageRequest → AccountLookup → World → Response × World
  unfolding with_attachments parse_attachments
  with_account id req AccountLookup.not_found w = (error 404, w)
  with_account id req AccountLookup.failed w = (error 500, w)
  with_account id req (AccountLookup.found account) w =
      if is_empty account.smtp_host
      then (error 400, w)
      else with_attachments id account req (parse_attachments env req.attachments) w

  abbrev is_given : Option ℕ → Bool
  is_given none = false
  is_given (some uid) = true

  -- The checks of the request that need nothing else.
  abbrev pub is_refused : SendMessageRequest → Bool
  is_refused req =
      not (env.is_valid req)
      || (is_given req.reply_to && is_given req.forward || is_empty req.text && is_empty req.html)

  unfoldable pub with_request : ℕ → Option SendMessageRequest → World → Response × World
  unfolding with_account
  with_request id none w = (error 400, w)
  with_request id (some req) w =
      if is_refused req
      then (error 400, w)
      else with_account id req (env.originals.ingester.get_account w.store.calls id)
          (record w { store = Ingest.tick w.store })

  unfoldable pub with_id : Option ℕ → Text → World → Response × World
  unfolding with_request
  with_id none body w = (error 400, w)
  with_id (some id) body w = with_request id (env.decode_json body) w

  unfoldable pub send_message : Text → Text → World → Response × World
  unfolding with_id
  send_message account_id body w = with_id (env.parse_uuid account_id) body w
