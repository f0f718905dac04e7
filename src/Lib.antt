-- ===== src/Lib.antt =====
-- letterbox: an HTTP server in Go that watches IMAP mailboxes, stores what arrives, and tells
-- webhooks about it. Paths below are from the repository's root.
--
-- The parts and how they interact. The coordinator (internal/sync/coordinator.go) keeps each
-- account in a pool of IDLE connections or in a poller. Their events make it fetch the new UIDs of
-- a folder and hand each to the ingestion pipeline (internal/ingest/ingest.go), which stores the
-- attachments in the object store (internal/storage/s3.go) and the rows in the database. For each
-- email stored, the producer (internal/webhook/producer.go) queues a delivery for every webhook of
-- the account; the worker (internal/webhook/worker.go) delivers the queue's rows. Clients send
-- messages through the HTTP API (internal/api), which composes them (internal/composer).
--
-- Which file models which part:
-- - Prelude: the tests on numbers, lists, Go strings as lists of bytes, Go maps as association
--   lists, signed numbers, and texts joined by a separator.
-- - Domain: the records of internal/domain. UUIDs and times are natural numbers.
-- - Webhook.Queue: the table webhook_queue and the queries of internal/db/webhook_queue.sql.go.
-- - Webhook.Worker: WorkerConfig, run, processBatch, deliverWebhook, sendWebhook, markDelivered,
--   markFailed and scheduleRetry. A panic is `none`. The attempts are int32 in two's complement:
--   `wrap32` and `ge32` are `+ 1` and `>=` on them. Webhook.Worker.Lifecycle is Start and Stop.
-- - Webhook.Producer: QueueForEmail and buildPayload.
-- - Storage: NewS3Storage, AttachmentKey with filepath.Base, Exists, and Upload, Download and
--   Delete on a bucket.
-- - Ingest: IngestEmail, with the parts of internal/repository that it calls.
-- - Sync, Sync.Pool, Sync.Poller, Sync.Coordinator: the events, the two ways to watch an account,
--   and the coordinator. Sync.Coordinator.Membership adds and removes accounts, and
--   Sync.Poller.Status asks a server for the state of a folder.
-- - Composer: ComposeEmail with Validate, Build and AllRecipients (internal/composer/composer.go).
--   The message library sees the calls of its builder.
-- - Api (internal/api/message_handler.go): Api.Sending and its Handler are SendMessage, which
--   Api.Sending.Transfers puts over the SMTP client, Api.Originals finds the original message of a
--   reply or forward, Api.Quotes quotes it, Api.Threads reads message identifiers, Api.Subjects
--   makes subjects, over runes, and Api.Listing is ListMessages with the pagination of
--   internal/api/response.go.
-- - Net: programs over a protocol's calls. Smtp (internal/smtp/client.go) is SendEmail and
--   TestConnection, Smtp.Login the mechanism LOGIN, Imap (internal/imap/client.go) the operations
--   of the IMAP client, and Sync.Idle (internal/sync/idle.go) an IDLE connection and its events.
-- - The other handlers of internal/api: Api.Reading is GetMessage, Api.AccountHandler,
--   Api.WebhookHandler, Api.FolderHandler, Api.SearchHandler and Api.HealthHandler are the handlers
--   of the files named so, Api.Validation the messages of internal/api/response.go, and Api.Access
--   the API key and the groups of routes of internal/api/router.go.
-- - Emails: EmailRepository (internal/repository/email.go), its searches in Emails.Searches;
--   Emails.Rows is the table emails with the queries of internal/db/emails.sql.go.
--   Webhook.Repository: WebhookRepository (internal/repository/webhook.go) and the queries of
--   internal/db/webhooks.sql.go.
-- - Attachments: AttachmentRepository (internal/repository/attachment.go) but its Create, and the
--   queries of internal/db/attachments.sql.go.
-- - Config: Load (internal/config/config.go). Logging: RequestLogger and parseLevel
--   (internal/logging).
-- - Parser: Parse and envToEmail (internal/parser/parser.go), over the envelope of enmime.
-- - Crypto: Encrypt and Decrypt (internal/crypto/crypto.go), over a cipher that is a parameter.
-- - Accounts: AccountRepository (internal/repository/account.go) over the table accounts.
--
-- State is passed along explicitly: a `World` holds the tables and the bucket, and an `Env` the
-- answers of everything outside the program (IMAP and HTTP servers, database failures, the clock,
-- new identifiers, the order that a query gives to emails of the same date). Each answer may depend
-- on the number of calls made before, so that every sequence of answers is covered. Goroutines are
-- sequences of steps: the pool's callers, its accounts' loops, the two halves of its Close and the
-- mail servers interleave in any order in Sync.Pool.Steps, and the worker's loop is run for any
-- list of wakes of its select. Loops are structural recursion on the
-- list that they walk; the only fuel is that of `digits`, which prints a number n with fuel n + 1,
-- more than its digits. The protocol clients write down their calls, newest first, and an automaton
-- reads them: it says which call may follow which, and what a server has taken.
--
-- Not modelled: the network, the protocol and MIME libraries, which are parameters, the matching of
-- routes by chi, the coding of JSON, the rules of the validator, full-text search, envconfig, the
-- wiring of main, presigned URLs, and the cryptography of the standard library. Context
-- cancellation is an answer of the calls that observe it.
pub mod Prelude
pub mod Domain
pub mod Accounts
pub mod Api
pub mod Attachments
pub mod Composer
pub mod Config
pub mod Crypto
pub mod Emails
pub mod Imap
pub mod Ingest
pub mod Logging
pub mod Net
pub mod Parser
pub mod Smtp
pub mod Storage
pub mod Sync
pub mod Webhook
