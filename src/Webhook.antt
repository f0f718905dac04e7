-- ===== src/Webhook.antt =====
-- The webhook component: the delivery queue (internal/db/webhook_queue.sql.go) and the worker and
-- producer of internal/webhook.
pub mod Queue
pub mod Repository
pub mod Worker
pub mod Producer
mod Examples
