-- ===== src/Api.antt =====
-- The HTTP API (internal/api): what its handlers compute.
pub mod Quotes
pub mod Threads
pub mod Subjects
pub mod Originals
pub mod Sending
pub mod Listing
pub mod Reading
pub mod AccountHandler
pub mod WebhookHandler
pub mod SearchHandler
pub mod FolderHandler
pub mod HealthHandler
pub mod Access
pub mod Validation
