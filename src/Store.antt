-- ===== src/Store.antt =====
-- The PostgreSQL state of the synchronisation: internal/platform/postgres.
mod Tables
mod Database
mod Enqueue
mod Columns
mod Replace
pub mod Bound
mod Webhook
pub mod Queued
pub mod Commit
pub mod Freed
pub mod Completion
pub mod Events
pub mod Later
pub mod Deduplication
pub mod Request
pub mod Contents
pub mod Replacement
pub mod Runs
pub use Database.*
unfoldable pub use Database.{upsert, upsert_all, remove_missing}
pub use Tables.*
pub use Runs.*
unfoldable pub use Runs.{
  start_sync_run, heartbeat_sync_run, fail_sync_run, complete_sync_run, started_row, heartbeat_row,
  failed_row, completed_row,
}
pub use Enqueue.*
pub use Columns.*
pub use Replace.*
pub use Webhook.*
unfoldable pub use Enqueue.{enqueue_sync_run, create_body, create_sync_run}
unfoldable pub use Columns.{product_columns, variant_columns, collection_columns, bind_batch}
unfoldable pub use Replace.{
  replace_bound, replace_body, mark_synchronized, follow_up, upsert_mirrors,
  remove_missing_mirror_rows, write_batch, replace_mirror,
}
unfoldable pub use Webhook.{
  topic_triggers_mirror, disconnect_webhook_store, enqueue_webhook_sync, record_event,
}
