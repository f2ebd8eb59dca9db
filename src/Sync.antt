-- ===== src/Sync.antt =====
-- internal/shopifysync and the SQL behind it: `Model` has the records, `Handler` the job handler.
mod Model
mod Handler
pub use Model.*
pub use Handler.*
unfoldable pub use Model.{validate_request}
unfoldable pub use Handler.{handle, classify_handler_error}
