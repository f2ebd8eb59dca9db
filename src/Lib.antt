-- ===== src/Lib.antt =====
-- The back end of the Shopify management platform (backend/): the job queue, the worker, the
-- synchronisation of Shopify stores, the PostgreSQL state behind it, and who may use the API.
--
-- A webhook or a request creates a queued run (shopify_sync_runs) and, in the same transaction, a
-- message in outbox_messages. The outbox publishes the message to RabbitMQ; a worker consumes it,
-- takes a lease on the run, fetches the store and replaces the mirrored rows in one transaction
-- that also completes the run.
--
-- Base: the libraries' names, Boolean tests, lists, texts, bytes, association lists.
-- Errors: the Go error values that cross the packages, with errors.As and errors.Is.
-- Jobs: backend/internal/jobs/envelope.go; encoding/json is the record `Codec` of its operations and laws.
-- Queue: backend/internal/platform/queue/queue.go. `Headers` has headerAttempt, safeCause and
--   shouldPreserveAttempt; `Publish` has (*Client).publish, Publish and LazyPublisher; `Delivery` has
--   Envelope, Ack, Retry and DeadLetter. `Settlement` and `Attempts` have the proofs.
-- Sync: backend/internal/shopifysync/models.go (`Model`) and handler.go (`Handler`).
-- Worker: processDelivery and safeHandle of backend/cmd/worker/main.go, over processed_jobs of
--   backend/internal/platform/postgres/jobs.go.
-- Mirror: normalizeMirrorBatch of backend/internal/platform/postgres/shopify_mirror.go.
-- Store: the tables. `Runs` has StartSyncRun, HeartbeatSyncRun, FailSyncRun and the completion of
--   a run; `Enqueue` has CreateSyncRun and enqueueSyncRunTx; `Replace` has ReplaceMirror, on the
--   columns of `Columns`; `Webhook`
--   has RecordShopifyEventAndOutbox of backend/internal/platform/postgres/shopify_webhook.go. `Completion`,
--   `Deduplication` (over the transactions of `Later`) and `Request` prove what a mirror commit, a
--   webhook event and a request do.
-- Outbox: PublishOutboxBatch, claimOutbox, completeOutbox, retryOutbox and outboxBackoff of
--   backend/internal/platform/postgres/outbox.go. `Backoff` has the delays, `Progress` and `Delivery` what a
--   batch leaves behind.
-- Token: backend/internal/shopifysync/token_manager.go; `Locked` has WithLockedConnection of
--   backend/internal/platform/postgres/shopify_credentials.go and AccessToken, `Scopes`,
--   `Outcomes`, `Rotation` and `Kept` the proofs. The cipher, the token endpoint and encoding/json are the record `Provider`.
-- Bulk: backend/internal/shopifysync/decoder.go, the JSONL results of bulk operations.
-- Service: backend/internal/shopifysync/service.go. `Calls` has the heartbeat beside the calls, `Sync` the
--   synchronisation, over the interface `SyncRepository`, which `Postgres` fills with the operations
--   of Store. The loop of waitForBulk runs on fuel, one more than the nanoseconds that are left until
--   the deadline, which `Polls` proves to be enough for sleepContext; a Sleeper, which only tests
--   set, brings its own bound. `Release` and `Stored` have what Sync leaves.
-- Config: backend/internal/config/config.go; `Keys` and `Production` have the proofs.
-- Credentials: backend/internal/security/credentials.go around an AEAD.
-- Sessions: backend/internal/auth/session.go over the interface `KeyValueStore`; `Authenticators` has
--   the authenticators of backend/internal/auth and the middleware authenticate of
--   backend/internal/httpapi/middleware.go; `Tokens` and `Identity` have the proofs.
-- Access: backend/internal/rbac/rbac.go over the interface `Casbin`; `Engine` and `Tenants` have the proofs.
-- Webhooks: backend/internal/httpapi/shopify_webhook.go, down to the tables of Store; `Authentic` and
--   `Recorded` have the proofs.
-- Callback: shopifyCallback of backend/internal/httpapi/integration_handlers.go, over the sessions'
--   store and a repository that is an argument; `Authorized` and `Upserts` have the proofs.
-- Tests: a concrete codec, concrete values, and the theorems at them.
--
-- A table is the list of its rows, a statement a function on it, a transaction a function on the
-- record `Db` whose result is dropped when it fails. Times are nanoseconds in ℕ. Texts are the
-- library's strings of code points; where the source counts bytes they are encoded first. The
-- answers of the network and the database (errors, confirmations, fresh ids, the clock) are
-- arguments. A loop over a list is structural recursion, so that no fuel is needed.
--
-- The column updated_at is left out where no code reads it. The envelope in outbox_messages is kept as it is written; that
-- JSONB spaces it anew is not said.
--
-- Not modelled: connections, goroutines and logging, which are I/O; the SQL that only reads, but for
-- what the synchronisation, the tokens and the webhooks look up; the HTTP requests to Shopify and
-- DingTalk; the other HTTP handlers, and the administrative tables;
-- the web application, which is not Go.
pub mod Base
pub mod Errors
pub mod Jobs
pub mod Queue
pub mod Sync
pub mod Worker
pub mod Mirror
pub mod Store
pub mod Outbox
pub mod Token
pub mod Bulk
pub mod Service
pub mod Config
pub mod Credentials
pub mod Sessions
pub mod Access
pub mod Webhooks
pub mod Callback
pub mod Tests
