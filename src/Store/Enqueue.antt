-- ===== src/Store/Enqueue.antt =====
-- CreateSyncRun and enqueueSyncRunTx of shopify_mirror.go: a queued run and its outbox message in
-- one transaction. What the database makes up in a transaction, the values of
-- gen_random_uuid(), and what it computes, the texts that a numeric(20,4) and a JSONB column keep of
-- a text, are the record `Fresh`.
use xg_mangement.Base.{
  ℕ, String, Bool, not, ◌&&◌, Option, none, some, List, [], ◌∷◌, ◌⊎◌, inl, inr, if◌then◌else◌, ◌=ₛ◌,
  any, pos,
}
use xg_mangement.Errors.{GoError, plain, wrap, pg_error, already_running, not_connected, ◌⁀◌}
use xg_mangement.Jobs.{Envelope, Codec, type_store_sync}
use xg_mangement.Sync.{ResourceCounts, mode_full, mode_incremental}
use xg_mangement.Store.Tables.{queued, Run, StoreRow, pending, OutboxRow}
use xg_mangement.Store.Database.{Db, transact}
use xg_mangement.Store.Runs.{insert_run}

pub record Fresh : Type 0 where
  pub run_id : String
  pub job_id : String
  pub outbox_id : String
  pub numeric : String → GoError ⊎ String
  pub jsonb : String → GoError ⊎ String

abbrev pub zero_counts : ResourceCounts
zero_counts = record { products = 0; variants = 0; collections = 0; themes = 0 }

-- organization_id=$1 AND id=$2
abbrev pub is_store : String → String → StoreRow → Bool
is_store o s row = row.organization_id =ₛ o && row.id =ₛ s

-- … AND status='connected'
abbrev pub is_connected : String → String → StoreRow → Bool
is_connected o s row = is_store o s row && row.status =ₛ "connected"

abbrev pub queued_run : ℕ → Fresh → String → String → Option String → String → String → Run
queued_run now fresh o s requested_by job_id mode = record {
  id = fresh.run_id;
  organization_id = o;
  store_id = s;
  mode = mode;
  status = queued;
  requested_by = requested_by;
  job_id = job_id;
  counts = zero_counts;
  error = none;
  lease_owner = none;
  lease_expires_at = none;
  heartbeat_at = none;
  started_at = none;
  completed_at = none;
  created_at = now;
}

abbrev pub payload_fields : Run → List (String × String)
payload_fields run = ("store_id", run.store_id) ∷ ("run_id", run.id) ∷ ("mode", run.mode) ∷ []

-- The envelope of a run's job.
abbrev pub run_envelope : Codec → Run → Envelope
run_envelope codec run = record {
  version = pos 1;
  id = run.job_id;
  job_type = type_store_sync;
  organization_id = run.organization_id;
  occurred_at = run.created_at;
  payload = codec.encode_object (payload_fields run);
}

abbrev pub outbox_row : Codec → ℕ → Fresh → String → Run → OutboxRow
outbox_row codec now fresh prefix run = record {
  id = fresh.outbox_id;
  organization_id = run.organization_id;
  event_key = prefix ⁀ run.id;
  envelope = run_envelope codec run;
  status = pending;
  attempts = 0;
  available_at = now;
  published_at = none;
  last_error = none;
  created_at = now;
  updated_at = now;
}

-- INSERT INTO outbox_messages: event_key is UNIQUE
abbrev pub insert_outbox : String → OutboxRow → Db → GoError ⊎ Db
insert_outbox failure row db =
    if any (λ other. other.event_key =ₛ row.event_key) db.outbox
    then inl (wrap failure (pg_error "23505"))
    else inr (record db { outbox = row ∷ db.outbox })

module _ (codec : Codec) (now : ℕ) (fresh : Fresh) (o s : String) where
  -- enqueueSyncRunTx; an empty `job_id` is replaced by a random one
  unfoldable pub enqueue_sync_run : String → String → String → Db → GoError ⊎ Db
  enqueue_sync_run job_id mode prefix db =
      let job : String = if job_id =ₛ "" then fresh.job_id else job_id in
      let run : Run = queued_run now fresh o s none job mode in
      if not (any (is_connected o s) db.stores)
      then inl not_connected
      else elim (insert_run run db.runs) [
        | none ↦ inr db
        | some runs ↦
            insert_outbox "enqueue Shopify sync outbox" (outbox_row codec now fresh prefix run)
              (record db { runs = runs })
      ]

  -- the transaction of CreateSyncRun
  unfoldable pub create_body : String → String → Db → GoError ⊎ (Run × Db)
  create_body requested_by mode db =
      let run : Run = queued_run now fresh o s (some requested_by) fresh.job_id mode in
      if not (any (is_connected o s) db.stores)
      then inl not_connected
      else elim (insert_run run db.runs) [
        | none ↦ inl already_running
        | some runs ↦
            elim (insert_outbox "enqueue Shopify sync run"
              (outbox_row codec now fresh "shopify-sync:" run) (record db { runs = runs })) [
                | inl e ↦ inl e
                | inr db' ↦ inr (run, db')
              ]
      ]

  -- CreateSyncRun
  unfoldable pub create_sync_run : Option GoError → String → String → Db → (GoError ⊎ Run) × Db
  create_sync_run fault requested_by requested db =
      let mode : String = if requested =ₛ "" then mode_full else requested in
      if not (mode =ₛ mode_full) && not (mode =ₛ mode_incremental)
      then (inl (plain "unsupported sync mode"), db)
      else transact fault (create_body requested_by mode db) db
