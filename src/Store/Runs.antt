-- ===== src/Store/Runs.antt =====
-- internal/platform/postgres/shopify_mirror.go: StartSyncRun, HeartbeatSyncRun and FailSyncRun on
-- the table shopify_sync_runs, and the completion statement of ReplaceMirror. `now` is the
-- transaction's time, `owner` the text of gen_random_uuid(), `fault` an error of the statement, and
-- `later` the table as the second query of a call reads it,
-- or that query's error.
pub mod Updates
pub mod Leases
pub mod History
pub mod Fencing
pub mod Exclusive
use xg_mangement.Base.{
  ℕ, ◌+◌, String, Bool, true, false, ◌&&◌, ◌||◌, Option, none, some, List, ◌∷◌, ◌⊎◌, inl, inr, ltb,
  leb, if◌then◌else◌, ◌=ₛ◌, any,
}
use xg_mangement.Errors.{
  GoError, plain, wrap, pg_error, no_rows, already_running, already_completed, is_unique_violation,
}
use xg_mangement.Sync.{SyncRequest, ResourceCounts, validate_request}
use xg_mangement.Store.Tables.{
  SyncStatus, queued, running, completed, failed, is_active, is_running, is_completed, Run, update,
  count, find, coalesce, equals,
}

-- interval '2 minutes'
abbrev pub lease_time : ℕ
lease_time = 120_000_000_000

-- organization_id=$1 AND store_id=$2
abbrev pub in_store : String → String → Run → Bool
in_store organization_id store_id run =
    run.organization_id =ₛ organization_id && run.store_id =ₛ store_id

-- organization_id=$1 AND store_id=$2 AND id=$3
abbrev pub selects : SyncRequest → Run → Bool
selects r run = in_store r.organization_id r.store_id run && run.id =ₛ r.run_id

abbrev pub is_expired : ℕ → Option ℕ → Bool
is_expired now none = true
is_expired now (some t) = ltb t now

-- status IN ('queued','failed') OR (status='running' AND the lease is NULL or over)
abbrev startable_from : ℕ → Option ℕ → SyncStatus → Bool
startable_from now lease queued = true
startable_from now lease failed = true
startable_from now lease running = is_expired now lease
startable_from now lease completed = false

abbrev pub is_startable : ℕ → Run → Bool
is_startable now run = startable_from now run.lease_expires_at run.status

-- the WHERE clause of StartSyncRun
abbrev pub starts : ℕ → SyncRequest → Run → Bool
starts now r run = selects r run && is_startable now run

-- status='running' AND lease_owner=$4
abbrev pub holds : SyncRequest → Run → Bool
holds r run = selects r run && (is_running run.status && equals run.lease_owner r.lease_owner)

abbrev pub active_in : String → String → Run → Bool
active_in organization_id store_id run =
    in_store organization_id store_id run && is_active run.status

-- The unique index shopify_sync_runs_one_active_idx at one store.
abbrev pub index_allows : String → String → List Run → Bool
index_allows organization_id store_id runs = leb (count (active_in organization_id store_id) runs) 1

unfoldable pub started_row : ℕ → String → Run → Run
started_row now owner run = record run {
  status = running;
  started_at = some (coalesce run.started_at now);
  completed_at = none;
  error = none;
  lease_owner = some owner;
  heartbeat_at = some now;
  lease_expires_at = some (now + lease_time);
}

unfoldable pub heartbeat_row : ℕ → Run → Run
heartbeat_row now run = record run {
  heartbeat_at = some now;
  lease_expires_at = some (now + lease_time);
}

unfoldable pub failed_row : ℕ → String → String → Run → Run
failed_row now code message run = record run {
  status = failed;
  error = some (code, message);
  completed_at = some now;
  lease_owner = none;
  lease_expires_at = none;
  heartbeat_at = none;
}

unfoldable pub completed_row : ℕ → ResourceCounts → Run → Run
completed_row now counts run = record run {
  status = completed;
  counts = counts;
  error = none;
  completed_at = some now;
  lease_owner = none;
  lease_expires_at = none;
  heartbeat_at = none;
}

-- the error of the first query of StartSyncRun that is not pgx.ErrNoRows
abbrev pub start_error : GoError → GoError
start_error e = if is_unique_violation e then already_running else wrap "start Shopify sync run" e

-- the second query of StartSyncRun
abbrev pub refusal : GoError ⊎ Option Run → GoError
refusal (inl e) = wrap "find Shopify sync run state" e
refusal (inr none) = wrap "find Shopify sync run state" no_rows
refusal (inr (some run)) = elim run.status [
  | completed ↦ already_completed
  | running ↦ already_running
  | _ ↦ plain "Shopify sync run cannot start from status"
]

-- SELECT status … WHERE organization_id=$1 AND store_id=$2 AND id=$3
abbrev pub second_query : SyncRequest → GoError ⊎ List Run → GoError ⊎ Option Run
second_query r (inl e) = inl e
second_query r (inr runs) = inr (find (selects r) runs)

-- StartSyncRun: the lease owner or the error, and the table
unfoldable pub start_sync_run :
    ℕ
    → String
    → Option GoError
    → GoError ⊎ List Run
    → SyncRequest
    → List Run
    → (GoError ⊎ String) × List Run
start_sync_run now owner fault later r runs = elim (validate_request r) [
  | some e ↦ (inl e, runs)
  | none ↦ elim fault [
    | some e ↦ (inl (start_error e), runs)
    | none ↦
        let started : List Run = update (starts now r) (started_row now owner) runs in
        if any (starts now r) runs
        then if index_allows r.organization_id r.store_id started
          then (inr owner, started)
          else (inl (start_error (pg_error "23505")), runs)
        else (inl (refusal (second_query r later)), runs)
  ]
]

abbrev heartbeat_refusal : GoError ⊎ Option Run → Option GoError
heartbeat_refusal (inr (some run)) =
    if is_completed run.status
    then none
    else some (plain "Shopify sync lease is no longer owned by this worker")
heartbeat_refusal _ = some (plain "Shopify sync lease is no longer owned by this worker")

-- HeartbeatSyncRun
unfoldable pub heartbeat_sync_run :
    ℕ → Option GoError → GoError ⊎ List Run → SyncRequest → List Run → Option GoError × List Run
heartbeat_sync_run now (some e) later r runs = (some (wrap "heartbeat Shopify sync run" e), runs)
heartbeat_sync_run now none later r runs =
    if any (holds r) runs
    then (none, update (holds r) (heartbeat_row now) runs)
    else (heartbeat_refusal (second_query r later), runs)

-- FailSyncRun
unfoldable pub fail_sync_run :
    ℕ → Option GoError → SyncRequest → String → String → List Run → Option GoError × List Run
fail_sync_run now (some e) r code message runs = (some (wrap "fail Shopify sync run" e), runs)
fail_sync_run now none r code message runs =
    (none, update (holds r) (failed_row now code message) runs)

-- The statement of ReplaceMirror that completes the run; no row affected is an error, upon which
-- the transaction is rolled back.
unfoldable pub complete_sync_run : ℕ → ResourceCounts → SyncRequest → List Run → GoError ⊎ List Run
complete_sync_run now counts r runs =
    if any (holds r) runs
    then inr (update (holds r) (completed_row now counts) runs)
    else inl (plain "Shopify sync lease was lost before mirror commit")

-- INSERT INTO shopify_sync_runs; `none` is a unique violation: of the primary key, of job_id or of
-- the index of active runs.
abbrev pub insert_run : Run → List Run → Option (List Run)
insert_run run runs =
    if any (λ other. other.id =ₛ run.id || other.job_id =ₛ run.job_id) runs
    then none
    else if index_allows run.organization_id run.store_id (run ∷ runs)
    then some (run ∷ runs)
    else none
