-- ===== src/Service.antt =====
-- internal/shopifysync/service.go: Service.Sync, the synchronisation of one store. What Sync calls is
-- an argument: the repository of runs and mirrors (`SyncRepository`, filled in `Postgres`), and
-- Shopify with the stores and tokens (`World`). All calls act on a state `D` that other workers
-- change too, so that a call may change it in any way.
pub mod Calls
pub mod Actions
pub mod Sync
pub mod Release
pub mod Polls
pub mod Postgres
pub mod Stored
use xg_mangement.Base.{
  ℕ, String, Bool, true, false, Option, none, some, List, [], ◌∷◌, ◌⊎◌, inl, inr, ℤ, if◌then◌else◌,
  ◌=ₛ◌, ◌≡◌,
}
use xg_mangement.Errors.{
  GoError, plain, wrap, sync_failed, as_provider, as_sync, is_deadline, is_canceled,
}
use xg_mangement.Sync.{SyncRequest, MirrorBatch, Theme}
use xg_mangement.Bulk.{Body, bulk_error}

-- How a call ends.
pub data Result (A : Type 0) : Type 0 where
  ok : A → Result A
  failed : GoError → Result A
  panicked : Result A

pub record SyncTarget : Type 0 where
  pub domain : String
  pub api_version : String

-- shopify.BulkOperation, as far as Sync reads it; the status keeps its text
pub record BulkOperation : Type 0 where
  pub id : String
  pub status : String
  pub error_code : String
  pub url : String

pub record ThemeNode : Type 0 where
  pub id : String
  pub name : String
  pub role : String
  pub processing : Bool
  pub processing_failed : Bool
  pub theme_store_id : Option ℤ
  pub updated_at : Option ℕ

-- shopifysync.SyncRepository
pub record SyncRepository (D : Type 0) : Type 0 where
  pub start_sync_run : SyncRequest → D → (GoError ⊎ String) × D
  pub heartbeat_sync_run : Option GoError → SyncRequest → D → Option GoError × D
  pub replace_mirror : Option GoError → SyncRequest → MirrorBatch → D → Option GoError × D
  pub fail_sync_run : SyncRequest → String → String → D → Option GoError × D

-- What a lease is: `held` says that a run is running under the lease of a request. A completed or
-- failed run is not; a renewal gives no lease back.
pub record IsLeasing {D : Type 0} (repo : SyncRepository D) : Type 0 where
  pub held : SyncRequest → D → Bool
  pub heartbeat-held :
      (canceled : Option GoError) (r : SyncRequest) (d : D)
      → held r d ≡ false
      → held r (repo.heartbeat_sync_run canceled r d).1 ≡ false
  pub replace_mirror-held :
      (canceled : Option GoError) (r : SyncRequest) (b : MirrorBatch) (d : D)
      → (repo.replace_mirror canceled r b d).0 ≡ none
      → held r (repo.replace_mirror canceled r b d).1 ≡ false
  pub fail_sync_run-held :
      (r : SyncRequest) (code message : String) (d : D)
      → (repo.fail_sync_run r code message d).0 ≡ none
      → held r (repo.fail_sync_run r code message d).1 ≡ false

-- The other collaborators. A call is told the context's error, and which call it is; `elapsed` is
-- the time that it takes, in nanoseconds.
pub record World (D : Type 0) : Type 0 where
  pub resolve_sync_target : Option GoError → ℕ → SyncRequest → D → Result SyncTarget × D
  pub access_token : Option GoError → ℕ → SyncRequest → D → Result String × D
  pub start_bulk_query :
      Option GoError → ℕ → SyncTarget → String → String → D → Result BulkOperation × D
  pub get_bulk_operation :
      Option GoError → ℕ → SyncTarget → String → String → D → Result BulkOperation × D
  pub download_jsonl : Option GoError → ℕ → String → D → Result Body × D
  pub list_theme_nodes : Option GoError → ℕ → SyncTarget → String → D → Result (List ThemeNode) × D
  pub elapsed : ℕ → ℕ

-- syncFailure: the code and the message that a failed run records
unfoldable pub sync_failure : GoError → String × String
sync_failure err = elim (as_sync err) [
  | some s ↦ (s.code, s.message)
  | none ↦ elim (as_provider err) [
    | some p ↦ (p.code, p.message)
    | none ↦
        if is_deadline err
        then ("sync_timeout", "Shopify sync exceeded its deadline")
        else if is_canceled err
        then ("sync_canceled", "Shopify sync was canceled")
        else ("sync_failed", "Shopify synchronization failed")
  ]
]

-- listThemes, on the nodes of the answer
unfoldable pub themes_of : List ThemeNode → List Theme
themes_of [] = []
themes_of (n ∷ nodes) =
    record {
      shopify_gid = n.id;
      name = n.name;
      role = n.role;
      processing = n.processing;
      processing_failed = n.processing_failed;
      theme_store_id = n.theme_store_id;
      source_release_id = none;
      updated_at = n.updated_at;
      synced_at = 0;
    }
    ∷ themes_of nodes

-- What waitForBulk makes of an operation: the operation, an error, or another poll.
pub data Poll : Type 0 where
  ready : BulkOperation → Poll
  refused : GoError → Poll
  again : Poll

-- strings.ToLower of one of the three statuses
abbrev refusal : BulkOperation → String → Bool → Poll
refusal op code retryable = refused (bulk_error code op.error_code retryable)

unfoldable pub poll_of : BulkOperation → Poll
poll_of op =
    if op.status =ₛ "COMPLETED"
    then (if op.url =ₛ ""
        then refused (
            bulk_error "bulk_download_missing"
              "completed Shopify bulk operation has no download URL" false)
        else ready op)
    else if op.status =ₛ "FAILED"
    then refusal op "bulk_failed" true
    else if op.status =ₛ "CANCELED"
    then refusal op "bulk_canceled" false
    else if op.status =ₛ "EXPIRED"
    then refusal op "bulk_expired" false
    else again
