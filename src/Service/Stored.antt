-- ===== src/Service/Stored.antt =====
-- Service.Sync on the statements of shopify_mirror.go.
use xg_mangement.Base.{
  ◌≡◌, String, true, false, Option, none, some, inl, inr, ◌⊎◌, any, Option-cases,
}
use xg_mangement.Errors.{GoError}
use xg_mangement.Jobs.{Codec}
use xg_mangement.Sync.{SyncRequest, validate_request}
use xg_mangement.Store.{holds, fail_sync_run}
use xg_mangement.Bulk.{Parser}
use xg_mangement.Service.{World, sync_failure}
use xg_mangement.Service.Actions.{Settings}
use xg_mangement.Service.Sync.{with_mode, leased, sync}
use xg_mangement.Service.Release.{Released, sync-Released}
use xg_mangement.Service.Postgres.{Answers, Shared, started, gave_up, postgres, postgres-IsLeasing}

module _ (codec : Codec) (a : Answers) (world : World Shared) (p : Parser) (c : Settings) where
  -- What Sync leaves of a lease in shopify_sync_runs: no running row of the run has it any more,
  -- unless the database refuses the statement of FailSyncRun.
  abbrev pub IsSettled : SyncRequest → Option GoError × Shared → Type 0
  IsSettled r (none, d) = any (holds r) d.db.runs ≡ false
  IsSettled r (some e, d) =
      (before : Shared) × (d ≡ (gave_up codec a r (sync_failure e).0 (sync_failure e).1 before).1)
      × ((any (holds r) d.db.runs ≡ false) ⊎ ((x : GoError) × (a.fault before.calls ≡ some x)))

  refused_statement :
      (r : SyncRequest) (code message : String) (d : Shared) (x : GoError)
      → (gave_up codec a r code message d).0 ≡ some x
      → (y : GoError) × (a.fault d.calls ≡ some y)
  unfolding gave_up xg_mangement.Store.fail_sync_run
  refused_statement r code message d x h = elim (Option-cases (a.fault d.calls)) [
    | inl fine ↦ let stuck : ◌≡◌ {A = Option GoError} none (some x) = rw fine at h in cc (stuck)
    | inr refused ↦ refused
  ]

  settled :
      (r : SyncRequest) (result : Option GoError × Shared)
      → Released (postgres codec a) (postgres-IsLeasing codec a) world p c r result
      → IsSettled r result
  unfolding postgres xg_mangement.Service.Postgres.postgres-IsLeasing
  settled r (none, d) h = h
  settled r (some e, d) (before, same, inl free) = (before, same, inl free)
  settled r (some e, d) (before, same, inr (x, h)) =
      (before, same, inr (refused_statement r (sync_failure e).0 (sync_failure e).1 before x h))

  -- Service.Sync of a configured service on the tables of PostgreSQL, once StartSyncRun has given a
  -- lease for a valid request, whatever Shopify and the other writers of the tables do meanwhile: if
  -- it returns no error, no row is running under that lease; if it returns one, the last statement
  -- was that of FailSyncRun for that lease, with the code and the message of syncFailure, and no row
  -- is running under the lease, or the database has refused that statement.
  pub sync-IsSettled :
      (r : SyncRequest) (d held : Shared) (owner : String)
      → validate_request r ≡ none
      → started codec a (with_mode (postgres codec a) world p c r) d ≡ (inr owner, held)
      → IsSettled
          (leased (postgres codec a) world p c r owner)
          (sync (postgres codec a) world p c true r d)
  unfolding postgres xg_mangement.Service.Postgres.postgres-IsLeasing
  sync-IsSettled r d held owner valid start = settled _ _ (
      sync-Released (postgres codec a) (postgres-IsLeasing codec a) world p c r d held owner valid
        start)
