-- ===== src/Service/Postgres.antt =====
-- internal/platform/postgres/shopify_mirror.go as the SyncRepository of Service.Sync.
use xg_mangement.Base.{
  ℕ, suc, ◌≡◌, refl, String, Bool, false, Option, none, some, List, ◌⊎◌, inl, inr, any,
}
use xg_mangement.Errors.{GoError}
use xg_mangement.Jobs.{Codec}
use xg_mangement.Sync.{SyncRequest, MirrorBatch}
use xg_mangement.Store.{
  Run, Db, Fresh, holds, start_sync_run, heartbeat_sync_run, fail_sync_run, replace_mirror,
}
use xg_mangement.Store.Freed.{heartbeat_sync_run-holds, fail_sync_run-holds, replace_mirror-holds}
use xg_mangement.Service.{SyncRepository, IsLeasing}

-- What the database answers at each call: its time, the texts that it makes up, the error of a
-- statement, and the runs that a second query reads.
pub record Answers : Type 0 where
  pub now : ℕ → ℕ
  pub owner : ℕ → String
  pub fresh : ℕ → Fresh
  pub fault : ℕ → Option GoError
  pub later : ℕ → GoError ⊎ List Run

-- The tables, and the calls that the repository has had.
pub record Shared : Type 0 where
  pub db : Db
  pub calls : ℕ

-- a statement under a context that has ended returns the context's error
abbrev pub statement_error : Option GoError → Option GoError → Option GoError
statement_error (some e) fault = some e
statement_error none fault = fault

abbrev error_of : GoError ⊎ Unit {0} → Option GoError
error_of (inl e) = some e
error_of (inr _) = none

module _ (codec : Codec) (a : Answers) where
  -- the state after a call that has left the runs
  abbrev with_runs : {A : Type 0} → Shared → A × List Run → A × Shared
  with_runs d (x, runs) = (x, record { db = record d.db { runs = runs }; calls = suc d.calls })

  abbrev with_db : Shared → (GoError ⊎ Unit {0}) × Db → Option GoError × Shared
  with_db d (x, db) = (error_of x, record { db = db; calls = suc d.calls })

  unfoldable pub started : SyncRequest → Shared → (GoError ⊎ String) × Shared
  started r d = with_runs d (
      start_sync_run (a.now d.calls) (a.owner d.calls) (a.fault d.calls) (a.later d.calls) r
        d.db.runs)

  unfoldable pub renewed : Option GoError → SyncRequest → Shared → Option GoError × Shared
  renewed canceled r d = with_runs d (
      heartbeat_sync_run (a.now d.calls) (statement_error canceled (a.fault d.calls))
        (a.later d.calls) r d.db.runs)

  unfoldable pub replaced :
      Option GoError → SyncRequest → MirrorBatch → Shared → Option GoError × Shared
  replaced canceled r b d = with_db d (
      replace_mirror codec (a.now d.calls) (a.fresh d.calls) r
        (statement_error canceled (a.fault d.calls)) b d.db)

  unfoldable pub gave_up : SyncRequest → String → String → Shared → Option GoError × Shared
  gave_up r code message d =
      with_runs d (fail_sync_run (a.now d.calls) (a.fault d.calls) r code message d.db.runs)

  abbrev pub is_held : SyncRequest → Shared → Bool
  is_held r d = any (holds r) d.db.runs

  pub renewed-held :
      (canceled : Option GoError) (r : SyncRequest) (d : Shared)
      → is_held r d ≡ false
      → is_held r (renewed canceled r d).1 ≡ false
  unfolding renewed
  renewed-held canceled r d h =
      heartbeat_sync_run-holds (a.now d.calls) (statement_error canceled (a.fault d.calls))
        (a.later d.calls) r d.db.runs h

  ended-held :
      (r : SyncRequest) (d : Shared) (result : (GoError ⊎ Unit {0}) × Db)
      → ((db : Db) → result ≡ (inr tt, db) → any (holds r) db.runs ≡ false)
      → (with_db d result).0 ≡ none
      → is_held r (with_db d result).1 ≡ false
  ended-held r d (inl e, db) free h = cc
  ended-held r d (inr u, db) free h = free db refl

  pub replaced-held :
      (canceled : Option GoError) (r : SyncRequest) (b : MirrorBatch) (d : Shared)
      → (replaced canceled r b d).0 ≡ none
      → is_held r (replaced canceled r b d).1 ≡ false
  unfolding replaced
  replaced-held canceled r b d h =
      ended-held r d _
        (λ db e.
          replace_mirror-holds codec (a.now d.calls) (a.fresh d.calls) r
            (statement_error canceled (a.fault d.calls)) b d.db db e)
        h

  pub gave_up-held :
      (r : SyncRequest) (code message : String) (d : Shared)
      → (gave_up r code message d).0 ≡ none
      → is_held r (gave_up r code message d).1 ≡ false
  unfolding gave_up
  gave_up-held r code message d h =
      fail_sync_run-holds (a.now d.calls) (a.fault d.calls) r code message d.db.runs h

  -- The statements of shopify_mirror.go, on the shared tables, are a SyncRepository.
  unfoldable pub postgres : SyncRepository Shared
  postgres = record {
    start_sync_run = started;
    heartbeat_sync_run = renewed;
    replace_mirror = replaced;
    fail_sync_run = gave_up;
  }

  unfoldable pub postgres-IsLeasing : IsLeasing postgres
  unfolding postgres
  postgres-IsLeasing = record {
    held = is_held;
    heartbeat-held = renewed-held;
    replace_mirror-held = replaced-held;
    fail_sync_run-held = gave_up-held;
  }
