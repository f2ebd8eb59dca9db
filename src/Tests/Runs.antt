-- ===== src/Tests/Runs.antt =====
-- The leases of shopify_sync_runs at concrete tables.
use mathlib.Core.List.{Memᴰ}
use xg_mangement.Base.{
  ◌≡◌, refl, ap, ◌≢◌, true, none, some, List, [], ◌∷◌, String, inl, inr, Bool, false, any, arith,
  ◌=ₛ◌,
}
use xg_mangement.Errors.{GoError, plain}
use xg_mangement.Sync.{SyncRequest, validate_request}
use xg_mangement.Store.{
  Run, holds, zero_counts, start_sync_run, heartbeat_sync_run, fail_sync_run, complete_sync_run,
  started_row,
}
use xg_mangement.Store.Runs.Leases.{IsTable}
use xg_mangement.Store.Runs.History.{Step, Steps, Steps-IsTable_empty, Steps-Memᴰ}
use xg_mangement.Store.Runs.Fencing.{lease_exclusive, lost_lease_fenced}
use xg_mangement.Store.Runs.Exclusive.{start_sync_run-exclusive}
use xg_mangement.Tests.Values.{request, queued_row, completed_run}

created : Steps [] (queued_row ∷ [])
created = Steps.next Steps.here (Step.create queued_row (queued_row ∷ []) refl refl refl)

abbrev taken_rows : List Run
taken_rows = (start_sync_run 1 "worker" none (inr []) request (queued_row ∷ [])).1

taken : Steps [] taken_rows
taken = Steps.next created (Step.start 1 "worker" none (inr []) request)

Steps-IsTable_empty_example : IsTable taken_rows
Steps-IsTable_empty_example = Steps-IsTable_empty taken

abbrev stale : SyncRequest
stale = record request { lease_owner = "slow" }

beats :
    Steps (completed_run ∷ []) ((heartbeat_sync_run 9 none (inr []) stale (completed_run ∷ [])).1)
beats = Steps.next Steps.here (Step.heartbeat 9 none (inr []) stale)

Steps-Memᴰ_example :
    Memᴰ completed_run ((heartbeat_sync_run 9 none (inr []) stale (completed_run ∷ [])).1)
Steps-Memᴰ_example = Steps-Memᴰ completed_run refl (Memᴰ.head refl) beats

taken_holds : any (holds request) taken_rows ≡ true
unfolding start_sync_run started_row validate_request xg_mangement.Base.trim_space
taken_holds = refl

lease_exclusive_example :
    (request.run_id ≡ request.run_id) × (request.lease_owner ≡ request.lease_owner)
lease_exclusive_example =
    lease_exclusive request request taken_rows Steps-IsTable_empty_taken (refl, refl) taken_holds
      taken_holds
  where
    Steps-IsTable_empty_taken : IsTable taken_rows
    Steps-IsTable_empty_taken = Steps-IsTable_empty taken

takes :
    start_sync_run 1 "worker" none (inr []) request (queued_row ∷ []) ≡ (inr "worker", taken_rows)
unfolding start_sync_run started_row validate_request xg_mangement.Base.trim_space
takes = refl

queued_IsTable : IsTable (queued_row ∷ [])
queued_IsTable = Steps-IsTable_empty created

start_sync_run-exclusive_example :
    (e : GoError) × (start_sync_run 50 "slow" none (inr taken_rows) stale taken_rows
      ≡ (inl e, taken_rows))
start_sync_run-exclusive_example =
    start_sync_run-exclusive 1 50 "worker" "slow" none none (inr []) (inr taken_rows) request stale
      (queued_row ∷ []) taken_rows queued_IsTable takes refl refl refl (omega arith)

different : ◌≢◌ {A = String} "slow" "worker"
different h = let wrong : ◌≡◌ {A = Bool} false true = ap (λ s. s =ₛ "worker") h in cc wrong

lost_lease_fenced_example :
    ((heartbeat_sync_run 2 none (inr []) stale taken_rows).1 ≡ taken_rows)
    × (fail_sync_run 2 none stale "code" "message" taken_rows ≡ (none, taken_rows))
    × (complete_sync_run 2 zero_counts stale taken_rows
        ≡ inl (plain "Shopify sync lease was lost before mirror commit"))
lost_lease_fenced_example =
    lost_lease_fenced 1 "worker" (inr []) request stale (queued_row ∷ []) taken_rows queued_IsTable
      takes (refl, refl) different 2 (inr []) zero_counts "code" "message"
