-- ===== src/Store/Runs/Exclusive.antt =====
-- StartSyncRun after a StartSyncRun: a lease that has been given is not given again while it lasts.
use xg_mangement.Base.{
  ℕ, ◌+◌, ◌≤◌, ◌≡◌, refl, ap, ◌⊎◌, inl, inr, Bool, true, false, ◌&&◌, Option, none, some, List, [],
  ◌∷◌, String, arith, ◌==◌, Bool-cases, Option-cases, any,
}
use xg_mangement.Errors.{GoError}
use xg_mangement.Sync.{SyncRequest, validate_request}
use xg_mangement.Store.Tables.{Run, is_running, is_active, update}
use xg_mangement.Store.Runs.{
  lease_time, selects, starts, is_startable, active_in, started_row, start_sync_run, start_error,
  refusal, second_query,
}
use xg_mangement.Store.Runs.Leases.{IsTable, start_sync_run-IsTable}
use xg_mangement.Store.Runs.Fencing.{any-and, any-elim}

-- A StartSyncRun that finds no row to start changes nothing and returns an error.
start_sync_run-none :
    (now : ℕ) (owner : String) (fault : Option GoError) (later : GoError ⊎ List Run)
    (r : SyncRequest) (runs : List Run)
    → any (starts now r) runs ≡ false
    → (e : GoError) × (start_sync_run now owner fault later r runs ≡ (inl e, runs))
unfolding start_sync_run
start_sync_run-none now owner fault later r runs h = elim (Option-cases (validate_request r)) [
  | inr (e, v) ↦ (e, rw (v, start_sync_run) refl)
  | inl v ↦ elim (Option-cases fault) [
    | inr (e, f) ↦ rw (v, f, start_sync_run) (start_error e, refl)
    | inl f ↦ rw (v, f, h, start_sync_run) (refusal (second_query r later), refl)
  ]
]

-- A status that cannot be started now and can be later is active.
restarts :
    (now now' : ℕ) (run : Run)
    → is_startable now run ≡ false
    → is_startable now' run ≡ true
    → is_active run.status ≡ true
restarts now now' run h h' = ground arith

abbrev is_until : ℕ → Option ℕ → Bool
is_until now none = false
is_until now (some t) = t == now + lease_time

-- a row of the run under the lease that was given at `now`
abbrev is_leased : ℕ → SyncRequest → Run → Bool
is_leased now r run = selects r run && (is_running run.status && is_until now run.lease_expires_at)

module _ (now now' : ℕ) (owner : String) (r : SyncRequest) where
  -- the rows that can be started again are active
  abbrev restarts_active : Run → Bool
  restarts_active run = starts now' r run && is_active run.status

  any-leased :
      (runs : List Run)
      → any (starts now r) runs ≡ true
      → any (is_leased now r) (update (starts now r) (started_row now owner) runs) ≡ true
  unfolding started_row
  any-leased [] h = cc
  any-leased (run ∷ runs) h = elim (Bool-cases (starts now r run)) [
    | inl e ↦ rw e (ground arith)
    | inr e ↦ rw e (ground (arith, any-leased runs))
  ]

  any-restarts :
      (runs : List Run)
      → any (starts now' r) (update (starts now r) (started_row now owner) runs) ≡ true
      → any restarts_active (update (starts now r) (started_row now owner) runs) ≡ true
  unfolding started_row
  any-restarts [] h = h
  any-restarts (run ∷ runs) h = elim (Bool-cases (starts now r run)) [
    | inl e ↦ ground (arith, any-restarts runs)
    | inr e ↦ ground (arith, any-restarts runs, restarts now now' run)
  ]

  not_both :
      now' ≤ now + lease_time
      → (run : Run) → (is_leased now r run && restarts_active run) ≡ true
      → ◌≡◌ {A = Bool} true false
  not_both soon run h = ground arith

  none_starts :
      (runs : List Run)
      → IsTable (update (starts now r) (started_row now owner) runs)
      → any (starts now r) runs ≡ true
      → now' ≤ now + lease_time
      → any (starts now' r) (update (starts now r) (started_row now owner) runs) ≡ false
  none_starts runs t taken soon =
      let started : List Run = update (starts now r) (started_row now owner) runs in
      elim (Bool-cases (any (starts now' r) started)) [
        | inr none_left ↦ none_left
        | inl again ↦
            any-elim (λ run. is_leased now r run && restarts_active run)
              (λ run h. cc (not_both soon run h)) started
              (any-and (is_leased now r) restarts_active (active_in r.organization_id r.store_id)
                (λ run h. ground arith) (λ run h. ground arith) started (t.one_active _ _)
                (any-leased runs taken) (any-restarts runs again))
      ]

module _ (now now' : ℕ) (owner owner' : String) (fault fault' : Option GoError)
    (later later' : GoError ⊎ List Run) (r r' : SyncRequest) (runs started : List Run) where
  taken-rows :
      start_sync_run now owner fault later r runs ≡ (inr owner, started)
      → (any (starts now r) runs ≡ true)
        × (update (starts now r) (started_row now owner) runs ≡ started)
  unfolding start_sync_run
  taken-rows h = ground arith

  -- A lease is given to one worker at a time: once StartSyncRun has given the lease of a run of a
  -- well-formed table, a StartSyncRun of any worker for the same run, up to the two minutes that the
  -- lease lasts, returns an error and changes nothing, whatever the database answers.
  pub start_sync_run-exclusive :
      IsTable runs
      → start_sync_run now owner fault later r runs ≡ (inr owner, started)
      → r'.organization_id ≡ r.organization_id
      → r'.store_id ≡ r.store_id
      → r'.run_id ≡ r.run_id
      → now' ≤ now + lease_time
      → (e : GoError) × (start_sync_run now' owner' fault' later' r' started ≡ (inl e, started))
  start_sync_run-exclusive t taken eo es ei soon =
      let (some_row, same) = taken-rows taken in
      let good : IsTable started =
        rw (ap (λ p. p.1) taken) at (start_sync_run-IsTable now owner fault later r runs t) in
      let free : any (starts now' r) started ≡ false =
        rw same at (none_starts now now' owner r runs (rw same good) some_row soon) in
      start_sync_run-none now' owner' fault' later' r' started (rw (eo, es, ei) free)
