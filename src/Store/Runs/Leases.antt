-- ===== src/Store/Runs/Leases.antt =====
-- The invariant of shopify_sync_runs, and that each statement of shopify_mirror.go keeps it.
use xg_mangement.Base.{
  ℕ, ◌≤◌, ◌≡◌, refl, sym, ◌⊎◌, inl, inr, true, false, ◌&&◌, Option, none, some, List, ◌∷◌, String,
  arith, eq_iff, Bool-cases, is_some, any, All, leb_iff, ◌=ₛ◌,
}
use native.Mathlib.Nat.{le_trans}
use mathlib.Core.Path.{subst₂}
use xg_mangement.Errors.{GoError}
use xg_mangement.Sync.{SyncRequest, ResourceCounts}
use xg_mangement.Store.Tables.{Run, is_running, update, count}
use xg_mangement.Store.Runs.{
  in_store, starts, holds, active_in, index_allows, started_row, heartbeat_row, failed_row,
  completed_row, start_sync_run, heartbeat_sync_run, fail_sync_run, complete_sync_run, insert_run,
}
use xg_mangement.Store.Runs.Updates.{count-update-le, All-update}

-- A run has a lease exactly while it is running.
abbrev pub HasLease : Run → Type 0
HasLease run = is_running run.status ≡ is_some run.lease_owner

pub record IsTable (runs : List Run) : Type 0 where
  pub one_active : (o s : String) → count (active_in o s) runs ≤ 1
  pub leases : All HasLease runs

-- Another store's count does not see a run of this one.
in_store_other :
    (o s o' s' : String) (run : Run)
    → in_store o' s' run ≡ true
    → (in_store o s run ≡ false) ⊎ ((o ≡ o') × (s ≡ s'))
in_store_other o s o' s' run h = ground (
  arith,
  eq_iff run.organization_id o,
  eq_iff run.store_id s,
  eq_iff run.organization_id o',
  eq_iff run.store_id s',
)

module _ (r : SyncRequest) (o s : String) where
  started_row_elsewhere :
      (now : ℕ) (owner : String) (run : Run)
      → (o =ₛ r.organization_id && s =ₛ r.store_id) ≡ false
      → starts now r run ≡ true
      → active_in o s (started_row now owner run) ≡ true
      → active_in o s run ≡ true
  unfolding started_row
  started_row_elsewhere now owner run other h q = ground (
    arith,
    eq_iff run.organization_id o,
    eq_iff run.store_id s,
    eq_iff run.organization_id r.organization_id,
    eq_iff run.store_id r.store_id,
    eq_iff o r.organization_id,
    eq_iff s r.store_id,
  )

  heartbeat_row_active :
      (now : ℕ) (run : Run)
      → holds r run ≡ true
      → active_in o s (heartbeat_row now run) ≡ true
      → active_in o s run ≡ true
  unfolding heartbeat_row
  heartbeat_row_active now run h q = q

  failed_row_active :
      (now : ℕ) (code message : String) (run : Run)
      → holds r run ≡ true
      → active_in o s (failed_row now code message run) ≡ true
      → active_in o s run ≡ true
  unfolding failed_row
  failed_row_active now code message run h q = ground arith

  completed_row_active :
      (now : ℕ) (counts : ResourceCounts) (run : Run)
      → holds r run ≡ true
      → active_in o s (completed_row now counts run) ≡ true
      → active_in o s run ≡ true
  unfolding completed_row
  completed_row_active now counts run h q = ground arith

started-IsTable :
    (now : ℕ) (owner : String) (r : SyncRequest) (runs : List Run)
    → IsTable runs
    → index_allows r.organization_id r.store_id (update (starts now r) (started_row now owner) runs)
      ≡ true
    → IsTable (update (starts now r) (started_row now owner) runs)
unfolding started_row
started-IsTable now owner r runs t allowed = record {
  one_active = λ o s. elim (Bool-cases (o =ₛ r.organization_id && s =ₛ r.store_id)) [
    | inl same ↦ one_active_here o s same
    | inr other ↦
        le_trans
          (count-update-le (starts now r) (started_row now owner) (active_in o s)
            (λ run. started_row_elsewhere r o s now owner run other) runs)
          (t.one_active o s)
  ];
  leases =
      All-update HasLease (starts now r) (started_row now owner) (λ run _ _. refl) runs t.leases;
}
  where
    one_active_here :
        (o s : String)
        → (o =ₛ r.organization_id && s =ₛ r.store_id) ≡ true
        → count (active_in o s) (update (starts now r) (started_row now owner) runs) ≤ 1
    one_active_here o s same =
        let eo : o ≡ r.organization_id = (eq_iff _ _).0 (ground arith) in
        let es : s ≡ r.store_id = (eq_iff _ _).0 (ground arith) in
        rw (eo, es) ((leb_iff _ _).0 allowed)

-- StartSyncRun keeps the table well formed, whatever it answers.
pub start_sync_run-IsTable :
    (now : ℕ) (owner : String) (fault : Option GoError) (later : GoError ⊎ List Run)
    (r : SyncRequest) (runs : List Run)
    → IsTable runs
    → IsTable (start_sync_run now owner fault later r runs).1
unfolding start_sync_run
start_sync_run-IsTable now owner fault later r runs t =
    ground (arith, started-IsTable now owner r runs t)

pub heartbeat_sync_run-IsTable :
    (now : ℕ) (fault : Option GoError) (later : GoError ⊎ List Run) (r : SyncRequest)
    (runs : List Run)
    → IsTable runs
    → IsTable (heartbeat_sync_run now fault later r runs).1
unfolding heartbeat_sync_run
heartbeat_sync_run-IsTable now (some e) later r runs t = t
heartbeat_sync_run-IsTable now none later r runs t = elim (Bool-cases (any (holds r) runs)) [
  | inr lost ↦ rw lost t
  | inl held ↦ rw held (record {
    one_active = λ o s.
        le_trans
          (count-update-le (holds r) (heartbeat_row now) (active_in o s)
            (heartbeat_row_active r o s now) runs)
          (t.one_active o s);
    leases =
        All-update HasLease (holds r) (heartbeat_row now) (λ run h _. unfold heartbeat_row in h)
          runs t.leases;
  })
]

pub fail_sync_run-IsTable :
    (now : ℕ) (fault : Option GoError) (r : SyncRequest) (code message : String) (runs : List Run)
    → IsTable runs
    → IsTable (fail_sync_run now fault r code message runs).1
unfolding fail_sync_run
fail_sync_run-IsTable now (some e) r code message runs t = t
fail_sync_run-IsTable now none r code message runs t = record {
  one_active = λ o s.
      le_trans
        (count-update-le (holds r) (failed_row now code message) (active_in o s)
          (failed_row_active r o s now code message) runs)
        (t.one_active o s);
  leases =
      All-update HasLease (holds r) (failed_row now code message)
        (λ run _ _. unfold failed_row in refl) runs t.leases;
}

pub complete_sync_run-IsTable :
    (now : ℕ) (counts : ResourceCounts) (r : SyncRequest) (runs runs' : List Run)
    → IsTable runs
    → complete_sync_run now counts r runs ≡ inr runs'
    → IsTable runs'
unfolding complete_sync_run
complete_sync_run-IsTable now counts r runs runs' t done =
    let e : update (holds r) (completed_row now counts) runs ≡ runs' = ground arith in
    rw (← e) (record {
      one_active = λ o s.
          le_trans
            (count-update-le (holds r) (completed_row now counts) (active_in o s)
              (completed_row_active r o s now counts) runs)
            (t.one_active o s);
      leases =
          All-update HasLease (holds r) (completed_row now counts)
            (λ run _ _. unfold completed_row in refl) runs t.leases;
    })

pub insert_run-IsTable :
    (run : Run) (runs runs' : List Run)
    → IsTable runs
    → HasLease run
    → insert_run run runs ≡ some runs'
    → IsTable runs'
insert_run-IsTable run runs runs' t lease inserted =
    let allowed : index_allows run.organization_id run.store_id (run ∷ runs) ≡ true =
      ground arith in
    let e : run ∷ runs ≡ runs' = ground arith in
    rw (← e) (record {
      one_active = λ o s. elim (Bool-cases (o =ₛ run.organization_id && s =ₛ run.store_id)) [
        | inl same ↦ here o s allowed same
        | inr other ↦ ground (
          arith,
          t.one_active o s,
          eq_iff run.organization_id o,
          eq_iff run.store_id s,
          eq_iff o run.organization_id,
          eq_iff s run.store_id,
        )
      ];
      leases = (lease, t.leases);
    })
  where
    here :
        (o s : String)
        → index_allows run.organization_id run.store_id (run ∷ runs) ≡ true
        → (o =ₛ run.organization_id && s =ₛ run.store_id) ≡ true
        → count (active_in o s) (run ∷ runs) ≤ 1
    here o s allowed same =
        let eo : o ≡ run.organization_id = (eq_iff _ _).0 (ground arith) in
        let es : s ≡ run.store_id = (eq_iff _ _).0 (ground arith) in
        subst₂ (λ a b. count (active_in a b) (run ∷ runs) ≤ 1) (sym eo) (sym es)
          ((leb_iff _ _).0 allowed)
