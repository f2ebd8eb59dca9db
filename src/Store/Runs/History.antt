-- ===== src/Store/Runs/History.antt =====
-- Any sequence of the statements that workers and requests issue on shopify_sync_runs.
use mathlib.Core.List.{Memᴰ}
use xg_mangement.Base.{
  ℕ, ◌≡◌, refl, sym, ◌⊎◌, inl, inr, Bool, false, Option, none, some, List, [], ◌∷◌, String, arith,
}
use xg_mangement.Errors.{GoError}
use xg_mangement.Sync.{SyncRequest, ResourceCounts}
use xg_mangement.Store.Tables.{queued, completed, Run, update}
use xg_mangement.Store.Runs.{
  starts, holds, started_row, heartbeat_row, completed_row, start_sync_run, heartbeat_sync_run,
  fail_sync_run, complete_sync_run, insert_run,
}
use xg_mangement.Store.Runs.Leases.{
  IsTable, start_sync_run-IsTable, heartbeat_sync_run-IsTable, fail_sync_run-IsTable,
  complete_sync_run-IsTable, insert_run-IsTable,
}

-- One statement, at any time, with any answer of the database.
pub data Step (runs : List Run) : List Run → Type 0 where
  start :
      (now : ℕ) (owner : String) (fault : Option GoError) (later : GoError ⊎ List Run)
      (r : SyncRequest)
      → Step runs (start_sync_run now owner fault later r runs).1
  heartbeat :
      (now : ℕ) (fault : Option GoError) (later : GoError ⊎ List Run) (r : SyncRequest)
      → Step runs (heartbeat_sync_run now fault later r runs).1
  fail :
      (now : ℕ) (fault : Option GoError) (r : SyncRequest) (code message : String)
      → Step runs (fail_sync_run now fault r code message runs).1
  complete :
      (now : ℕ) (counts : ResourceCounts) (r : SyncRequest) (runs' : List Run)
      → complete_sync_run now counts r runs ≡ inr runs'
      → Step runs runs'
  create :
      (run : Run) (runs' : List Run)
      → run.status ≡ queued
      → run.lease_owner ≡ none
      → insert_run run runs ≡ some runs'
      → Step runs runs'

pub data Steps (runs : List Run) : List Run → Type 0 where
  here : Steps runs runs
  next : {runs' runs'' : List Run} → Steps runs runs' → Step runs' runs'' → Steps runs runs''

Step-IsTable : {runs runs' : List Run} → Step runs runs' → IsTable runs → IsTable runs'
Step-IsTable {runs} (start now owner fault later r) t =
    start_sync_run-IsTable now owner fault later r runs t
Step-IsTable {runs} (heartbeat now fault later r) t =
    heartbeat_sync_run-IsTable now fault later r runs t
Step-IsTable {runs} (fail now fault r code message) t =
    fail_sync_run-IsTable now fault r code message runs t
Step-IsTable {runs} (complete now counts r runs' done) t =
    complete_sync_run-IsTable now counts r runs runs' t done
Step-IsTable {runs} (create run runs' fresh free inserted) t =
    insert_run-IsTable run runs runs' t (rw (fresh, free)) inserted

Steps-IsTable : {runs runs' : List Run} → Steps runs runs' → IsTable runs → IsTable runs'
Steps-IsTable here t = t
Steps-IsTable (next steps step) t = Step-IsTable step (Steps-IsTable steps t)

-- In every table that these statements build from the empty one, in any order and with any answers
-- of the database, a store has at most one queued or running run, and a run has a lease owner
-- exactly while it is running.
pub Steps-IsTable_empty : {runs : List Run} → Steps [] runs → IsTable runs
Steps-IsTable_empty steps =
    Steps-IsTable steps (record { one_active = λ o s. omega arith; leases = tt })

Memᴰ-update :
    (p : Run → Bool) (f : Run → Run) (run : Run) (runs : List Run)
    → p run ≡ false
    → Memᴰ run runs
    → Memᴰ run (update p f runs)
Memᴰ-update p f run [] h m = elim m [ ]
Memᴰ-update p f run (x ∷ runs) h (Memᴰ.head e) =
    let kept : p x ≡ false = rw (sym e) h in Memᴰ.head (rw kept e)
Memᴰ-update p f run (x ∷ runs) h (Memᴰ.tail m) = Memᴰ.tail (Memᴰ-update p f run runs h m)

starts_completed :
    (now : ℕ) (r : SyncRequest) (run : Run) → run.status ≡ completed → starts now r run ≡ false
starts_completed now r run h = ground arith

holds_completed : (r : SyncRequest) (run : Run) → run.status ≡ completed → holds r run ≡ false
holds_completed r run h = ground arith

-- A statement leaves the table alone or makes its one update.
start_sync_run-table :
    (now : ℕ) (owner : String) (fault : Option GoError) (later : GoError ⊎ List Run)
    (r : SyncRequest) (runs : List Run)
    → ((start_sync_run now owner fault later r runs).1 ≡ runs)
      ⊎ ((start_sync_run now owner fault later r runs).1
          ≡ update (starts now r) (started_row now owner) runs)
unfolding start_sync_run
start_sync_run-table now owner fault later r runs = ground arith

heartbeat_sync_run-table :
    (now : ℕ) (fault : Option GoError) (later : GoError ⊎ List Run) (r : SyncRequest)
    (runs : List Run)
    → ((heartbeat_sync_run now fault later r runs).1 ≡ runs)
      ⊎ ((heartbeat_sync_run now fault later r runs).1 ≡ update (holds r) (heartbeat_row now) runs)
unfolding heartbeat_sync_run
heartbeat_sync_run-table now (some e) later r runs = inl refl
heartbeat_sync_run-table now none later r runs = ground arith

complete_sync_run-table :
    (now : ℕ) (counts : ResourceCounts) (r : SyncRequest) (runs runs' : List Run)
    → complete_sync_run now counts r runs ≡ inr runs'
    → runs' ≡ update (holds r) (completed_row now counts) runs
unfolding complete_sync_run
complete_sync_run-table now counts r runs runs' done = ground arith

insert_run-table :
    (run : Run) (runs runs' : List Run) → insert_run run runs ≡ some runs' → runs' ≡ run ∷ runs
insert_run-table run runs runs' h = ground arith

module _ (run : Run) (h : run.status ≡ completed) where
  Step-Memᴰ : {runs runs' : List Run} → Memᴰ run runs → Step runs runs' → Memᴰ run runs'
  unfolding fail_sync_run
  Step-Memᴰ {runs} m (start now owner fault later r) =
      elim (start_sync_run-table now owner fault later r runs) [
        | inl e ↦ rw e m
        | inr e ↦ rw e (Memᴰ-update (starts now r) _ run runs (starts_completed now r run h) m)
      ]
  Step-Memᴰ {runs} m (heartbeat now fault later r) =
      elim (heartbeat_sync_run-table now fault later r runs) [
        | inl e ↦ rw e m
        | inr e ↦ rw e (Memᴰ-update (holds r) _ run runs (holds_completed r run h) m)
      ]
  Step-Memᴰ {runs} m (fail now (some e) r code message) = m
  Step-Memᴰ {runs} m (fail now none r code message) =
      Memᴰ-update (holds r) _ run runs (holds_completed r run h) m
  Step-Memᴰ {runs} m (complete now counts r runs' done) =
      rw (complete_sync_run-table now counts r runs runs' done)
        (Memᴰ-update (holds r) _ run runs (holds_completed r run h) m)
  Step-Memᴰ {runs} m (create run' runs' _ _ inserted) =
      rw (insert_run-table run' runs runs' inserted) (Memᴰ.tail m)

  -- A completed run is never changed again: its row, with its counts and times, stands in every
  -- later table, whatever statements are issued.
  pub Steps-Memᴰ : {runs runs' : List Run} → Memᴰ run runs → Steps runs runs' → Memᴰ run runs'
  Steps-Memᴰ m here = m
  Steps-Memᴰ m (next steps step) = Step-Memᴰ (Steps-Memᴰ m steps) step
