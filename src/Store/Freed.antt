-- ===== src/Store/Freed.antt =====
-- The lease of a run after the statements of shopify_mirror.go that end the run.
use xg_mangement.Base.{
  ℕ, String, ◌≡◌, sym, ap, ◌∙◌, Bool, true, false, Option, none, some, List, ◌⊎◌, inr, arith, any,
}
use xg_mangement.Errors.{GoError}
use xg_mangement.Jobs.{Codec}
use xg_mangement.Sync.{SyncRequest, MirrorBatch, ResourceCounts, counts, mode_full}
use xg_mangement.Store.Tables.{Run, update}
use xg_mangement.Store.Database.{Db}
use xg_mangement.Store.Runs.{
  holds, failed_row, completed_row, complete_sync_run, heartbeat_sync_run, fail_sync_run,
}
use xg_mangement.Store.Runs.Updates.{any-update_ended}
use xg_mangement.Store.Enqueue.{Fresh}
use xg_mangement.Store.Replace.{replace_mirror, follow_up}
use xg_mangement.Store.Queued.{enqueue_sync_run-holds}
use xg_mangement.Store.Commit.{
  rolled_back, committed, replace_mirror-cases, follow_up-queued, cleared,
}

completed_row-holds :
    (r : SyncRequest) (now : ℕ) (c : ResourceCounts) (run : Run)
    → holds r (completed_row now c run) ≡ false
unfolding completed_row
completed_row-holds r now c run = ground arith

failed_row-holds :
    (r : SyncRequest) (now : ℕ) (code message : String) (run : Run)
    → holds r (failed_row now code message run) ≡ false
unfolding failed_row
failed_row-holds r now code message run = ground arith

pub heartbeat_sync_run-holds :
    (now : ℕ) (fault : Option GoError) (later : GoError ⊎ List Run) (r : SyncRequest)
    (runs : List Run)
    → any (holds r) runs ≡ false
    → any (holds r) (heartbeat_sync_run now fault later r runs).1 ≡ false
unfolding heartbeat_sync_run
heartbeat_sync_run-holds now (some e) later r runs h = h
heartbeat_sync_run-holds now none later r runs h = rw (h, heartbeat_sync_run) h

pub fail_sync_run-holds :
    (now : ℕ) (fault : Option GoError) (r : SyncRequest) (code message : String) (runs : List Run)
    → (fail_sync_run now fault r code message runs).0 ≡ none
    → any (holds r) (fail_sync_run now fault r code message runs).1 ≡ false
unfolding fail_sync_run
fail_sync_run-holds now (some e) r code message runs h = cc
fail_sync_run-holds now none r code message runs h =
    any-update_ended (holds r) (failed_row now code message) (failed_row-holds r now code message)
      runs

complete_sync_run-holds :
    (now : ℕ) (c : ResourceCounts) (r : SyncRequest) (runs runs' : List Run)
    → complete_sync_run now c r runs ≡ inr runs'
    → any (holds r) runs' ≡ false
unfolding complete_sync_run
complete_sync_run-holds now c r runs runs' h =
    let e : update (holds r) (completed_row now c) runs ≡ runs' = ground arith in
    rw (← e) (any-update_ended (holds r) (completed_row now c) (completed_row-holds r now c) runs)

module _ (codec : Codec) (now : ℕ) (fresh : Fresh) (r : SyncRequest) where
  follow_up-holds :
      (q : Bool) (db db' : Db)
      → any (holds r) db.runs ≡ false
      → follow_up codec now fresh r q db ≡ inr db'
      → any (holds r) db'.runs ≡ false
  unfolding follow_up
  follow_up-holds false db db' free h = rw (← inr_injective h) free
    where
      inr_injective : {x y : Db} → ◌≡◌ {A = GoError ⊎ Db} (inr x) (inr y) → x ≡ y
      inr_injective q = cc
  follow_up-holds true db db' free h =
      enqueue_sync_run-holds codec now fresh _ _ "" mode_full "shopify-resync:" r
        (cleared codec now fresh r db) db' free (follow_up-queued codec now fresh r db db' h)

  pub replace_mirror-holds :
      (fault : Option GoError) (input : MirrorBatch) (db db' : Db)
      → replace_mirror codec now fresh r fault input db ≡ (inr tt, db')
      → any (holds r) db'.runs ≡ false
  replace_mirror-holds fault input db db' h =
      elim (replace_mirror-cases codec now fresh r fault input db) [
        | rolled_back e w ↦ let stuck = ap (λ p. p.0) (sym w ∙ h) in cc stuck
        | committed b bound db1 n m c w ↦
            let same : db1 ≡ db' = ap (λ p. p.1) (sym w ∙ h) in
            rw (← same) (
              follow_up-holds c.store.resync_requested _ db1
                (complete_sync_run-holds now (counts b) r db.runs c.runs c.completed) c.followed)
      ]
