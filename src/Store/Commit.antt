-- ===== src/Store/Commit.antt =====
-- ReplaceMirror as a transaction: what a run that returns no error has done, and when it cannot.
use xg_mangement.Base.{
  ℕ, ◌≡◌, sym, ◌∙◌, ap, Bool, true, false, Option, some, List, Option-cases, ⊎-cases, inl, inr, ◌⊎◌,
}
use xg_mangement.Errors.{GoError}
use xg_mangement.Jobs.{Codec}
use xg_mangement.Sync.{
  SyncRequest, MirrorBatch, ResourceCounts, counts, validate_request, mode_full,
}
use xg_mangement.Mirror.{normalize_mirror_batch}
use xg_mangement.Store.Tables.{Run, StoreRow, find, update}
use xg_mangement.Store.Columns.{bind_batch}
use xg_mangement.Store.Database.{Db}
use xg_mangement.Store.Runs.{complete_sync_run}
use xg_mangement.Store.Enqueue.{Fresh, is_store, enqueue_sync_run}
use xg_mangement.Store.Replace.{
  write_batch, mark_synchronized, follow_up, replace_bound, replace_body, replace_mirror,
}
use xg_mangement.Store.Queued.{enqueue_sync_run-SameRest}

module _ (codec : Codec) (now : ℕ) (fresh : Fresh) (r : SyncRequest) where
  -- the database once the batch is written and the store is marked
  abbrev pub marked : MirrorBatch → Db → Db
  marked b db = record db {
    mirrors = write_batch r b db.mirrors;
    stores =
        update (is_store r.organization_id r.store_id)
          (λ row. record row { last_synced_at = some b.synced_at; updated_at = now }) db.stores;
  }

  mark_synchronized-ok :
      (b : MirrorBatch) (db db' : Db) (resync : Bool)
      → mark_synchronized codec now fresh r b.synced_at
          (record db { mirrors = write_batch r b db.mirrors })
        ≡ inr (resync, db')
      → (store : StoreRow) × (find (is_store r.organization_id r.store_id) db.stores ≡ some store)
        × (store.resync_requested ≡ resync)
        × (marked b db ≡ db')
  unfolding mark_synchronized
  mark_synchronized-ok b db db' resync h =
      elim (Option-cases (find (is_store r.organization_id r.store_id) db.stores)) [
        | inl n ↦ let stuck = rw (n, mark_synchronized) at h in cc stuck
        | inr (store, n) ↦
            let same = rw (n, mark_synchronized) at h in
            (store, n, ap (λ p. p.0) (inr_injective same), ap (λ p. p.1) (inr_injective same))
      ]
    where
      inr_injective : {x y : Bool × Db} → ◌≡◌ {A = GoError ⊎ (Bool × Db)} (inr x) (inr y) → x ≡ y
      inr_injective q = cc

  -- What happened in a transaction that was committed.
  pub record IsCommitted (n : ResourceCounts) (b : MirrorBatch) (db db' : Db) : Type 0 where
    pub store : StoreRow
    pub found : find (is_store r.organization_id r.store_id) db.stores ≡ some store
    pub runs : List Run
    pub completed : complete_sync_run now n r db.runs ≡ inr runs
    pub followed :
        follow_up codec now fresh r store.resync_requested (record (marked b db) { runs = runs })
        ≡ inr db'

  replace_bound-IsCommitted :
      (total : ResourceCounts) (b : MirrorBatch) (db db' : Db)
      → replace_bound codec now fresh r total b db ≡ inr (tt, db')
      → IsCommitted total b db db'
  unfolding replace_bound
  replace_bound-IsCommitted total b db db' h =
      elim (⊎-cases (
        mark_synchronized codec now fresh r b.synced_at
          (record db { mirrors = write_batch r b db.mirrors }))) [
            | inl (e, n) ↦ let stuck = rw (n, replace_bound) at h in cc stuck
            | inr ((resync, db1), n) ↦
                let (store, found, flag, e1) = mark_synchronized-ok b db db1 resync n in
                elim (⊎-cases (complete_sync_run now total r db1.runs)) [
                  | inl (e, c) ↦ let stuck = rw (n, c, replace_bound) at h in cc stuck
                  | inr (runs, c) ↦
                      elim (⊎-cases
                        (follow_up codec now fresh r resync (record db1 { runs = runs }))) [
                          | inl (e, f) ↦ let stuck = rw (n, c, f, replace_bound) at h in cc stuck
                          | inr (db2, f) ↦
                              let same : db2 ≡ db' = ap_db (rw (n, c, f, replace_bound) at h) in
                              record {
                                store = store;
                                found = found;
                                runs = runs;
                                completed = ap (λ d. complete_sync_run now total r d.runs) e1 ∙ c;
                                followed =
                                    ap
                                      (λ d.
                                        follow_up codec now fresh r store.resync_requested
                                          (record d { runs = runs }))
                                      e1
                                    ∙ ap
                                        (λ q.
                                          follow_up codec now fresh r q
                                            (record db1 { runs = runs }))
                                        flag
                                    ∙ f
                                    ∙ ap inr same;
                              }
                        ]
                ]
          ]
    where
      ap_db : {x y : Db} → ◌≡◌ {A = GoError ⊎ (Unit {0} × Db)} (inr (tt, x)) (inr (tt, y)) → x ≡ y
      ap_db q = cc

  -- the database in which the follow-up is queued
  abbrev pub cleared : Db → Db
  cleared db = record db {
    stores =
        update (is_store r.organization_id r.store_id)
          (λ row. record row { resync_requested = false }) db.stores;
  }

  pub follow_up-queued :
      (db db' : Db)
      → follow_up codec now fresh r true db ≡ inr db'
      → enqueue_sync_run codec now fresh r.organization_id r.store_id "" mode_full "shopify-resync:"
          (cleared db)
        ≡ inr db'
  unfolding follow_up
  follow_up-queued db db' h =
      elim (⊎-cases (
        enqueue_sync_run codec now fresh r.organization_id r.store_id "" mode_full "shopify-resync:"
          (cleared db))) [
            | inl (e, n) ↦ let stuck = rw (n, follow_up) at h in cc stuck
            | inr (db1, n) ↦ n ∙ rw (n, follow_up) at h
          ]

  pub follow_up-mirrors :
      (q : Bool) (db db' : Db)
      → follow_up codec now fresh r q db ≡ inr db'
      → db'.mirrors ≡ db.mirrors
  unfolding follow_up
  follow_up-mirrors false db db' h = ap (λ d. d.mirrors) (sym (inr_injective h))
    where
      inr_injective : {x y : Db} → ◌≡◌ {A = GoError ⊎ Db} (inr x) (inr y) → x ≡ y
      inr_injective q = cc
  follow_up-mirrors true db db' h =
      (enqueue_sync_run-SameRest codec now fresh _ _ "" mode_full "shopify-resync:" (cleared db) db'
        (follow_up-queued db db' h)).mirrors

  -- The ways through ReplaceMirror: an error, and nothing has changed; or a committed transaction.
  pub data Way (input : MirrorBatch) (db : Db) (result : (GoError ⊎ Unit {0}) × Db) : Type 0 where
    rolled_back : (e : GoError) → result ≡ (inl e, db) → Way input db result
    committed :
        (b bound : MirrorBatch) (db' : Db)
        → normalize_mirror_batch codec.valid now input ≡ inr b
        → bind_batch fresh b ≡ inr bound
        → IsCommitted (counts b) bound db db'
        → result ≡ (inr tt, db')
        → Way input db result

  pub replace_mirror-cases :
      (fault : Option GoError) (input : MirrorBatch) (db : Db)
      → Way input db (replace_mirror codec now fresh r fault input db)
  unfolding replace_mirror replace_body
  replace_mirror-cases fault input db = elim (Option-cases (validate_request r)) [
    | inr (e, v) ↦ rolled_back e (rw (v, replace_mirror))
    | inl v ↦ elim (⊎-cases (normalize_mirror_batch codec.valid now input)) [
      | inl (e, n) ↦ rolled_back e (rw (v, n, replace_mirror))
      | inr (b, n) ↦ elim (Option-cases fault) [
        | inr (e, f) ↦ rolled_back e (rw (v, n, f, replace_mirror))
        | inl f ↦ elim (⊎-cases (bind_batch fresh b)) [
          | inl (e, m) ↦ rolled_back e (rw (v, n, f, m, replace_mirror, replace_body))
          | inr (bound, m) ↦ elim (⊎-cases (replace_bound codec now fresh r (counts b) bound db)) [
            | inl (e, w) ↦ rolled_back e (rw (v, n, f, m, w, replace_mirror, replace_body))
            | inr ((tt, db'), w) ↦
                committed b bound db' n m (replace_bound-IsCommitted (counts b) bound db db' w)
                  (rw (v, n, f, m, w, replace_mirror, replace_body))
          ]
        ]
      ]
    ]
  ]
