-- ===== src/Store/Completion.antt =====
-- What ReplaceMirror promises: the mirrored rows of a full synchronisation, the fence of a lost
-- lease, and the follow-up that a webhook asked for.
use xg_mangement.Base.{
  ℕ, String, ◌≡◌, refl, sym, ◌∙◌, ap, Bool, true, false, Option, some, List, [], ◌∷◌, arith, any,
  All, Bool-cases, inl, inr,
}
use xg_mangement.Errors.{GoError}
use xg_mangement.Jobs.{Codec}
use xg_mangement.Sync.{SyncRequest, MirrorBatch, counts, mode_full}
use xg_mangement.Mirror.{normalize_mirror_batch}
use xg_mangement.Mirror.Batch.{normalize_mirror_batch-IsNormal}
use xg_mangement.Store.Tables.{Run, StoreRow, find, update}
use xg_mangement.Store.Columns.{bind_batch}
use xg_mangement.Store.Database.{Db}
use xg_mangement.Store.Runs.{active_in, complete_sync_run, holds, completed_row}
use xg_mangement.Store.Enqueue.{Fresh, is_store}
use xg_mangement.Store.Replace.{replace_mirror}
use xg_mangement.Store.Queued.{IsFree, enqueue_sync_run-SameRest, enqueue_sync_run-active}
use xg_mangement.Store.Replacement.{IsWritten, bind_batch-IsOrdered, write_batch-IsWritten}
use xg_mangement.Store.Commit.{
  rolled_back, committed, replace_mirror-cases, follow_up-mirrors, follow_up-queued,
}

module _ {ℓ} {A : Type ℓ} where
  any-update :
      (p q : A → Bool) (f : A → A)
      → ((x : A) → p (f x) ≡ p x)
      → (xs : List A) → any p (update q f xs) ≡ any p xs
  any-update p q f h [] = refl
  any-update p q f h (x ∷ xs) = elim (Bool-cases (q x)) [
    | inl e ↦ rw (e, h x, any-update p q f h xs)
    | inr e ↦ rw (e, any-update p q f h xs)
  ]

-- No row of the store asks for a follow-up.
abbrev pub IsCleared : String → String → List StoreRow → Type 0
IsCleared o s stores = All (λ row. is_store o s row ≡ true → row.resync_requested ≡ false) stores

clears :
    (o s : String) (stores : List StoreRow)
    → IsCleared o s (update (is_store o s) (λ row. record row { resync_requested = false }) stores)
clears o s [] = tt
clears o s (row ∷ stores) = elim (Bool-cases (is_store o s row)) [
  | inl e ↦ rw e ((λ h. refl), clears o s stores)
  | inr e ↦ rw e ((λ h. cc (e, h)), clears o s stores)
]

module _ (codec : Codec) (now : ℕ) (fresh : Fresh) (r : SyncRequest) (fault : Option GoError)
    (input : MirrorBatch) (db : Db) where
  -- A ReplaceMirror that returns no error has normalised its batch, PostgreSQL has taken every value
  -- of it into its column, and exactly these values stand under the store: each item stands under its GID; another GID of the store has no row after a
  -- full synchronisation and its old row after an incremental one; no other store has changed.
  pub replace_mirror-IsWritten :
      (db' : Db)
      → replace_mirror codec now fresh r fault input db ≡ (inr tt, db')
      → (b bound : MirrorBatch) × (normalize_mirror_batch codec.valid now input ≡ inr b)
        × (bind_batch fresh b ≡ inr bound)
        × IsWritten r bound db.mirrors db'.mirrors
  replace_mirror-IsWritten db' h = elim (replace_mirror-cases codec now fresh r fault input db) [
    | rolled_back e w ↦ let stuck = ap (λ p. p.0) (sym w ∙ h) in cc stuck
    | committed b bound db1 n m c w ↦
        let same : db1 ≡ db' = ap (λ p. p.1) (sym w ∙ h) in
        let e = follow_up-mirrors codec now fresh r c.store.resync_requested _ db1 c.followed in
        (
          b,
          bound,
          n,
          m,
          rw (← same, e)
              (write_batch-IsWritten r bound db.mirrors (
                bind_batch-IsOrdered fresh codec.valid input b bound
                  (normalize_mirror_batch-IsNormal codec.valid now input b n) m)),
        )
  ]

  -- A worker that does not hold the lease of its run changes nothing at all: ReplaceMirror returns
  -- an error, and every table is as it was.
  pub replace_mirror-fenced :
      any (holds r) db.runs ≡ false
      → (e : GoError) × (replace_mirror codec now fresh r fault input db ≡ (inl e, db))
  unfolding complete_sync_run
  replace_mirror-fenced lost = elim (replace_mirror-cases codec now fresh r fault input db) [
    | rolled_back e w ↦ (e, w)
    | committed b bound db1 n m c w ↦
        let stuck = rw (lost, complete_sync_run) at c.completed in cc stuck
  ]

  complete_sync_run-IsFree :
      (b : MirrorBatch) (runs : List Run)
      → complete_sync_run now (counts b) r db.runs ≡ inr runs
      → IsFree fresh "" db.runs
      → IsFree fresh "" runs
  unfolding complete_sync_run completed_row
  complete_sync_run-IsFree b runs h free =
      let e : update (holds r) (completed_row now (counts b)) db.runs ≡ runs = ground arith in
      rw (← e) (any-update _ (holds r) (completed_row now (counts b)) (λ x. refl) db.runs ∙ free)

  -- A follow-up that was asked for is not lost: when ReplaceMirror returns no error and the store's
  -- row asked for another synchronisation, the store has a queued or running run, and the request is
  -- cleared, provided that the ids that the database makes up are new.
  pub replace_mirror-follow_up :
      (db' : Db) (store : StoreRow)
      → replace_mirror codec now fresh r fault input db ≡ (inr tt, db')
      → find (is_store r.organization_id r.store_id) db.stores ≡ some store
      → store.resync_requested ≡ true
      → IsFree fresh "" db.runs
      → (any (active_in r.organization_id r.store_id) db'.runs ≡ true)
        × IsCleared r.organization_id r.store_id db'.stores
  replace_mirror-follow_up db' store h found asked free =
      elim (replace_mirror-cases codec now fresh r fault input db) [
        | rolled_back e w ↦ let stuck = ap (λ p. p.0) (sym w ∙ h) in cc stuck
        | committed b bound db1 n m c w ↦
            let same : db1 ≡ db' = ap (λ p. p.1) (sym w ∙ h) in
            let q : c.store.resync_requested ≡ true = cc (c.found, found, asked) in
            let queued = follow_up-queued codec now fresh r _ db1 (rw q at c.followed) in
            let rest =
              enqueue_sync_run-SameRest codec now fresh _ _ "" mode_full "shopify-resync:" _ db1
                queued in
            rw (← same) (
              enqueue_sync_run-active codec now fresh _ _ "" mode_full "shopify-resync:" _ db1
                  (complete_sync_run-IsFree b c.runs c.completed free) queued,
              rw rest.stores (clears _ _ _),
            )
      ]
