-- ===== src/Store/Replace.antt =====
-- ReplaceMirror and removeMissingMirrorRows of shopify_mirror.go: the batch of a run, its
-- completion and the follow-up run in one transaction.
use xg_mangement.Base.{
  ℕ, String, Bool, true, false, not, Option, none, some, ◌⊎◌, inl, inr, if◌then◌else◌, ◌=ₛ◌,
}
use xg_mangement.Errors.{GoError, wrap, no_rows}
use xg_mangement.Jobs.{Codec}
use xg_mangement.Sync.{
  SyncRequest, MirrorBatch, ResourceCounts, counts, mode_full, mode_incremental, validate_request,
}
use xg_mangement.Mirror.{
  ◌>>=◌, product_gid, variant_gid, collection_gid, theme_gid, normalize_mirror_batch,
}
use xg_mangement.Store.Tables.{update, find}
use xg_mangement.Store.Columns.{
  bind_batch, assign_product, assign_variant, assign_collection, assign_theme,
}
use xg_mangement.Store.Database.{Mirrors, Db, upsert_all, remove_missing, transact}
use xg_mangement.Store.Runs.{complete_sync_run}
use xg_mangement.Store.Enqueue.{Fresh, is_store, enqueue_sync_run}

-- the four upsert loops
unfoldable pub upsert_mirrors : String → String → MirrorBatch → Mirrors → Mirrors
upsert_mirrors o s b m = record {
  products = upsert_all product_gid assign_product o s b.synced_at m.products b.products;
  variants = upsert_all variant_gid assign_variant o s b.synced_at m.variants b.variants;
  collections =
      upsert_all collection_gid assign_collection o s b.synced_at m.collections b.collections;
  themes = upsert_all theme_gid assign_theme o s b.synced_at m.themes b.themes;
}

-- removeMissingMirrorRows; deleting a product would also delete its variants, but those of products
-- outside the batch are gone by then
unfoldable pub remove_missing_mirror_rows : String → String → MirrorBatch → Mirrors → Mirrors
remove_missing_mirror_rows o s b m = record {
  products = remove_missing product_gid o s b.products m.products;
  variants = remove_missing variant_gid o s b.variants m.variants;
  collections = remove_missing collection_gid o s b.collections m.collections;
  themes = remove_missing theme_gid o s b.themes m.themes;
}

-- the mirrored rows after the batch is written
unfoldable pub write_batch : SyncRequest → MirrorBatch → Mirrors → Mirrors
unfolding upsert_mirrors remove_missing_mirror_rows
write_batch r b m =
    let written : Mirrors = upsert_mirrors r.organization_id r.store_id b m in
    if not (r.mode =ₛ mode_incremental)
    then remove_missing_mirror_rows r.organization_id r.store_id b written
    else written

module _ (codec : Codec) (now : ℕ) (fresh : Fresh) (r : SyncRequest) where
  -- UPDATE shopify_stores SET last_synced_at … RETURNING resync_requested
  unfoldable pub mark_synchronized : ℕ → Db → GoError ⊎ (Bool × Db)
  mark_synchronized synced_at db = elim (find (is_store r.organization_id r.store_id) db.stores) [
    | none ↦ inl (wrap "mark Shopify store synchronized" no_rows)
    | some store ↦ inr (
      store.resync_requested,
      record db {
        stores =
            update (is_store r.organization_id r.store_id)
              (λ row. record row { last_synced_at = some synced_at; updated_at = now }) db.stores;
      },
    )
  ]

  -- the follow-up run that a webhook asked for meanwhile
  unfoldable pub follow_up : Bool → Db → GoError ⊎ Db
  follow_up false db = inr db
  follow_up true db =
      elim (enqueue_sync_run codec now fresh r.organization_id r.store_id "" mode_full
        "shopify-resync:"
        (record db {
          stores =
              update (is_store r.organization_id r.store_id)
                (λ row. record row { resync_requested = false }) db.stores;
        })) [ inl e ↦ inl (wrap "enqueue Shopify follow-up sync" e) | inr db' ↦ inr db' ]

  -- the transaction, on the values of the columns
  unfoldable pub replace_bound : ResourceCounts → MirrorBatch → Db → GoError ⊎ (Unit {0} × Db)
  replace_bound n b db = do
    (resync, marked) ←
        mark_synchronized b.synced_at (record db { mirrors = write_batch r b db.mirrors })
    runs ← complete_sync_run now n r marked.runs
    db' ← follow_up resync (record marked { runs = runs })
    inr (tt, db')

  -- the transaction, on a normalised batch
  unfoldable pub replace_body : MirrorBatch → Db → GoError ⊎ (Unit {0} × Db)
  unfolding replace_bound
  replace_body b db = do bound ← bind_batch fresh b; replace_bound (counts b) bound db

  -- ReplaceMirror
  unfoldable pub replace_mirror : Option GoError → MirrorBatch → Db → (GoError ⊎ Unit {0}) × Db
  unfolding replace_body
  replace_mirror fault input db = elim (validate_request r) [
    | some e ↦ (inl e, db)
    | none ↦ elim (normalize_mirror_batch codec.valid now input) [
      | inl e ↦ (inl e, db)
      | inr b ↦ transact fault (replace_body b db) db
    ]
  ]
