-- ===== src/Store/Replacement.antt =====
-- What one batch makes of one mirror table, and of the four of them.
use mathlib.Core.List.{Memᴰ}
use xg_mangement.Base.{
  ℕ, String, ◌≡◌, refl, ◌∙◌, Bool, true, false, ◌&&◌, none, some, List, [], ◌∷◌, arith,
  if◌then◌else◌, ◌=ₛ◌, any, All, All-of_mem, eq_iff, eq_refl, Bool-cases, inl, inr,
}
use xg_mangement.Sync.{SyncRequest, MirrorBatch, mode_incremental}
use xg_mangement.Mirror.{product_gid, variant_gid, collection_gid, theme_gid}
use xg_mangement.Mirror.Sorting.{IsSorted}
use xg_mangement.Mirror.Batch.{IsNormal}
use xg_mangement.Store.Database.{MirrorRow, Mirrors, upsert_all, remove_missing}
use xg_mangement.Store.Replace.{upsert_mirrors, remove_missing_mirror_rows, write_batch}
use xg_mangement.Store.Enqueue.{Fresh}
use xg_mangement.Store.Columns.{
  product_columns, variant_columns, collection_columns, theme_columns, bind_batch, assign_product,
  assign_variant, assign_collection, assign_theme, assign_product-Overwrites,
  assign_variant-Overwrites, assign_collection-Overwrites, assign_theme-Overwrites,
}
use xg_mangement.Store.Bound.{
  bind_all-IsSorted, product_columns-gid, variant_columns-gid, collection_columns-gid,
  theme_columns-gid, bind_batch-IsBound,
}
use xg_mangement.Store.Contents.{
  Overwrites, stored, row_of, at_key, stored-upsert_all, stored-upsert_all_other,
  stored-remove_missing,
}

module _ {A : Type 0} (gid : A → String) where
  -- The table `after` is `before` with the items of one store written over it: each item stands
  -- under its GID; a GID that is not among the items has its old row if `partial`, and none if not;
  -- the rows of other stores are as they were.
  pub record IsReplaced (partial : Bool) (o s : String) (t : ℕ) (items : List A)
      (before after : List (MirrorRow A)) : Type 0 where
    pub written : All (λ x. stored gid o s (gid x) after ≡ some (row_of gid o s t x)) items
    pub absent :
        (g : String)
        → any (λ x. g =ₛ gid x) items ≡ false
        → stored gid o s g after ≡ (if partial then stored gid o s g before else none)
    pub others :
        (o' s' g : String)
        → (o =ₛ o' && s =ₛ s') ≡ false
        → stored gid o' s' g after ≡ stored gid o' s' g before

  any-mem : (x : A) (xs : List A) → Memᴰ x xs → any (λ y. gid x =ₛ gid y) xs ≡ true
  any-mem x [] m = elim m [ ]
  any-mem x (y ∷ xs) (Memᴰ.head e) = rw e (ground (arith, eq_refl (gid y)))
  any-mem x (y ∷ xs) (Memᴰ.tail m) = ground (arith, any-mem x xs m)

  at_key-absent :
      (o s g : String) (xs : List A)
      → any (λ x. g =ₛ gid x) xs ≡ false
      → any (λ x. at_key gid o s (gid x) o s g) xs ≡ false
  at_key-absent o s g [] h = refl
  at_key-absent o s g (x ∷ xs) h =
      ground (arith, at_key-absent o s g xs, eq_iff g (gid x), eq_iff (gid x) g)

  at_key-other :
      (o s o' s' g : String) (xs : List A)
      → (o =ₛ o' && s =ₛ s') ≡ false
      → any (λ x. at_key gid o s (gid x) o' s' g) xs ≡ false
  at_key-other o s o' s' g [] h = refl
  at_key-other o s o' s' g (x ∷ xs) h = ground (arith, at_key-other o s o' s' g xs)

  module _ (o s : String) (t : ℕ) (items : List A) (before : List (MirrorRow A))
      (sorted : IsSorted gid items) (assign : A → A → A) (assigns : Overwrites gid assign) where
    upsert_all-IsReplaced :
        IsReplaced true o s t items before (upsert_all gid assign o s t before items)
    upsert_all-IsReplaced = record {
      written =
          All-of_mem _ items
            (λ x m. stored-upsert_all gid assign assigns o s t x items before sorted m);
      absent = λ g h.
          stored-upsert_all_other gid assign assigns o s t o s g items before
            (at_key-absent o s g items h);
      others = λ o' s' g h.
          stored-upsert_all_other gid assign assigns o s t o' s' g items before
            (at_key-other o s o' s' g items h);
    }

    remove_missing-IsReplaced :
        IsReplaced false o s t items before
          (remove_missing gid o s items (upsert_all gid assign o s t before items))
    remove_missing-IsReplaced = record {
      written = All-of_mem _ items (λ x m.
          stored-remove_missing gid o s items o s (gid x) (upsert_all gid assign o s t before items)
          ∙ ground (
            arith,
            any-mem x items m,
            stored-upsert_all gid assign assigns o s t x items before sorted m,
          ));
      absent = λ g h.
          stored-remove_missing gid o s items o s g (upsert_all gid assign o s t before items)
          ∙ ground (arith, eq_refl o, eq_refl s);
      others = λ o' s' g h.
          stored-remove_missing gid o s items o' s' g (upsert_all gid assign o s t before items)
          ∙ ground (
            arith,
            stored-upsert_all_other gid assign assigns o s t o' s' g items before
                (at_key-other o s o' s' g items h),
          );
    }

-- The four tables at once.
pub record IsWritten (r : SyncRequest) (b : MirrorBatch) (before after : Mirrors) : Type 0 where
  pub products :
      IsReplaced product_gid
        (r.mode =ₛ mode_incremental)
        r.organization_id
        r.store_id
        b.synced_at
        b.products
        before.products
        after.products
  pub variants :
      IsReplaced variant_gid
        (r.mode =ₛ mode_incremental)
        r.organization_id
        r.store_id
        b.synced_at
        b.variants
        before.variants
        after.variants
  pub collections :
      IsReplaced collection_gid
        (r.mode =ₛ mode_incremental)
        r.organization_id
        r.store_id
        b.synced_at
        b.collections
        before.collections
        after.collections
  pub themes :
      IsReplaced theme_gid
        (r.mode =ₛ mode_incremental)
        r.organization_id
        r.store_id
        b.synced_at
        b.themes
        before.themes
        after.themes

-- what the GIDs of a written batch must be
pub record IsOrdered (b : MirrorBatch) : Type 0 where
  pub products : IsSorted product_gid b.products
  pub variants : IsSorted variant_gid b.variants
  pub collections : IsSorted collection_gid b.collections
  pub themes : IsSorted theme_gid b.themes

pub bind_batch-IsOrdered :
    (fresh : Fresh) (valid : String → Bool) (input b bound : MirrorBatch)
    → IsNormal valid input b
    → bind_batch fresh b ≡ inr bound
    → IsOrdered bound
bind_batch-IsOrdered fresh valid input b bound n h =
    let w = bind_batch-IsBound fresh b bound h in
    record {
      products =
          bind_all-IsSorted fresh product_gid (product_columns fresh) (product_columns-gid fresh)
            b.products bound.products w.products n.products.sorted;
      variants =
          bind_all-IsSorted fresh variant_gid (variant_columns fresh) (variant_columns-gid fresh)
            b.variants bound.variants w.variants n.variants.sorted;
      collections =
          bind_all-IsSorted fresh collection_gid (collection_columns fresh)
            (collection_columns-gid fresh) b.collections bound.collections w.collections
            n.collections.sorted;
      themes =
          bind_all-IsSorted fresh theme_gid (theme_columns fresh) (theme_columns-gid fresh) b.themes
            bound.themes w.themes n.themes.sorted;
    }

pub write_batch-IsWritten :
    (r : SyncRequest) (b : MirrorBatch) (m : Mirrors)
    → IsOrdered b
    → IsWritten r b m (write_batch r b m)
unfolding write_batch upsert_mirrors remove_missing_mirror_rows
write_batch-IsWritten r b m n = elim (Bool-cases (r.mode =ₛ mode_incremental)) [
  | inl e ↦ rw e (record {
    products = rw e (
        upsert_all-IsReplaced product_gid _ _ _ _ _ n.products assign_product
          assign_product-Overwrites);
    variants = rw e (
        upsert_all-IsReplaced variant_gid _ _ _ _ _ n.variants assign_variant
          assign_variant-Overwrites);
    collections = rw e (
        upsert_all-IsReplaced collection_gid _ _ _ _ _ n.collections assign_collection
          assign_collection-Overwrites);
    themes =
        rw e
          (upsert_all-IsReplaced theme_gid _ _ _ _ _ n.themes assign_theme assign_theme-Overwrites);
  })
  | inr e ↦ rw e (record {
    products = rw e (
        remove_missing-IsReplaced product_gid _ _ _ _ _ n.products assign_product
          assign_product-Overwrites);
    variants = rw e (
        remove_missing-IsReplaced variant_gid _ _ _ _ _ n.variants assign_variant
          assign_variant-Overwrites);
    collections = rw e (
        remove_missing-IsReplaced collection_gid _ _ _ _ _ n.collections assign_collection
          assign_collection-Overwrites);
    themes = rw e (
        remove_missing-IsReplaced theme_gid _ _ _ _ _ n.themes assign_theme
          assign_theme-Overwrites);
  })
]
