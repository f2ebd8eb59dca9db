-- ===== src/Mirror/Batch.antt =====
-- What normalizeMirrorBatch promises of a whole batch.
use mathlib.Core.List.{Memᴰ, Permᴰ}
use xg_mangement.Base.{
  ℕ, String, ◌≡◌, sym, ◌⊎◌, inl, inr, Bool, true, Option, List, [], arith, Option-cases, ⊎-cases,
  All, All-of_mem, lookup, is_some,
}
use xg_mangement.Errors.{GoError}
use xg_mangement.Sync.{Product, Variant, Collection, Theme, MirrorBatch}
use xg_mangement.Mirror.{
  collect, sort_by_gid, values, product_time, variant_time, collection_time, theme_time,
  collect_products, collect_variants, collect_collections, collect_themes, sorted_batch,
  clean_product, clean_variant, clean_collection, clean_theme, product_gid, variant_gid,
  collection_gid, theme_gid, normalize_mirror_batch,
}
use xg_mangement.Mirror.Sorting.{All-sort_by_gid, sort_by_gid-perm}
use xg_mangement.Mirror.Newest.{All-values}
use xg_mangement.Mirror.Collect.{
  IsNewest, collect-IsNewest, collect-IsMap, collect-All, lookup-Memᴰ, Memᴰ-sort_by_gid,
}

-- A variant's parent is among the products.
abbrev pub HasParent : List Product → Variant → Type 0
HasParent products v = (p : Product) × Memᴰ p products × (p.shopify_gid ≡ v.product_shopify_gid)

pub record IsNormal (valid : String → Bool) (b b' : MirrorBatch) : Type 0 where
  pub product_map : List (String × Product)
  pub products : IsNewest product_gid product_time (clean_product valid) b.products b'.products
  pub variants :
      IsNewest variant_gid variant_time (clean_variant valid product_map) b.variants b'.variants
  pub collections :
      IsNewest collection_gid collection_time (clean_collection valid) b.collections b'.collections
  pub themes : IsNewest theme_gid theme_time clean_theme b.themes b'.themes
  pub parents : All (HasParent b'.products) b'.variants

module _ (valid : String → Bool) where
  clean_variant-parent :
      (products : List (String × Product)) (v w : Variant)
      → clean_variant valid products v ≡ inr w
      → is_some (lookup w.product_shopify_gid products) ≡ true
  unfolding clean_variant
  clean_variant-parent products v w h = ground arith

  HasParent-of_lookup :
      (b : MirrorBatch) (products : List (String × Product)) (w : Variant)
      → collect_products valid b ≡ inr products
      → is_some (lookup w.product_shopify_gid products) ≡ true
      → HasParent (sort_by_gid product_gid (values products)) w
  HasParent-of_lookup b products w hp h =
      elim (Option-cases (lookup w.product_shopify_gid products)) [
        | inl e ↦ let no_parent = rw e at h in cc no_parent
        | inr (p, e) ↦
            let (listed, at) =
              lookup-Memᴰ product_gid product_time (clean_product valid) w.product_shopify_gid
                products p
                (collect-IsMap product_gid product_time (clean_product valid) b.products products
                  hp).0
                e in
            (
              p,
              Memᴰ-sort_by_gid product_gid product_time (clean_product valid) p (values products)
                  listed,
              at,
            )
      ]

  parents_of :
      (b : MirrorBatch) (products : List (String × Product)) (variants : List (String × Variant))
      → collect_products valid b ≡ inr products
      → collect_variants valid b products ≡ inr variants
      → All
          (HasParent (sort_by_gid product_gid (values products)))
          (sort_by_gid variant_gid (values variants))
  parents_of b products variants hp hv =
      let P = HasParent (sort_by_gid product_gid (values products)) in
      All-sort_by_gid variant_gid P (values variants) (
        All-values variant_gid variant_time P variants (
          collect-All variant_gid variant_time (clean_variant valid products) P b.variants []
            variants
            (All-of_mem _ b.variants (λ v _ w good.
              HasParent-of_lookup b products w hp (clean_variant-parent products v w good)))
            hv tt))

  -- The maps of an accepted batch, and the result that they give.
  normalize-parts :
      (now : ℕ) (b b' : MirrorBatch)
      → normalize_mirror_batch valid now b ≡ inr b'
      → (products : List (String × Product)) × (variants : List (String × Variant))
        × (collections : List (String × Collection)) × (themes : List (String × Theme))
        × (collect_products valid b ≡ inr products)
        × (collect_variants valid b products ≡ inr variants)
        × (collect_collections valid b ≡ inr collections)
        × (collect_themes b ≡ inr themes)
        × (sorted_batch now b products variants collections themes ≡ b')
  unfolding normalize_mirror_batch
  normalize-parts now b b' h = elim (⊎-cases (collect_products valid b)) [
    | inl (err, e) ↦ let stopped = rw (e, normalize_mirror_batch) at h in cc stopped
    | inr (products, hp) ↦ elim (⊎-cases (collect_variants valid b products)) [
      | inl (err, e) ↦ let stopped = rw (hp, e, normalize_mirror_batch) at h in cc stopped
      | inr (variants, hv) ↦ elim (⊎-cases (collect_collections valid b)) [
        | inl (err, e) ↦ let stopped = rw (hp, hv, e, normalize_mirror_batch) at h in cc stopped
        | inr (collections, hc) ↦ elim (⊎-cases (collect_themes b)) [
          | inl (err, e) ↦
              let stopped = rw (hp, hv, hc, e, normalize_mirror_batch) at h in cc stopped
          | inr (themes, ht) ↦ (
            products,
            variants,
            collections,
            themes,
            hp,
            hv,
            hc,
            ht,
            inr_injective (rw (hp, hv, hc, ht, normalize_mirror_batch) at h),
          )
        ]
      ]
    ]
  ]
    where
      inr_injective : {x y : MirrorBatch} → ◌≡◌ {A = GoError ⊎ MirrorBatch} (inr x) (inr y) → x ≡ y
      inr_injective q = cc

  -- A batch that is accepted comes out with strictly increasing GIDs in each list; every input item
  -- is valid and is represented by an item with its GID that is not older; nothing else is in the
  -- output; and the parent product of every variant is in the batch.
  pub normalize_mirror_batch-IsNormal :
      (now : ℕ) (b b' : MirrorBatch)
      → normalize_mirror_batch valid now b ≡ inr b'
      → IsNormal valid b b'
  normalize_mirror_batch-IsNormal now b b' h =
      let (products, variants, collections, themes, hp, hv, hc, ht, e) =
        normalize-parts now b b' h in
      rw (← e) (record {
        product_map = products;
        products =
            collect-IsNewest product_gid product_time (clean_product valid) b.products products hp;
        variants =
            collect-IsNewest variant_gid variant_time (clean_variant valid products) b.variants
              variants hv;
        collections =
            collect-IsNewest collection_gid collection_time (clean_collection valid) b.collections
              collections hc;
        themes = collect-IsNewest theme_gid theme_time clean_theme b.themes themes ht;
        parents = parents_of b products variants hp hv;
      })

-- The random order in which Go ranges over a map does not show: reading the entries of a map that
-- the loop filled in any other order gives the same sorted list.
pub collect-order_free :
    {A : Type 0} (gid : A → String) (time : A → Option ℕ) (clean : A → GoError ⊎ A) (xs ys : List A)
    (m : List (String × A))
    → collect gid time clean xs [] ≡ inr m
    → Permᴰ (values m) ys
    → sort_by_gid gid ys ≡ sort_by_gid gid (values m)
collect-order_free gid time clean xs ys m h perm =
    sym (sort_by_gid-perm gid perm (collect-IsMap gid time clean xs m h).1)
