-- ===== src/Store/Bound.antt =====
-- A batch keeps its GIDs and its order when its values are bound to the columns.
use xg_mangement.Base.{
  String, List, [], ◌∷◌, ◌⊎◌, inl, inr, ◌≡◌, All, ⊎-cases, true, text_lt, sym, ap,
}
use xg_mangement.Errors.{GoError}
use xg_mangement.Sync.{Product, Variant, Collection, Theme, MirrorBatch}
use xg_mangement.Mirror.{product_gid, variant_gid, collection_gid, theme_gid}
use xg_mangement.Mirror.Sorting.{IsSorted}
use xg_mangement.Store.Enqueue.{Fresh}
use xg_mangement.Store.Columns.{
  numeric_column, product_columns, variant_columns, collection_columns, theme_columns, bind_all,
  bind_batch,
}

module _ (fresh : Fresh) {A : Type 0} (gid : A → String) (f : A → GoError ⊎ A)
    (keeps : (x y : A) → f x ≡ inr y → gid y ≡ gid x) where
  -- The ways through bind_all of a list that is not empty.
  bind_all-parts :
      (x : A) (xs ys : List A)
      → bind_all fresh f (x ∷ xs) ≡ inr ys
      → (y : A) × (zs : List A) × (f x ≡ inr y) × (bind_all fresh f xs ≡ inr zs) × (ys ≡ y ∷ zs)
  bind_all-parts x xs ys h = elim (⊎-cases (f x)) [
    | inl (e, n) ↦ let stuck = rw n at h in cc stuck
    | inr (y, n) ↦ elim (⊎-cases (bind_all fresh f xs)) [
      | inl (e, m) ↦ let stuck = rw (n, m) at h in cc stuck
      | inr (zs, m) ↦ (y, zs, n, m, sym (inr_injective (rw (n, m) at h)))
    ]
  ]
    where
      inr_injective : {x y : List A} → ◌≡◌ {A = GoError ⊎ List A} (inr x) (inr y) → x ≡ y
      inr_injective q = cc

  bind_all-All :
      (k : String) (xs ys : List A)
      → bind_all fresh f xs ≡ inr ys
      → All (λ x. text_lt k (gid x) ≡ true) xs
      → All (λ y. text_lt k (gid y) ≡ true) ys
  bind_all-All k [] [] h a = tt
  bind_all-All k [] (y ∷ ys) h a = cc
  bind_all-All k (x ∷ xs) ys h a =
      let (y, zs, n, m, e) = bind_all-parts x xs ys h in
      rw e (rw (keeps x y n) a.0, bind_all-All k xs zs m a.1)

  pub bind_all-IsSorted :
      (xs ys : List A) → bind_all fresh f xs ≡ inr ys → IsSorted gid xs → IsSorted gid ys
  bind_all-IsSorted [] [] h s = tt
  bind_all-IsSorted [] (y ∷ ys) h s = cc
  bind_all-IsSorted (x ∷ xs) ys h s =
      let (y, zs, n, m, e) = bind_all-parts x xs ys h in
      rw e (rw (keeps x y n) (bind_all-All (gid x) xs zs m s.0), bind_all-IsSorted xs zs m s.1)

module _ (fresh : Fresh) where
  pub product_columns-gid :
      (x y : Product) → product_columns fresh x ≡ inr y → product_gid y ≡ product_gid x
  unfolding product_columns
  product_columns-gid x y h = elim (⊎-cases (fresh.jsonb x.payload)) [
    | inl (e, n) ↦ let stuck = rw (n, product_columns) at h in cc stuck
    | inr (p, n) ↦ let e = rw (n, product_columns) at h in ap product_gid (sym (injective e))
  ]
    where
      injective : {x y : Product} → ◌≡◌ {A = GoError ⊎ Product} (inr x) (inr y) → x ≡ y
      injective q = cc

  pub variant_columns-gid :
      (x y : Variant) → variant_columns fresh x ≡ inr y → variant_gid y ≡ variant_gid x
  unfolding variant_columns
  variant_columns-gid x y h = elim (⊎-cases (numeric_column fresh x.price)) [
    | inl (e, n) ↦ let stuck = rw (n, variant_columns) at h in cc stuck
    | inr (p, n) ↦ elim (⊎-cases (numeric_column fresh x.compare_at_price)) [
      | inl (e, m) ↦ let stuck = rw (n, m, variant_columns) at h in cc stuck
      | inr (c, m) ↦ elim (⊎-cases (fresh.jsonb x.payload)) [
        | inl (e, w) ↦ let stuck = rw (n, m, w, variant_columns) at h in cc stuck
        | inr (j, w) ↦
            let e = rw (n, m, w, variant_columns) at h in ap variant_gid (sym (injective e))
      ]
    ]
  ]
    where
      injective : {x y : Variant} → ◌≡◌ {A = GoError ⊎ Variant} (inr x) (inr y) → x ≡ y
      injective q = cc

  pub collection_columns-gid :
      (x y : Collection) → collection_columns fresh x ≡ inr y → collection_gid y ≡ collection_gid x
  unfolding collection_columns
  collection_columns-gid x y h = elim (⊎-cases (fresh.jsonb x.payload)) [
    | inl (e, n) ↦ let stuck = rw (n, collection_columns) at h in cc stuck
    | inr (p, n) ↦ let e = rw (n, collection_columns) at h in ap collection_gid (sym (injective e))
  ]
    where
      injective : {x y : Collection} → ◌≡◌ {A = GoError ⊎ Collection} (inr x) (inr y) → x ≡ y
      injective q = cc

  pub theme_columns-gid : (x y : Theme) → theme_columns fresh x ≡ inr y → theme_gid y ≡ theme_gid x
  theme_columns-gid x y h = ap theme_gid (sym (injective h))
    where
      injective : {x y : Theme} → ◌≡◌ {A = GoError ⊎ Theme} (inr x) (inr y) → x ≡ y
      injective q = cc

  -- The four lists of a bound batch.
  pub record IsBound (b bound : MirrorBatch) : Type 0 where
    pub products : bind_all fresh (product_columns fresh) b.products ≡ inr bound.products
    pub variants : bind_all fresh (variant_columns fresh) b.variants ≡ inr bound.variants
    pub collections :
        bind_all fresh (collection_columns fresh) b.collections ≡ inr bound.collections
    pub themes : bind_all fresh (theme_columns fresh) b.themes ≡ inr bound.themes

  pub bind_batch-IsBound :
      (b bound : MirrorBatch) → bind_batch fresh b ≡ inr bound → IsBound b bound
  unfolding bind_batch
  bind_batch-IsBound b bound h =
      elim (⊎-cases (bind_all fresh (product_columns fresh) b.products)) [
        | inl (e, n) ↦ let stuck = rw (n, bind_batch) at h in cc stuck
        | inr (ps, n) ↦ elim (⊎-cases (bind_all fresh (variant_columns fresh) b.variants)) [
          | inl (e, m) ↦ let stuck = rw (n, m, bind_batch) at h in cc stuck
          | inr (vs, m) ↦ elim (⊎-cases (bind_all fresh (collection_columns fresh) b.collections)) [
            | inl (e, w) ↦ let stuck = rw (n, m, w, bind_batch) at h in cc stuck
            | inr (cs, w) ↦ elim (⊎-cases (bind_all fresh (theme_columns fresh) b.themes)) [
              | inl (e, t) ↦ let stuck = rw (n, m, w, t, bind_batch) at h in cc stuck
              | inr (ts, t) ↦
                  let same = injective (rw (n, m, w, t, bind_batch) at h) in
                  record {
                    products = rw (← same) n;
                    variants = rw (← same) m;
                    collections = rw (← same) w;
                    themes = rw (← same) t;
                  }
            ]
          ]
        ]
      ]
    where
      injective : {x y : MirrorBatch} → ◌≡◌ {A = GoError ⊎ MirrorBatch} (inr x) (inr y) → x ≡ y
      injective q = cc
