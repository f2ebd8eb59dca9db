-- ===== src/Mirror.antt =====
-- normalizeMirrorBatch of internal/platform/postgres/shopify_mirror.go. A Go map is an association
-- list; `range` over it has no order of its own, and the sort by GID that follows makes the result
-- independent of that order (`Sorting`).
pub mod Sorting
pub mod Newest
pub mod Collect
pub mod Batch
use xg_mangement.Base.{
  ℕ, String, Bool, true, false, not, ◌||◌, Option, none, some, List, [], ◌∷◌, map, ◌⊎◌, inl, inr,
  ltb, ◌==◌, if◌then◌else◌, ◌=ₛ◌, text_lt, trim_space, lookup, insert, is_some,
}
use xg_mangement.Errors.{GoError, plain}
use xg_mangement.Sync.{Product, Variant, Collection, Theme, MirrorBatch}

-- resourceIsNewer
abbrev pub resource_is_newer : Option ℕ → Option ℕ → Bool
resource_is_newer none candidate = true
resource_is_newer (some previous) none = false
resource_is_newer (some previous) (some candidate) = ltb previous candidate

module _ {A : Type 0} (gid : A → String) where
  -- one round of a loop over a kind of resource, on the map that it fills
  unfoldable pub add_newest : (A → Option ℕ) → A → List (String × A) → List (String × A)
  add_newest time x m = elim (lookup (gid x) m) [
    | none ↦ insert (gid x) x m
    | some previous ↦ if resource_is_newer (time previous) (time x) then insert (gid x) x m else m
  ]

  -- the loop: `clean` trims and checks an item
  unfoldable pub collect :
      (A → Option ℕ) → (A → GoError ⊎ A) → List A → List (String × A) → GoError ⊎ List (String × A)
  collect time clean [] m = inr m
  collect time clean (x ∷ xs) m = elim (clean x) [
    | inl e ↦ inl e
    | inr y ↦ collect time clean xs (add_newest time y m)
  ]

  insert_sorted : A → List A → List A
  insert_sorted x [] = x ∷ []
  insert_sorted x (y ∷ ys) = if text_lt (gid x) (gid y) then x ∷ y ∷ ys else y ∷ insert_sorted x ys

  -- sort.Slice by the GIDs
  unfoldable pub sort_by_gid : List A → List A
  unfolding insert_sorted
  sort_by_gid [] = []
  sort_by_gid (x ∷ xs) = insert_sorted x (sort_by_gid xs)

abbrev pub values {ℓ} : {A : Type ℓ} → List (String × A) → List A
values [] = []
values (e ∷ m) = e.1 ∷ values m

-- validPayload
abbrev pub valid_payload : (String → Bool) → String → String
valid_payload valid payload = if payload =ₛ "" || not (valid payload) then "{}" else payload

unfoldable pub clean_theme : Theme → GoError ⊎ Theme
clean_theme t =
    let gid : String = trim_space t.shopify_gid in
    if gid =ₛ ""
    then inl (plain "Shopify theme GID is required")
    else inr (record t { shopify_gid = gid })

module _ (valid : String → Bool) where
  unfoldable pub clean_product : Product → GoError ⊎ Product
  clean_product p =
      let gid : String = trim_space p.shopify_gid in
      if gid =ₛ ""
      then inl (plain "Shopify product GID is required")
      else inr (record p { shopify_gid = gid; payload = valid_payload valid p.payload })

  unfoldable pub clean_variant : List (String × Product) → Variant → GoError ⊎ Variant
  clean_variant products v =
      let gid : String = trim_space v.shopify_gid in
      let parent : String = trim_space v.product_shopify_gid in
      if gid =ₛ "" || parent =ₛ ""
      then inl (plain "Shopify variant and parent product GIDs are required")
      else if is_some (lookup parent products)
      then inr (record v {
        shopify_gid = gid;
        product_shopify_gid = parent;
        payload = valid_payload valid v.payload;
      })
      else inl (plain "Shopify variant references missing product")

  unfoldable pub clean_collection : Collection → GoError ⊎ Collection
  clean_collection c =
      let gid : String = trim_space c.shopify_gid in
      if gid =ₛ ""
      then inl (plain "Shopify collection GID is required")
      else inr (record c { shopify_gid = gid; payload = valid_payload valid c.payload })

infixl 5 ◌>>=◌
abbrev pub ◌>>=◌ {ℓ κ} : {A : Type ℓ} {B : Type κ} → GoError ⊎ A → (A → GoError ⊎ B) → GoError ⊎ B
inl e >>= f = inl e
inr a >>= f = f a

abbrev pub product_gid : Product → String
product_gid p = p.shopify_gid

abbrev pub variant_gid : Variant → String
variant_gid v = v.shopify_gid

abbrev pub collection_gid : Collection → String
collection_gid c = c.shopify_gid

abbrev pub theme_gid : Theme → String
theme_gid t = t.shopify_gid

abbrev pub product_time : Product → Option ℕ
product_time p = p.source_updated_at

abbrev pub variant_time : Variant → Option ℕ
variant_time v = v.source_updated_at

abbrev pub collection_time : Collection → Option ℕ
collection_time c = c.source_updated_at

abbrev pub theme_time : Theme → Option ℕ
theme_time t = t.updated_at

-- The four loops.
module _ (valid : String → Bool) (batch : MirrorBatch) where
  abbrev pub collect_products : GoError ⊎ List (String × Product)
  collect_products = collect product_gid product_time (clean_product valid) batch.products []

  abbrev pub collect_variants : List (String × Product) → GoError ⊎ List (String × Variant)
  collect_variants products =
      collect variant_gid variant_time (clean_variant valid products) batch.variants []

  abbrev pub collect_collections : GoError ⊎ List (String × Collection)
  collect_collections =
      collect collection_gid collection_time (clean_collection valid) batch.collections []

abbrev pub collect_themes : MirrorBatch → GoError ⊎ List (String × Theme)
collect_themes batch = collect theme_gid theme_time clean_theme batch.themes []

-- the maps read out and sorted; `now` is the time that stands in for a zero SyncedAt
abbrev pub sorted_batch :
    ℕ
    → MirrorBatch
    → List (String × Product)
    → List (String × Variant)
    → List (String × Collection)
    → List (String × Theme)
    → MirrorBatch
sorted_batch now batch products variants collections themes = record {
  products = sort_by_gid product_gid (values products);
  variants = sort_by_gid variant_gid (values variants);
  collections = sort_by_gid collection_gid (values collections);
  themes = sort_by_gid theme_gid (values themes);
  synced_at = if batch.synced_at == 0 then now else batch.synced_at;
}

-- normalizeMirrorBatch
unfoldable pub normalize_mirror_batch : (String → Bool) → ℕ → MirrorBatch → GoError ⊎ MirrorBatch
normalize_mirror_batch valid now batch = do
  products ← collect_products valid batch
  variants ← collect_variants valid batch products
  collections ← collect_collections valid batch
  themes ← collect_themes batch
  inr (sorted_batch now batch products variants collections themes)
