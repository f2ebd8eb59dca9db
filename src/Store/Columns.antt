-- ===== src/Store/Columns.antt =====
-- The columns that the four INSERT statements of ReplaceMirror write, in shopify_mirror.go: the values
-- as PostgreSQL keeps them, and the assignments of DO UPDATE SET. NULL is the empty text in a numeric
-- column, and a variant's product_id is its product's GID.
use xg_mangement.Base.{String, List, [], ◌∷◌, ◌⊎◌, inl, inr, if◌then◌else◌, ◌=ₛ◌}
use xg_mangement.Errors.{GoError, wrap, ◌⁀◌}
use xg_mangement.Sync.{Product, Variant, Collection, Theme, MirrorBatch}
use xg_mangement.Mirror.{◌>>=◌, product_gid, variant_gid, collection_gid, theme_gid}
use xg_mangement.Store.Enqueue.{Fresh}
use xg_mangement.Store.Contents.{Overwrites}

-- an error of a statement
abbrev failing : {A : Type 0} → String → GoError ⊎ A → GoError ⊎ A
failing text (inl e) = inl (wrap text e)
failing text (inr a) = inr a

module _ (fresh : Fresh) where
  -- NULLIF($, '')::numeric, into numeric(20,4)
  abbrev pub numeric_column : String → GoError ⊎ String
  numeric_column text = if text =ₛ "" then inr "" else fresh.numeric text

  unfoldable pub product_columns : Product → GoError ⊎ Product
  product_columns p =
      failing ("upsert Shopify product " ⁀ p.shopify_gid)
        (do payload ← fresh.jsonb p.payload; inr (record p { payload = payload }))

  unfoldable pub variant_columns : Variant → GoError ⊎ Variant
  variant_columns v = failing ("upsert Shopify variant " ⁀ v.shopify_gid) (do
    price ← numeric_column v.price
    compare_at_price ← numeric_column v.compare_at_price
    payload ← fresh.jsonb v.payload
    inr (record v { price = price; compare_at_price = compare_at_price; payload = payload }))

  unfoldable pub collection_columns : Collection → GoError ⊎ Collection
  collection_columns c =
      failing ("upsert Shopify collection " ⁀ c.shopify_gid)
        (do payload ← fresh.jsonb c.payload; inr (record c { payload = payload }))

  -- no column holds the theme's own time
  abbrev pub theme_columns : Theme → GoError ⊎ Theme
  theme_columns t = inr (record t { synced_at = 0 })

  abbrev pub bind_all : {A : Type 0} → (A → GoError ⊎ A) → List A → GoError ⊎ List A
  bind_all f [] = inr []
  bind_all f (x ∷ xs) = do y ← f x; ys ← bind_all f xs; inr (y ∷ ys)

  -- the values of the four loops
  unfoldable pub bind_batch : MirrorBatch → GoError ⊎ MirrorBatch
  bind_batch b = do
    products ← bind_all product_columns b.products
    variants ← bind_all variant_columns b.variants
    collections ← bind_all collection_columns b.collections
    themes ← bind_all theme_columns b.themes
    inr (record b {
      products = products;
      variants = variants;
      collections = collections;
      themes = themes;
    })

abbrev pub assign_product : Product → Product → Product
assign_product old new = record old {
  handle = new.handle;
  title = new.title;
  status = new.status;
  vendor = new.vendor;
  product_type = new.product_type;
  payload = new.payload;
  source_updated_at = new.source_updated_at;
}

abbrev pub assign_variant : Variant → Variant → Variant
assign_variant old new = record old {
  product_shopify_gid = new.product_shopify_gid;
  sku = new.sku;
  title = new.title;
  price = new.price;
  compare_at_price = new.compare_at_price;
  inventory_quantity = new.inventory_quantity;
  payload = new.payload;
  source_updated_at = new.source_updated_at;
}

abbrev pub assign_collection : Collection → Collection → Collection
assign_collection old new = record old {
  handle = new.handle;
  title = new.title;
  collection_type = new.collection_type;
  products_count = new.products_count;
  payload = new.payload;
  source_updated_at = new.source_updated_at;
}

-- the theme's own time is no column, and is 0 in every row
abbrev pub assign_theme : Theme → Theme → Theme
assign_theme old new = record old {
  name = new.name;
  role = new.role;
  processing = new.processing;
  processing_failed = new.processing_failed;
  theme_store_id = new.theme_store_id;
  source_release_id = new.source_release_id;
  updated_at = new.updated_at;
  synced_at = new.synced_at;
}

pub assign_product-Overwrites : Overwrites product_gid assign_product
assign_product-Overwrites old x same = λ i. record x { shopify_gid = same i }

pub assign_variant-Overwrites : Overwrites variant_gid assign_variant
assign_variant-Overwrites old x same = λ i. record x { shopify_gid = same i }

pub assign_collection-Overwrites : Overwrites collection_gid assign_collection
assign_collection-Overwrites old x same = λ i. record x { shopify_gid = same i }

pub assign_theme-Overwrites : Overwrites theme_gid assign_theme
assign_theme-Overwrites old x same = λ i. record x { shopify_gid = same i }
