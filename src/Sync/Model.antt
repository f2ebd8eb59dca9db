-- ===== src/Sync/Model.antt =====
-- internal/shopifysync/models.go: modes, requests, mirrored resources and batches. Times count
-- nanoseconds from Go's zero time; a pointer to a time is an `Option`.
use xg_mangement.Base.{
  ℕ, String, Bool, not, ◌&&◌, Option, none, some, List, if◌then◌else◌, ◌=ₛ◌, is_blank, ℤ, length,
}
use xg_mangement.Errors.{GoError, plain}

abbrev pub mode_full : String
mode_full = "full"

abbrev pub mode_incremental : String
mode_incremental = "incremental"

pub record SyncRequest : Type 0 where
  pub organization_id : String
  pub store_id : String
  pub run_id : String
  pub mode : String
  pub lease_owner : String

-- SyncRequest.Validate
unfoldable pub validate_request : SyncRequest → Option GoError
validate_request r =
    if is_blank r.organization_id
    then some (plain "organization_id is required")
    else if is_blank r.store_id
    then some (plain "store_id is required")
    else if is_blank r.run_id
    then some (plain "run_id is required")
    else if not (r.mode =ₛ "") && not (r.mode =ₛ mode_full) && not (r.mode =ₛ mode_incremental)
    then some (plain "unsupported sync mode")
    else none

pub record ResourceCounts : Type 0 where
  pub products : ℕ
  pub variants : ℕ
  pub collections : ℕ
  pub themes : ℕ

pub record Product : Type 0 where
  pub shopify_gid : String
  pub handle : String
  pub title : String
  pub status : String
  pub vendor : String
  pub product_type : String
  pub payload : String
  pub source_updated_at : Option ℕ

pub record Variant : Type 0 where
  pub shopify_gid : String
  pub product_shopify_gid : String
  pub sku : String
  pub title : String
  pub price : String
  pub compare_at_price : String
  pub inventory_quantity : Option ℤ
  pub payload : String
  pub source_updated_at : Option ℕ

pub record Collection : Type 0 where
  pub shopify_gid : String
  pub handle : String
  pub title : String
  pub collection_type : String
  pub products_count : ℤ
  pub payload : String
  pub source_updated_at : Option ℕ

pub record Theme : Type 0 where
  pub shopify_gid : String
  pub name : String
  pub role : String
  pub processing : Bool
  pub processing_failed : Bool
  pub theme_store_id : Option ℤ
  pub source_release_id : Option String
  pub updated_at : Option ℕ
  pub synced_at : ℕ

pub record MirrorBatch : Type 0 where
  pub products : List Product
  pub variants : List Variant
  pub collections : List Collection
  pub themes : List Theme
  pub synced_at : ℕ

-- MirrorBatch.Counts
abbrev pub counts : MirrorBatch → ResourceCounts
counts b = record {
  products = length b.products;
  variants = length b.variants;
  collections = length b.collections;
  themes = length b.themes;
}
