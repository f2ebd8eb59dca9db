-- ===== src/Bulk.antt =====
-- internal/shopifysync/decoder.go: the JSONL results of a Shopify bulk operation. encoding/json,
-- time.Parse and the splitting of the body into lines by bufio.Scanner are the standard library's:
-- the first two are the record `Parser`, the last is the list of the lines with the error at which
-- the scanner stopped.
pub mod Scan
pub mod Decoded
use xg_mangement.Base.{
  ℕ, String, Bool, true, false, not, ◌||◌, Option, none, some, List, [], ◌∷◌, ◌++◌, ◌⊎◌, inl, inr,
  ℤ, pos, if◌then◌else◌, ◌=ₛ◌, any, is_blank, has_prefix,
}
use xg_mangement.Errors.{GoError, SyncError, plain, sync_failed, error_text}
use xg_mangement.Sync.{Product, Variant, Collection}

-- bulkResource
pub record BulkResource : Type 0 where
  pub id : String
  pub parent_id : String
  pub handle : String
  pub title : String
  pub status : String
  pub vendor : String
  pub product_type : String
  pub sku : String
  pub price : String
  pub compare_at_price : String
  pub inventory_quantity : Option ℤ
  pub updated_at : String
  pub products_count : ℤ

pub record Parser : Type 0 where
  pub parse_resource : String → Option BulkResource
  pub parse_time : String → Option ℕ  -- RFC3339Nano

-- How the scanner ended: at the end of the body, at a line beyond maxBulkLineBytes ("token too
-- long"), or at another error with its text.
pub data ScanEnd : Type 0 where
  finished too_long : ScanEnd
  broken : String → ScanEnd

pub record Body : Type 0 where
  pub lines : List String
  pub end : ScanEnd

abbrev pub bulk_error : String → String → Bool → GoError
bulk_error code message retryable =
    sync_failed (record { code = code; message = message; retryable = retryable })

module _ {S : Type 0} (p : Parser) (visit : String → BulkResource → S → GoError ⊎ S) where
  -- one round of the loop over the lines
  abbrev pub scan_line : String → S → GoError ⊎ S
  scan_line line s = if is_blank line then inr s else elim (p.parse_resource line) [
    | none ↦ inl (bulk_error "bulk_invalid_json" "line is invalid JSON" false)
    | some resource ↦ if resource.id =ₛ "" then inr s else visit line resource s
  ]

  abbrev scan_end : ScanEnd → S → GoError ⊎ S
  scan_end finished s = inr s
  scan_end too_long s =
      inl (bulk_error "bulk_line_too_large" "Shopify bulk JSONL line exceeds 4 MiB" false)
  scan_end (broken text) s = inl (bulk_error "bulk_read_failed" text true)

  -- scanBulkLines, on the state that `visit` changes
  unfoldable pub scan_bulk_lines : List String → ScanEnd → S → GoError ⊎ S
  scan_bulk_lines [] end s = scan_end end s
  scan_bulk_lines (line ∷ lines) end s = elim (scan_line line s) [
    | inl e ↦ inl e
    | inr s' ↦ scan_bulk_lines lines end s'
  ]

module _ (p : Parser) where
  -- optionalTime
  abbrev pub optional_time : String → GoError ⊎ Option ℕ
  optional_time value = if is_blank value then inr none else elim (p.parse_time value) [
    | none ↦ inl (plain "invalid Shopify timestamp")
    | some t ↦ inr (some t)
  ]

  abbrev pub product_of : String → BulkResource → Option ℕ → Product
  product_of line r time = record {
    shopify_gid = r.id;
    handle = r.handle;
    title = r.title;
    status = r.status;
    vendor = r.vendor;
    product_type = r.product_type;
    payload = line;
    source_updated_at = time;
  }

  abbrev pub variant_of : String → BulkResource → Option ℕ → Variant
  variant_of line r time = record {
    shopify_gid = r.id;
    product_shopify_gid = r.parent_id;
    sku = r.sku;
    title = r.title;
    price = r.price;
    compare_at_price = r.compare_at_price;
    inventory_quantity = r.inventory_quantity;
    payload = line;
    source_updated_at = time;
  }

  abbrev pub is_variant : BulkResource → Bool
  is_variant r = has_prefix r.id "gid://shopify/ProductVariant/" || not (r.parent_id =ₛ "")

  -- the callback of DecodeProductsJSONL
  unfoldable pub visit_product :
      String → BulkResource → List Product × List Variant → GoError ⊎ (List Product × List Variant)
  visit_product line r (products, variants) = elim (optional_time r.updated_at) [
    | inl e ↦ inl (bulk_error "bulk_invalid_timestamp" (error_text e) false)
    | inr time ↦
        if is_variant r
        then inr (products, variants ++ variant_of line r time ∷ [])
        else if has_prefix r.id "gid://shopify/Product/"
        then inr (products ++ product_of line r time ∷ [], variants)
        else inr (products, variants)
  ]

  -- `_, exists := productIDs[…]`
  abbrev pub has_parent : List Product → Variant → Bool
  has_parent products v = any (λ x. x.shopify_gid =ₛ v.product_shopify_gid) products

  -- the loop over the variants
  abbrev pub check_parents : List Product → List Variant → Option GoError
  check_parents products [] = none
  check_parents products (v ∷ variants) =
      let rest : Option GoError = check_parents products variants in
      if has_parent products v
      then rest
      else some (bulk_error "bulk_parent_missing" "variant references missing product" false)

  -- DecodeProductsJSONL
  unfoldable pub decode_products_jsonl : Body → GoError ⊎ (List Product × List Variant)
  decode_products_jsonl body = elim (scan_bulk_lines p visit_product body.lines body.end ([], [])) [
    | inl e ↦ inl e
    | inr (products, variants) ↦ elim (check_parents products variants) [
      | some e ↦ inl e
      | none ↦ inr (products, variants)
    ]
  ]

  abbrev pub collection_of : String → BulkResource → Option ℕ → Collection
  collection_of line r time = record {
    shopify_gid = r.id;
    handle = r.handle;
    title = r.title;
    collection_type = "";
    products_count = r.products_count;
    payload = line;
    source_updated_at = time;
  }

  -- the callback of DecodeCollectionsJSONL
  unfoldable pub visit_collection :
      String → BulkResource → List Collection → GoError ⊎ List Collection
  visit_collection line r collections =
      if not (has_prefix r.id "gid://shopify/Collection/")
      then inr collections
      else elim (optional_time r.updated_at) [
        | inl e ↦ inl (bulk_error "bulk_invalid_timestamp" (error_text e) false)
        | inr time ↦ inr (collections ++ collection_of line r time ∷ [])
      ]

  -- DecodeCollectionsJSONL
  unfoldable pub decode_collections_jsonl : Body → GoError ⊎ List Collection
  decode_collections_jsonl body = scan_bulk_lines p visit_collection body.lines body.end []
