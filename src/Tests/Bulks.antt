-- ===== src/Tests/Bulks.antt =====
-- A bulk result of a product and its variant.
use xg_mangement.Base.{
  ◌≡◌, refl, none, some, [], ◌∷◌, inr, if◌then◌else◌, ◌=ₛ◌, All, trim_space, pos,
}
use xg_mangement.Mirror.Batch.{HasParent}
use xg_mangement.Bulk.{
  BulkResource, Parser, Body, finished, scan_bulk_lines, visit_product, decode_products_jsonl,
  product_of, variant_of,
}
use xg_mangement.Bulk.Decoded.{Decoded, IsRead, HasPrefix, decode_products_jsonl-IsRead}

abbrev resource : BulkResource
resource = record {
  id = "gid://shopify/Product/1";
  parent_id = "";
  handle = "h";
  title = "t";
  status = "ACTIVE";
  vendor = "v";
  product_type = "p";
  sku = "";
  price = "";
  compare_at_price = "";
  inventory_quantity = none;
  updated_at = "";
  products_count = pos 0;
}

abbrev child : BulkResource
child = record resource {
  id = "gid://shopify/ProductVariant/2";
  parent_id = "gid://shopify/Product/1";
}

abbrev parser : Parser
parser = record {
  parse_resource = λ line.
      if line =ₛ "product" then some resource else if line =ₛ "variant" then some child else none;
  parse_time = λ _. none;
}

abbrev body : Body
body = record { lines = "variant" ∷ "" ∷ "product" ∷ []; end = finished }

abbrev decoded : Decoded
decoded =
    (product_of parser "product" resource none ∷ [], variant_of parser "variant" child none ∷ [])

decodes : decode_products_jsonl parser body ≡ inr decoded
unfolding decode_products_jsonl scan_bulk_lines visit_product trim_space
decodes = refl

decode_products_jsonl-IsRead_example :
    (body.end ≡ finished)
    × All (IsRead parser decoded) body.lines
    × All (HasPrefix parser) decoded.0
    × All (HasParent decoded.0) decoded.1
decode_products_jsonl-IsRead_example = decode_products_jsonl-IsRead parser body decoded decodes
