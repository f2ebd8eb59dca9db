-- ===== src/Tests/Mirrors.antt =====
-- The normalisation of a batch at a concrete one.
use mathlib.Core.List.{Permᴰ}
use xg_mangement.Base.{◌≡◌, refl, [], ◌∷◌, inr, String, List}
use xg_mangement.Sync.{Product, MirrorBatch}
use xg_mangement.Mirror.{
  normalize_mirror_batch, collect, sort_by_gid, values, product_gid, product_time, clean_product,
  clean_variant, add_newest,
}
use xg_mangement.Mirror.Batch.{IsNormal, normalize_mirror_batch-IsNormal, collect-order_free}
use xg_mangement.Tests.JsonText.{codec}
use xg_mangement.Tests.Values.{batch, product}

abbrev cleaned : MirrorBatch
cleaned = record batch { products = product ∷ [] }

cleans : normalize_mirror_batch codec.valid 3 batch ≡ inr cleaned
unfolding normalize_mirror_batch collect sort_by_gid clean_product clean_variant add_newest
    xg_mangement.Base.trim_space
cleans = refl

normalize_mirror_batch-IsNormal_example : IsNormal codec.valid batch cleaned
normalize_mirror_batch-IsNormal_example =
    normalize_mirror_batch-IsNormal codec.valid 3 batch cleaned cleans

abbrev second : Product
second = record product { shopify_gid = "p0" }

abbrev entries : List (String × Product)
entries = ("p1", product) ∷ ("p0", second) ∷ []

collected :
    collect product_gid product_time
      (clean_product codec.valid)
      (product ∷ second ∷ product ∷ [])
      []
    ≡ inr entries
unfolding collect clean_product add_newest xg_mangement.Base.trim_space
collected = refl

collect-order_free_example :
    sort_by_gid product_gid (second ∷ product ∷ []) ≡ sort_by_gid product_gid (values entries)
collect-order_free_example =
    collect-order_free product_gid product_time (clean_product codec.valid)
      (product ∷ second ∷ product ∷ []) (second ∷ product ∷ []) entries collected
      (Permᴰ.swap refl refl)
