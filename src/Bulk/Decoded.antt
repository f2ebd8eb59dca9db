-- ===== src/Bulk/Decoded.antt =====
-- What DecodeProductsJSONL returns, against the lines of the body.
use mathlib.Core.List.{Memᴰ}
use mathlib.Core.List.Memᴰ.{append_left, append_right}
use xg_mangement.Base.{
  ℕ, String, ◌≡◌, refl, Option, none, some, List, [], ◌∷◌, ◌++◌, ◌⊎◌, inl, inr, ⊎-cases, All,
  is_blank, Bool-cases, true, false, Option-cases, ◌=ₛ◌, has_prefix, eq_iff,
}
use xg_mangement.Errors.{GoError}
use xg_mangement.Sync.{Product, Variant}
use xg_mangement.Mirror.Batch.{HasParent}
use xg_mangement.Bulk.{
  BulkResource, Parser, Body, finished, scan_line, scan_bulk_lines, visit_product, optional_time,
  product_of, variant_of, is_variant, has_parent, check_parents, decode_products_jsonl,
}
use xg_mangement.Bulk.Scan.{scan_line-cases, scan_bulk_lines-keeps, scan_bulk_lines-all}

module _ {A : Type 0} where
  All-append_last : (P : A → Type 0) (xs : List A) (x : A) → All P xs → P x → All P (xs ++ x ∷ [])
  All-append_last P [] x h p = (p, tt)
  All-append_last P (y ∷ xs) x (q, h) p = (q, All-append_last P xs x h p)

abbrev pub Decoded : Type 0
Decoded = List Product × List Variant

abbrev pub product_prefix : String
product_prefix = "gid://shopify/Product/"

module _ (p : Parser) where
  -- A visited resource stands in the list of its kind, if it is a variant or a product.
  abbrev pub IsKept : String → BulkResource → Decoded → Type 0
  IsKept line r s =
      (time : Option ℕ) × (optional_time p r.updated_at ≡ inr time)
      × (((is_variant p r ≡ true) × Memᴰ (variant_of p line r time) s.1)
          ⊎ ((is_variant p r ≡ false)
              × (has_prefix r.id product_prefix ≡ true)
              × Memᴰ (product_of p line r time) s.0)
          ⊎ ((is_variant p r ≡ false) × (has_prefix r.id product_prefix ≡ false)))

  -- A line is blank, or holds a resource without an id, or one that is kept.
  abbrev pub IsRead : Decoded → String → Type 0
  IsRead s line =
      (is_blank line ≡ true)
      ⊎ ((r : BulkResource) × (p.parse_resource line ≡ some r)
          × (((r.id =ₛ "") ≡ true) ⊎ IsKept line r s))

  abbrev pub HasPrefix : Product → Type 0
  HasPrefix x = has_prefix x.shopify_gid product_prefix ≡ true

  -- The three ways through the callback.
  data Visit (line : String) (r : BulkResource) (s t : Decoded) : Type 0 where
    variant :
        (time : Option ℕ)
        → optional_time p r.updated_at ≡ inr time
        → is_variant p r ≡ true
        → (s.0, s.1 ++ variant_of p line r time ∷ []) ≡ t
        → Visit line r s t
    product :
        (time : Option ℕ)
        → optional_time p r.updated_at ≡ inr time
        → is_variant p r ≡ false
        → has_prefix r.id product_prefix ≡ true
        → (s.0 ++ product_of p line r time ∷ [], s.1) ≡ t
        → Visit line r s t
    other :
        (time : Option ℕ)
        → optional_time p r.updated_at ≡ inr time
        → is_variant p r ≡ false
        → has_prefix r.id product_prefix ≡ false
        → s ≡ t
        → Visit line r s t

  inr_injective : {x y : Decoded} → ◌≡◌ {A = GoError ⊎ Decoded} (inr x) (inr y) → x ≡ y
  inr_injective q = cc

  visit_product-cases :
      (line : String) (r : BulkResource) (s t : Decoded)
      → visit_product p line r s ≡ inr t
      → Visit line r s t
  unfolding visit_product
  visit_product-cases line r s t h = elim (⊎-cases (optional_time p r.updated_at)) [
    | inl (e, n) ↦ let stuck = rw (n, visit_product) at h in cc stuck
    | inr (time, n) ↦ elim (Bool-cases (is_variant p r)) [
      | inl v ↦ variant time n v (inr_injective (rw (n, v, visit_product) at h))
      | inr v ↦ elim (Bool-cases (has_prefix r.id product_prefix)) [
        | inl g ↦ product time n v g (inr_injective (rw (n, v, g, visit_product) at h))
        | inr g ↦ other time n v g (inr_injective (rw (n, v, g, visit_product) at h))
      ]
    ]
  ]

  IsKept-visit :
      (line : String) (r : BulkResource) (s t : Decoded)
      → visit_product p line r s ≡ inr t
      → IsKept line r t
  IsKept-visit line r s t h = elim (visit_product-cases line r s t h) [
    | variant time n v e ↦ rw (← e) (time, n, inl (v, append_right s.1 (Memᴰ.head refl)))
    | product time n v g e ↦ rw (← e) (time, n, inr (inl (v, g, append_right s.0 (Memᴰ.head refl))))
    | other time n v g e ↦ (time, n, inr (inr (v, g)))
  ]

  -- What stood in a list stays there.
  grows :
      (line : String) (r : BulkResource) (s t : Decoded)
      → visit_product p line r s ≡ inr t
      → ((x : Product) → Memᴰ x s.0 → Memᴰ x t.0) × ((x : Variant) → Memᴰ x s.1 → Memᴰ x t.1)
  grows line r s t h = elim (visit_product-cases line r s t h) [
    | variant time n v e ↦
        rw (← e) ((λ x m. m), λ x m. append_left (variant_of p line r time ∷ []) m)
    | product time n v g e ↦
        rw (← e) ((λ x m. append_left (product_of p line r time ∷ []) m), λ x m. m)
    | other time n v g e ↦ rw (← e) ((λ x m. m), λ x m. m)
  ]

  IsRead-line :
      (line : String) (s t : Decoded) → scan_line p (visit_product p) line s ≡ inr t → IsRead t line
  IsRead-line line s t h = elim (scan_line-cases p (visit_product p) line s t h) [
    | inl (b, _) ↦ inl b
    | inr (r, n, inl (e, _)) ↦ inr (r, n, inl e)
    | inr (r, n, inr (_, v)) ↦ inr (r, n, inr (IsKept-visit line r s t v))
  ]

  IsRead-keeps :
      (line line' : String) (r : BulkResource) (s t : Decoded)
      → visit_product p line' r s ≡ inr t
      → IsRead s line
      → IsRead t line
  IsRead-keeps line line' r s t h (inl b) = inl b
  IsRead-keeps line line' r s t h (inr (q, n, inl e)) = inr (q, n, inl e)
  IsRead-keeps line line' r s t h (inr (q, n, inr (time, o, inl (v, m)))) =
      inr (q, n, inr (time, o, inl (v, (grows line' r s t h).1 _ m)))
  IsRead-keeps line line' r s t h (inr (q, n, inr (time, o, inr (inl (v, g, m))))) =
      inr (q, n, inr (time, o, inr (inl (v, g, (grows line' r s t h).0 _ m))))
  IsRead-keeps line line' r s t h (inr (q, n, inr (time, o, inr (inr (v, g))))) =
      inr (q, n, inr (time, o, inr (inr (v, g))))

  HasPrefix-keeps :
      (line : String) (r : BulkResource) (s t : Decoded)
      → visit_product p line r s ≡ inr t
      → All HasPrefix s.0
      → All HasPrefix t.0
  HasPrefix-keeps line r s t h k = elim (visit_product-cases line r s t h) [
    | variant time n v e ↦ rw (← e) k
    | product time n v g e ↦ rw (← e) (All-append_last HasPrefix s.0 (product_of p line r time) k g)
    | other time n v g e ↦ rw (← e) k
  ]

  has_parent-HasParent :
      (products : List Product) (v : Variant)
      → has_parent p products v ≡ true
      → HasParent products v
  has_parent-HasParent [] v h = cc h
  has_parent-HasParent (x ∷ products) v h =
      elim (Bool-cases (x.shopify_gid =ₛ v.product_shopify_gid)) [
        | inl e ↦ (x, Memᴰ.head refl, (eq_iff x.shopify_gid v.product_shopify_gid).0 e)
        | inr e ↦
            let (y, m, same) = has_parent-HasParent products v (rw e at h) in (y, Memᴰ.tail m, same)
      ]

  check_parents-All :
      (products : List Product) (variants : List Variant)
      → check_parents p products variants ≡ none
      → All (HasParent products) variants
  check_parents-All products [] h = tt
  check_parents-All products (v ∷ variants) h = elim (Bool-cases (has_parent p products v)) [
    | inl e ↦ (has_parent-HasParent products v e, check_parents-All products variants (rw e at h))
    | inr e ↦ let stuck = rw e at h in cc stuck
  ]

  -- The parts of a decoding that succeeds.
  decode_products_jsonl-parts :
      (body : Body) (s : Decoded)
      → decode_products_jsonl p body ≡ inr s
      → (scan_bulk_lines p (visit_product p) body.lines body.end ([], []) ≡ inr s)
        × (check_parents p s.0 s.1 ≡ none)
  unfolding decode_products_jsonl
  decode_products_jsonl-parts body s h =
      elim (⊎-cases (scan_bulk_lines p (visit_product p) body.lines body.end ([], []))) [
        | inl (e, n) ↦ let stuck = rw (n, decode_products_jsonl) at h in cc stuck
        | inr (t, n) ↦ elim (Option-cases (check_parents p t.0 t.1)) [
          | inr (e, c) ↦ let stuck = rw (n, c, decode_products_jsonl) at h in cc stuck
          | inl c ↦
              let same : t ≡ s = inr_injective (rw (n, c, decode_products_jsonl) at h) in
              rw (← same) (n, c)
        ]
      ]

  -- A result that DecodeProductsJSONL accepts was read to its end; every line is blank, or holds a
  -- resource without an id, or one that, with its time, stands in the answer as a variant or as a
  -- product, unless it is neither; every product has a product's GID; and the parent product of every
  -- variant is in the answer.
  pub decode_products_jsonl-IsRead :
      (body : Body) (s : Decoded)
      → decode_products_jsonl p body ≡ inr s
      → (body.end ≡ finished)
        × All (IsRead s) body.lines
        × All HasPrefix s.0
        × All (HasParent s.0) s.1
  decode_products_jsonl-IsRead body s h =
      let (scanned, parents) = decode_products_jsonl-parts body s h in
      let (prefixed, end) =
        scan_bulk_lines-keeps p (visit_product p) (λ t. All HasPrefix t.0) HasPrefix-keeps
          body.lines body.end ([], []) s scanned tt in
      (
        end,
        scan_bulk_lines-all p (visit_product p) (λ line t. IsRead t line) IsRead-line IsRead-keeps
            body.lines body.end ([], []) s scanned,
        prefixed,
        check_parents-All s.0 s.1 parents,
      )
