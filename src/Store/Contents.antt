-- ===== src/Store/Contents.antt =====
-- The mirrored rows as a map: the row that stands under a store and a GID, and what the upserts and
-- the deletion of missing rows make of it.
use mathlib.Core.List.{Memᴰ}
use xg_mangement.Base.{
  ℕ, String, ◌≡◌, refl, ◌∙◌, Bool, true, false, not, ◌&&◌, Option, none, some, List, [], ◌∷◌, arith,
  if◌then◌else◌, ◌=ₛ◌, any, All, eq_iff, eq_refl, Bool-cases, inl, inr, text_lt, text_lt_irrefl, ap,
}
use xg_mangement.Mirror.Sorting.{IsSorted}
use xg_mangement.Store.Tables.{find, update}
use xg_mangement.Store.Database.{MirrorRow, of_store, conflicts, upsert, upsert_all, remove_missing}

module _ {A : Type 0} (gid : A → String) where
  -- SELECT … WHERE organization_id = o AND store_id = s AND shopify_gid = g
  abbrev pub is_at : String → String → String → MirrorRow A → Bool
  is_at o s g row = of_store o s row && gid row.item =ₛ g

  abbrev pub stored : String → String → String → List (MirrorRow A) → Option (MirrorRow A)
  stored o s g rows = find (is_at o s g) rows

  abbrev pub row_of : String → String → ℕ → A → MirrorRow A
  row_of o s t x = record { organization_id = o; store_id = s; item = x; synced_at = t }

  abbrev pub at_key : String → String → String → String → String → String → Bool
  at_key o s g o' s' g' = (o =ₛ o' && s =ₛ s') && g =ₛ g'

  abbrev set_item : ℕ → A → MirrorRow A → MirrorRow A
  set_item t x row = record row { item = x; synced_at = t }

  -- an upsert that overwrites every column
  abbrev overwrite : String → String → ℕ → List (MirrorRow A) → A → List (MirrorRow A)
  overwrite o s t rows x =
      if any (conflicts gid o s x) rows
      then update (conflicts gid o s x) (set_item t x) rows
      else row_of o s t x ∷ rows

  abbrev overwrite_all : String → String → ℕ → List (MirrorRow A) → List A → List (MirrorRow A)
  overwrite_all o s t rows [] = rows
  overwrite_all o s t rows (x ∷ xs) = overwrite_all o s t (overwrite o s t rows x) xs

  stored-update_other :
      (o s : String) (t : ℕ) (x : A) (o' s' g : String) (rows : List (MirrorRow A))
      → at_key o s (gid x) o' s' g ≡ false
      → stored o' s' g (update (conflicts gid o s x) (set_item t x) rows) ≡ stored o' s' g rows
  stored-update_other o s t x o' s' g [] h = refl
  stored-update_other o s t x o' s' g (row ∷ rows) h = elim (Bool-cases (conflicts gid o s x row)) [
    | inr e ↦ rw (e, stored-update_other o s t x o' s' g rows h)
    | inl e ↦
        let old : is_at o' s' g row ≡ false = ground (
          arith,
          eq_iff row.organization_id o,
          eq_iff row.store_id s,
          eq_iff (gid row.item) (gid x),
        ) in
        let new : is_at o' s' g (set_item t x row) ≡ false =
          ground (arith, eq_iff row.organization_id o, eq_iff row.store_id s) in
        rw (e, old, new, stored-update_other o s t x o' s' g rows h)
  ]

  stored-update :
      (o s : String) (t : ℕ) (x : A) (rows : List (MirrorRow A))
      → any (conflicts gid o s x) rows ≡ true
      → stored o s (gid x) (update (conflicts gid o s x) (set_item t x) rows)
        ≡ some (row_of o s t x)
  stored-update o s t x [] h = cc
  stored-update o s t x (row ∷ rows) h = elim (Bool-cases (conflicts gid o s x row)) [
    | inr e ↦ ground (arith, stored-update o s t x rows)
    | inl e ↦ ground (arith, eq_iff row.organization_id o, eq_iff row.store_id s, eq_refl (gid x))
  ]

  stored-overwrite :
      (o s : String) (t : ℕ) (x : A) (o' s' g : String) (rows : List (MirrorRow A))
      → stored o' s' g (overwrite o s t rows x)
        ≡ (if at_key o s (gid x) o' s' g then some (row_of o s t x) else stored o' s' g rows)
  stored-overwrite o s t x o' s' g rows = elim (Bool-cases (any (conflicts gid o s x) rows)) [
    | inr e ↦ rw e refl
    | inl e ↦ elim (Bool-cases (at_key o s (gid x) o' s' g)) [
      | inr other ↦ rw (e, other) (stored-update_other o s t x o' s' g rows other)
      | inl same ↦
          ground (arith, stored-update o s t x rows e, eq_iff o o', eq_iff s s', eq_iff (gid x) g)
    ]
  ]

  stored-overwrite_all_other :
      (o s : String) (t : ℕ) (o' s' g : String) (xs : List A) (rows : List (MirrorRow A))
      → any (λ x. at_key o s (gid x) o' s' g) xs ≡ false
      → stored o' s' g (overwrite_all o s t rows xs) ≡ stored o' s' g rows
  stored-overwrite_all_other o s t o' s' g [] rows h = refl
  stored-overwrite_all_other o s t o' s' g (x ∷ xs) rows h = ground (
    arith,
    stored-overwrite_all_other o s t o' s' g xs (overwrite o s t rows x),
    stored-overwrite o s t x o' s' g rows,
  )

  pub stored-remove_missing :
      (o s : String) (items : List A) (o' s' g : String) (rows : List (MirrorRow A))
      → stored o' s' g (remove_missing gid o s items rows) ≡ (
          if (o =ₛ o' && s =ₛ s') && not (any (λ x. g =ₛ gid x) items)
          then none
          else stored o' s' g rows)
  unfolding remove_missing
  stored-remove_missing o s items o' s' g [] = ground arith
  stored-remove_missing o s items o' s' g (row ∷ rows) = elim (Bool-cases (is_at o' s' g row)) [
    | inr e ↦ ground (arith, stored-remove_missing o s items o' s' g rows)
    | inl e ↦
        let same : gid row.item ≡ g = (eq_iff (gid row.item) g).0 (ground arith) in
        ground (
          arith,
          ap (λ k. any (λ x. k =ₛ gid x) items) same,
          stored-remove_missing o s items o' s' g rows,
          eq_iff row.organization_id o,
          eq_iff row.organization_id o',
          eq_iff row.store_id s,
          eq_iff row.store_id s',
          eq_iff o o',
          eq_iff s s',
        )
  ]

  at_key-none :
      (o s g : String) (xs : List A)
      → All (λ y. text_lt g (gid y) ≡ true) xs
      → any (λ y. at_key o s (gid y) o s g) xs ≡ false
  at_key-none o s g [] h = refl
  at_key-none o s g (y ∷ xs) (lt, h) = elim (Bool-cases (gid y =ₛ g)) [
    | inr e ↦ ground (arith, at_key-none o s g xs h)
    | inl e ↦
        let same : gid y ≡ g = (eq_iff (gid y) g).0 e in
        let wrong : text_lt g g ≡ true = rw same at lt in cc (wrong, text_lt_irrefl g)
  ]

  stored-overwrite_all :
      (o s : String) (t : ℕ) (x : A) (xs : List A) (rows : List (MirrorRow A))
      → IsSorted gid xs
      → Memᴰ x xs
      → stored o s (gid x) (overwrite_all o s t rows xs) ≡ some (row_of o s t x)
  stored-overwrite_all o s t x [] rows h m = elim m [ ]
  stored-overwrite_all o s t x (y ∷ xs) rows (first, h) (Memᴰ.tail m) =
      stored-overwrite_all o s t x xs (overwrite o s t rows y) h m
  stored-overwrite_all o s t x (y ∷ xs) rows (first, h) (Memᴰ.head e) = rw e (
      stored-overwrite_all_other o s t o s (gid y) xs (overwrite o s t rows y)
        (at_key-none o s (gid y) xs first)
      ∙ ground
          (arith, stored-overwrite o s t y o s (gid y) rows, eq_refl o, eq_refl s, eq_refl (gid y)))

  -- Assignments that leave nothing of an old row but its key.
  abbrev pub Overwrites : (A → A → A) → Type 0
  Overwrites assign = (old x : A) → gid old ≡ gid x → assign old x ≡ x

  module _ (assign : A → A → A) (assigns : Overwrites assign) where
    update-overwrite :
        (o s : String) (t : ℕ) (x : A) (rows : List (MirrorRow A))
        → update
            (conflicts gid o s x)
            (λ row. record row { item = assign row.item x; synced_at = t })
            rows
          ≡ update (conflicts gid o s x) (set_item t x) rows
    update-overwrite o s t x [] = refl
    update-overwrite o s t x (row ∷ rows) = elim (Bool-cases (conflicts gid o s x row)) [
      | inr e ↦ rw (e, update-overwrite o s t x rows)
      | inl e ↦
          let same : gid row.item ≡ gid x = (eq_iff (gid row.item) (gid x)).0 (ground arith) in
          rw (e, update-overwrite o s t x rows, assigns row.item x same) refl
    ]

    upsert_all-overwrite :
        (o s : String) (t : ℕ) (xs : List A) (rows : List (MirrorRow A))
        → upsert_all gid assign o s t rows xs ≡ overwrite_all o s t rows xs
    unfolding upsert_all upsert
    upsert_all-overwrite o s t [] rows = refl
    upsert_all-overwrite o s t (x ∷ xs) rows = ground (
      arith,
      update-overwrite o s t x rows,
      upsert_all-overwrite o s t xs (overwrite o s t rows x),
    )

    pub stored-upsert_all_other :
        (o s : String) (t : ℕ) (o' s' g : String) (xs : List A) (rows : List (MirrorRow A))
        → any (λ x. at_key o s (gid x) o' s' g) xs ≡ false
        → stored o' s' g (upsert_all gid assign o s t rows xs) ≡ stored o' s' g rows
    stored-upsert_all_other o s t o' s' g xs rows h =
        ap (stored o' s' g) (upsert_all-overwrite o s t xs rows)
        ∙ stored-overwrite_all_other o s t o' s' g xs rows h

    pub stored-upsert_all :
        (o s : String) (t : ℕ) (x : A) (xs : List A) (rows : List (MirrorRow A))
        → IsSorted gid xs
        → Memᴰ x xs
        → stored o s (gid x) (upsert_all gid assign o s t rows xs) ≡ some (row_of o s t x)
    stored-upsert_all o s t x xs rows h m =
        ap (stored o s (gid x)) (upsert_all-overwrite o s t xs rows)
        ∙ stored-overwrite_all o s t x xs rows h m
