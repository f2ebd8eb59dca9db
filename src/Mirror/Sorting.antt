-- ===== src/Mirror/Sorting.antt =====
-- The sort by GID: its result is strictly sorted, holds the same items, and does not depend on the
-- order in which the map was read.
use mathlib.Core.List.{Permᴰ}
use mathlib.Core.Path.{subst, ap₂}
use xg_mangement.Base.{
  String, ◌≡◌, refl, sym, ◌∙◌, ◌≢◌, inl, inr, true, List, [], ◌∷◌, arith, ap, Bool-cases, All,
  text_lt, text_lt_irrefl, text_lt_trans, text_lt_total,
}
use xg_mangement.Mirror.{insert_sorted, sort_by_gid}

module _ {A : Type 0} (gid : A → String) where
  -- Strictly increasing, so without duplicates.
  abbrev pub IsSorted : List A → Type 0
  IsSorted [] = Unit
  IsSorted (x ∷ xs) = All (λ y. text_lt (gid x) (gid y) ≡ true) xs × IsSorted xs

  abbrev pub IsDistinct : List A → Type 0
  IsDistinct [] = Unit
  IsDistinct (x ∷ xs) = All (λ y. gid x ≢ gid y) xs × IsDistinct xs

  All-insert_sorted :
      (P : A → Type 0) (x : A) (ys : List A) → P x → All P ys → All P (insert_sorted gid x ys)
  unfolding insert_sorted
  All-insert_sorted P x [] p h = (p, tt)
  All-insert_sorted P x (y ∷ ys) p (q, h) = elim (Bool-cases (text_lt (gid x) (gid y))) [
    | inl e ↦ rw e (p, (q, h))
    | inr e ↦ rw e (q, All-insert_sorted P x ys p h)
  ]

  pub All-sort_by_gid : (P : A → Type 0) (xs : List A) → All P xs → All P (sort_by_gid gid xs)
  unfolding sort_by_gid
  All-sort_by_gid P [] h = tt
  All-sort_by_gid P (x ∷ xs) (p, h) =
      All-insert_sorted P x (sort_by_gid gid xs) p (All-sort_by_gid P xs h)

  All-lt_trans :
      (s : String) (x : A) (ys : List A)
      → text_lt s (gid x) ≡ true
      → All (λ y. text_lt (gid x) (gid y) ≡ true) ys
      → All (λ y. text_lt s (gid y) ≡ true) ys
  All-lt_trans s x [] e h = tt
  All-lt_trans s x (y ∷ ys) e (l, h) =
      (text_lt_trans s (gid x) (gid y) e l, All-lt_trans s x ys e h)

  insert_sorted-IsSorted :
      (x : A) (ys : List A)
      → All (λ y. gid x ≢ gid y) ys
      → IsSorted ys
      → IsSorted (insert_sorted gid x ys)
  unfolding insert_sorted
  insert_sorted-IsSorted x [] d h = (tt, tt)
  insert_sorted-IsSorted x (y ∷ ys) (ne, d) (l, h) = elim (Bool-cases (text_lt (gid x) (gid y))) [
    | inl e ↦ rw e ((e, All-lt_trans (gid x) y ys e l), (l, h))
    | inr e ↦
        let after : text_lt (gid y) (gid x) ≡ true = elim (Bool-cases (text_lt (gid y) (gid x))) [
          | inl lt ↦ lt
          | inr ge ↦ absurd (ne (text_lt_total (gid x) (gid y) e ge))
        ] in
        rw e (
          All-insert_sorted (λ z. text_lt (gid y) (gid z) ≡ true) x ys after l,
          insert_sorted-IsSorted x ys d h,
        )
  ]

  pub sort_by_gid-IsSorted : (xs : List A) → IsDistinct xs → IsSorted (sort_by_gid gid xs)
  unfolding sort_by_gid
  sort_by_gid-IsSorted [] d = tt
  sort_by_gid-IsSorted (x ∷ xs) (ne, d) =
      insert_sorted-IsSorted x (sort_by_gid gid xs) (All-sort_by_gid (λ y. gid x ≢ gid y) xs ne)
        (sort_by_gid-IsSorted xs d)

  insert_sorted_swap :
      (x y : A) (zs : List A)
      → gid x ≢ gid y
      → insert_sorted gid x (insert_sorted gid y zs) ≡ insert_sorted gid y (insert_sorted gid x zs)
  unfolding insert_sorted
  insert_sorted_swap x y [] ne = ground (
    arith,
    text_lt_total (gid x) (gid y),
    text_lt_trans (gid x) (gid y) (gid x),
    text_lt_irrefl (gid x),
  )
  insert_sorted_swap x y (z ∷ zs) ne = ground (
    arith,
    insert_sorted_swap x y zs ne,
    text_lt_total (gid x) (gid y),
    text_lt_total (gid x) (gid z),
    text_lt_total (gid y) (gid z),
    text_lt_irrefl (gid x),
    text_lt_trans (gid x) (gid y) (gid x),
    text_lt_trans (gid x) (gid y) (gid z),
    text_lt_trans (gid y) (gid x) (gid z),
  )

  All-perm : (P : A → Type 0) {xs ys : List A} → Permᴰ xs ys → All P xs → All P ys
  All-perm P Permᴰ.nil h = h
  All-perm P (Permᴰ.cons e d) (p, h) = (rw (← e) p, All-perm P d h)
  All-perm P (Permᴰ.swap e e') (p, (q, h)) = (rw (← e') q, (rw (← e) p, h))
  All-perm P (Permᴰ.trans d d') h = All-perm P d' (All-perm P d h)

  IsDistinct-perm : {xs ys : List A} → Permᴰ xs ys → IsDistinct xs → IsDistinct ys
  IsDistinct-perm Permᴰ.nil h = h
  IsDistinct-perm (Permᴰ.cons {b} {l₂} e d) (ne, h) =
      (subst (λ b. All (λ y. gid b ≢ gid y) l₂) e (All-perm _ d ne), IsDistinct-perm d h)
  IsDistinct-perm (Permᴰ.swap {l} e e') ((ne, nx), (ny, h)) = (
    ((λ q. ne (ap gid e ∙ sym q ∙ sym (ap gid e'))), subst (λ b. All (λ y. gid b ≢ gid y) l) e' ny),
    (subst (λ b. All (λ y. gid b ≢ gid y) l) e nx, h),
  )
  IsDistinct-perm (Permᴰ.trans d d') h = IsDistinct-perm d' (IsDistinct-perm d h)

  -- Whatever order the map is read in, the sorted list is the same.
  pub sort_by_gid-perm :
      {xs ys : List A} → Permᴰ xs ys → IsDistinct xs → sort_by_gid gid xs ≡ sort_by_gid gid ys
  unfolding sort_by_gid
  sort_by_gid-perm Permᴰ.nil h = refl
  sort_by_gid-perm (Permᴰ.cons e d) (ne, h) = ap₂ (insert_sorted gid) e (sort_by_gid-perm d h)
  sort_by_gid-perm (Permᴰ.swap {a} {b} {l} e e') ((ne, nx), h) =
      insert_sorted_swap a b (sort_by_gid gid l) ne
      ∙ ap₂ (λ u v. insert_sorted gid u (insert_sorted gid v (sort_by_gid gid l))) e' e
  sort_by_gid-perm (Permᴰ.trans d d') h =
      sort_by_gid-perm d h ∙ sort_by_gid-perm d' (IsDistinct-perm d h)
