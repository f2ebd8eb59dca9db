-- ===== src/Mirror/Collect.antt =====
-- One kind of resource of normalizeMirrorBatch, from its input list to its sorted output.
use mathlib.Core.List.{Memᴰ}
use xg_mangement.Base.{
  ℕ, String, ◌≡◌, sym, ◌∙◌, ◌⊎◌, inl, inr, Option, some, List, [], ◌∷◌, Bool-cases, ⊎-cases, All,
  All-imp, All-of_mem, lookup, text_lt, eq_iff,
}
use text.Mathlib.Text.{◌==◌}
use xg_mangement.Errors.{GoError}
use xg_mangement.Mirror.{add_newest, collect, insert_sorted, sort_by_gid, values}
use xg_mangement.Mirror.Sorting.{IsSorted, All-sort_by_gid, sort_by_gid-IsSorted}
use xg_mangement.Mirror.Newest.{
  NotAfter, Covers, IsMap, add_newest-Covers, add_newest-Covers_self, add_newest-keeps,
  insert-IsMap, All-insert, All-values,
}

module _ {A : Type 0} (gid : A → String) (time : A → Option ℕ) (clean : A → GoError ⊎ A) where
  -- What the output owes to the input: the GIDs strictly increase; every input item is valid, and
  -- the output has an item with its GID that is not older; every output item is a cleaned input item.
  pub record IsNewest (input output : List A) : Type 0 where
    pub sorted : IsSorted gid output
    pub complete :
        All
          (λ x.
            (y : A) × (clean x ≡ inr y)
            × ((z : A) × Memᴰ z output × (gid z ≡ gid y) × NotAfter (time y) (time z)))
          input
    pub sound : All (λ z. (x : A) × Memᴰ x input × (clean x ≡ inr z)) output

  collect-cons :
      (x : A) (xs : List A) (m m' : List (String × A))
      → collect gid time clean (x ∷ xs) m ≡ inr m'
      → (y : A) × (clean x ≡ inr y) × (collect gid time clean xs (add_newest gid time y m) ≡ inr m')
  unfolding collect
  collect-cons x xs m m' e = elim (⊎-cases (clean x)) [
    | inl (err, bad) ↦ let no_map = rw (bad, collect) at e in cc no_map
    | inr (y, good) ↦ (y, good, rw (good, collect) at e)
  ]

  -- Induction over the loop.
  collect-inv :
      (P : List (String × A) → Type 0)
      → ((x y : A) (m : List (String × A)) → clean x ≡ inr y → P m → P (add_newest gid time y m))
      → (xs : List A) (m m' : List (String × A)) → collect gid time clean xs m ≡ inr m'
      → P m
      → P m'
  unfolding collect
  collect-inv P keep [] m m' e p = let same : m ≡ m' = cc in rw (← same) p
  collect-inv P keep (x ∷ xs) m m' e p =
      let (y, good, rest) = collect-cons x xs m m' e in
      collect-inv P keep xs (add_newest gid time y m) m' rest (keep x y m good p)

  collect-Covers :
      (xs : List A) (m m' : List (String × A))
      → collect gid time clean xs m ≡ inr m'
      → All (λ x. (y : A) × (clean x ≡ inr y) × Covers gid time m' y) xs
  collect-Covers [] m m' e = tt
  collect-Covers (x ∷ xs) m m' e =
      let (y, good, rest) = collect-cons x xs m m' e in
      (
        (
          y,
          good,
          collect-inv (λ n. Covers gid time n y) (λ _ z n _ c. add_newest-Covers gid time z y n c)
              xs (add_newest gid time y m) m' rest (add_newest-Covers_self gid time y m),
        ),
        collect-Covers xs (add_newest gid time y m) m' rest,
      )

  pub collect-IsMap :
      (xs : List A) (m' : List (String × A))
      → collect gid time clean xs [] ≡ inr m'
      → IsMap gid time m'
  collect-IsMap xs m' e =
      collect-inv (IsMap gid time)
        (λ _ y m _ h.
          add_newest-keeps gid time (IsMap gid time) y m h (insert-IsMap gid time y m h))
        xs [] m' e (tt, tt)

  -- A property of every cleaned item holds of every entry of the map.
  pub collect-All :
      (P : A → Type 0) (xs : List A) (m m' : List (String × A))
      → All (λ x. (y : A) → clean x ≡ inr y → P y) xs
      → collect gid time clean xs m ≡ inr m'
      → All (λ e. P e.1) m
      → All (λ e. P e.1) m'
  unfolding collect
  collect-All P [] m m' h e p = let same : m ≡ m' = cc in rw (← same) p
  collect-All P (x ∷ xs) m m' (hx, h) e p =
      let (y, good, rest) = collect-cons x xs m m' e in
      collect-All P xs (add_newest gid time y m) m' h rest (
        add_newest-keeps gid time (All (λ e. P e.1)) y m p
          (All-insert gid time (λ e. P e.1) (gid y) y m (hx y good) p))

  pub lookup-Memᴰ :
      (k : String) (m : List (String × A)) (z : A)
      → All (λ e. gid e.1 ≡ e.0) m
      → lookup k m ≡ some z
      → Memᴰ z (values m) × (gid z ≡ k)
  lookup-Memᴰ k [] z keys e = cc
  lookup-Memᴰ k (f ∷ m) z (key, keys) e = elim (Bool-cases (f.0 == k)) [
    | inl b ↦
        let same : f.1 ≡ z = some-inj (rw b at e) in
        (Memᴰ.head (sym same), rw (← same) (key ∙ (eq_iff f.0 k).0 b))
    | inr b ↦ let (found, at) = lookup-Memᴰ k m z keys (rw b at e) in (Memᴰ.tail found, at)
  ]
    where
      some-inj : {a b : A} → some a ≡ some b → a ≡ b
      some-inj h = cc

  Memᴰ-insert_sorted :
      (z x : A) (ys : List A) → (z ≡ x) ⊎ Memᴰ z ys → Memᴰ z (insert_sorted gid x ys)
  unfolding insert_sorted
  Memᴰ-insert_sorted z x [] (inl e) = Memᴰ.head e
  Memᴰ-insert_sorted z x [] (inr h) = elim h [ ]
  Memᴰ-insert_sorted z x (y ∷ ys) h = elim (Bool-cases (text_lt (gid x) (gid y))) [
    | inl b ↦ rw b (elim h [ inl e ↦ Memᴰ.head e | inr k ↦ Memᴰ.tail k ])
    | inr b ↦ rw b (later h (λ k. Memᴰ-insert_sorted z x ys k))
  ]
    where
      later :
          (z ≡ x) ⊎ Memᴰ z (y ∷ ys)
          → ((z ≡ x) ⊎ Memᴰ z ys → Memᴰ z (insert_sorted gid x ys))
          → Memᴰ z (y ∷ insert_sorted gid x ys)
      later (inl e) rec = Memᴰ.tail (rec (inl e))
      later (inr (Memᴰ.head e)) rec = Memᴰ.head e
      later (inr (Memᴰ.tail k)) rec = Memᴰ.tail (rec (inr k))

  pub Memᴰ-sort_by_gid : (z : A) (xs : List A) → Memᴰ z xs → Memᴰ z (sort_by_gid gid xs)
  unfolding sort_by_gid
  Memᴰ-sort_by_gid z [] h = elim h [ ]
  Memᴰ-sort_by_gid z (x ∷ xs) (Memᴰ.head e) = Memᴰ-insert_sorted z x (sort_by_gid gid xs) (inl e)
  Memᴰ-sort_by_gid z (x ∷ xs) (Memᴰ.tail h) =
      Memᴰ-insert_sorted z x (sort_by_gid gid xs) (inr (Memᴰ-sort_by_gid z xs h))

  -- The map that the loop fills from nothing, read out and sorted.
  pub collect-IsNewest :
      (xs : List A) (m' : List (String × A))
      → collect gid time clean xs [] ≡ inr m'
      → IsNewest xs (sort_by_gid gid (values m'))
  collect-IsNewest xs m' e =
      let (keys, distinct) = collect-IsMap xs m' e in
      record {
        sorted = sort_by_gid-IsSorted gid (values m') distinct;
        complete =
            All-imp _ _
              (λ x (y, good, (z, found, newer)).
                let (listed, at) = lookup-Memᴰ (gid y) m' z keys found in
                (y, good, (z, Memᴰ-sort_by_gid z (values m') listed, at, newer)))
              xs (collect-Covers xs [] m' e);
        sound = All-sort_by_gid gid IsCleaned (values m') (
            All-values gid time IsCleaned m' (
              collect-All IsCleaned xs [] m'
                (All-of_mem _ xs (λ w listed y good. (w, listed, good))) e tt));
      }
    where
      IsCleaned : A → Type 0
      IsCleaned z = (x : A) × Memᴰ x xs × (clean x ≡ inr z)
