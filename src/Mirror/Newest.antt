-- ===== src/Mirror/Newest.antt =====
-- The maps of normalizeMirrorBatch: one entry for each GID, the newest of the input.
use mathlib.Core.Path.{subst}
use xg_mangement.Base.{
  ℕ, ◌≤◌, String, ◌≡◌, refl, sym, ◌∙◌, ◌≢◌, inl, inr, true, false, Option, none, some, List, [],
  ◌∷◌, arith, Bool-cases, Option-cases, All, eq_iff, eq_refl, lookup, insert, lookup-insert,
}
use text.Mathlib.Text.{◌==◌}
use xg_mangement.Mirror.{resource_is_newer, add_newest, values}
use xg_mangement.Mirror.Sorting.{IsDistinct}

-- A missing time is the oldest.
abbrev pub NotAfter : Option ℕ → Option ℕ → Type 0
NotAfter none b = Unit
NotAfter (some a) none = ⊥
NotAfter (some a) (some b) = a ≤ b

NotAfter-refl : (a : Option ℕ) → NotAfter a a
NotAfter-refl none = tt
NotAfter-refl (some a) = omega arith

NotAfter-trans : (a b c : Option ℕ) → NotAfter a b → NotAfter b c → NotAfter a c
NotAfter-trans none b c h k = tt
NotAfter-trans (some a) none c h k = absurd h
NotAfter-trans (some a) (some b) none h k = absurd k
NotAfter-trans (some a) (some b) (some c) h k = omega arith

newer-NotAfter : (a b : Option ℕ) → resource_is_newer a b ≡ true → NotAfter a b
newer-NotAfter none b h = tt
newer-NotAfter (some a) none h = cc
newer-NotAfter (some a) (some b) h = ground arith

not_newer-NotAfter : (a b : Option ℕ) → resource_is_newer a b ≡ false → NotAfter b a
not_newer-NotAfter none b h = cc
not_newer-NotAfter (some a) none h = tt
not_newer-NotAfter (some a) (some b) h = ground arith

module _ {A : Type 0} (gid : A → String) (time : A → Option ℕ) where
  -- The map has an entry for the GID of `y`, and not an older one.
  abbrev pub Covers : List (String × A) → A → Type 0
  Covers m y = (z : A) × (lookup (gid y) m ≡ some z) × NotAfter (time y) (time z)

  Covers-insert :
      (x y : A) (m : List (String × A))
      → ((z : A) → lookup (gid x) m ≡ some z → NotAfter (time z) (time x))
      → Covers m y
      → Covers (insert (gid x) x m) y
  Covers-insert x y m newer (z, found, h) = elim (Bool-cases (gid x == gid y)) [
    | inl e ↦
        let same : gid x ≡ gid y = (eq_iff (gid x) (gid y)).0 e in
        (
          x,
          lookup-insert (gid x) (gid y) x m ∙ rw e,
          NotAfter-trans (time y) (time z) (time x) h (newer z (rw same found)),
        )
    | inr e ↦ (z, lookup-insert (gid x) (gid y) x m ∙ rw e found, h)
  ]

  pub add_newest-Covers :
      (x y : A) (m : List (String × A)) → Covers m y → Covers (add_newest gid time x m) y
  unfolding add_newest
  add_newest-Covers x y m c = elim (Option-cases (lookup (gid x) m)) [
    | inl e ↦ rw (e, add_newest) (Covers-insert x y m (λ z f. cc (e, f)) c)
    | inr (p, e) ↦ elim (Bool-cases (resource_is_newer (time p) (time x))) [
      | inl n ↦
          rw (e, n, add_newest)
            (Covers-insert x y m
              (λ z f. rw (some-eq (sym f ∙ e)) (newer-NotAfter (time p) (time x) n)) c)
      | inr n ↦ rw (e, n, add_newest) c
    ]
  ]
    where
      some-eq : {p z : A} → some z ≡ some p → z ≡ p
      some-eq h = cc

  pub add_newest-Covers_self : (x : A) (m : List (String × A)) → Covers (add_newest gid time x m) x
  unfolding add_newest
  add_newest-Covers_self x m = elim (Option-cases (lookup (gid x) m)) [
    | inl e ↦ rw (e, add_newest) inserted
    | inr (p, e) ↦ elim (Bool-cases (resource_is_newer (time p) (time x))) [
      | inl n ↦ rw (e, n, add_newest) inserted
      | inr n ↦ rw (e, n, add_newest) (p, e, not_newer-NotAfter (time p) (time x) n)
    ]
  ]
    where
      inserted : Covers (insert (gid x) x m) x
      inserted =
          (x, lookup-insert (gid x) (gid x) x m ∙ rw (eq_refl (gid x)), NotAfter-refl (time x))

  -- Each entry stands under its own GID, once.
  abbrev pub IsMap : List (String × A) → Type 0
  IsMap m = All (λ e. gid e.1 ≡ e.0) m × IsDistinct gid (values m)

  pub All-insert :
      (P : String × A → Type 0) (k : String) (v : A) (m : List (String × A))
      → P (k, v)
      → All P m
      → All P (insert k v m)
  All-insert P k v [] p h = (p, tt)
  All-insert P k v (e ∷ m) p (q, h) = elim (Bool-cases (e.0 == k)) [
    | inl b ↦ rw b (p, h)
    | inr b ↦ rw b (q, All-insert P k v m p h)
  ]

  pub All-values : (P : A → Type 0) (m : List (String × A)) → All (λ e. P e.1) m → All P (values m)
  All-values P [] h = tt
  All-values P (e ∷ m) (p, h) = (p, All-values P m h)

  All-of_values : (P : A → Type 0) (m : List (String × A)) → All P (values m) → All (λ e. P e.1) m
  All-of_values P [] h = tt
  All-of_values P (e ∷ m) (p, h) = (p, All-of_values P m h)

  pub insert-IsMap : (x : A) (m : List (String × A)) → IsMap m → IsMap (insert (gid x) x m)
  insert-IsMap x [] h = ((refl, tt), (tt, tt))
  insert-IsMap x (e ∷ m) ((key, keys), (ne, d)) = elim (Bool-cases (e.0 == gid x)) [
    | inl b ↦
        let same : e.0 ≡ gid x = (eq_iff e.0 (gid x)).0 b in
        let same_gid : gid e.1 ≡ gid x = key ∙ same in
        rw b ((refl, keys), (subst (λ g. All (λ y. g ≢ gid y) (values m)) same_gid ne, d))
    | inr b ↦
        let differs : gid e.1 ≢ gid x = λ q. cc (b, (eq_iff e.0 (gid x)).1 (sym key ∙ q)) in
        let (keys', d') = insert-IsMap x m (keys, d) in
        rw b (
          (key, keys'),
          (
            All-values (λ y. gid e.1 ≢ gid y) (insert (gid x) x m)
                (All-insert (λ f. gid e.1 ≢ gid f.1) (gid x) x m differs
                  (All-of_values (λ y. gid e.1 ≢ gid y) m ne)),
            d',
          ),
        )
  ]

  -- What holds of the map and of the inserted item holds of the map after it.
  pub add_newest-keeps :
      (P : List (String × A) → Type 0) (x : A) (m : List (String × A))
      → P m
      → P (insert (gid x) x m)
      → P (add_newest gid time x m)
  unfolding add_newest
  add_newest-keeps P x m p q = elim (Option-cases (lookup (gid x) m)) [
    | inl e ↦ rw (e, add_newest) q
    | inr (y, e) ↦ elim (Bool-cases (resource_is_newer (time y) (time x))) [
      | inl n ↦ rw (e, n, add_newest) q
      | inr n ↦ rw (e, n, add_newest) p
    ]
  ]
