-- ===== src/Store/Runs/Updates.antt =====
-- Counting rows after an UPDATE.
use xg_mangement.Base.{
  ◌≤◌, ◌≡◌, refl, Bool, true, false, any, List, [], ◌∷◌, arith, Bool-cases, inl, inr, All,
}
use xg_mangement.Store.Tables.{update, count}

module _ {ℓ} {A : Type ℓ} (p : A → Bool) (f : A → A) (q : A → Bool) where
  -- An update that makes no new row accepted does not raise the count.
  pub count-update-le :
      ((x : A) → p x ≡ true → q (f x) ≡ true → q x ≡ true)
      → (xs : List A) → count q (update p f xs) ≤ count q xs
  count-update-le keep [] = omega arith
  count-update-le keep (x ∷ xs) = ground (arith, keep x, count-update-le keep xs)

-- An update after which no row that it rewrites is accepted leaves no accepted row.
pub any-update_ended {ℓ} :
    {A : Type ℓ} (p : A → Bool) (f : A → A)
    → ((x : A) → p (f x) ≡ false)
    → (xs : List A) → any p (update p f xs) ≡ false
any-update_ended p f ends [] = refl
any-update_ended p f ends (x ∷ xs) = ground (arith, ends x, any-update_ended p f ends xs)

module _ {ℓ κ} {A : Type ℓ} (P : A → Type κ) (p : A → Bool) (f : A → A) where
  pub All-update :
      ((x : A) → P x → p x ≡ true → P (f x)) → (xs : List A) → All P xs → All P (update p f xs)
  All-update keep [] h = tt
  All-update keep (x ∷ xs) (h, hs) = elim (Bool-cases (p x)) [
    | inl e ↦ rw e (keep x h e, All-update keep xs hs)
    | inr e ↦ rw e (h, All-update keep xs hs)
  ]
