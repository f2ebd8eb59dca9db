-- ===== src/Token/Scopes.antt =====
-- The scopes that a token must have, and what becomes of a store whose token has others.
use xg_mangement.Base.{
  String, ◌≡◌, ◌↔◌, ◌⊎◌, inl, inr, Bool, true, false, List, [], ◌∷◌, map, trim_space, arith, ◌=ₛ◌,
  ◌||◌, ◌&&◌, eq_iff, Bool-cases,
}
use xg_mangement.Token.{exact_scope_set, phase_one_token_scopes}

-- two trimmed scopes
abbrev both : String → String → Bool
both x y =
    (x =ₛ "read_products" || (y =ₛ "read_products" || false))
    && ((x =ₛ "read_themes" || (y =ₛ "read_themes" || false)) && true)

pair-of :
    (x y : String)
    → both x y ≡ true
    → ((x ≡ "read_products") × (y ≡ "read_themes")) ⊎ ((x ≡ "read_themes") × (y ≡ "read_products"))
pair-of x y h = elim (Bool-cases (x =ₛ "read_products")) [
  | inl e ↦
      let first : x ≡ "read_products" = (eq_iff x "read_products").0 e in
      let rest : both "read_products" y ≡ true = rw first at h in
      inl (first, (eq_iff y "read_themes").0 (ground arith))
  | inr e ↦
      let second : y ≡ "read_products" = (eq_iff y "read_products").0 (ground arith) in
      let rest : both x "read_products" ≡ true = rw second at h in
      inr ((eq_iff x "read_themes").0 (ground arith), second)
]

abbrev Pair : String → String → String → String → Type 0
Pair x y p q = ◌≡◌ {A = List String} (x ∷ y ∷ []) (p ∷ q ∷ [])

pair :
    (x y : String)
    → (both x y ≡ true)
      ↔ (Pair x y "read_products" "read_themes" ⊎ Pair x y "read_themes" "read_products")
pair x y = (
  (λ h. elim (pair-of x y h) [ inl (e, f) ↦ inl (rw (e, f)) | inr (e, f) ↦ inr (rw (e, f)) ]),
  λ h. elim h [
    | inl e ↦
        let e1 : x ≡ "read_products" = cc e in let e2 : y ≡ "read_themes" = cc e in rw (e1, e2)
    | inr e ↦
        let e1 : x ≡ "read_themes" = cc e in let e2 : y ≡ "read_products" = cc e in rw (e1, e2)
  ],
)

-- A token passes exactly when its scopes, trimmed, are the two required ones in one order or the
-- other: no scope is missing, and none is there besides or twice.
pub exact_scope_set_iff :
    (granted : List String)
    → (exact_scope_set granted phase_one_token_scopes ≡ true) ↔ (
        (map trim_space granted ≡ "read_products" ∷ "read_themes" ∷ [])
        ⊎ (map trim_space granted ≡ "read_themes" ∷ "read_products" ∷ []))
unfolding exact_scope_set
exact_scope_set_iff [] = ((λ h. cc h), λ h. elim h [ inl e ↦ cc e | inr e ↦ cc e ])
exact_scope_set_iff (a ∷ []) = ((λ h. cc h), λ h. elim h [ inl e ↦ cc e | inr e ↦ cc e ])
exact_scope_set_iff (a ∷ b ∷ []) = pair (trim_space a) (trim_space b)
exact_scope_set_iff (a ∷ b ∷ c ∷ granted) =
    ((λ h. ground arith), λ h. elim h [ inl e ↦ cc e | inr e ↦ cc e ])
