-- ===== src/Token/Rotation.antt =====
-- The callback of AccessToken on a rotated token.
use xg_mangement.Base.{
  ℕ, String, ◌≡◌, refl, true, false, List, inl, inr, Bool-cases, ⊎-cases, is_blank,
}
use xg_mangement.Token.{
  StoreConnection, CredentialUpdate, Token, Provider, Answer, no_update,
  is_reauthorization_required, exact_scope_set, phase_one_token_scopes, obtain, decrypt_token,
  refresh_token, rotate, client_credentials, is_fresh,
}

-- What is encrypted is read back.
abbrev pub IsFaithful : Provider → Type 0
IsFaithful p =
    (token : Token) (b : List ℕ)
    → p.encrypt (p.encode_token token) ≡ inr b
    → decrypt_token p b ≡ inr token

module _ (p : Provider) (now : ℕ) (c : StoreConnection) where
  -- The update holds the token of the answer, and the scopes are right, if it changes anything.
  abbrev pub IsKept : Answer → Type 0
  IsKept (u, inl e) = Unit
  IsKept (u, inr access) =
      u.changed ≡ true
      → (token : Token) × (p.encrypt (p.encode_token token) ≡ inr u.encrypted_credentials)
        × (token.access_token ≡ access)
        × (exact_scope_set c.granted_scopes phase_one_token_scopes ≡ true)
        × (u.status ≡ "connected")
        × (u.last_error_code ≡ "")

  rotate-IsKept :
      (token : Token)
      → exact_scope_set c.granted_scopes phase_one_token_scopes ≡ true
      → IsKept (rotate p now token)
  unfolding rotate
  rotate-IsKept token s = elim (⊎-cases (p.encrypt (p.encode_token token))) [
    | inl (e, h) ↦ rw (h, rotate) tt
    | inr (b, h) ↦ rw (h, rotate) (λ _. (token, h, refl, s, refl, refl))
  ]

  refresh_token-IsKept :
      (token : Token)
      → exact_scope_set c.granted_scopes phase_one_token_scopes ≡ true
      → IsKept (refresh_token p now c token)
  unfolding refresh_token
  refresh_token-IsKept token s = elim (Bool-cases (is_blank token.refresh_token)) [
    | inl b ↦ rw (b, refresh_token) tt
    | inr b ↦ elim (⊎-cases (client_credentials p c)) [
      | inl (e, h) ↦ rw (b, h, refresh_token) tt
      | inr ((client_id, client_secret), h) ↦
          elim (⊎-cases (p.refresh c.domain client_id client_secret token.refresh_token)) [
            | inr (rotated, q) ↦ rw (b, h, q, refresh_token) (rotate-IsKept rotated s)
            | inl (e, q) ↦ elim (Bool-cases (is_reauthorization_required e)) [
              | inl r ↦ rw (b, h, q, r, refresh_token) tt
              | inr r ↦ rw (b, h, q, r, refresh_token) tt
            ]
          ]
    ]
  ]

  pub obtain-IsKept : IsKept (obtain p now c)
  unfolding obtain
  obtain-IsKept = elim (Bool-cases (exact_scope_set c.granted_scopes phase_one_token_scopes)) [
    | inr s ↦ rw (s, obtain) tt
    | inl s ↦ elim (⊎-cases (decrypt_token p c.encrypted_credentials)) [
      | inl (e, h) ↦ rw (s, h, obtain) tt
      | inr (token, h) ↦ elim (Bool-cases (is_fresh now c.expires_at)) [
        | inr f ↦ rw (s, h, f, obtain) (refresh_token-IsKept token s)
        | inl f ↦ elim (Bool-cases (is_blank token.access_token)) [
          | inl b ↦ rw (s, h, f, b, obtain) tt
          | inr b ↦ rw (s, h, f, b, obtain) (λ k. cc k)
        ]
      ]
    ]
  ]

  -- the connection as the next call reads it
  abbrev pub rotated : CredentialUpdate → StoreConnection
  rotated u = record c {
    encrypted_credentials = u.encrypted_credentials;
    expires_at = u.expires_at;
    refresh_expires_at = u.refresh_expires_at;
    status = u.status;
    last_error_code = u.last_error_code;
  }

  -- the callback on a connection whose token was rotated
  pub obtain-rotated :
      (u : CredentialUpdate) (access : String) (now' : ℕ)
      → IsFaithful p
      → obtain p now c ≡ (u, inr access)
      → u.changed ≡ true
      → is_fresh now' u.expires_at ≡ true
      → is_blank access ≡ false
      → obtain p now' (rotated u) ≡ (no_update, inr access)
  unfolding obtain
  obtain-rotated u access now' law h changed fresh filled =
      let kept : IsKept (u, inr access) = rw h at obtain-IsKept in
      let (token, encrypted, same, s, _, _) = kept changed in
      let read = law token u.encrypted_credentials encrypted in
      rw (s, read, fresh, same, filled, obtain)
