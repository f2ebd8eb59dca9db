-- ===== src/Token/Outcomes.antt =====
-- What AccessToken may do to the stored credentials.
use xg_mangement.Base.{
  ℕ, String, ◌≡◌, refl, sym, ap, Bool, true, false, Option, none, some, ◌⊎◌, inl, inr, Bool-cases,
  ⊎-cases, Option-cases, is_blank, ◌∙◌, ◌=ₛ◌, ◌&&◌,
}
use xg_mangement.Errors.{GoError}
use xg_mangement.Store.{Db, update, is_store}
use xg_mangement.Token.{
  StoreConnection, Token, Provider, Answer, no_update, action_required_update,
  is_reauthorization_required, exact_scope_set, phase_one_token_scopes, obtain, decrypt_token,
  refresh_token, rotate, client_credentials, is_fresh,
}
use xg_mangement.Token.Locked.{
  Settings, find_connection, updated_account, apply_update, conclude, with_locked_connection,
  access_token,
}

-- An error comes with no update, or it asks for a new authorisation and marks the store.
abbrev pub IsAllowed : Answer → Type 0
IsAllowed (u, inl e) =
    (u ≡ no_update) ⊎ ((u ≡ action_required_update) × (is_reauthorization_required e ≡ true))
IsAllowed (u, inr token) = Unit

module _ (p : Provider) (now : ℕ) (c : StoreConnection) where
  rotate-IsAllowed : (token : Token) → IsAllowed (rotate p now token)
  unfolding rotate
  rotate-IsAllowed token = elim (⊎-cases (p.encrypt (p.encode_token token))) [
    | inl (e, h) ↦ rw (h, rotate) (inl refl)
    | inr (b, h) ↦ rw (h, rotate) tt
  ]

  refresh_token-IsAllowed : (token : Token) → IsAllowed (refresh_token p now c token)
  unfolding refresh_token
  refresh_token-IsAllowed token = elim (Bool-cases (is_blank token.refresh_token)) [
    | inl b ↦ rw (b, refresh_token) (inr (refl, refl))
    | inr b ↦ elim (⊎-cases (client_credentials p c)) [
      | inl (e, h) ↦ rw (b, h, refresh_token) (inl refl)
      | inr ((client_id, client_secret), h) ↦
          elim (⊎-cases (p.refresh c.domain client_id client_secret token.refresh_token)) [
            | inr (rotated, q) ↦ rw (b, h, q, refresh_token) (rotate-IsAllowed rotated)
            | inl (e, q) ↦ elim (Bool-cases (is_reauthorization_required e)) [
              | inl r ↦ rw (b, h, q, r, refresh_token) (inr (refl, r))
              | inr r ↦ rw (b, h, q, r, refresh_token) (inl refl)
            ]
          ]
    ]
  ]

  obtain-IsAllowed : IsAllowed (obtain p now c)
  unfolding obtain
  obtain-IsAllowed = elim (Bool-cases (exact_scope_set c.granted_scopes phase_one_token_scopes)) [
    | inr s ↦ rw (s, obtain) (inr (refl, refl))
    | inl s ↦ elim (⊎-cases (decrypt_token p c.encrypted_credentials)) [
      | inl (e, h) ↦ rw (s, h, obtain) (inl refl)
      | inr (token, h) ↦ elim (Bool-cases (is_fresh now c.expires_at)) [
        | inr f ↦ rw (s, h, f, obtain) (refresh_token-IsAllowed token)
        | inl f ↦ elim (Bool-cases (is_blank token.access_token)) [
          | inl b ↦ rw (s, h, f, b, obtain) (inl refl)
          | inr b ↦ rw (s, h, f, b, obtain) tt
        ]
      ]
    ]
  ]

module _ (settings : String → Option Settings) (now : ℕ) (o s : String) (db db' : Db)
    (e : GoError) where
  inl_injective : {x : GoError} → ◌≡◌ {A = GoError ⊎ String} (inl x) (inl e) → x ≡ e
  inl_injective q = cc

  -- the database with the store and one of its accounts marked, and all else as it was
  abbrev pub marked : String → Db
  marked account_id = record db {
    accounts =
        update (λ a. a.organization_id =ₛ o && a.id =ₛ account_id)
          (λ a. record a {
            status = "action_required";
            last_error = some "reauthorization_required";
          })
          db.accounts;
    stores =
        update (is_store o s) (λ row. record row { status = "action_required"; updated_at = now })
          db.stores;
  }

  apply_update-marked :
      (c : StoreConnection) → apply_update now o s c action_required_update db ≡ marked c.account_id
  unfolding apply_update updated_account
  apply_update-marked c = refl

  -- Nothing has changed, or the store is marked because it must be authorised again.
  abbrev pub IsReported : Type 0
  IsReported =
      (db' ≡ db)
      ⊎ ((c : StoreConnection) × (find_connection settings o s db ≡ some c)
          × (is_reauthorization_required e ≡ true)
          × (db' ≡ marked c.account_id))

  conclude-IsReported :
      (fault : Option GoError) (c : StoreConnection) (answer : Answer)
      → find_connection settings o s db ≡ some c
      → IsAllowed answer
      → conclude settings now o s fault c answer db ≡ (inl e, db')
      → IsReported
  unfolding conclude
  conclude-IsReported none c (u, inr token) found ok h = let stuck = ap (λ p. p.0) h in cc stuck
  conclude-IsReported (some err) c (u, inr token) found ok h = inl (sym (ap (λ p. p.1) h))
  conclude-IsReported fault c (u, inl err) found (inl q) h =
      inl (sym (ap (λ p. p.1) (rw (q, conclude) at h)))
  conclude-IsReported (some err') c (u, inl err) found (inr (q, r)) h =
      inl (sym (ap (λ p. p.1) (rw (q, conclude) at h)))
  conclude-IsReported none c (u, inl err) found (inr (q, r)) h =
      let done = rw (q, conclude) at h in
      inr (
        c,
        found,
        rw (← inl_injective (ap (λ p. p.0) done)) r,
        sym (ap (λ p. p.1) done) ∙ apply_update-marked c,
      )

  -- An AccessToken that fails leaves the database as it was, unless the error says that the store
  -- must be authorised again: then the store's row and its account's may have been given the status
  -- action_required, with the time and the error code, and no other column and no other row, the
  -- stored credentials among them, has changed.
  pub access_token-IsReported :
      (p : Provider) (configured : Bool) (lock_error fault : Option GoError)
      → access_token settings now o s p configured lock_error fault db ≡ (inl e, db')
      → IsReported
  unfolding access_token with_locked_connection
  access_token-IsReported p false lock_error fault h = inl (sym (ap (λ q. q.1) h))
  access_token-IsReported p true (some err) fault h = inl (sym (ap (λ q. q.1) h))
  access_token-IsReported p true none fault h =
      elim (Option-cases (find_connection settings o s db)) [
        | inl n ↦ inl (sym (ap (λ q. q.1) (rw (n, access_token, with_locked_connection) at h)))
        | inr (c, n) ↦
            conclude-IsReported fault c (obtain p now c) n (obtain-IsAllowed p now c)
              (rw (n, access_token, with_locked_connection) at h)
      ]
