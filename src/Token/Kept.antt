-- ===== src/Token/Kept.antt =====
-- A rotated token is kept: the next AccessToken reads it and does not refresh again.
use xg_mangement.Base.{
  ℕ, String, ◌≡◌, ◌≢◌, refl, sym, ◌∙◌, ap, Bool, true, false, ◌&&◌, Option, none, some, List, [],
  ◌∷◌, ◌⊎◌, inl, inr, arith, Bool-cases, is_blank, ◌=ₛ◌, eq_refl,
}
use xg_mangement.Errors.{GoError}
use xg_mangement.Store.{StoreRow, Account, Db, find, update, is_store}
use xg_mangement.Token.{StoreConnection, CredentialUpdate, Provider, no_update, is_fresh, obtain}
use xg_mangement.Token.Locked.{
  Settings, is_account_of, connection_of, find_connection, status_after, updated_account,
  apply_update, conclude, with_locked_connection, access_token,
}
use xg_mangement.Token.Rotation.{IsFaithful, IsKept, obtain-IsKept, rotated, obtain-rotated}

module _ {ℓ} {A : Type ℓ} where
  find-update :
      (p q : A → Bool) (f : A → A)
      → ((x : A) → q (f x) ≡ q x)
      → (xs : List A) (x : A) → find q xs ≡ some x
      → p x ≡ true
      → find q (update p f xs) ≡ some (f x)
  find-update p q f h [] x found here = cc
  find-update p q f h (y ∷ xs) x found here = elim (Bool-cases (q y)) [
    | inl e ↦
        let same : y ≡ x = some_injective (rw e at found) in
        let chosen : p y ≡ true = rw same here in rw (chosen, h y, e, same) refl
    | inr e ↦
        let rest = find-update p q f h xs x (rw e at found) here in
        elim (Bool-cases (p y)) [ inl b ↦ rw (b, h y, e, rest) | inr b ↦ rw (b, e, rest) ]
  ]
    where
      some_injective : {x y : A} → some x ≡ some y → x ≡ y
      some_injective q = cc

  find-holds : (q : A → Bool) (xs : List A) (x : A) → find q xs ≡ some x → q x ≡ true
  find-holds q [] x found = cc
  find-holds q (y ∷ xs) x found = elim (Bool-cases (q y)) [
    | inl e ↦ let found' = rw e at found in cc (found', e)
    | inr e ↦ find-holds q xs x (rw e at found)
  ]

-- An encrypted text is not empty.
abbrev pub IsFilled : Provider → Type 0
IsFilled p = (plaintext : String) → p.encrypt plaintext ≢ inr []

module _ (settings : String → Option Settings) (p : Provider) (now now' : ℕ) (o s : String)
    (db : Db) (store : StoreRow) (account : Account) (found : Settings) where
  abbrev pub connection : StoreConnection
  connection = connection_of found store account

  -- The rows that AccessToken locks: the store, its account, and the settings of its organisation.
  pub record IsLinked : Type 0 where
    pub store_found : find (is_store o s) db.stores ≡ some store
    pub account_found : find (is_account_of store) db.accounts ≡ some account
    pub settings_found : settings o ≡ some found
    pub organization : account.organization_id ≡ o

  find_connection-found :
      (db1 : Db) (st : StoreRow) (a : Account)
      → find (is_store o s) db1.stores ≡ some st
      → find (is_account_of st) db1.accounts ≡ some a
      → settings o ≡ some found
      → find_connection settings o s db1 ≡ some (connection_of found st a)
  unfolding find_connection
  find_connection-found db1 st a e q w = rw (e, q, w, find_connection) refl

  find_connection-linked : IsLinked → find_connection settings o s db ≡ some connection
  find_connection-linked l =
      find_connection-found db store account l.store_found l.account_found l.settings_found

  account_kept :
      (u : CredentialUpdate) (a : Account)
      → is_account_of store (updated_account connection u a) ≡ is_account_of store a
  unfolding updated_account
  account_kept u a = ground arith

  abbrev marked : CredentialUpdate → StoreRow
  marked u = record store { status = status_after connection u; updated_at = now }

  read_back :
      (u : CredentialUpdate) (bytes : List ℕ)
      → u.encrypted_credentials ≡ bytes
      → bytes ≢ []
      → u.status ≡ "connected"
      → u.last_error_code ≡ ""
      → connection_of found (marked u) (updated_account connection u account)
        ≡ rotated p now connection u
  unfolding updated_account
  read_back u [] e filled status code = absurd (filled refl)
  read_back u (b ∷ bytes) e filled status code = rw (e, status, code, updated_account) refl

  is_this : IsLinked → (account.organization_id =ₛ o && account.id =ₛ account.id) ≡ true
  is_this l = rw l.organization (ground (arith, eq_refl o, eq_refl account.id))

  -- what the next SELECT reads
  find_connection-apply_update :
      (u : CredentialUpdate)
      → IsLinked
      → u.changed ≡ true
      → u.encrypted_credentials ≢ []
      → u.status ≡ "connected"
      → u.last_error_code ≡ ""
      → find_connection settings o s (apply_update now o s connection u db)
        ≡ some (rotated p now connection u)
  unfolding apply_update updated_account
  find_connection-apply_update u l changed filled status code =
      let at_store =
        find-update (is_store o s) (is_store o s)
          (λ row. record row { status = status_after connection u; updated_at = now }) (λ x. refl)
          db.stores store l.store_found (find-holds (is_store o s) db.stores store l.store_found) in
      let at_account =
        find-update (λ a. a.organization_id =ₛ o && a.id =ₛ account.id) (is_account_of store)
          (updated_account connection u) (account_kept u) db.accounts account l.account_found
          (is_this l) in
      rw (changed, apply_update)
        (find_connection-found _ (marked u) (updated_account connection u account) at_store
          at_account l.settings_found)
      ∙ ap some (read_back u u.encrypted_credentials refl filled status code)

  concluded :
      (out : GoError ⊎ String) (u : CredentialUpdate) (access : String) (db' : Db)
      → conclude settings now o s none connection (u, out) db ≡ (inr access, db')
      → (out ≡ inr access) × (apply_update now o s connection u db ≡ db')
  unfolding conclude
  concluded (inl e) u access db' h = elim (Bool-cases u.changed) [
    | inl b ↦ let stuck = ap (λ q. q.0) (rw (b, conclude) at h) in cc stuck
    | inr b ↦ let stuck = ap (λ q. q.0) (rw (b, conclude) at h) in cc stuck
  ]
  concluded (inr token) u access db' h = (ap (λ q. q.0) h, ap (λ q. q.1) h)

  access_token-concludes :
      (at : ℕ) (c : StoreConnection) (db' : Db)
      → find_connection settings o s db' ≡ some c
      → access_token settings at o s p true none none db'
        ≡ conclude settings at o s none c (obtain p at c) db'
  unfolding access_token with_locked_connection
  access_token-concludes at c db' e = rw (e, access_token, with_locked_connection) refl

  -- A rotated token is kept: when a call of AccessToken has returned an access token and has changed
  -- the stored one, then the next call within the new token's life returns the same access token from
  -- the database that the first call has left, and changes nothing in it, provided that both calls'
  -- statements succeed, that what is encrypted is not empty and is read back, that the access token is
  -- not blank and that the account is one of the store's organisation.
  pub access_token-rotated :
      (access : String) (db' : Db)
      → IsFaithful p
      → IsFilled p
      → IsLinked
      → access_token settings now o s p true none none db ≡ (inr access, db')
      → (obtain p now connection).0.changed ≡ true
      → is_fresh now' (obtain p now connection).0.expires_at ≡ true
      → is_blank access ≡ false
      → access_token settings now' o s p true none none db' ≡ (inr access, db')
  unfolding conclude apply_update
  access_token-rotated access db' law full l h changed fresh blank =
      let u : CredentialUpdate = (obtain p now connection).0 in
      let (out, left) =
        concluded (obtain p now connection).1 u access db'
          (sym (access_token-concludes now connection db (find_connection-linked l)) ∙ h) in
      let kept : IsKept p now connection (u, inr access) =
        rw out at (obtain-IsKept p now connection) in
      let (token, encrypted, same, scopes, status, code) = kept changed in
      let next : obtain p now' (rotated p now connection u) ≡ (no_update, inr access) =
        obtain-rotated p now connection u access now' law (ap (λ x. (u, x)) out) changed fresh
          blank in
      let read : find_connection settings o s db' ≡ some (rotated p now connection u) =
        rw (← left) (
          find_connection-apply_update u l changed
            (λ empty. full (p.encode_token token) (encrypted ∙ ap inr empty)) status code) in
      access_token-concludes now' (rotated p now connection u) db' read ∙ rw next refl
