-- ===== src/Token/Locked.antt =====
-- WithLockedConnection of internal/platform/postgres/shopify_credentials.go, and AccessToken on it.
use xg_mangement.Base.{
  ℕ, String, Bool, false, not, ◌&&◌, Option, none, some, List, [], ◌∷◌, ◌⊎◌, inl, inr,
  if◌then◌else◌, ◌=ₛ◌,
}
use xg_mangement.Errors.{GoError, plain, wrap, no_rows}
use xg_mangement.Store.{StoreRow, Account, Db, find, update, coalesce, is_store}
use xg_mangement.Token.{StoreConnection, CredentialUpdate, Provider, Answer, obtain}

-- The enabled row of integration_configs of an organisation, which is only read here.
pub record Settings : Type 0 where
  pub public_config : String
  pub encrypted_secrets : List ℕ

-- a.id = s.integration_account_id AND a.provider = 'shopify'
abbrev pub is_account_of : StoreRow → Account → Bool
is_account_of store a = elim store.account_id [
  | none ↦ false
  | some id ↦ a.id =ₛ id && a.provider =ₛ "shopify"
]

abbrev pub connection_of : Settings → StoreRow → Account → StoreConnection
connection_of settings store a = record {
  organization_id = store.organization_id;
  store_id = store.id;
  account_id = a.id;
  domain = store.shop_domain;
  status = store.status;
  encrypted_credentials = coalesce a.encrypted_credentials [];
  expires_at = a.expires_at;
  refresh_expires_at = a.refresh_expires_at;
  public_config = settings.public_config;
  encrypted_secrets = settings.encrypted_secrets;
  last_error_code = coalesce a.last_error "";
  granted_scopes = a.scopes;
}

-- the locked row
unfoldable pub find_connection :
    (String → Option Settings) → String → String → Db → Option StoreConnection
find_connection settings o s db = elim (find (is_store o s) db.stores) [
  | none ↦ none
  | some store ↦ elim (find (is_account_of store) db.accounts) [
    | none ↦ none
    | some a ↦ elim (settings o) [ none ↦ none | some found ↦ some (connection_of found store a) ]
  ]
]

-- NULLIF(x, '')
abbrev null_if_empty : String → Option String
null_if_empty s = if s =ₛ "" then none else some s

abbrev pub status_after : StoreConnection → CredentialUpdate → String
status_after c u = if u.status =ₛ "" then c.status else u.status

-- the UPDATE of integration_accounts; empty credentials keep what is stored, with its expiry
unfoldable pub updated_account : StoreConnection → CredentialUpdate → Account → Account
updated_account c u a =
    let settled : Account = record a {
      status = status_after c u;
      last_error = null_if_empty u.last_error_code;
    } in
    elim u.encrypted_credentials [
      | [] ↦ settled
      | b ∷ bytes ↦ record settled {
        encrypted_credentials = some (b ∷ bytes);
        expires_at = u.expires_at;
        refresh_expires_at = u.refresh_expires_at;
      }
    ]

-- the two statements that follow the callback
unfoldable pub apply_update : ℕ → String → String → StoreConnection → CredentialUpdate → Db → Db
apply_update now o s c u db =
    if u.changed
    then record db {
      accounts =
          update (λ a. a.organization_id =ₛ o && a.id =ₛ c.account_id) (updated_account c u)
            db.accounts;
      stores =
          update (is_store o s) (λ row. record row { status = status_after c u; updated_at = now })
            db.stores;
    }
    else db

module _ (settings : String → Option Settings) (now : ℕ) (o s : String) where
  -- the end of WithLockedConnection; `fault` is an error of a statement or of Commit
  unfoldable pub conclude : Option GoError → StoreConnection → Answer → Db → (GoError ⊎ String) × Db
  conclude fault c (u, inl err) db =
      if not u.changed
      then (inl err, db)
      else elim fault [ some e ↦ (inl e, db) | none ↦ (inl err, apply_update now o s c u db) ]
  conclude fault c (u, inr token) db = elim fault [
    | some e ↦ (inl e, db)
    | none ↦ (inr token, apply_update now o s c u db)
  ]

  -- WithLockedConnection; `lock_error` is an error of Begin or of the SELECT
  unfoldable pub with_locked_connection :
      Option GoError → Option GoError → (StoreConnection → Answer) → Db → (GoError ⊎ String) × Db
  unfolding conclude
  with_locked_connection lock_error fault fn db = elim lock_error [
    | some e ↦ (inl e, db)
    | none ↦ elim (find_connection settings o s db) [
      | none ↦ (inl (wrap "lock Shopify connection" no_rows), db)
      | some c ↦ conclude fault c (fn c) db
    ]
  ]

  -- AccessToken; a repository, cipher or refresher that is nil makes it not `configured`
  unfoldable pub access_token :
      Provider → Bool → Option GoError → Option GoError → Db → (GoError ⊎ String) × Db
  access_token p configured lock_error fault db =
      if configured
      then with_locked_connection lock_error fault (obtain p now) db
      else (inl (plain "Shopify token manager is not configured"), db)
