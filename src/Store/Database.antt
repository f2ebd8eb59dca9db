-- ===== src/Store/Database.antt =====
-- The tables of one transaction, and the mirrored resources: shopify_products, shopify_variants,
-- shopify_collections and shopify_themes.
use xg_mangement.Base.{
  ℕ, String, Bool, Option, ◌&&◌, not, none, some, ◌⊎◌, inl, inr, List, [], ◌∷◌, if◌then◌else◌, ◌=ₛ◌,
  any,
}
use xg_mangement.Errors.{GoError}
use xg_mangement.Sync.{Product, Variant, Collection, Theme}
use xg_mangement.Store.Tables.{Run, StoreRow, OutboxRow, update}

-- A mirrored row: UNIQUE (organization_id, store_id, shopify_gid).
pub record MirrorRow (A : Type 0) : Type 0 where
  pub organization_id : String
  pub store_id : String
  pub item : A
  pub synced_at : ℕ

-- A row of webhook_events with provider 'shopify'.
pub record EventRow : Type 0 where
  pub event_id : String
  pub organization_id : String
  pub store_id : String
  pub topic : String
  pub is_processed : Bool

-- A row of integration_accounts without its updated_at. Stored credentials are bytes, and empty ones
-- are stored as NULL.
pub record Account : Type 0 where
  pub id : String
  pub organization_id : String
  pub provider : String
  pub status : String
  pub encrypted_credentials : Option (List ℕ)
  pub expires_at : Option ℕ
  pub refresh_expires_at : Option ℕ
  pub last_error : Option String
  pub scopes : List String

pub record Mirrors : Type 0 where
  pub products : List (MirrorRow Product)
  pub variants : List (MirrorRow Variant)
  pub collections : List (MirrorRow Collection)
  pub themes : List (MirrorRow Theme)

pub record Db : Type 0 where
  pub runs : List Run
  pub stores : List StoreRow
  pub outbox : List OutboxRow
  pub events : List EventRow
  pub accounts : List Account
  pub mirrors : Mirrors

abbrev pub of_store : {A : Type 0} → String → String → MirrorRow A → Bool
of_store o s row = row.organization_id =ₛ o && row.store_id =ₛ s

module _ {A : Type 0} (gid : A → String) where
  -- the rows that an INSERT … ON CONFLICT (organization_id, store_id, shopify_gid) meets
  abbrev pub conflicts : String → String → A → MirrorRow A → Bool
  conflicts o s x row = of_store o s row && gid row.item =ₛ gid x

  -- INSERT … ON CONFLICT … DO UPDATE SET; `assign` is the list of assignments, on the old row's
  -- columns and the new ones
  unfoldable pub upsert :
      (A → A → A) → String → String → ℕ → List (MirrorRow A) → A → List (MirrorRow A)
  upsert assign o s synced_at rows x =
      if any (conflicts o s x) rows
      then update (conflicts o s x)
          (λ row. record row { item = assign row.item x; synced_at = synced_at }) rows
      else record { organization_id = o; store_id = s; item = x; synced_at = synced_at } ∷ rows

  -- the loop over the items
  unfoldable pub upsert_all :
      (A → A → A) → String → String → ℕ → List (MirrorRow A) → List A → List (MirrorRow A)
  upsert_all assign o s synced_at rows [] = rows
  upsert_all assign o s synced_at rows (x ∷ xs) =
      upsert_all assign o s synced_at (upsert assign o s synced_at rows x) xs

  -- DELETE … WHERE NOT (shopify_gid = ANY(…))
  unfoldable pub remove_missing : String → String → List A → List (MirrorRow A) → List (MirrorRow A)
  remove_missing o s items [] = []
  remove_missing o s items (row ∷ rows) =
      let rest : List (MirrorRow A) = remove_missing o s items rows in
      if of_store o s row && not (any (λ x. gid row.item =ₛ gid x) items) then rest else row ∷ rest

-- A transaction: an error of Begin, of a statement or of Commit (`fault`), and an error that the
-- body returns, roll it back.
abbrev pub transact : {B : Type 0} → Option GoError → GoError ⊎ (B × Db) → Db → (GoError ⊎ B) × Db
transact (some e) body db = (inl e, db)
transact none (inl e) db = (inl e, db)
transact none (inr (b, db')) db = (inr b, db')
