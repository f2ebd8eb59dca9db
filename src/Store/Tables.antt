-- ===== src/Store/Tables.antt =====
-- The rows of shopify_sync_runs, shopify_stores and outbox_messages (backend/migrations), and the
-- UPDATE and the counting that the SQL of internal/platform/postgres does on a table. A table is
-- the list of its rows; an UPDATE rewrites every row that its WHERE clause accepts.
use xg_mangement.Base.{
  ℕ, suc, String, Bool, true, false, Option, none, some, List, [], ◌∷◌, if◌then◌else◌, ◌=ₛ◌,
}
use xg_mangement.Jobs.{Envelope}
use xg_mangement.Sync.{ResourceCounts}

pub data SyncStatus : Type 0 where
  queued running completed failed : SyncStatus

abbrev pub is_active : SyncStatus → Bool
is_active queued = true
is_active running = true
is_active _ = false

abbrev pub is_running : SyncStatus → Bool
is_running running = true
is_running _ = false

abbrev pub is_completed : SyncStatus → Bool
is_completed completed = true
is_completed _ = false

-- A row of shopify_sync_runs.
pub record Run : Type 0 where
  pub id : String
  pub organization_id : String
  pub store_id : String
  pub mode : String
  pub status : SyncStatus
  pub requested_by : Option String
  pub job_id : String
  pub counts : ResourceCounts
  pub error : Option (String × String)  -- error_code, error_message
  pub lease_owner : Option String
  pub lease_expires_at : Option ℕ
  pub heartbeat_at : Option ℕ
  pub started_at : Option ℕ
  pub completed_at : Option ℕ
  pub created_at : ℕ

-- A row of shopify_stores.
pub record StoreRow : Type 0 where
  pub id : String
  pub organization_id : String
  pub shop_domain : String
  pub status : String
  pub account_id : Option String
  pub resync_requested : Bool
  pub last_synced_at : Option ℕ
  pub updated_at : ℕ

pub data OutboxStatus : Type 0 where
  pending publishing published retrying : OutboxStatus  -- `retrying` is 'failed'

-- A row of outbox_messages; `available_at` and the others count nanoseconds.
pub record OutboxRow : Type 0 where
  pub id : String
  pub organization_id : String
  pub event_key : String
  pub envelope : Envelope
  pub status : OutboxStatus
  pub attempts : ℕ
  pub available_at : ℕ
  pub published_at : Option ℕ
  pub last_error : Option (List ℕ)
  pub created_at : ℕ
  pub updated_at : ℕ

module _ {ℓ} {A : Type ℓ} where
  -- UPDATE … SET f WHERE p
  abbrev pub update : (A → Bool) → (A → A) → List A → List A
  update p f [] = []
  update p f (x ∷ xs) = (if p x then f x else x) ∷ update p f xs

  -- SELECT count(*) WHERE p
  abbrev pub count : (A → Bool) → List A → ℕ
  count p [] = 0
  count p (x ∷ xs) = let rest = count p xs in if p x then suc rest else rest

  -- the first row WHERE p
  abbrev pub find : (A → Bool) → List A → Option A
  find p [] = none
  find p (x ∷ xs) = if p x then some x else find p xs

-- `COALESCE(a, b)`
abbrev pub coalesce {ℓ} : {A : Type ℓ} → Option A → A → A
coalesce none b = b
coalesce (some a) b = a

-- Two texts that may be NULL: `a = 'b'`, false where a is NULL.
abbrev pub equals : Option String → String → Bool
equals none b = false
equals (some a) b = a =ₛ b
