-- ===== src/Store/Webhook.antt =====
-- internal/platform/postgres/shopify_webhook.go: RecordShopifyEventAndOutbox.
use xg_mangement.Base.{
  ℕ, String, Bool, true, false, not, ◌&&◌, ◌||◌, Option, none, some, List, ◌∷◌, ◌⊎◌, inl, inr,
  if◌then◌else◌, ◌=ₛ◌, any,
}
use xg_mangement.Errors.{GoError, wrap, no_rows, ◌⁀◌}
use xg_mangement.Jobs.{Codec}
use xg_mangement.Store.Tables.{StoreRow, update, find}
use xg_mangement.Store.Database.{Db, transact}
use xg_mangement.Store.Runs.{active_in}
use xg_mangement.Store.Enqueue.{Fresh, is_store, enqueue_sync_run}

-- httpapi.ShopifyWebhookEvent; the body is not used by the repository
pub record WebhookEvent : Type 0 where
  pub organization_id : String
  pub store_id : String
  pub webhook_id : String
  pub shop_domain : String
  pub topic : String
  pub body : List ℕ

unfoldable pub topic_triggers_mirror : String → Bool
topic_triggers_mirror topic =
    topic =ₛ "products/create"
    || topic =ₛ "products/update"
    || topic =ₛ "products/delete"
    || topic =ₛ "collections/create"
    || topic =ₛ "collections/update"
    || topic =ₛ "collections/delete"
    || topic =ₛ "themes/publish"

abbrev pub webhook_sync_mode : String → String
webhook_sync_mode topic = "full"

module _ (codec : Codec) (now : ℕ) (fresh : Fresh) (event : WebhookEvent) where
  abbrev pub this_store : StoreRow → Bool
  this_store = is_store event.organization_id event.store_id

  abbrev pub disconnect_account : Option String → Db → Db
  disconnect_account none db = db
  disconnect_account (some account_id) db = record db {
    accounts =
        update (λ a. a.organization_id =ₛ event.organization_id && a.id =ₛ account_id)
          (λ a. record a { status = "disconnected"; encrypted_credentials = none }) db.accounts;
  }

  -- disconnectWebhookStore
  unfoldable pub disconnect_webhook_store : Db → GoError ⊎ Db
  disconnect_webhook_store db = elim (find this_store db.stores) [
    | none ↦ inl (wrap "disconnect uninstalled Shopify store" no_rows)
    | some store ↦ inr (
        disconnect_account store.account_id (record db {
          stores =
              update this_store (λ row. record row { status = "disconnected"; updated_at = now })
                db.stores;
        }))
  ]

  abbrev pub request_resync : Db → Db
  request_resync db = record db {
    stores =
        update this_store (λ row. record row { resync_requested = true; updated_at = now })
          db.stores;
  }

  abbrev pub clear_resync : Db → Db
  clear_resync db = record db {
    stores = update this_store (λ row. record row { resync_requested = false }) db.stores;
  }

  -- enqueueWebhookSync
  unfoldable pub enqueue_webhook_sync : Db → GoError ⊎ Db
  enqueue_webhook_sync db = elim (find this_store db.stores) [
    | none ↦ inl (wrap "lock webhook Shopify store" no_rows)
    | some store ↦
        if not (store.status =ₛ "connected")
        then inr db
        else if any (active_in event.organization_id event.store_id) db.runs
        then inr (request_resync db)
        else enqueue_sync_run codec now fresh event.organization_id event.store_id
            ("shopify-webhook:" ⁀ event.webhook_id) (webhook_sync_mode event.topic)
            "shopify-webhook:" (clear_resync db)
  ]

  abbrev pub recorded : Db → Db
  recorded db = record db {
    events =
        record {
          event_id = event.webhook_id;
          organization_id = event.organization_id;
          store_id = event.store_id;
          topic = event.topic;
          is_processed = false;
        }
        ∷ db.events;
  }

  abbrev pub processed : Db → Db
  processed db = record db {
    events =
        update (λ e. e.event_id =ₛ event.webhook_id) (λ e. record e { is_processed = true })
          db.events;
  }

  -- the work that a new event causes
  abbrev pub react : Db → GoError ⊎ Db
  react db =
      if event.topic =ₛ "app/uninstalled"
      then disconnect_webhook_store db
      else if topic_triggers_mirror event.topic
      then enqueue_webhook_sync db
      else inr db

  -- RecordShopifyEventAndOutbox: whether the event is a duplicate
  unfoldable pub record_event : Option GoError → Db → (GoError ⊎ Bool) × Db
  record_event fault db =
      transact fault
        (if any (λ e. e.event_id =ₛ event.webhook_id) db.events
          then inr (true, db)
          else elim (react (recorded db)) [ inl e ↦ inl e | inr db' ↦ inr (false, processed db') ])
        db
