-- ===== src/Store/Events.antt =====
-- The ways through RecordShopifyEventAndOutbox and enqueueWebhookSync.
use xg_mangement.Base.{
  ℕ, String, ◌≡◌, refl, sym, ◌∙◌, ap, Bool, true, false, Option, some, List, [], ◌∷◌, arith, ◌=ₛ◌,
  any, Bool-cases, Option-cases, ⊎-cases, inl, inr, ◌⊎◌,
}
use xg_mangement.Errors.{GoError, wrap, no_rows, ◌⁀◌}
use xg_mangement.Jobs.{Codec}
use xg_mangement.Store.Tables.{StoreRow, find, update}
use xg_mangement.Store.Database.{Db, EventRow}
use xg_mangement.Store.Runs.{active_in}
use xg_mangement.Store.Enqueue.{Fresh, enqueue_sync_run}
use xg_mangement.Store.Webhook.{
  WebhookEvent, topic_triggers_mirror, webhook_sync_mode, disconnect_webhook_store,
  enqueue_webhook_sync, record_event, react, recorded, processed, this_store, request_resync,
  clear_resync,
}
use xg_mangement.Store.Queued.{enqueue_sync_run-SameRest}

-- The event's id is in the table.
abbrev pub is_recorded : String → List EventRow → Bool
is_recorded id events = any (λ e. e.event_id =ₛ id) events

pub any-processed :
    (w id : String) (events : List EventRow)
    → is_recorded id (update (λ e. e.event_id =ₛ w) (λ e. record e { is_processed = true }) events)
      ≡ is_recorded id events
any-processed w id [] = refl
any-processed w id (e ∷ events) = elim (Bool-cases (e.event_id =ₛ w)) [
  | inl h ↦ ground (arith, any-processed w id events)
  | inr h ↦ ground (arith, any-processed w id events)
]

module _ (codec : Codec) (now : ℕ) (fresh : Fresh) (event : WebhookEvent) where
  disconnect_webhook_store-events :
      (db db' : Db)
      → disconnect_webhook_store codec now fresh event db ≡ inr db'
      → db'.events ≡ db.events
  unfolding disconnect_webhook_store
  disconnect_webhook_store-events db db' h =
      elim (Option-cases (find (this_store codec now fresh event) db.stores)) [
        | inl n ↦ let stuck = rw (n, disconnect_webhook_store) at h in cc stuck
        | inr (store, n) ↦ elim (Option-cases store.account_id) [
          | inl a ↦
              let e = rw (n, a, disconnect_webhook_store) at h in
              ap (λ d. d.events) (sym (inr_injective e))
          | inr (id, a) ↦
              let e = rw (n, a, disconnect_webhook_store) at h in
              ap (λ d. d.events) (sym (inr_injective e))
        ]
      ]
    where
      inr_injective : {x y : Db} → ◌≡◌ {A = GoError ⊎ Db} (inr x) (inr y) → x ≡ y
      inr_injective q = cc

  -- The ways through enqueueWebhookSync.
  pub data Way (db : Db) (r : GoError ⊎ Db) : Type 0 where
    refused : (e : GoError) → r ≡ inl e → Way db r
    disconnected :
        (store : StoreRow)
        → find (this_store codec now fresh event) db.stores ≡ some store
        → (store.status =ₛ "connected") ≡ false
        → r ≡ inr db
        → Way db r
    requested :
        any (active_in event.organization_id event.store_id) db.runs ≡ true
        → r ≡ inr (request_resync codec now fresh event db)
        → Way db r
    enqueued :
        any (active_in event.organization_id event.store_id) db.runs ≡ false
        → r
          ≡ enqueue_sync_run codec now fresh event.organization_id event.store_id
              ("shopify-webhook:" ⁀ event.webhook_id)
              (webhook_sync_mode event.topic)
              "shopify-webhook:"
              (clear_resync codec now fresh event db)
        → Way db r

  pub enqueue_webhook_sync-cases :
      (db : Db) → Way db (enqueue_webhook_sync codec now fresh event db)
  unfolding enqueue_webhook_sync
  enqueue_webhook_sync-cases db =
      elim (Option-cases (find (this_store codec now fresh event) db.stores)) [
        | inl n ↦ refused (wrap "lock webhook Shopify store" no_rows) (rw (n, enqueue_webhook_sync))
        | inr (store, n) ↦ elim (Bool-cases (store.status =ₛ "connected")) [
          | inr c ↦ disconnected store n c (rw (n, c, enqueue_webhook_sync))
          | inl c ↦
              elim (Bool-cases (any (active_in event.organization_id event.store_id) db.runs)) [
                | inl a ↦ requested a (rw (n, c, a, enqueue_webhook_sync))
                | inr a ↦ enqueued a (rw (n, c, a, enqueue_webhook_sync))
              ]
        ]
      ]

  pub inr_injective : {x y : Db} → ◌≡◌ {A = GoError ⊎ Db} (inr x) (inr y) → x ≡ y
  inr_injective q = cc

  enqueue_webhook_sync-events :
      (db db' : Db)
      → enqueue_webhook_sync codec now fresh event db ≡ inr db'
      → db'.events ≡ db.events
  enqueue_webhook_sync-events db db' h = elim (enqueue_webhook_sync-cases db) [
    | refused e r ↦ let stuck = sym r ∙ h in cc stuck
    | disconnected store n c r ↦ ap (λ d. d.events) (sym (inr_injective (sym r ∙ h)))
    | requested a r ↦ ap (λ d. d.events) (sym (inr_injective (sym r ∙ h)))
    | enqueued a r ↦
        (enqueue_sync_run-SameRest codec now fresh _ _ ("shopify-webhook:" ⁀ event.webhook_id)
          (webhook_sync_mode event.topic) "shopify-webhook:" (clear_resync codec now fresh event db)
          db' (sym r ∙ h)).events
  ]

  pub react-events :
      (db db' : Db) → react codec now fresh event db ≡ inr db' → db'.events ≡ db.events
  react-events db db' h = elim (Bool-cases (event.topic =ₛ "app/uninstalled")) [
    | inl e ↦ disconnect_webhook_store-events db db' (rw e at h)
    | inr e ↦ elim (Bool-cases (topic_triggers_mirror event.topic)) [
      | inl q ↦ enqueue_webhook_sync-events db db' (rw (e, q) at h)
      | inr q ↦ ap (λ d. d.events) (sym (inr_injective (rw (e, q) at h)))
    ]
  ]

  -- The ways through RecordShopifyEventAndOutbox.
  pub data Outcome (db : Db) (result : (GoError ⊎ Bool) × Db) : Type 0 where
    rolled_back : (e : GoError) → result ≡ (inl e, db) → Outcome db result
    duplicate :
        is_recorded event.webhook_id db.events ≡ true → result ≡ (inr true, db) → Outcome db result
    accepted :
        (db1 : Db)
        → react codec now fresh event (recorded codec now fresh event db) ≡ inr db1
        → result ≡ (inr false, processed codec now fresh event db1)
        → Outcome db result

  pub record_event-cases :
      (fault : Option GoError) (db : Db) → Outcome db (record_event codec now fresh event fault db)
  unfolding record_event
  record_event-cases fault db = elim (Option-cases fault) [
    | inr (e, f) ↦ rolled_back e (rw (f, record_event))
    | inl f ↦ elim (Bool-cases (is_recorded event.webhook_id db.events)) [
      | inl d ↦ duplicate d (rw (f, d, record_event))
      | inr d ↦ elim (⊎-cases (react codec now fresh event (recorded codec now fresh event db))) [
        | inl (e, w) ↦ rolled_back e (ground arith)
        | inr (db1, w) ↦ accepted db1 w (ground arith)
      ]
    ]
  ]
