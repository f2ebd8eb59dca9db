-- ===== src/Store/Deduplication.antt =====
-- RecordShopifyEventAndOutbox: an event takes effect once, and a change of the catalogue is followed
-- by a synchronisation.
use xg_mangement.Base.{
  ℕ, String, ◌≡◌, refl, sym, ◌∙◌, ap, Bool, true, false, Option, none, some, List, [], ◌∷◌, arith,
  ◌=ₛ◌, any, All, Bool-cases, inl, inr, eq_iff, eq_refl,
}
use xg_mangement.Errors.{GoError, ◌⁀◌}
use xg_mangement.Jobs.{Codec}
use xg_mangement.Store.Tables.{StoreRow, find, update}
use xg_mangement.Store.Database.{Db}
use xg_mangement.Store.Runs.{active_in}
use xg_mangement.Store.Enqueue.{Fresh, is_store}
use xg_mangement.Store.Webhook.{
  WebhookEvent, topic_triggers_mirror, webhook_sync_mode, record_event, recorded, this_store,
  clear_resync, enqueue_webhook_sync,
}
use xg_mangement.Store.Later.{Steps, Steps-is_recorded}
use xg_mangement.Store.Queued.{IsFree, enqueue_sync_run-active}
use xg_mangement.Store.Events.{
  is_recorded, any-processed, react-events, record_event-cases, rolled_back, duplicate, accepted,
  enqueue_webhook_sync-cases, refused, disconnected, requested, enqueued, inr_injective,
}

module _ (codec : Codec) (now : ℕ) (fresh : Fresh) (event : WebhookEvent) (fault : Option GoError)
    (db db' : Db) where
  record_event-is_recorded :
      (d : Bool)
      → record_event codec now fresh event fault db ≡ (inr d, db')
      → is_recorded event.webhook_id db'.events ≡ true
  record_event-is_recorded d h = elim (record_event-cases codec now fresh event fault db) [
    | rolled_back e w ↦ let stuck = ap (λ p. p.0) (sym w ∙ h) in cc stuck
    | duplicate old w ↦ rw (← ap (λ p. p.1) (sym w ∙ h)) old
    | accepted db1 done w ↦
        let e = react-events codec now fresh event (recorded codec now fresh event db) db1 done in
        rw (← ap (λ p. p.1) (sym w ∙ h)) (
          any-processed event.webhook_id event.webhook_id db1.events
          ∙ rw e (ground (arith, eq_refl event.webhook_id)))
  ]

  -- Once an event is recorded, every later delivery with its id, whatever else it holds and whatever
  -- other events and other transactions have come between, changes nothing, and is answered as a
  -- duplicate unless the database fails; no transaction but this one writes webhook_events.
  pub record_event-once :
      (d : Bool) (now' : ℕ) (fresh' : Fresh) (event' : WebhookEvent) (fault' : Option GoError)
      (db'' : Db)
      → record_event codec now fresh event fault db ≡ (inr d, db')
      → Steps codec db' db''
      → event'.webhook_id ≡ event.webhook_id
      → ((record_event codec now' fresh' event' fault' db'').1 ≡ db'')
        × (fault' ≡ none → record_event codec now' fresh' event' fault' db'' ≡ (inr true, db''))
  unfolding record_event
  record_event-once d now' fresh' event' fault' db'' h steps same =
      let old : is_recorded event'.webhook_id db''.events ≡ true =
        rw same (Steps-is_recorded event.webhook_id steps (record_event-is_recorded d h)) in
      (ground (arith, old), λ f. ground (arith, old))

-- Every row of the store asks for a follow-up.
abbrev pub IsAsked : String → String → List StoreRow → Type 0
IsAsked o s stores = All (λ row. is_store o s row ≡ true → row.resync_requested ≡ true) stores

asks :
    (now : ℕ) (o s : String) (stores : List StoreRow)
    → IsAsked o s (
        update
          (is_store o s)
          (λ row. record row { resync_requested = true; updated_at = now })
          stores)
asks now o s [] = tt
asks now o s (row ∷ stores) = elim (Bool-cases (is_store o s row)) [
  | inl e ↦ rw e ((λ h. refl), asks now o s stores)
  | inr e ↦ rw e ((λ h. cc (e, h)), asks now o s stores)
]

triggers-stays :
    (topic : String) → topic_triggers_mirror topic ≡ true → (topic =ₛ "app/uninstalled") ≡ false
unfolding topic_triggers_mirror
triggers-stays topic h = elim (Bool-cases (topic =ₛ "app/uninstalled")) [
  | inr e ↦ e
  | inl e ↦
      let wrong : topic_triggers_mirror "app/uninstalled" ≡ true =
        rw ((eq_iff topic "app/uninstalled").0 e) at h in
      cc wrong
]

module _ (codec : Codec) (now : ℕ) (fresh : Fresh) (event : WebhookEvent) where
  enqueue_webhook_sync-active :
      (db db' : Db) (store : StoreRow)
      → enqueue_webhook_sync codec now fresh event db ≡ inr db'
      → find (this_store codec now fresh event) db.stores ≡ some store
      → (store.status =ₛ "connected") ≡ true
      → IsFree fresh ("shopify-webhook:" ⁀ event.webhook_id) db.runs
      → (any (active_in event.organization_id event.store_id) db'.runs ≡ true)
        × (any (active_in event.organization_id event.store_id) db.runs ≡ true
            → IsAsked event.organization_id event.store_id db'.stores)
  enqueue_webhook_sync-active db db' store h found connected free =
      elim (enqueue_webhook_sync-cases codec now fresh event db) [
        | refused e r ↦ let stuck = sym r ∙ h in cc stuck
        | disconnected other n c r ↦ cc (found, n, connected, c)
        | requested a r ↦
            rw (← inr_injective codec now fresh event (sym r ∙ h)) (a, λ _. asks now _ _ db.stores)
        | enqueued a r ↦ (
          enqueue_sync_run-active codec now fresh _ _ ("shopify-webhook:" ⁀ event.webhook_id)
              (webhook_sync_mode event.topic) "shopify-webhook:"
              (clear_resync codec now fresh event db) db' free (sym r ∙ h),
          λ b. cc (a, b),
        )
      ]

  -- A change of the catalogue is followed by a synchronisation: after an accepted event whose topic
  -- triggers one, at a connected store and with new ids, the store has a queued or running run; and
  -- if it had one before, so that the change may have come too late for it, the store's row asks for
  -- a follow-up.
  pub record_event-active :
      (fault : Option GoError) (db db' : Db) (store : StoreRow)
      → record_event codec now fresh event fault db ≡ (inr false, db')
      → topic_triggers_mirror event.topic ≡ true
      → find (is_store event.organization_id event.store_id) db.stores ≡ some store
      → (store.status =ₛ "connected") ≡ true
      → IsFree fresh ("shopify-webhook:" ⁀ event.webhook_id) db.runs
      → (any (active_in event.organization_id event.store_id) db'.runs ≡ true)
        × (any (active_in event.organization_id event.store_id) db.runs ≡ true
            → IsAsked event.organization_id event.store_id db'.stores)
  record_event-active fault db db' store h triggers found connected free =
      elim (record_event-cases codec now fresh event fault db) [
        | rolled_back e w ↦ let stuck = ap (λ p. p.0) (sym w ∙ h) in cc stuck
        | duplicate old w ↦ let stuck = ap (λ p. p.0) (sym w ∙ h) in cc stuck
        | accepted db1 done w ↦
            let enqueue = rw (triggers, triggers-stays event.topic triggers) at done in
            rw (← ap (λ p. p.1) (sym w ∙ h)) (
              enqueue_webhook_sync-active (recorded codec now fresh event db) db1 store enqueue
                found connected free)
      ]
