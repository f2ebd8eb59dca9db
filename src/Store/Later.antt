-- ===== src/Store/Later.antt =====
-- What comes after a RecordShopifyEventAndOutbox: other events, and other code. Only
-- shopify_webhook.go writes the table webhook_events, and it deletes no row.
use xg_mangement.Base.{ℕ, ◌≡◌, ◌∙◌, true, Option, String, arith}
use xg_mangement.Errors.{GoError}
use xg_mangement.Jobs.{Codec}
use xg_mangement.Store.Database.{Db}
use xg_mangement.Store.Enqueue.{Fresh}
use xg_mangement.Store.Webhook.{WebhookEvent, record_event, recorded}
use xg_mangement.Store.Events.{
  is_recorded, any-processed, react-events, record_event-cases, rolled_back, duplicate, accepted,
}

-- One transaction: the record of an event, or one that leaves webhook_events alone.
pub data Step (codec : Codec) (db : Db) : Db → Type 0 where
  event :
      (now : ℕ) (fresh : Fresh) (e : WebhookEvent) (fault : Option GoError)
      → Step codec db (record_event codec now fresh e fault db).1
  other : (db' : Db) → db'.events ≡ db.events → Step codec db db'

pub data Steps (codec : Codec) (db : Db) : Db → Type 0 where
  here : Steps codec db db
  next : {db' db'' : Db} → Steps codec db db' → Step codec db' db'' → Steps codec db db''

module _ (codec : Codec) (now : ℕ) (fresh : Fresh) (event : WebhookEvent) (fault : Option GoError)
    (db : Db) where
  record_event-keeps :
      (id : String)
      → is_recorded id db.events ≡ true
      → is_recorded id (record_event codec now fresh event fault db).1.events ≡ true
  record_event-keeps id old = elim (record_event-cases codec now fresh event fault db) [
    | rolled_back e w ↦ rw w old
    | duplicate _ w ↦ rw w old
    | accepted db1 done w ↦
        let e = react-events codec now fresh event (recorded codec now fresh event db) db1 done in
        rw w (any-processed event.webhook_id id db1.events ∙ rw e (ground (arith, old)))
  ]

Step-is_recorded :
    {codec : Codec} (id : String) {db db' : Db}
    → Step codec db db'
    → is_recorded id db.events ≡ true
    → is_recorded id db'.events ≡ true
Step-is_recorded {codec} id {db} (Step.event now fresh e fault) old =
    record_event-keeps codec now fresh e fault db id old
Step-is_recorded id (Step.other db' same) old = rw same old

pub Steps-is_recorded :
    {codec : Codec} (id : String) {db db' : Db}
    → Steps codec db db'
    → is_recorded id db.events ≡ true
    → is_recorded id db'.events ≡ true
Steps-is_recorded id Steps.here old = old
Steps-is_recorded id (Steps.next steps step) old =
    Step-is_recorded id step (Steps-is_recorded id steps old)
