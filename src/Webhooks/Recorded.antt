-- ===== src/Webhooks/Recorded.antt =====
-- What the answers of internal/httpapi/shopify_webhook.go say of the tables.
use xg_mangement.Base.{
  ℕ, String, Bool, true, false, Option, none, some, List, ◌⊎◌, inl, inr, ◌≡◌, ◌≢◌, refl, sym, ap,
  ◌∙◌, ⊎-cases, arith, trim_space, ◌≤◌, suc, take, length, ltb, Bool-cases,
}
use xg_mangement.Errors.{GoError, is_webhook_store_not_found}
use xg_mangement.Jobs.{Codec}
use xg_mangement.Store.{StoreRow, Db, Fresh, WebhookEvent, record_event}
use xg_mangement.Store.Events.{record_event-cases, rolled_back, duplicate, accepted}
use xg_mangement.Store.Deduplication.{record_event-once}
use xg_mangement.Store.Later.{Steps}
use xg_mangement.Webhooks.{
  Crypto, Target, ◌>>=◌, when, resolve_webhook_target, webhook_client_secret, resolved, read_body,
  usable_secret, max_webhook_bytes, ConfigRow, Delivery, Reply, authentic_event, recorded_reply,
  shopify_webhook,
}
use xg_mangement.Webhooks.Authentic.{IsAuthentic, authentic_event-IsAuthentic}

-- the answers that end the handler are errors
abbrev Refuses : {A : Type 0} → Reply ⊎ A → Type 0
Refuses x = (reply : Reply) → x ≡ inl reply → 400 ≤ reply.status

bind-Refuses :
    {A B : Type 0} (x : Reply ⊎ A) (f : A → Reply ⊎ B)
    → Refuses x
    → ((a : A) → Refuses (f a))
    → Refuses (x >>= f)
unfolding ◌>>=◌
bind-Refuses (inl r) f hx hf reply h = hx reply (ap inl (inl_injective h))
  where
    inl_injective : {A : Type 0} {x y : Reply} → ◌≡◌ {A = Reply ⊎ A} (inl x) (inl y) → x ≡ y
    inl_injective q = cc
bind-Refuses (inr a) f hx hf reply h = hf a reply h

module _ (c : Crypto) where
  when-Refuses :
      (b : Bool) (status : ℕ) (code : String) → 400 ≤ status → Refuses (when c b status code)
  when-Refuses true status code enough reply h = cc
  when-Refuses false status code enough reply h =
      let same : status ≡ reply.status = cc in omega (arith, same, enough)

  resolved-Refuses : (x : GoError ⊎ Target) → Refuses (resolved c x)
  resolved-Refuses (inr t) reply h = cc
  resolved-Refuses (inl e) reply h = elim (Bool-cases (is_webhook_store_not_found e)) [
    | inl q ↦ let same : 404 ≡ reply.status = status_of (rw q at h) in omega (arith, same)
    | inr q ↦ let same : 500 ≡ reply.status = status_of (rw q at h) in omega (arith, same)
  ]
    where
      status_of :
          {status : ℕ} {code : String}
          → ◌≡◌ {A = Reply ⊎ Target} (inl (record { status = status; code = code })) (inl reply)
          → status ≡ reply.status
      status_of q = cc

  read_body-Refuses : (sent : Option (List ℕ)) → Refuses (read_body c sent)
  read_body-Refuses none reply h = let same : 400 ≡ reply.status = cc in omega (arith, same)
  read_body-Refuses (some sent) reply h =
      elim (Bool-cases (ltb max_webhook_bytes (length (take (suc max_webhook_bytes) sent)))) [
        | inl e ↦ let same : 413 ≡ reply.status = ap_status (rw e at h) in omega (arith, same)
        | inr e ↦ let stuck = rw e at h in cc stuck
      ]
    where
      ap_status :
          {status : ℕ} {code : String}
          → ◌≡◌ {A = Reply ⊎ List ℕ} (inl (record { status = status; code = code })) (inl reply)
          → status ≡ reply.status
      ap_status q = cc

  usable_secret-Refuses : (x : GoError ⊎ String) → Refuses (usable_secret c x)
  usable_secret-Refuses (inr secret) reply h = cc
  usable_secret-Refuses (inl e) reply h = let same : 500 ≡ reply.status = cc in omega (arith, same)

  is_refusal :
      (lookup_fault : Option GoError) (configs : List ConfigRow) (stores : List StoreRow)
      (delivery : Delivery) (reply : Reply)
      → authentic_event c lookup_fault configs stores delivery ≡ inl reply
      → reply.status ≢ 202
  unfolding authentic_event
  is_refusal lookup_fault configs stores delivery reply h answered =
      let refusal : 400 ≤ reply.status =
        bind-Refuses _ _ (when-Refuses _ 400 "invalid_webhook_headers" (omega arith))
          (λ _. bind-Refuses _ _ (when-Refuses _ 400 "invalid_shop_domain" (omega arith)) (λ _.
            bind-Refuses _ _
              (resolved-Refuses (
                resolve_webhook_target c lookup_fault configs
                  (c.to_lower (trim_space delivery.shop_domain)) stores))
              (λ target. bind-Refuses _ _ (read_body-Refuses delivery.body) (λ body.
                bind-Refuses _ _
                  (usable_secret-Refuses (webhook_client_secret c target.encrypted_secrets))
                  (λ secret.
                    bind-Refuses _ _ (when-Refuses _ 401 "invalid_webhook_signature" (omega arith))
                      (λ _ _ e. cc))))))
          reply h in
      omega (arith, refusal, answered)

module _ (c : Crypto) (codec : Codec) (now : ℕ) (fresh : Fresh)
    (lookup_fault fault : Option GoError) (configs : List ConfigRow) (delivery : Delivery)
    (db : Db) where
  -- The answer 202, for an authentic event that the tables have taken.
  pub record IsAccepted (answer : Reply × Db) : Type 0 where
    pub event : WebhookEvent
    pub authentic : IsAuthentic c configs db.stores delivery event
    pub recorded : record_event codec now fresh event fault db ≡ (inr false, answer.1)
    pub status : answer.0.status ≡ 202

  refused_step :
      (reply : Reply)
      → authentic_event c lookup_fault configs db.stores delivery ≡ inl reply
      → shopify_webhook c codec now fresh lookup_fault fault configs delivery db ≡ (reply, db)
  unfolding shopify_webhook
  refused_step reply e = rw (e, shopify_webhook) refl

  recorded_step :
      (event : WebhookEvent)
      → authentic_event c lookup_fault configs db.stores delivery ≡ inr event
      → shopify_webhook c codec now fresh lookup_fault fault configs delivery db
        ≡ recorded_reply c (record_event codec now fresh event fault db)
  unfolding shopify_webhook
  recorded_step event e = rw (e, shopify_webhook) refl

  -- Two kinds of answers of the webhook handler: one other than 202, with all tables as they were, or
  -- 202, for an event whose body, the whole body of the delivery, Shopify has signed with the secret of
  -- the connected store that its domain names, and which the tables have recorded as a new one.
  pub shopify_webhook-IsAccepted :
      (((shopify_webhook c codec now fresh lookup_fault fault configs delivery db).0.status ≢ 202)
        × ((shopify_webhook c codec now fresh lookup_fault fault configs delivery db).1 ≡ db))
      ⊎ IsAccepted (shopify_webhook c codec now fresh lookup_fault fault configs delivery db)
  shopify_webhook-IsAccepted =
      elim (⊎-cases (authentic_event c lookup_fault configs db.stores delivery)) [
        | inl (reply, e) ↦
            rw (refused_step reply e)
              (inl (is_refusal c lookup_fault configs db.stores delivery reply e, refl))
        | inr (event, e) ↦ elim (record_event-cases codec now fresh event fault db) [
          | rolled_back x w ↦ rw (recorded_step event e, w) (inl ((λ h. omega (arith, h)), refl))
          | duplicate old w ↦ rw (recorded_step event e, w) (inl ((λ h. omega (arith, h)), refl))
          | accepted db1 done w ↦ rw (recorded_step event e) (
              inr (record {
                event = event;
                authentic =
                    authentic_event-IsAuthentic c lookup_fault configs db.stores delivery event e;
                recorded = w ∙ ap (λ answer. (inr false, answer.1)) (ap (recorded_reply c) (sym w));
                status = ap (λ result. (recorded_reply c result).0.status) w;
              }))
        ]
      ]

-- An event that a recording without a fault has taken is not new again.
not_new_again :
    (codec : Codec) (now now' : ℕ) (fresh fresh' : Fresh) (event event' : WebhookEvent)
    (fault fault' : Option GoError) (db db1 between db2 : Db)
    → record_event codec now fresh event fault db ≡ (inr false, db1)
    → Steps codec db1 between
    → event'.webhook_id ≡ event.webhook_id
    → record_event codec now' fresh' event' fault' between ≢ (inr false, db2)
unfolding record_event
not_new_again codec now now' fresh fresh' event event' fault none db db1 between db2 h steps same
      again =
    let old =
      (record_event-once codec now fresh event fault db db1 false now' fresh' event' none between h
          steps same).1
        refl in
    let stuck = ap (λ p. p.0) (sym old ∙ again) in cc stuck
not_new_again codec now now' fresh fresh' event event' fault (some e) db db1 between db2 h steps
      same again =
    let stuck = ap (λ p. p.0) again in cc stuck

module _ (c : Crypto) (codec : Codec) (now now' : ℕ) (fresh fresh' : Fresh)
    (lookup_fault lookup_fault' fault fault' : Option GoError) (configs configs' : List ConfigRow)
    (delivery delivery' : Delivery) (db between : Db) where
  abbrev first : Reply × Db
  first = shopify_webhook c codec now fresh lookup_fault fault configs delivery db

  abbrev second : Reply × Db
  second = shopify_webhook c codec now' fresh' lookup_fault' fault' configs' delivery' between

  -- After the answer 202, every later delivery with the same trimmed webhook id, whatever else it
  -- holds and whatever other events and other transactions have come between, leaves all tables as
  -- they are and is not answered with 202; no transaction but the webhook's writes webhook_events.
  pub shopify_webhook-once :
      first.0.status ≡ 202
      → Steps codec first.1 between
      → trim_space delivery'.webhook_id ≡ trim_space delivery.webhook_id
      → (second.1 ≡ between) × (second.0.status ≢ 202)
  shopify_webhook-once status steps same =
      elim (shopify_webhook-IsAccepted c codec now fresh lookup_fault fault configs delivery db) [
        | inl (other, kept) ↦ absurd (other status)
        | inr taken ↦
            elim (shopify_webhook-IsAccepted c codec now' fresh' lookup_fault' fault' configs'
              delivery' between) [
                | inl (other, kept) ↦ (kept, other)
                | inr again ↦ absurd (
                    not_new_again codec now now' fresh fresh' taken.event again.event fault fault'
                      db first.1 between second.1 taken.recorded steps
                      (again.authentic.id ∙ same ∙ sym taken.authentic.id) again.recorded)
              ]
      ]
