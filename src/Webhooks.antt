-- ===== src/Webhooks.antt =====
-- internal/httpapi/shopify_webhook.go: the handler of Shopify's webhooks, with VerifyWebhookHMAC of
-- internal/integrations/shopify/webhook.go, NormalizeShopDomain of oauth.go and
-- ResolveShopifyWebhookTarget of internal/platform/postgres/shopify_webhook.go. It ends in
-- `record_event` of the tables. HMAC-SHA256, base64, encoding/json, strings.ToLower and the
-- credential cipher are the record `Crypto`.
pub mod Lookup
pub mod Authentic
pub mod Recorded
use Prim.Native.Char.{code}
use xg_mangement.Base.{
  ℕ, suc, ◌+◌, ◌-◌, String, Bool, true, false, not, ◌&&◌, ◌||◌, Option, none, some, List, [], ◌∷◌,
  ◌⊎◌, inl, inr, if◌then◌else◌, ◌=ₛ◌, ltb, leb, ◌==◌, length, take, is_blank, trim_space, any,
}
use xg_mangement.Errors.{
  GoError, plain, wrap, no_rows, webhook_store_not_found, is_webhook_store_not_found,
}
use xg_mangement.Jobs.{Codec}
use xg_mangement.Config.{bytes_equal}
use xg_mangement.Store.{StoreRow, Db, Fresh, find, WebhookEvent, record_event}

pub record Crypto : Type 0 where
  pub to_lower : String → String
  pub decode_base64 : String → Option (List ℕ)
  pub hmac : String → List ℕ → List ℕ
  pub decrypt : List ℕ → GoError ⊎ List ℕ
  pub client_secret : List ℕ → Option String  -- the field client_secret of a JSON text

-- A row of integration_configs.
pub record ConfigRow : Type 0 where
  pub organization_id : String
  pub provider : String
  pub enabled : Bool
  pub encrypted_secrets : List ℕ

pub record Target : Type 0 where
  pub organization_id : String
  pub store_id : String
  pub encrypted_secrets : List ℕ

-- The request: four headers, "" where one is missing, and the body if it can be read.
pub record Delivery : Type 0 where
  pub webhook_id : String
  pub shop_domain : String
  pub topic : String
  pub signature : String
  pub body : Option (List ℕ)

pub record Reply : Type 0 where
  pub status : ℕ
  pub code : String

abbrev pub max_webhook_bytes : ℕ
max_webhook_bytes = 2097152

-- [a-z0-9], and with '-'
abbrev is_alphanumeric : ℕ → Bool
is_alphanumeric c = leb 97 c && leb c 122 || leb 48 c && leb c 57

-- [a-z0-9-]*\.myshopify\.com
unfoldable pub is_shop_rest : String → Bool
is_shop_rest String.[] = false
is_shop_rest (String.◌∷◌ c s) =
    let rest : Bool = is_shop_rest s in
    String.◌∷◌ c s =ₛ ".myshopify.com" || (is_alphanumeric (code c) || code c == 45) && rest

-- shopDomainPattern
unfoldable pub is_shop_domain : String → Bool
is_shop_domain String.[] = false
is_shop_domain (String.◌∷◌ c s) = is_alphanumeric (code c) && is_shop_rest s

-- NormalizeShopDomain
unfoldable pub normalize_shop_domain : (String → String) → String → GoError ⊎ String
normalize_shop_domain to_lower value =
    let domain : String = to_lower (trim_space value) in
    if is_shop_domain domain then inr domain else inl (plain "invalid Shopify shop domain")

-- a check of the handler: the answer that ends it, or a value
infixl 5 ◌>>=◌
unfoldable pub ◌>>=◌ : {A B : Type 0} → Reply ⊎ A → (A → Reply ⊎ B) → Reply ⊎ B
inl reply >>= f = inl reply
inr a >>= f = f a

abbrev pub refuse : {A : Type 0} → ℕ → String → Reply ⊎ A
refuse status code = inl (record { status = status; code = code })

module _ (c : Crypto) where
  -- VerifyWebhookHMAC
  unfoldable pub verify_webhook_hmac : List ℕ → String → String → Bool
  verify_webhook_hmac body signature secret = elim (c.decode_base64 signature) [
    | none ↦ false
    | some provided ↦
        if length provided == 0 || secret =ₛ ""
        then false
        else bytes_equal provided (c.hmac secret body)
  ]

  -- webhookClientSecret
  unfoldable pub webhook_client_secret : List ℕ → GoError ⊎ String
  webhook_client_secret encrypted = elim (c.decrypt encrypted) [
    | inl e ↦ inl e
    | inr plaintext ↦ elim (c.client_secret plaintext) [
      | none ↦ inl (plain "invalid JSON")
      | some secret ↦
          if is_blank secret then inl (plain "Shopify client secret is empty") else inr secret
    ]
  ]

  -- the JOIN with integration_configs
  abbrev pub config_of : StoreRow → ConfigRow → Bool
  config_of store config =
      config.organization_id =ₛ store.organization_id
      && config.provider =ₛ "shopify"
      && config.enabled

  abbrev pub is_target : List ConfigRow → String → StoreRow → Bool
  is_target configs domain store =
      c.to_lower store.shop_domain =ₛ c.to_lower domain
      && store.status =ₛ "connected"
      && any (config_of store) configs

  abbrev pub target_of : StoreRow → Option ConfigRow → GoError ⊎ Target
  target_of store none = inl webhook_store_not_found
  target_of store (some config) = inr (record {
    organization_id = store.organization_id;
    store_id = store.id;
    encrypted_secrets = config.encrypted_secrets;
  })

  -- ResolveShopifyWebhookTarget
  unfoldable pub resolve_webhook_target :
      Option GoError → List ConfigRow → String → List StoreRow → GoError ⊎ Target
  resolve_webhook_target (some e) configs domain stores =
      inl (wrap "resolve Shopify webhook target" e)
  resolve_webhook_target none configs domain stores =
      elim (find (is_target configs domain) stores) [
        | none ↦ inl webhook_store_not_found
        | some store ↦ target_of store (find (config_of store) configs)
      ]

  abbrev resolved : GoError ⊎ Target → Reply ⊎ Target
  resolved (inr target) = inr target
  resolved (inl e) =
      if is_webhook_store_not_found e
      then refuse 404 "webhook_store_not_found"
      else refuse 500 "internal_error"

  -- the body, read up to one byte beyond the limit
  abbrev read_body : Option (List ℕ) → Reply ⊎ List ℕ
  read_body none = refuse 400 "invalid_webhook_body"
  read_body (some sent) =
      let body : List ℕ = take (suc max_webhook_bytes) sent in
      if ltb max_webhook_bytes (length body) then refuse 413 "webhook_too_large" else inr body

  abbrev usable_secret : GoError ⊎ String → Reply ⊎ String
  usable_secret (inl e) = refuse 500 "webhook_secret_unavailable"
  usable_secret (inr secret) = inr secret

  abbrev when : Bool → ℕ → String → Reply ⊎ Unit {0}
  when true status code = inr tt
  when false status code = refuse status code

  abbrev pub is_shop : String → Bool
  is_shop domain = elim (normalize_shop_domain c.to_lower domain) [ inl _ ↦ false | inr _ ↦ true ]

  -- the handler up to the recording of the event, `lookup_fault` an error of the query
  unfoldable pub authentic_event :
      Option GoError → List ConfigRow → List StoreRow → Delivery → Reply ⊎ WebhookEvent
  authentic_event lookup_fault configs stores delivery =
      let webhook_id : String = trim_space delivery.webhook_id in
      let domain : String = c.to_lower (trim_space delivery.shop_domain) in
      let topic : String = c.to_lower (trim_space delivery.topic) in
      let signature : String = trim_space delivery.signature in
      do
        _ ←
            when (not (webhook_id =ₛ "" || domain =ₛ "" || topic =ₛ "" || signature =ₛ "")) 400
              "invalid_webhook_headers"
        _ ← when (is_shop domain) 400 "invalid_shop_domain"
        target ← resolved (resolve_webhook_target lookup_fault configs domain stores)
        body ← read_body delivery.body
        secret ← usable_secret (webhook_client_secret target.encrypted_secrets)
        _ ← when (verify_webhook_hmac body signature secret) 401 "invalid_webhook_signature"
        inr (record {
          organization_id = target.organization_id;
          store_id = target.store_id;
          webhook_id = webhook_id;
          shop_domain = domain;
          topic = topic;
          body = body;
        })

  abbrev pub recorded_reply : (GoError ⊎ Bool) × Db → Reply × Db
  recorded_reply (inl e, db) = (record { status = 500; code = "webhook_persist_failed" }, db)
  recorded_reply (inr true, db) = (record { status = 200; code = "duplicate" }, db)
  recorded_reply (inr false, db) = (record { status = 202; code = "accepted" }, db)

  -- shopifyWebhook: the answer, and the tables
  unfoldable pub shopify_webhook :
      Codec
      → ℕ
      → Fresh
      → (lookup_fault fault : Option GoError) → List ConfigRow
      → Delivery
      → Db
      → Reply × Db
  shopify_webhook codec now fresh lookup_fault fault configs delivery db =
      elim (authentic_event lookup_fault configs db.stores delivery) [
        | inl reply ↦ (reply, db)
        | inr event ↦ recorded_reply (record_event codec now fresh event fault db)
      ]
