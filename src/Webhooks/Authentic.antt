-- ===== src/Webhooks/Authentic.antt =====
-- Which webhooks of internal/httpapi/shopify_webhook.go reach the tables.
use mathlib.Core.List.{Memᴰ}
use xg_mangement.Base.{
  ℕ, suc, zero, ◌≤◌, String, Bool, true, false, not, ◌||◌, Option, none, some, List, [], ◌∷◌, ◌⊎◌,
  inl, inr, ◌≡◌, ◌≢◌, refl, sym, ap, ◌∙◌, ltb, trim_space, arith, Bool-cases, length, take, differs,
}
use xg_mangement.Errors.{GoError}
use xg_mangement.Store.{StoreRow, WebhookEvent}
use xg_mangement.Webhooks.Lookup.{
  resolve-IsTarget, webhook_client_secret-ok, verify_webhook_hmac-signed,
}
use xg_mangement.Webhooks.{
  Crypto, ConfigRow, Target, Delivery, Reply, max_webhook_bytes, ◌>>=◌, authentic_event, resolved,
  read_body, usable_secret, when,
}

pub bind-inr :
    {A B : Type 0} (x : Reply ⊎ A) (f : A → Reply ⊎ B) (b : B)
    → (x >>= f) ≡ inr b
    → (a : A) × (x ≡ inr a) × (f a ≡ inr b)
unfolding ◌>>=◌
bind-inr (inl e) f b h = cc
bind-inr (inr a) f b h = (a, refl, h)

inr_injective : {A : Type 0} {x y : A} → ◌≡◌ {A = Reply ⊎ A} (inr x) (inr y) → x ≡ y
inr_injective q = cc

-- a short list is its own prefix
take-all : (n : ℕ) (xs : List ℕ) → length (take (suc n) xs) ≤ n → take (suc n) xs ≡ xs
take-all n [] h = refl
take-all zero (x ∷ xs) h = absurd (omega (arith, h))
take-all (suc n) (x ∷ xs) h = ap (λ l. x ∷ l) (take-all n xs (omega (arith, h)))

not_ltb : (a b : ℕ) → ltb a b ≡ false → b ≤ a
not_ltb a b h = ground (arith, h)

module _ (c : Crypto) where
  when-ok :
      (b : Bool) (status : ℕ) (code : String) (u : Unit {0})
      → when c b status code ≡ inr u
      → b ≡ true
  when-ok true status code u h = refl
  when-ok false status code u h = cc

  resolved-ok :
      (x : GoError ⊎ Target) (target : Target) → resolved c x ≡ inr target → x ≡ inr target
  resolved-ok (inr t) target h = cc
  resolved-ok (inl e) target h = ground (arith, h)

  usable_secret-ok :
      (x : GoError ⊎ String) (secret : String) → usable_secret c x ≡ inr secret → x ≡ inr secret
  usable_secret-ok (inr t) secret h = cc
  usable_secret-ok (inl e) secret h = cc

  -- an accepted body is the whole body
  read_body-ok :
      (sent : Option (List ℕ)) (body : List ℕ)
      → read_body c sent ≡ inr body
      → (sent ≡ some body) × (length body ≤ max_webhook_bytes)
  read_body-ok none body h = cc
  read_body-ok (some sent) body h =
      elim (Bool-cases (ltb max_webhook_bytes (length (take (suc max_webhook_bytes) sent)))) [
        | inl e ↦ let stuck = rw e at h in cc stuck
        | inr e ↦
            let same : take (suc max_webhook_bytes) sent ≡ body = inr_injective (rw e at h) in
            let short = not_ltb max_webhook_bytes (length (take (suc max_webhook_bytes) sent)) e in
            let all = take-all max_webhook_bytes sent short in
            (ap some (sym all ∙ same), rw (← same) short)
      ]

  -- An event whose delivery Shopify has signed, for a connected store.
  pub record IsAuthentic (configs : List ConfigRow) (stores : List StoreRow) (delivery : Delivery)
      (event : WebhookEvent) : Type 0 where
    pub store : StoreRow
    pub config : ConfigRow
    pub plaintext : List ℕ
    pub secret : String
    pub is_store : Memᴰ store stores
    pub domain : c.to_lower store.shop_domain ≡ c.to_lower event.shop_domain
    pub connected : store.status ≡ "connected"
    pub organization : event.organization_id ≡ store.organization_id
    pub store_id : event.store_id ≡ store.id
    pub is_config : Memᴰ config configs
    pub config_organization : config.organization_id ≡ store.organization_id
    pub config_provider : config.provider ≡ "shopify"
    pub config_enabled : config.enabled ≡ true
    pub decrypted : c.decrypt config.encrypted_secrets ≡ inr plaintext
    pub decoded : c.client_secret plaintext ≡ some secret
    pub has_secret : secret ≢ ""
    pub signed : c.decode_base64 (trim_space delivery.signature) ≡ some (c.hmac secret event.body)
    pub whole : delivery.body ≡ some event.body
    pub small : length event.body ≤ max_webhook_bytes
    pub id : event.webhook_id ≡ trim_space delivery.webhook_id
    pub named : event.webhook_id ≢ ""

  has_id : (a b d e : Bool) → not (a || b || d || e) ≡ true → a ≡ false
  has_id true b d e h = cc
  has_id false b d e h = refl

  pub authentic_event-IsAuthentic :
      (lookup_fault : Option GoError) (configs : List ConfigRow) (stores : List StoreRow)
      (delivery : Delivery) (event : WebhookEvent)
      → authentic_event c lookup_fault configs stores delivery ≡ inr event
      → IsAuthentic configs stores delivery event
  unfolding authentic_event
  authentic_event-IsAuthentic lookup_fault configs stores delivery event h =
      let (_, e0, h0) = bind-inr _ _ event h in
      let (_, e1, h1) = bind-inr _ _ event h0 in
      let (target, e2, h2) = bind-inr _ _ event h1 in
      let (body, e3, h3) = bind-inr _ _ event h2 in
      let (secret, e4, h4) = bind-inr _ _ event h3 in
      let (_, e5, h5) = bind-inr _ _ event h4 in
      let same = inr_injective h5 in
      let (whole, small) = read_body-ok delivery.body body e3 in
      let t = resolve-IsTarget c lookup_fault configs _ stores target (resolved-ok _ target e2) in
      let (plaintext, decrypted, decoded) =
        webhook_client_secret-ok c target.encrypted_secrets secret (usable_secret-ok _ secret e4) in
      let (signed, has_secret) =
        verify_webhook_hmac-signed c body _ secret
          (when-ok _ 401 "invalid_webhook_signature" tt e5) in
      rw (← same) (record {
        store = t.store;
        config = t.config;
        plaintext = plaintext;
        secret = secret;
        is_store = t.is_store;
        domain = t.same_domain;
        connected = t.connected;
        organization = t.organization;
        store_id = t.store_id;
        is_config = t.is_config;
        config_organization = t.config_organization;
        config_provider = t.config_provider;
        config_enabled = t.config_enabled;
        decrypted = ap c.decrypt (sym t.secrets) ∙ decrypted;
        decoded = decoded;
        has_secret = has_secret;
        signed = signed;
        whole = whole;
        small = small;
        id = refl;
        named = differs _ "" (has_id _ _ _ _ (when-ok _ 400 "invalid_webhook_headers" tt e0));
      })
