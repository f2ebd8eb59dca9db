-- ===== src/Webhooks/Lookup.antt =====
-- The lookups and the signature check of internal/httpapi/shopify_webhook.go.
use mathlib.Core.List.{Memᴰ}
use xg_mangement.Base.{
  ℕ, String, Bool, true, ◌||◌, Option, none, some, List, [], ◌∷◌, ◌⊎◌, inl, inr, ◌≡◌, ◌≢◌, refl,
  sym, ap, ◌∙◌, ◌=ₛ◌, Bool-cases, eq_iff, length, ◌&&◌, Option-cases, ⊎-cases, ◌==◌, is_blank, both,
  neither, differs,
}
use xg_mangement.Errors.{GoError}
use xg_mangement.Store.{StoreRow, find}
use xg_mangement.Config.Keys.{bytes_equal-same}
use xg_mangement.Webhooks.{
  Crypto, ConfigRow, Target, verify_webhook_hmac, webhook_client_secret, resolve_webhook_target,
  is_target, config_of, target_of,
}

some_injective : {A : Type 0} {x y : A} → ◌≡◌ {A = Option A} (some x) (some y) → x ≡ y
some_injective q = cc

module _ (c : Crypto) where
  find-mem :
      {A : Type 0} (p : A → Bool) (xs : List A) (x : A)
      → find p xs ≡ some x
      → Memᴰ x xs × (p x ≡ true)
  find-mem p [] x h = cc
  find-mem p (y ∷ xs) x h = elim (Bool-cases (p y)) [
    | inl e ↦ let same : y ≡ x = some_injective (rw e at h) in rw (← same) (Memᴰ.head refl, e)
    | inr e ↦ let (m, t) = find-mem p xs x (rw e at h) in (Memᴰ.tail m, t)
  ]

  -- the rows that a target was found in
  pub record IsTarget (configs : List ConfigRow) (stores : List StoreRow) (domain : String)
      (target : Target) : Type 0 where
    pub store : StoreRow
    pub config : ConfigRow
    pub is_store : Memᴰ store stores
    pub same_domain : c.to_lower store.shop_domain ≡ c.to_lower domain
    pub connected : store.status ≡ "connected"
    pub is_config : Memᴰ config configs
    pub config_organization : config.organization_id ≡ store.organization_id
    pub config_provider : config.provider ≡ "shopify"
    pub config_enabled : config.enabled ≡ true
    pub organization : target.organization_id ≡ store.organization_id
    pub store_id : target.store_id ≡ store.id
    pub secrets : target.encrypted_secrets ≡ config.encrypted_secrets

  target_of-ok :
      (store : StoreRow) (o : Option ConfigRow) (target : Target)
      → target_of c store o ≡ inr target
      → (config : ConfigRow) × (o ≡ some config)
        × (target.organization_id ≡ store.organization_id)
        × (target.store_id ≡ store.id)
        × (target.encrypted_secrets ≡ config.encrypted_secrets)
  target_of-ok store none target h = cc
  target_of-ok store (some config) target h =
      let same = target_injective h in
      (
        config,
        refl,
        ap (λ t. t.organization_id) (sym same),
        ap (λ t. t.store_id) (sym same),
        ap (λ t. t.encrypted_secrets) (sym same),
      )
    where
      target_injective : {x y : Target} → ◌≡◌ {A = GoError ⊎ Target} (inr x) (inr y) → x ≡ y
      target_injective q = cc

  pub resolve-IsTarget :
      (lookup_fault : Option GoError) (configs : List ConfigRow) (domain : String)
      (stores : List StoreRow) (target : Target)
      → resolve_webhook_target c lookup_fault configs domain stores ≡ inr target
      → IsTarget configs stores domain target
  unfolding resolve_webhook_target
  resolve-IsTarget (some e) configs domain stores target h = cc
  resolve-IsTarget none configs domain stores target h =
      elim (Option-cases (find (is_target c configs domain) stores)) [
        | inl n ↦ let stuck = rw (n, resolve_webhook_target) at h in cc stuck
        | inr (store, n) ↦
            let (is_store, accepted) = find-mem (is_target c configs domain) stores store n in
            let (same_domain, accepted1) =
              both
                (c.to_lower store.shop_domain =ₛ c.to_lower domain && store.status =ₛ "connected") _
                accepted in
            let (d, connected) =
              both (c.to_lower store.shop_domain =ₛ c.to_lower domain) _ same_domain in
            let (config, found, organization, store_id, secrets) =
              target_of-ok store (find (config_of c store) configs) target
                (rw (n, resolve_webhook_target) at h) in
            let (is_config, row) = find-mem (config_of c store) configs config found in
            let (row1, enabled) =
              both (config.organization_id =ₛ store.organization_id && config.provider =ₛ "shopify")
                config.enabled row in
            let (own, provider) = both (config.organization_id =ₛ store.organization_id) _ row1 in
            record {
              store = store;
              config = config;
              is_store = is_store;
              same_domain = (eq_iff (c.to_lower store.shop_domain) (c.to_lower domain)).0 d;
              connected = (eq_iff store.status "connected").0 connected;
              is_config = is_config;
              config_organization = (eq_iff config.organization_id store.organization_id).0 own;
              config_provider = (eq_iff config.provider "shopify").0 provider;
              config_enabled = enabled;
              organization = organization;
              store_id = store_id;
              secrets = secrets;
            }
      ]

  -- the secret of a configuration
  pub webhook_client_secret-ok :
      (encrypted : List ℕ) (secret : String)
      → webhook_client_secret c encrypted ≡ inr secret
      → (plaintext : List ℕ) × (c.decrypt encrypted ≡ inr plaintext)
        × (c.client_secret plaintext ≡ some secret)
  unfolding webhook_client_secret
  webhook_client_secret-ok encrypted secret h = elim (⊎-cases (c.decrypt encrypted)) [
    | inl (e, d) ↦ let stuck = rw (d, webhook_client_secret) at h in cc stuck
    | inr (plaintext, d) ↦ elim (Option-cases (c.client_secret plaintext)) [
      | inl s ↦ let stuck = rw (d, s, webhook_client_secret) at h in cc stuck
      | inr (found, s) ↦ elim (Bool-cases (is_blank found)) [
        | inl b ↦ let stuck = rw (d, s, b, webhook_client_secret) at h in cc stuck
        | inr b ↦ (
          plaintext,
          d,
          s ∙ ap some (secret_injective (rw (d, s, b, webhook_client_secret) at h)),
        )
      ]
    ]
  ]
    where
      secret_injective : {x y : String} → ◌≡◌ {A = GoError ⊎ String} (inr x) (inr y) → x ≡ y
      secret_injective q = cc

  pub verify_webhook_hmac-signed :
      (body : List ℕ) (signature secret : String)
      → verify_webhook_hmac c body signature secret ≡ true
      → (c.decode_base64 signature ≡ some (c.hmac secret body)) × (secret ≢ "")
  unfolding verify_webhook_hmac
  verify_webhook_hmac-signed body signature secret h =
      elim (Option-cases (c.decode_base64 signature)) [
        | inl n ↦ let stuck = rw (n, verify_webhook_hmac) at h in cc stuck
        | inr (provided, n) ↦ elim (Bool-cases (length provided == 0 || secret =ₛ "")) [
          | inl e ↦ let stuck = rw (n, e, verify_webhook_hmac) at h in cc stuck
          | inr e ↦ (
            n
                ∙ ap some (
                    bytes_equal-same provided (c.hmac secret body)
                      (rw (n, e, verify_webhook_hmac) at h)),
            differs secret "" (neither (length provided == 0) (secret =ₛ "") e).1,
          )
        ]
      ]
