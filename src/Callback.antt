-- ===== src/Callback.antt =====
-- internal/httpapi/integration_handlers.go: the callback of Shopify's OAuth, with the scopes and the
-- configuration that it loads, and VerifyCallbackHMAC of internal/integrations/shopify/oauth.go.
-- The calls of Shopify, the cipher, encoding/json and the query of integration_configs are the
-- record `Services`; UpsertShopifyAuthorization acts on a state `D` that is an argument.
pub mod Authorized
pub mod Upserts
use Prim.Native.Char.{code}
use xg_mangement.Base.{
  ℕ, String, Bool, true, false, not, ◌&&◌, ◌||◌, Option, none, some, List, [], ◌∷◌, ◌⊎◌, inl, inr,
  if◌then◌else◌, ◌=ₛ◌, ◌==◌, length, trim_space, any, all, map, lookup, erase,
}
use xg_mangement.Errors.{GoError, plain, ◌⁀◌}
use xg_mangement.Config.{bytes_equal}
use xg_mangement.Store.{coalesce}
use xg_mangement.Token.{Token, expiry_from_duration}
use xg_mangement.Sessions.{OauthState, Json, KeyValueStore, consume}
use xg_mangement.Sessions.Authenticators.{split}
use xg_mangement.Webhooks.{Reply, refuse, ◌>>=◌, normalize_shop_domain}

pub record PublicConfig : Type 0 where
  pub client_id : String
  pub redirect_uri : String
  pub scopes : List String
  pub api_version : String

-- admin.IntegrationConfig, as far as it is read
pub record IntegrationConfig : Type 0 where
  pub enabled : Bool
  pub public_config : String
  pub encrypted_secrets : List ℕ

pub record Shop : Type 0 where
  pub id : String
  pub name : String
  pub currency_code : String
  pub timezone : String
  pub plan_name : String
  pub primary_domain : String

-- admin.ShopifyAuthorization
pub record Authorization : Type 0 where
  pub organization_id : String
  pub domain : String
  pub display_name : String
  pub shopify_gid : String
  pub primary_domain : String
  pub currency : String
  pub timezone : String
  pub plan_name : String
  pub scopes : List String
  pub encrypted_tokens : List ℕ
  pub expires_at : Option ℕ
  pub refresh_expires_at : Option ℕ

pub record Services : Type 0 where
  pub to_lower : String → String
  pub get_integration_config : String → GoError ⊎ IntegrationConfig
  pub parse_public_config : String → Option PublicConfig
  pub client_secret : List ℕ → Option String
  pub decrypt : List ℕ → GoError ⊎ List ℕ
  pub encrypt_token : Token → GoError ⊎ List ℕ  -- of its JSON text
  pub decode_hex : String → Option (List ℕ)
  pub encode_query : List (String × String) → String  -- Values.Encode
  pub hmac : String → String → List ℕ
  pub exchange : String → PublicConfig → String → String → GoError ⊎ Token
  pub shop : String → String → String → GoError ⊎ Shop
  pub now : ℕ
  pub web_base_url : String

-- The request: the keys and values of the query in their order, and the cookie xg_shopify_state.
pub record CallbackRequest : Type 0 where
  pub query : List (String × String)
  pub cookie : Option String

-- Query().Get: the first value, or the empty text
abbrev pub query_value : String → CallbackRequest → String
query_value key request = coalesce (lookup key request.query) ""

abbrev pub required_shopify_scopes : List String
required_shopify_scopes = "read_products" ∷ "read_themes" ∷ []

abbrev pub admits : String → List String → Bool
admits scope scopes = any (λ s. s =ₛ scope) scopes

-- the loop of normalizeScopes, with the scopes seen so far
unfoldable pub normalize_scopes : List String → List String → List String
normalize_scopes seen [] = []
normalize_scopes seen (s ∷ scopes) =
    let scope : String = trim_space s in
    if scope =ₛ "" || admits scope seen
    then normalize_scopes seen scopes
    else scope ∷ normalize_scopes (scope ∷ seen) scopes

-- scopeListContains
abbrev pub scope_list_contains : List String → List String → Bool
scope_list_contains granted required = all (λ scope. admits scope granted) required

-- sameScopes
unfoldable pub same_scopes : List String → List String → Bool
same_scopes granted required =
    length (normalize_scopes [] granted) == length (normalize_scopes [] required)
    && scope_list_contains granted required

-- scopesContain
unfoldable pub scopes_contain : String → List String → Bool
scopes_contain granted required = scope_list_contains (map trim_space (split granted)) required

-- strings.TrimRight(s, "/")
unfoldable pub trim_slashes : String → String
trim_slashes String.[] = ""
trim_slashes (String.◌∷◌ c s) =
    let rest : String = trim_slashes s in
    if rest =ₛ "" && code c == 47 then "" else String.◌∷◌ c rest

-- normalizeShopifyPublicConfig, with canonicalIntegrationCallbackURL
unfoldable pub normalize_public_config : String → PublicConfig → PublicConfig
normalize_public_config web_base_url public = record {
  client_id = trim_space public.client_id;
  redirect_uri = trim_slashes (trim_space web_base_url) ⁀ "/backend/integrations/shopify/callback";
  scopes = required_shopify_scopes;
  api_version = "2026-07";
}

module _ (v : Services) where
  -- the text that is signed: Del("hmac") on a copy, and Encode
  abbrev pub unsigned : CallbackRequest → String
  unsigned request = v.encode_query (erase "hmac" request.query)

  -- VerifyCallbackHMAC
  unfoldable pub verify_callback_hmac : CallbackRequest → String → Bool
  verify_callback_hmac request secret = elim (v.decode_hex (query_value "hmac" request)) [
    | none ↦ false
    | some provided ↦
        if length provided == 0 || secret =ₛ ""
        then false
        else bytes_equal provided (v.hmac secret (unsigned request))
  ]

  abbrev pub secret_of : GoError ⊎ List ℕ → Option String
  secret_of (inl e) = none
  secret_of (inr plaintext) = elim (v.client_secret plaintext) [
    | none ↦ none
    | some secret ↦ if secret =ₛ "" then none else some secret
  ]

  -- loadShopifyConfig, on the row of the organisation
  abbrev pub config_of_row : IntegrationConfig → Option (PublicConfig × String)
  config_of_row item =
      if not item.enabled || length item.encrypted_secrets == 0
      then none
      else elim (v.parse_public_config item.public_config) [
        | none ↦ none
        | some public ↦
            if not (same_scopes public.scopes required_shopify_scopes)
            then none
            else if trim_space public.client_id =ₛ ""
            then none
            else elim (secret_of (v.decrypt item.encrypted_secrets)) [
              | none ↦ none
              | some secret ↦ some (normalize_public_config v.web_base_url public, secret)
            ]
      ]

  -- loadShopifyConfig
  unfoldable pub load_shopify_config : String → Option (PublicConfig × String)
  load_shopify_config organization_id = elim (v.get_integration_config organization_id) [
    | inl e ↦ none
    | inr item ↦ config_of_row item
  ]

  -- a failed check ends the handler with an answer
  abbrev pub need : {A : Type 0} → ℕ → String → Option A → Reply ⊎ A
  need status text none = refuse status text
  need status text (some a) = inr a

  abbrev pub answered : {A : Type 0} → ℕ → String → GoError ⊎ A → Reply ⊎ A
  answered status text (inl e) = refuse status text
  answered status text (inr a) = inr a

  abbrev pub check : Bool → ℕ → String → Reply ⊎ Unit {0}
  check true status text = inr tt
  check false status text = refuse status text

  -- the domain of the request, if it is the one that the state was made for
  abbrev pub subject_domain : CallbackRequest → OauthState → Option String
  subject_domain request state =
      elim (normalize_shop_domain v.to_lower (query_value "shop" request)) [
        | inl e ↦ none
        | inr domain ↦ if domain =ₛ state.subject then some domain else none
      ]

  -- shopifyCallback between Consume and UpsertShopifyAuthorization
  unfoldable pub authorization_of : CallbackRequest → OauthState → Reply ⊎ Authorization
  authorization_of request state = do
    domain ← need 400 "invalid_input" (subject_domain request state)
    (public, secret) ←
        need 503 "integration_not_configured" (load_shopify_config state.organization_id)
    _ ← check (verify_callback_hmac request secret) 400 "invalid_shopify_hmac"
    token ←
        answered 502 "shopify_oauth_failed"
          (v.exchange domain public secret (query_value "code" request))
    _ ← check (scopes_contain token.scope public.scopes) 400 "shopify_scope_mismatch"
    shop ← answered 502 "shopify_shop_failed" (v.shop domain token.access_token public.api_version)
    encrypted ← answered 500 "internal_error" (v.encrypt_token token)
    inr (record {
      organization_id = state.organization_id;
      domain = domain;
      display_name = shop.name;
      shopify_gid = shop.id;
      primary_domain = shop.primary_domain;
      currency = shop.currency_code;
      timezone = shop.timezone;
      plan_name = shop.plan_name;
      scopes = split token.scope;
      encrypted_tokens = encrypted;
      expires_at = expiry_from_duration v.now token.expires_in;
      refresh_expires_at = expiry_from_duration v.now token.refresh_token_expires_in;
    })

  module _ {S D : Type 0} (kv : KeyValueStore S) (json : Json OauthState)
      (upsert : Authorization → D → Option GoError × D) where
    abbrev pub upserted : Option GoError × D → Reply × D
    upserted (some e, d) = (record { status = 500; code = "internal_error" }, d)
    upserted (none, d) = (record { status = 302; code = "/stores?connected=1" }, d)

    abbrev pub completed : Reply ⊎ Authorization → D → Reply × D
    completed (inl reply) d = (reply, d)
    completed (inr authorization) d = upserted (upsert authorization d)

    abbrev invalid_state : Reply
    invalid_state = record { status = 400; code = "invalid_oauth_state" }

    abbrev pub after_consume : CallbackRequest → (GoError ⊎ OauthState) × S → D → Reply × (S × D)
    after_consume request (inl e, s) d = (invalid_state, (s, d))
    after_consume request (inr state, s) d =
        let result : Reply × D = completed (authorization_of request state) d in
        (result.0, (s, result.1))

    abbrev pub has_cookie : CallbackRequest → Bool
    has_cookie request = elim request.cookie [
      | none ↦ false
      | some value ↦ value =ₛ (query_value "state" request)
    ]

    -- shopifyCallback: the answer, the store of the states, and the state of the repository
    unfoldable pub shopify_callback : CallbackRequest → S → D → Reply × (S × D)
    shopify_callback request s d =
        if not (has_cookie request)
        then (invalid_state, (s, d))
        else after_consume request (consume kv json true (query_value "state" request) "shopify" s)
            d
