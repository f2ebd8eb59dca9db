-- ===== src/Callback/Authorized.antt =====
-- When the OAuth callback of internal/httpapi/integration_handlers.go authorises a store.
use mathlib.Core.List.{Memᴰ}
use xg_mangement.Base.{
  ℕ, String, Bool, true, false, not, ◌||◌, Option, none, some, List, [], ◌∷◌, ◌⊎◌, inl, inr, ◌=ₛ◌,
  ◌==◌, length, trim_space, map, ◌≡◌, ◌≢◌, refl, sym, ap, ◌∙◌, both, neither, differs, eq_iff,
  Bool-cases, Option-cases, ⊎-cases,
}
use xg_mangement.Errors.{GoError}
use xg_mangement.Token.{Token}
use xg_mangement.Sessions.{OauthState, Json, KeyValueStore, state_key}
use xg_mangement.Sessions.Authenticators.{split}
use xg_mangement.Webhooks.{normalize_shop_domain}
use xg_mangement.Webhooks.Authentic.{bind-inr}
use xg_mangement.Config.Keys.{bytes_equal-same}
use xg_mangement.Callback.{
  query_value, unsigned, PublicConfig, IntegrationConfig, Authorization, Services, CallbackRequest,
  required_shopify_scopes, admits, same_scopes, scopes_contain, normalize_public_config,
  verify_callback_hmac, secret_of, config_of_row, load_shopify_config, need, answered, check,
  subject_domain, authorization_of,
}

inr_injective : {A B : Type 0} {x y : B} → ◌≡◌ {A = A ⊎ B} (inr x) (inr y) → x ≡ y
inr_injective q = cc

-- a scope of a list
admits-mem :
    (scope : String) (scopes : List String) → admits scope scopes ≡ true → Memᴰ scope scopes
admits-mem scope [] h = cc
admits-mem scope (s ∷ scopes) h = elim (Bool-cases (s =ₛ scope)) [
  | inl e ↦ Memᴰ.head (sym ((eq_iff s scope).0 e))
  | inr e ↦ Memᴰ.tail (admits-mem scope scopes (rw e at h))
]

module _ (v : Services) where
  need-ok :
      {A : Type 0} (status : ℕ) (text : String) (o : Option A) (a : A)
      → need v status text o ≡ inr a
      → o ≡ some a
  need-ok status text none a h = cc
  need-ok status text (some b) a h = ap some (inr_injective h)

  answered-ok :
      {A : Type 0} (status : ℕ) (text : String) (x : GoError ⊎ A) (a : A)
      → answered v status text x ≡ inr a
      → x ≡ inr a
  answered-ok status text (inl e) a h = cc
  answered-ok status text (inr b) a h = ap inr (inr_injective h)

  check-ok :
      (b : Bool) (status : ℕ) (text : String) (u : Unit {0})
      → check v b status text ≡ inr u
      → b ≡ true
  check-ok true status text u h = refl
  check-ok false status text u h = cc

  subject_domain-ok :
      (request : CallbackRequest) (state : OauthState) (domain : String)
      → subject_domain v request state ≡ some domain
      → (normalize_shop_domain v.to_lower (query_value "shop" request) ≡ inr domain)
        × (domain ≡ state.subject)
  subject_domain-ok request state domain h =
      elim (⊎-cases (normalize_shop_domain v.to_lower (query_value "shop" request))) [
        | inl (e, n) ↦ let stuck = rw (n, subject_domain) at h in cc stuck
        | inr (found, n) ↦ elim (Bool-cases (found =ₛ state.subject)) [
          | inr e ↦ let stuck = rw (n, e, subject_domain) at h in cc stuck
          | inl e ↦
              let same : found ≡ domain = some_injective (rw (n, e, subject_domain) at h) in
              (n ∙ ap inr same, sym same ∙ (eq_iff found state.subject).0 e)
        ]
      ]
    where
      some_injective : {x y : String} → ◌≡◌ {A = Option String} (some x) (some y) → x ≡ y
      some_injective q = cc

  verify_callback_hmac-signed :
      (request : CallbackRequest) (secret : String)
      → verify_callback_hmac v request secret ≡ true
      → (v.decode_hex (query_value "hmac" request) ≡ some (v.hmac secret (unsigned v request)))
        × (secret ≢ "")
  unfolding verify_callback_hmac
  verify_callback_hmac-signed request secret h =
      elim (Option-cases (v.decode_hex (query_value "hmac" request))) [
        | inl n ↦ let stuck = rw (n, verify_callback_hmac) at h in cc stuck
        | inr (provided, n) ↦ elim (Bool-cases (length provided == 0 || secret =ₛ "")) [
          | inl e ↦ let stuck = rw (n, e, verify_callback_hmac) at h in cc stuck
          | inr e ↦ (
            n
                ∙ ap some (
                    bytes_equal-same provided (v.hmac secret (unsigned v request))
                      (rw (n, e, verify_callback_hmac) at h)),
            differs secret "" (neither (length provided == 0) (secret =ₛ "") e).1,
          )
        ]
      ]

  -- the configuration in use has the required scopes
  config_of_row-scopes :
      (item : IntegrationConfig) (public : PublicConfig) (secret : String)
      → config_of_row v item ≡ some (public, secret)
      → public.scopes ≡ required_shopify_scopes
  unfolding normalize_public_config
  config_of_row-scopes item public secret h =
      elim (Bool-cases (not item.enabled || length item.encrypted_secrets == 0)) [
        | inl e ↦ let stuck = rw (e, config_of_row) at h in cc stuck
        | inr e ↦ elim (Option-cases (v.parse_public_config item.public_config)) [
          | inl p ↦ let stuck = rw (e, p, config_of_row) at h in cc stuck
          | inr (found, p) ↦
              elim (Bool-cases (not (same_scopes found.scopes required_shopify_scopes))) [
                | inl q ↦ let stuck = rw (e, p, q, config_of_row) at h in cc stuck
                | inr q ↦ elim (Bool-cases (trim_space found.client_id =ₛ "")) [
                  | inl w ↦ let stuck = rw (e, p, q, w, config_of_row) at h in cc stuck
                  | inr w ↦ elim (Option-cases (secret_of v (v.decrypt item.encrypted_secrets))) [
                    | inl d ↦ let stuck = rw (e, p, q, w, d, config_of_row) at h in cc stuck
                    | inr (key, d) ↦
                        ap (λ c. c.scopes)
                          (sym (public_of (rw (e, p, q, w, d, config_of_row) at h)))
                  ]
                ]
              ]
        ]
      ]
    where
      public_of :
          {x y : PublicConfig} {k l : String}
          → ◌≡◌ {A = Option (PublicConfig × String)} (some (x, k)) (some (y, l))
          → x ≡ y
      public_of q = cc

  load_shopify_config-scopes :
      (organization_id : String) (public : PublicConfig) (secret : String)
      → load_shopify_config v organization_id ≡ some (public, secret)
      → public.scopes ≡ required_shopify_scopes
  unfolding load_shopify_config
  load_shopify_config-scopes organization_id public secret h =
      elim (⊎-cases (v.get_integration_config organization_id)) [
        | inl (e, g) ↦ let stuck = rw (g, load_shopify_config) at h in cc stuck
        | inr (item, g) ↦ config_of_row-scopes item public secret (rw (g, load_shopify_config) at h)
      ]

  scopes_contain-required :
      (granted : String)
      → scopes_contain granted required_shopify_scopes ≡ true
      → Memᴰ "read_products" (map trim_space (split granted))
        × Memᴰ "read_themes" (map trim_space (split granted))
  unfolding scopes_contain
  scopes_contain-required granted h =
      let (products, rest) = both (admits "read_products" (map trim_space (split granted))) _ h in
      let (themes, _) = both (admits "read_themes" (map trim_space (split granted))) true rest in
      (admits-mem "read_products" _ products, admits-mem "read_themes" _ themes)

  -- What a callback has shown for an authorisation, in the store `s` before it.
  pub record IsAuthorized {S : Type 0} (kv : KeyValueStore S) (json : Json OauthState)
      (request : CallbackRequest) (s : S) (authorization : Authorization) : Type 0 where
    pub state : OauthState
    pub payload : String
    pub public_config : PublicConfig
    pub secret : String
    pub token : Token
    pub cookie : request.cookie ≡ some (query_value "state" request)
    pub entry : kv.entry (state_key (query_value "state" request)) s ≡ some payload
    pub decoded : json.unmarshal payload ≡ some state
    pub provider : state.provider ≡ "shopify"
    pub domain : normalize_shop_domain v.to_lower (query_value "shop" request) ≡ inr state.subject
    pub configured : load_shopify_config v state.organization_id ≡ some (public_config, secret)
    pub signed :
        v.decode_hex (query_value "hmac" request) ≡ some (v.hmac secret (unsigned v request))
    pub has_secret : secret ≢ ""
    pub exchanged :
        v.exchange state.subject public_config secret (query_value "code" request) ≡ inr token
    pub read_products : Memᴰ "read_products" (map trim_space (split token.scope))
    pub read_themes : Memᴰ "read_themes" (map trim_space (split token.scope))
    pub organization : authorization.organization_id ≡ state.organization_id
    pub authorized_domain : authorization.domain ≡ state.subject
    pub encrypted : v.encrypt_token token ≡ inr authorization.encrypted_tokens

  pub authorization_of-ok :
      {S : Type 0} (kv : KeyValueStore S) (json : Json OauthState) (request : CallbackRequest)
      (s : S) (state : OauthState) (payload : String) (authorization : Authorization)
      → request.cookie ≡ some (query_value "state" request)
      → kv.entry (state_key (query_value "state" request)) s ≡ some payload
      → json.unmarshal payload ≡ some state
      → state.provider ≡ "shopify"
      → authorization_of v request state ≡ inr authorization
      → IsAuthorized kv json request s authorization
  unfolding authorization_of
  authorization_of-ok kv json request s state payload authorization cookie entry decoded provider
        h =
      let (domain, e0, h0) = bind-inr _ _ authorization h in
      let ((public, secret), e1, h1) = bind-inr _ _ authorization h0 in
      let (_, e2, h2) = bind-inr _ _ authorization h1 in
      let (token, e3, h3) = bind-inr _ _ authorization h2 in
      let (_, e4, h4) = bind-inr _ _ authorization h3 in
      let (shop, e5, h5) = bind-inr _ _ authorization h4 in
      let (encrypted, e6, h6) = bind-inr _ _ authorization h5 in
      let same = inr_injective h6 in
      let (normal, subject) =
        subject_domain-ok request state domain (need-ok 400 "invalid_input" _ domain e0) in
      let configured =
        need-ok 503 "integration_not_configured" (load_shopify_config v state.organization_id)
          (public, secret) e1 in
      let (signed, has_secret) =
        verify_callback_hmac-signed request secret (check-ok _ 400 "invalid_shopify_hmac" tt e2) in
      let granted =
        check-ok (scopes_contain token.scope public.scopes) 400 "shopify_scope_mismatch" tt e4 in
      let (products, themes) = scopes_contain-required token.scope (
        ap (scopes_contain token.scope)
          (sym (load_shopify_config-scopes state.organization_id public secret configured))
        ∙ granted) in
      record {
        state = state;
        payload = payload;
        public_config = public;
        secret = secret;
        token = token;
        cookie = cookie;
        entry = entry;
        decoded = decoded;
        provider = provider;
        domain = normal ∙ ap inr subject;
        configured = configured;
        signed = signed;
        has_secret = has_secret;
        exchanged =
            ap (λ d. v.exchange d public secret (query_value "code" request)) (sym subject)
            ∙ answered-ok 502 "shopify_oauth_failed" _ token e3;
        read_products = products;
        read_themes = themes;
        organization = ap (λ a. a.organization_id) (sym same);
        authorized_domain = ap (λ a. a.domain) (sym same) ∙ subject;
        encrypted =
            answered-ok 500 "internal_error" _ encrypted e6 ∙ ap (λ a. inr a.encrypted_tokens) same;
      }
