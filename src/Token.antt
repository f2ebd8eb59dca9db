-- ===== src/Token.antt =====
-- internal/shopifysync/token_manager.go and internal/platform/postgres/shopify_credentials.go: the
-- access token of a store, under the lock of its account row. The cipher, the token endpoint and
-- encoding/json are the record `Provider`; a plaintext is a text.
pub mod Locked
pub mod Scopes
pub mod Outcomes
pub mod Rotation
pub mod Kept
use xg_mangement.Base.{
  ℕ, ◌+◌, ◌*◌, String, Bool, true, false, not, ◌&&◌, ◌||◌, Option, none, some, List, [], ◌∷◌, ◌⊎◌,
  inl, inr, ℤ, pos, negsuc, ltb, ◌-◌, suc, signed_word, ◌==◌, if◌then◌else◌, ◌=ₛ◌, any, all, length,
  trim_space, is_blank,
}
use xg_mangement.Errors.{GoError, ProviderError, plain, wrap, provider, as_provider, no_rows}
use xg_mangement.Store.{StoreRow, Account, Db, find, update, is_store}

-- shopify.Token
pub record Token : Type 0 where
  pub access_token : String
  pub refresh_token : String
  pub scope : String
  pub expires_in : ℤ
  pub refresh_token_expires_in : ℤ

pub record StoreConnection : Type 0 where
  pub organization_id : String
  pub store_id : String
  pub account_id : String
  pub domain : String
  pub status : String
  pub encrypted_credentials : List ℕ
  pub expires_at : Option ℕ
  pub refresh_expires_at : Option ℕ
  pub public_config : String
  pub encrypted_secrets : List ℕ
  pub last_error_code : String
  pub granted_scopes : List String

pub record CredentialUpdate : Type 0 where
  pub changed : Bool
  pub encrypted_credentials : List ℕ
  pub expires_at : Option ℕ
  pub refresh_expires_at : Option ℕ
  pub status : String
  pub last_error_code : String

pub record Provider : Type 0 where
  pub decrypt : List ℕ → GoError ⊎ String
  pub encrypt : String → GoError ⊎ List ℕ
  pub encode_token : Token → String
  pub decode_token : String → Option Token
  pub decode_client_id : String → Option String
  pub decode_client_secret : String → Option String
  pub refresh : String → String → String → String → GoError ⊎ Token

abbrev pub token_refresh_skew : ℕ
token_refresh_skew = 300_000_000_000

abbrev pub phase_one_token_scopes : List String
phase_one_token_scopes = "read_products" ∷ "read_themes" ∷ []

-- exactScopeSet; the map is asked for each required scope
unfoldable pub exact_scope_set : List String → List String → Bool
exact_scope_set granted required =
    if length granted == length required
    then all (λ scope. any (λ g. trim_space g =ₛ scope) granted) required
    else false

-- the zero CredentialUpdate
abbrev pub no_update : CredentialUpdate
no_update = record {
  changed = false;
  encrypted_credentials = [];
  expires_at = none;
  refresh_expires_at = none;
  status = "";
  last_error_code = "";
}

abbrev pub action_required_update : CredentialUpdate
action_required_update = record no_update {
  changed = true;
  status = "action_required";
  last_error_code = "reauthorization_required";
}

abbrev pub reauthorization_required : String → GoError
reauthorization_required message = provider (record {
  status_code = 401;
  code = "reauthorization_required";
  message = message;
  retryable = false;
  retry_after = 0;
})

-- now.Add; no time before Go's zero time is asked for
abbrev add_duration : ℕ → ℤ → ℕ
add_duration now (pos n) = now + n
add_duration now (negsuc n) = now - suc n

-- expiryFromDuration; a duration is 64 bits of nanoseconds
unfoldable pub expiry_from_duration : ℕ → ℤ → Option ℕ
expiry_from_duration now (negsuc _) = none
expiry_from_duration now (pos n) =
    if n == 0
    then none
    else some (add_duration now (signed_word 9223372036854775808 (n * 1_000_000_000)))

-- shopify.IsReauthorizationRequired
abbrev pub is_reauthorization_required : GoError → Bool
is_reauthorization_required err = elim (as_provider err) [
  | none ↦ false
  | some p ↦ p.code =ₛ "reauthorization_required"
]

-- ExpiresAt == nil || now.Add(tokenRefreshSkew).Before(*ExpiresAt)
abbrev pub is_fresh : ℕ → Option ℕ → Bool
is_fresh now none = true
is_fresh now (some t) = ltb (now + token_refresh_skew) t

-- What the callback returns: the update, and the error or the token that it has set.
abbrev pub Answer : Type 0
Answer = CredentialUpdate × (GoError ⊎ String)

abbrev pub keeps : GoError → Answer
keeps err = (no_update, inl err)

module _ (p : Provider) where
  -- decryptToken
  unfoldable pub decrypt_token : List ℕ → GoError ⊎ Token
  decrypt_token ciphertext = elim (p.decrypt ciphertext) [
    | inl e ↦ inl (wrap "decrypt Shopify credentials" e)
    | inr plaintext ↦ elim (p.decode_token plaintext) [
      | none ↦ inl (wrap "decode Shopify credentials" (plain "invalid JSON"))
      | some token ↦ inr token
    ]
  ]

  abbrev complete : String → String → GoError ⊎ (String × String)
  complete client_id client_secret =
      if is_blank client_id || is_blank client_secret
      then inl (plain "Shopify client credentials are incomplete")
      else inr (client_id, client_secret)

  -- clientCredentials
  unfoldable pub client_credentials : StoreConnection → GoError ⊎ (String × String)
  client_credentials c = elim (p.decode_client_id c.public_config) [
    | none ↦ inl (wrap "decode Shopify public configuration" (plain "invalid JSON"))
    | some client_id ↦ elim (p.decrypt c.encrypted_secrets) [
      | inl e ↦ inl (wrap "decrypt Shopify secret configuration" e)
      | inr secret ↦ elim (p.decode_client_secret secret) [
        | none ↦ inl (wrap "decode Shopify secret configuration" (plain "invalid JSON"))
        | some client_secret ↦ complete client_id client_secret
      ]
    ]
  ]

  -- what the callback does with a rotated token
  unfoldable pub rotate : ℕ → Token → Answer
  rotate now rotated = elim (p.encrypt (p.encode_token rotated)) [
    | inl e ↦ keeps (wrap "encrypt rotated Shopify credentials" e)
    | inr encrypted ↦ (
      record {
        changed = true;
        encrypted_credentials = encrypted;
        expires_at = expiry_from_duration now rotated.expires_in;
        refresh_expires_at = expiry_from_duration now rotated.refresh_token_expires_in;
        status = "connected";
        last_error_code = "";
      },
      inr rotated.access_token,
    )
  ]

  -- the refresh of a token that is about to expire
  unfoldable pub refresh_token : ℕ → StoreConnection → Token → Answer
  refresh_token now c token =
      if is_blank token.refresh_token
      then (
        action_required_update,
        inl (reauthorization_required "Shopify offline session must be authorized again"),
      )
      else elim (client_credentials c) [
        | inl e ↦ keeps e
        | inr (client_id, client_secret) ↦
            elim (p.refresh c.domain client_id client_secret token.refresh_token) [
              | inl e ↦
                  if is_reauthorization_required e then (action_required_update, inl e) else keeps e
              | inr rotated ↦ rotate now rotated
            ]
      ]

  -- the callback of AccessToken
  unfoldable pub obtain : ℕ → StoreConnection → Answer
  obtain now c =
      if not (exact_scope_set c.granted_scopes phase_one_token_scopes)
      then (
        action_required_update,
        inl (
            reauthorization_required
              "Shopify authorization must be renewed with the Phase 1 read-only scopes"),
      )
      else elim (decrypt_token c.encrypted_credentials) [
        | inl e ↦ keeps e
        | inr token ↦
            if is_fresh now c.expires_at
            then if is_blank token.access_token
              then keeps (plain "Shopify credentials do not contain an access token")
              else (no_update, inr token.access_token)
            else refresh_token now c token
      ]
