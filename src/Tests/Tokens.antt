-- ===== src/Tests/Tokens.antt =====
-- The token manager at concrete accounts.
use xg_mangement.Base.{
  ℕ, Bool, false, ℤ, negsuc, ◌==◌, ◌=ₛ◌, ◌&&◌, ap, sym, arith, eq_iff, Bool-cases, if◌then◌else◌,
  is_blank, String, ◌≡◌, refl, ◌↔◌, ◌⊎◌, inl, inr, true, Option, none, some, [], ◌∷◌, map,
  trim_space, pos,
}
use xg_mangement.Errors.{GoError}
use xg_mangement.Store.{StoreRow, Account, Db}
use xg_mangement.Token.{
  decrypt_token, refresh_token, client_credentials, rotate, is_fresh, expiry_from_duration, Token,
  Provider, exact_scope_set, phase_one_token_scopes, reauthorization_required, obtain,
}
use xg_mangement.Token.Locked.{
  Settings, connection_of, find_connection, access_token, with_locked_connection, conclude,
}
use xg_mangement.Token.Scopes.{exact_scope_set_iff}
use xg_mangement.Token.Rotation.{IsFaithful}
use xg_mangement.Token.Kept.{IsFilled, IsLinked, access_token-rotated}
use xg_mangement.Token.Outcomes.{IsReported, access_token-IsReported}
use xg_mangement.Tests.Values.{empty, store}

exact_scope_set_iff_example :
    (exact_scope_set (" read_themes" ∷ "read_products" ∷ []) phase_one_token_scopes ≡ true) ↔ (
      (map trim_space (" read_themes" ∷ "read_products" ∷ [])
        ≡ "read_products" ∷ "read_themes" ∷ [])
      ⊎ (map trim_space (" read_themes" ∷ "read_products" ∷ [])
          ≡ "read_themes" ∷ "read_products" ∷ []))
exact_scope_set_iff_example = exact_scope_set_iff (" read_themes" ∷ "read_products" ∷ [])

abbrev token : Token
token = record {
  access_token = "new";
  refresh_token = "again";
  scope = "";
  expires_in = pos 3600;
  refresh_token_expires_in = pos 7200;
}

abbrev parts : Provider
parts = record {
  decrypt = λ _. inr "plain";
  encrypt = λ _. inr (1 ∷ []);
  encode_token = λ _. "plain";
  decode_token = λ _. some token;
  decode_client_id = λ _. some "id";
  decode_client_secret = λ _. some "secret";
  refresh = λ _ _ _ _. inr token;
}

abbrev account : Account
account = record {
  id = "a";
  organization_id = "o";
  provider = "shopify";
  status = "connected";
  encrypted_credentials = some (7 ∷ []);
  expires_at = none;
  refresh_expires_at = none;
  last_error = none;
  scopes = "read_products" ∷ "write_products" ∷ [];
}

abbrev linked : Db
linked = record empty {
  stores = record store { account_id = some "a" } ∷ [];
  accounts = account ∷ [];
}

abbrev settings : String → Option Settings
settings o = some (record { public_config = "{}"; encrypted_secrets = [] })

abbrev refusal : GoError
refusal =
    reauthorization_required
      "Shopify authorization must be renewed with the Phase 1 read-only scopes"

abbrev after : Db
after = (access_token settings 5 "o" "s" parts true none none linked).1

refuses : access_token settings 5 "o" "s" parts true none none linked ≡ (inl refusal, after)
unfolding access_token with_locked_connection find_connection obtain exact_scope_set conclude
    trim_space
refuses = refl

access_token-IsReported_example : IsReported settings 5 "o" "s" linked after refusal
access_token-IsReported_example =
    access_token-IsReported settings 5 "o" "s" linked after refusal parts true none none refuses

abbrev is_pos : ℕ → ℤ → Bool
is_pos k (pos n) = n == k
is_pos k (negsuc _) = false

is_pos-eq : (k : ℕ) (z : ℤ) → is_pos k z ≡ true → z ≡ pos k
is_pos-eq k (pos n) h = let e : n ≡ k = ground arith in ap pos e
is_pos-eq k (negsuc n) h = cc h

abbrev is_token : Token → Bool
is_token t =
    t.access_token =ₛ "new"
    && t.refresh_token =ₛ "again"
    && t.scope =ₛ ""
    && is_pos 3600 t.expires_in
    && is_pos 7200 t.refresh_token_expires_in

is_token-eq : (t : Token) → is_token t ≡ true → t ≡ token
is_token-eq t h =
    let a : t.access_token ≡ "new" = (eq_iff t.access_token "new").0 (ground arith) in
    let r : t.refresh_token ≡ "again" = (eq_iff t.refresh_token "again").0 (ground arith) in
    let s : t.scope ≡ "" = (eq_iff t.scope "").0 (ground arith) in
    let e : t.expires_in ≡ pos 3600 = is_pos-eq 3600 t.expires_in (ground arith) in
    let x : t.refresh_token_expires_in ≡ pos 7200 =
      is_pos-eq 7200 t.refresh_token_expires_in (ground arith) in
    λ i. record {
      access_token = a i;
      refresh_token = r i;
      scope = s i;
      expires_in = e i;
      refresh_token_expires_in = x i;
    }

-- a cipher that encrypts one token only
abbrev careful : Provider
careful = record parts {
  encode_token = λ t. if is_token t then "plain" else "other";
  encrypt = λ s. if s =ₛ "plain" then inr (1 ∷ []) else inl refusal;
}

faithful : IsFaithful careful
unfolding decrypt_token
faithful t b h = elim (Bool-cases (is_token t)) [
  | inl e ↦ ap inr (sym (is_token-eq t e))
  | inr e ↦ let stuck = rw e at h in cc stuck
]

abbrev expiring : Account
expiring = record account { expires_at = some 5; scopes = "read_products" ∷ "read_themes" ∷ [] }

abbrev at_shop : StoreRow
at_shop = record store { account_id = some "a" }

abbrev shop : Db
shop = record linked { accounts = expiring ∷ [] }

abbrev config : Settings
config = record { public_config = "{}"; encrypted_secrets = [] }

abbrev renewed : Db
renewed = (access_token settings 5 "o" "s" careful true none none shop).1

renews : access_token settings 5 "o" "s" careful true none none shop ≡ (inr "new", renewed)
unfolding access_token with_locked_connection find_connection conclude obtain decrypt_token
    refresh_token client_credentials rotate exact_scope_set trim_space
renews = refl

renewal-changed : (obtain careful 5 (connection_of config at_shop expiring)).0.changed ≡ true
unfolding obtain decrypt_token refresh_token client_credentials rotate exact_scope_set trim_space
renewal-changed = refl

renewal-is_fresh :
    is_fresh 10 (obtain careful 5 (connection_of config at_shop expiring)).0.expires_at ≡ true
unfolding obtain decrypt_token refresh_token client_credentials rotate exact_scope_set trim_space
    expiry_from_duration
renewal-is_fresh = refl

new_filled : is_blank "new" ≡ false
unfolding trim_space
new_filled = refl

linked_rows : IsLinked settings careful 5 10 "o" "s" shop at_shop expiring config
linked_rows = record {
  store_found = refl;
  account_found = refl;
  settings_found = refl;
  organization = refl;
}

filled : IsFilled careful
filled plaintext h = elim (Bool-cases (plaintext =ₛ "plain")) [
  | inl e ↦ let stuck = rw e at h in cc stuck
  | inr e ↦ let stuck = rw e at h in cc stuck
]

access_token-rotated_example :
    access_token settings 10 "o" "s" careful true none none renewed ≡ (inr "new", renewed)
access_token-rotated_example =
    access_token-rotated settings careful 5 10 "o" "s" shop at_shop expiring config "new" renewed
      faithful filled linked_rows renews renewal-changed renewal-is_fresh new_filled
