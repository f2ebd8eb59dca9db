-- ===== src/Tests/Callbacks.antt =====
-- A callback of Shopify's OAuth, for a repository that lists its authorisations.
use xg_mangement.Base.{
  ◌≡◌, refl, true, Option, none, some, List, [], ◌∷◌, ◌⊎◌, inr, pos, trim_space, if◌then◌else◌,
  ◌=ₛ◌,
}
use xg_mangement.Errors.{GoError}
use xg_mangement.Token.{expiry_from_duration}
use xg_mangement.Sessions.{consume}
use xg_mangement.Sessions.Authenticators.{split}
use xg_mangement.Webhooks.{◌>>=◌, normalize_shop_domain, is_shop_domain, is_shop_rest}
use xg_mangement.Callback.{
  Services, CallbackRequest, Authorization, shopify_callback, authorization_of, load_shopify_config,
  normalize_public_config, trim_slashes, same_scopes, normalize_scopes, scopes_contain,
  verify_callback_hmac,
}
use xg_mangement.Callback.Upserts.{IsWritten, shopify_callback-IsWritten}
use xg_mangement.Tests.Logins.{dictionary, state_json, states}

abbrev services : Services
services = record {
  to_lower = λ s. s;
  get_integration_config =
      λ _. inr (record { enabled = true; public_config = "{}"; encrypted_secrets = 1 ∷ [] });
  parse_public_config = λ _. some (record {
    client_id = "id";
    redirect_uri = "";
    scopes = "read_themes" ∷ "read_products" ∷ [];
    api_version = "";
  });
  client_secret = λ _. some "secret";
  decrypt = λ bytes. inr bytes;
  encrypt_token = λ _. inr (9 ∷ []);
  decode_hex = λ text. if text =ₛ "good" then some (4 ∷ []) else some (5 ∷ []);
  encode_query = λ query. "code=c";
  hmac = λ secret unsigned. 4 ∷ [];
  exchange = λ domain public secret code. inr (record {
    access_token = "a";
    refresh_token = "r";
    scope = "read_products, read_themes";
    expires_in = pos 60;
    refresh_token_expires_in = pos 0;
  });
  shop = λ domain token version. inr (record {
    id = "1";
    name = "A";
    currency_code = "EUR";
    timezone = "UTC";
    plan_name = "basic";
    primary_domain = "a.example";
  });
  now = 0;
  web_base_url = "https://x.example/";
}

abbrev request : CallbackRequest
request = record {
  query = ("code", "c") ∷ ("hmac", "good") ∷ ("shop", "a.myshopify.com") ∷ ("state", "t") ∷ [];
  cookie = some "t";
}

abbrev upsert : Authorization → List Authorization → Option GoError × List Authorization
upsert a rows = (none, a ∷ rows)

shopify_callback-IsWritten_example :
    ((shopify_callback services dictionary state_json upsert request states []).1.1 ≡ [])
    ⊎ IsWritten services dictionary state_json upsert request states []
        (shopify_callback services dictionary state_json upsert request states []).1
shopify_callback-IsWritten_example =
    shopify_callback-IsWritten services dictionary state_json upsert request states []

-- the state is that of the store, and the answer sends the browser on
accepts : (shopify_callback services dictionary state_json upsert request states []).0.status ≡ 302
unfolding shopify_callback authorization_of load_shopify_config normalize_public_config trim_slashes
    same_scopes normalize_scopes scopes_contain verify_callback_hmac consume split ◌>>=◌
    normalize_shop_domain is_shop_domain is_shop_rest expiry_from_duration trim_space
accepts = refl

-- another signature is refused
refuses :
    (shopify_callback services dictionary state_json upsert
      (record request { query = ("hmac", "bad") ∷ request.query })
      states
      []).0.code
    ≡ "invalid_shopify_hmac"
unfolding shopify_callback authorization_of load_shopify_config normalize_public_config trim_slashes
    same_scopes normalize_scopes scopes_contain verify_callback_hmac consume split ◌>>=◌
    normalize_shop_domain is_shop_domain is_shop_rest expiry_from_duration trim_space
refuses = refl
