-- ===== src/Tests/Configs.antt =====
-- Environments of the API process, and a request to it.
use xg_mangement.Base.{
  ℕ, ◌≡◌, ◌≢◌, ◌≤◌, refl, String, true, false, Option, none, some, List, [], ◌∷◌, inr,
  if◌then◌else◌, ◌=ₛ◌, utf8, length, trim_space, pos,
}
use xg_mangement.Config.{
  Config, Decoding, ◌>>=◌, check_environment, check_config, check_production, check_cipher_key,
  credential_key_matches, settings, load, parse_bool, digits, atoi, key_bytes, development_key,
}
use xg_mangement.Config.Keys.{IsBase64}
use xg_mangement.Config.Production.{IsSound, load-IsSound, load-IsSecured}
use xg_mangement.Sessions.{read}
use xg_mangement.Sessions.Authenticators.{
  Principal, Request, gate, authenticate_any, authenticate_session, admitted, api_authenticator,
}
use xg_mangement.Sessions.Identity.{IsOwn, gate-IsOwn}
use xg_mangement.Tests.Logins.{dictionary, session_json, session, Entries, texts_of}
use xg_mangement.Tests.JsonText.{joined}

-- durations of five seconds, and no text in base64
abbrev decoding : Decoding
decoding = record { parse_duration = λ _. some (pos 5000000000); decode_base64 = λ _. none }

abbrev environment : String → String
environment name =
    if name =ₛ "APP_ENV"
    then "production"
    else if name =ₛ "SESSION_SECRET"
    then "a secret of thirty-two bytes, ok."
    else if name =ₛ "CREDENTIAL_ENCRYPTION_KEY"
    then "another key of thirty-two bytes."
    else ""

abbrev configuration : Config
configuration =
    settings decoding environment "production" false true 5000000000 5000000000 5000000000 5

loads : load decoding environment ≡ inr configuration
unfolding load ◌>>=◌ check_environment check_config check_production check_cipher_key
    credential_key_matches settings parse_bool digits atoi trim_space utf8
loads = refl

is_production : configuration.environment ≡ "production"
unfolding settings
is_production = refl

load-IsSound_example : IsSound decoding configuration
load-IsSound_example = load-IsSound decoding environment configuration loads

base64 : IsBase64 decoding
base64 = record { trimmed = λ s b h. absurd (none_some h); bounded = λ s b h. absurd (none_some h) }
  where
    none_some : {x : List ℕ} → ◌≢◌ {A = Option (List ℕ)} none (some x)
    none_some q = cc

load-IsSecured_example :
    (configuration.dev_login_enabled ≡ false)
    × (32 ≤ length (utf8 configuration.session_secret))
    × (key_bytes decoding configuration.credential_encryption_key ≢ utf8 development_key)
load-IsSecured_example =
    load-IsSecured decoding environment base64 configuration loads is_production

abbrev entries : Entries
entries = ("session:s", joined (texts_of session)) ∷ []

abbrev request : Request
request = record { cookie = some "s"; header = λ _. "" }

abbrev principal : Principal
principal = record { user_id = "u"; organization_id = "o"; display_name = "U"; permissions = [] }

admits :
    (gate
      (some (api_authenticator dictionary session_json true (λ _ _. inr principal) configuration))
      request
      entries).0
    ≡ admitted principal
unfolding gate authenticate_any authenticate_session read settings trim_space
admits = refl

gate-IsOwn_example :
    IsOwn dictionary session_json true (λ _ _. inr principal) request entries principal
gate-IsOwn_example =
    gate-IsOwn dictionary session_json true (λ _ _. inr principal) decoding environment
      configuration request entries principal loads is_production admits
