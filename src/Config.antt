-- ===== src/Config.antt =====
-- internal/config/config.go: Load, and the key of NewCredentialCipher in
-- internal/security/credentials.go, which Load tries. The environment is a function from names to
-- texts, "" where a name is not set. time.ParseDuration (nanoseconds) and base64.StdEncoding are the
-- record `Decoding`.
mod Records
mod Parsing
pub mod Keys
pub mod Production
pub use Records.*
pub use Parsing.*
unfoldable pub use Parsing.{parse_bool, digits, atoi}
use xg_mangement.Base.{
  ℕ, suc, ◌+◌, ◌*◌, ◌-◌, ◌^◌, String, Bool, true, false, not, ◌&&◌, ◌||◌, Option, none, some, List,
  [], ◌∷◌, ◌⊎◌, inl, inr, ℤ, pos, negsuc, if◌then◌else◌, ◌=ₛ◌, ltb, leb, ◌==◌, length, utf8,
  is_blank, trim_space,
}
use xg_mangement.Errors.{GoError, plain, wrap, ◌⁀◌}

abbrev pub development_key : String
development_key = "0123456789abcdef0123456789abcdef"

pub record Decoding : Type 0 where
  pub parse_duration : String → Option ℤ
  pub decode_base64 : String → Option (List ℕ)

abbrev accepted_duration : String → Option ℤ → GoError ⊎ ℕ
accepted_duration key (some (pos (suc n))) = inr (suc n)
accepted_duration key _ = inl (plain ("parse " ⁀ key ⁀ ": value must be a positive duration"))

abbrev accepted_int : String → Option ℤ → GoError ⊎ ℕ
accepted_int key (some (pos (suc n))) = inr (suc n)
accepted_int key _ = inl (plain ("parse " ⁀ key ⁀ ": value must be a positive integer"))

abbrev accepted_flag : String → Option Bool → GoError ⊎ Bool
accepted_flag key (some b) = inr b
accepted_flag key none = inl (wrap ("parse " ⁀ key) (plain "invalid syntax"))

-- the switch on the environment
unfoldable pub check_environment : String → GoError ⊎ String
check_environment e =
    if e =ₛ "development" || e =ₛ "test" || e =ₛ "production"
    then inr e
    else inl (plain "APP_ENV must be one of development, test, or production")

-- `if err != nil { return Config{}, err }`
infixl 5 ◌>>=◌
unfoldable pub ◌>>=◌ : {A B : Type 0} → GoError ⊎ A → (A → GoError ⊎ B) → GoError ⊎ B
inl e >>= f = inl e
inr a >>= f = f a

-- bytes.Equal
abbrev pub bytes_equal : List ℕ → List ℕ → Bool
bytes_equal [] [] = true
bytes_equal [] (b ∷ bs) = false
bytes_equal (a ∷ xs) [] = false
bytes_equal (a ∷ xs) (b ∷ bs) = a == b && bytes_equal xs bs

module _ (decoding : Decoding) where
  -- the local function `decode` of credentialKeyMatches, and the key that NewCredentialCipher takes
  abbrev pub key_bytes : String → List ℕ
  key_bytes value = elim (decoding.decode_base64 value) [
    | none ↦ utf8 value
    | some decoded ↦ if length decoded == 32 then decoded else utf8 value
  ]

  -- credentialKeyMatches
  unfoldable pub credential_key_matches : String → String → Bool
  credential_key_matches candidate known = bytes_equal (key_bytes candidate) (key_bytes known)

  -- the check of NewCredentialCipher
  unfoldable pub check_cipher_key : String → Option GoError
  check_cipher_key encoded_key =
      if length (key_bytes encoded_key) == 32
      then none
      else some
          (plain "credential encryption key must be exactly 32 bytes or base64-encoded 32 bytes")

  module _ (lookup : String → String) where
    abbrev pub setting : String → String → String
    setting key fallback = value_or_default (lookup key) fallback

    -- positiveDuration
    abbrev pub positive_duration : String → String → GoError ⊎ ℕ
    positive_duration key fallback =
        accepted_duration key (decoding.parse_duration (setting key fallback))

    -- positiveInt
    abbrev pub positive_int : String → String → GoError ⊎ ℕ
    positive_int key fallback = accepted_int key (atoi (setting key fallback))

    abbrev pub flag : String → String → GoError ⊎ Bool
    flag key fallback = accepted_flag key (parse_bool (setting key fallback))

    -- the literal of the configuration
    unfoldable pub settings :
        String → Bool → Bool → (retry_delay poll_interval timeout max_attempts : ℕ) → Config
    settings environment dev_login_enabled use_path_style retry_delay poll_interval timeout
          max_attempts =
        record {
          environment = environment;
          http_address = setting "HTTP_ADDRESS" ":8080";
          database_url =
              setting "DATABASE_URL" "postgres://xg:xg@localhost:5432/xg?sslmode=disable";
          redis_url = setting "REDIS_URL" "redis://localhost:6379/0";
          rabbitmq_url = setting "RABBITMQ_URL" "amqp://xg:xg@localhost:5672/";
          rabbitmq_queue = setting "RABBITMQ_QUEUE" "xg.jobs";
          rabbitmq_retry_delay = retry_delay;
          dev_login_enabled = dev_login_enabled;
          session_secret = lookup "SESSION_SECRET";
          web_base_url = setting "WEB_BASE_URL" "http://localhost:3001";
          credential_encryption_key = setting "CREDENTIAL_ENCRYPTION_KEY" development_key;
          object_storage = record {
            endpoint = setting "OBJECT_STORAGE_ENDPOINT" "http://localhost:9000";
            region = setting "OBJECT_STORAGE_REGION" "auto";
            bucket = setting "OBJECT_STORAGE_BUCKET" "xg-assets";
            access_key_id = setting "OBJECT_STORAGE_ACCESS_KEY_ID" "minioadmin";
            secret_access_key = setting "OBJECT_STORAGE_SECRET_ACCESS_KEY" "minioadmin";
            use_path_style = use_path_style;
          };
          dingtalk = record {
            client_id = lookup "DINGTALK_CLIENT_ID";
            client_secret = lookup "DINGTALK_CLIENT_SECRET";
            redirect_uri = lookup "DINGTALK_REDIRECT_URI";
          };
          shopify = record {
            oauth = record {
              client_id = lookup "SHOPIFY_CLIENT_ID";
              client_secret = lookup "SHOPIFY_CLIENT_SECRET";
              redirect_uri = lookup "SHOPIFY_REDIRECT_URI";
            };
            api_version = setting "SHOPIFY_API_VERSION" "2026-07";
            scopes = setting "SHOPIFY_SCOPES" "read_products,read_themes";
          };
          shopify_sync = record {
            poll_interval = poll_interval;
            timeout = timeout;
            max_attempts = max_attempts;
          };
          meta_ads = record {
            client_id = lookup "META_APP_ID";
            client_secret = lookup "META_APP_SECRET";
            redirect_uri = lookup "META_REDIRECT_URI";
          };
          google_ads = record {
            oauth = record {
              client_id = lookup "GOOGLE_ADS_CLIENT_ID";
              client_secret = lookup "GOOGLE_ADS_CLIENT_SECRET";
              redirect_uri = lookup "GOOGLE_ADS_REDIRECT_URI";
            };
            developer_token = lookup "GOOGLE_ADS_DEVELOPER_TOKEN";
          };
        }

    -- the checks in production
    unfoldable pub check_production : Config → Option GoError
    check_production cfg =
        let configured_key : String = trim_space (lookup "CREDENTIAL_ENCRYPTION_KEY") in
        if cfg.dev_login_enabled
        then some (plain "development login must be disabled in production")
        else if ltb (length (utf8 cfg.session_secret)) 32
        then some (plain "SESSION_SECRET must contain at least 32 characters in production")
        else if configured_key =ₛ "" || credential_key_matches configured_key development_key
        then some (
            plain
              "CREDENTIAL_ENCRYPTION_KEY must be explicitly configured with a non-development AES-256 key in production")
        else none

    -- the checks at the end of Load
    unfoldable pub check_config : Config → GoError ⊎ Config
    check_config cfg =
        elim (if cfg.environment =ₛ "production" then check_production cfg else none) [
          | some e ↦ inl e
          | none ↦
              if not (trim_space cfg.shopify.api_version =ₛ "2026-07")
              then inl (plain "SHOPIFY_API_VERSION is fixed at 2026-07 for this release")
              else elim (check_cipher_key cfg.credential_encryption_key) [
                | some e ↦ inl (wrap "validate CREDENTIAL_ENCRYPTION_KEY" e)
                | none ↦ inr cfg
              ]
        ]

    -- Load
    unfoldable pub load : GoError ⊎ Config
    load = do
      environment ← check_environment (trim_space (setting "APP_ENV" "development"))
      dev_login_enabled ← flag "AUTH_DEV_LOGIN_ENABLED" "false"
      use_path_style ← flag "OBJECT_STORAGE_PATH_STYLE" "true"
      retry_delay ← positive_duration "RABBITMQ_RETRY_DELAY" "30s"
      poll_interval ← positive_duration "SHOPIFY_SYNC_POLL_INTERVAL" "5s"
      timeout ← positive_duration "SHOPIFY_SYNC_TIMEOUT" "15m"
      max_attempts ← positive_int "SHOPIFY_SYNC_MAX_ATTEMPTS" "5"
      check_config (
          settings environment dev_login_enabled use_path_style retry_delay poll_interval timeout
            max_attempts)
