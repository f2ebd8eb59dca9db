-- ===== src/Config/Records.antt =====
-- internal/config/config.go: the configuration.
use xg_mangement.Base.{ℕ, String, Bool}

pub record OauthProviderConfig : Type 0 where
  pub client_id : String
  pub client_secret : String
  pub redirect_uri : String

pub record ObjectStorageConfig : Type 0 where
  pub endpoint : String
  pub region : String
  pub bucket : String
  pub access_key_id : String
  pub secret_access_key : String
  pub use_path_style : Bool

pub record ShopifyConfig : Type 0 where
  pub oauth : OauthProviderConfig
  pub api_version : String
  pub scopes : String

pub record ShopifySyncConfig : Type 0 where
  pub poll_interval : ℕ
  pub timeout : ℕ
  pub max_attempts : ℕ

pub record GoogleAdsConfig : Type 0 where
  pub oauth : OauthProviderConfig
  pub developer_token : String

-- with the fields of AuthConfig
pub record Config : Type 0 where
  pub environment : String
  pub http_address : String
  pub database_url : String
  pub redis_url : String
  pub rabbitmq_url : String
  pub rabbitmq_queue : String
  pub rabbitmq_retry_delay : ℕ
  pub dev_login_enabled : Bool
  pub session_secret : String
  pub web_base_url : String
  pub credential_encryption_key : String
  pub object_storage : ObjectStorageConfig
  pub dingtalk : OauthProviderConfig
  pub shopify : ShopifyConfig
  pub shopify_sync : ShopifySyncConfig
  pub meta_ads : OauthProviderConfig
  pub google_ads : GoogleAdsConfig
