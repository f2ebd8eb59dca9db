-- ===== src/Config/Production.antt =====
-- What an accepted configuration of internal/config/config.go promises.
use xg_mangement.Base.{
  ℕ, suc, ◌≤◌, ◌<◌, String, ◌≡◌, ◌≢◌, refl, sym, ap, ◌∙◌, Bool, false, Option, none, some, arith,
  length, utf8, trim_space, Option-cases, Bool-cases, ◌⊎◌, inl, inr, if◌then◌else◌, ◌=ₛ◌, eq_iff, ℤ,
  pos, negsuc, zero,
}
use xg_mangement.Errors.{GoError}
use xg_mangement.Config.{
  Config, Decoding, development_key, key_bytes, credential_key_matches, check_cipher_key,
  check_environment, accepted_duration, accepted_int, setting, settings, check_production,
  check_config, load, ◌>>=◌,
}
use xg_mangement.Config.Keys.{IsBase64, key_bytes-differs}

bind-inr :
    {A B : Type 0} (x : GoError ⊎ A) (f : A → GoError ⊎ B) (b : B)
    → (x >>= f) ≡ inr b
    → (a : A) × (x ≡ inr a) × (f a ≡ inr b)
unfolding ◌>>=◌
bind-inr (inl e) f b h = cc
bind-inr (inr a) f b h = (a, refl, h)

accepted_duration-positive :
    (key : String) (d : Option ℤ) (n : ℕ) → accepted_duration key d ≡ inr n → 0 < n
accepted_duration-positive key none n h = cc
accepted_duration-positive key (some (pos zero)) n h = cc
accepted_duration-positive key (some (pos (suc m))) n h = let e : suc m ≡ n = cc in omega (arith, e)
accepted_duration-positive key (some (negsuc m)) n h = cc

accepted_int-positive : (key : String) (d : Option ℤ) (n : ℕ) → accepted_int key d ≡ inr n → 0 < n
accepted_int-positive key none n h = cc
accepted_int-positive key (some (pos zero)) n h = cc
accepted_int-positive key (some (pos (suc m))) n h = let e : suc m ≡ n = cc in omega (arith, e)
accepted_int-positive key (some (negsuc m)) n h = cc

-- What holds in every environment.
pub record IsSound (decoding : Decoding) (cfg : Config) : Type 0 where
  pub environment :
      (cfg.environment ≡ "development")
      ⊎ (cfg.environment ≡ "test")
      ⊎ (cfg.environment ≡ "production")
  pub retry_delay : 0 < cfg.rabbitmq_retry_delay
  pub poll_interval : 0 < cfg.shopify_sync.poll_interval
  pub timeout : 0 < cfg.shopify_sync.timeout
  pub max_attempts : 0 < cfg.shopify_sync.max_attempts
  pub api_version : trim_space cfg.shopify.api_version ≡ "2026-07"
  pub key : length (key_bytes decoding cfg.credential_encryption_key) ≡ 32

check_environment_sound :
    (e found : String)
    → check_environment e ≡ inr found
    → (found ≡ "development") ⊎ (found ≡ "test") ⊎ (found ≡ "production")
unfolding check_environment
check_environment_sound e found h =
    ground (arith, eq_iff e "development", eq_iff e "test", eq_iff e "production")

module _ (decoding : Decoding) (lookup : String → String) where
  -- What the checks at the end accept.
  record IsChecked (cfg found : Config) : Type 0 where
    same : cfg ≡ found
    production :
        (if cfg.environment =ₛ "production" then check_production decoding lookup cfg else none)
        ≡ none
    api_version : trim_space cfg.shopify.api_version ≡ "2026-07"
    key : length (key_bytes decoding cfg.credential_encryption_key) ≡ 32

  inr_injective : {x y : Config} → ◌≡◌ {A = GoError ⊎ Config} (inr x) (inr y) → x ≡ y
  inr_injective q = cc

  abbrev production_error : Config → Option GoError
  production_error cfg =
      if cfg.environment =ₛ "production" then check_production decoding lookup cfg else none

  check_cipher_key-none :
      (key : String) → check_cipher_key decoding key ≡ none → length (key_bytes decoding key) ≡ 32
  unfolding check_cipher_key
  check_cipher_key-none key h = ground arith

  check_config-IsChecked :
      (cfg found : Config) → check_config decoding lookup cfg ≡ inr found → IsChecked cfg found
  unfolding check_config
  check_config-IsChecked cfg found h = elim (Option-cases (production_error cfg)) [
    | inr (x, e) ↦ let stuck = rw (e, check_config) at h in cc stuck
    | inl e ↦ elim (Bool-cases (trim_space cfg.shopify.api_version =ₛ "2026-07")) [
      | inr v ↦ let stuck = rw (e, v, check_config) at h in cc stuck
      | inl v ↦ elim (Option-cases (check_cipher_key decoding cfg.credential_encryption_key)) [
        | inr (x, k) ↦ let stuck = rw (e, v, k, check_config) at h in cc stuck
        | inl k ↦ record {
          same = inr_injective (rw (e, v, k, check_config) at h);
          production = e;
          api_version = (eq_iff (trim_space cfg.shopify.api_version) "2026-07").0 v;
          key = check_cipher_key-none cfg.credential_encryption_key k;
        }
      ]
    ]
  ]

  -- The values that Load reads before the literal, and the configuration that it then checks.
  record IsLoaded (cfg : Config) : Type 0 where
    environment : String
    dev_login_enabled : Bool
    use_path_style : Bool
    retry_delay : ℕ
    poll_interval : ℕ
    timeout : ℕ
    max_attempts : ℕ
    known : (environment ≡ "development") ⊎ (environment ≡ "test") ⊎ (environment ≡ "production")
    positive : (0 < retry_delay) × (0 < poll_interval) × (0 < timeout) × (0 < max_attempts)
    checked :
        IsChecked
          (settings decoding lookup environment dev_login_enabled use_path_style retry_delay
            poll_interval timeout max_attempts)
          cfg

  load-IsLoaded : (cfg : Config) → load decoding lookup ≡ inr cfg → IsLoaded cfg
  unfolding load
  load-IsLoaded cfg h =
      let (environment, e0, h0) = bind-inr _ _ cfg h in
      let (dev_login_enabled, e1, h1) = bind-inr _ _ cfg h0 in
      let (use_path_style, e2, h2) = bind-inr _ _ cfg h1 in
      let (retry_delay, e3, h3) = bind-inr _ _ cfg h2 in
      let (poll_interval, e4, h4) = bind-inr _ _ cfg h3 in
      let (timeout, e5, h5) = bind-inr _ _ cfg h4 in
      let (max_attempts, e6, h6) = bind-inr _ _ cfg h5 in
      record {
        environment = environment;
        dev_login_enabled = dev_login_enabled;
        use_path_style = use_path_style;
        retry_delay = retry_delay;
        poll_interval = poll_interval;
        timeout = timeout;
        max_attempts = max_attempts;
        known = check_environment_sound _ environment e0;
        positive = (
          accepted_duration-positive "RABBITMQ_RETRY_DELAY" _ retry_delay e3,
          accepted_duration-positive "SHOPIFY_SYNC_POLL_INTERVAL" _ poll_interval e4,
          accepted_duration-positive "SHOPIFY_SYNC_TIMEOUT" _ timeout e5,
          accepted_int-positive "SHOPIFY_SYNC_MAX_ATTEMPTS" _ max_attempts e6,
        );
        checked = check_config-IsChecked _ cfg h6;
      }

  -- A configuration that Load accepts, in any environment: the environment is one of the three, the
  -- delays, the timeout and the number of attempts are positive, the trimmed API version is the
  -- pinned one, and the encryption key, decoded or as it is, has 32 bytes.
  pub load-IsSound : (cfg : Config) → load decoding lookup ≡ inr cfg → IsSound decoding cfg
  unfolding settings
  load-IsSound cfg h =
      let l = load-IsLoaded cfg h in
      rw (← l.checked.same) (record {
        environment = l.known;
        retry_delay = l.positive.0;
        poll_interval = l.positive.1;
        timeout = l.positive.2;
        max_attempts = l.positive.3;
        api_version = l.checked.api_version;
        key = l.checked.key;
      })

  -- a blank key is refused, so that the key in use is the configured one
  configured_key :
      trim_space (lookup "CREDENTIAL_ENCRYPTION_KEY") ≢ ""
      → setting decoding lookup "CREDENTIAL_ENCRYPTION_KEY" development_key
        ≡ lookup "CREDENTIAL_ENCRYPTION_KEY"
  configured_key h = ground (arith, h, eq_iff (trim_space (lookup "CREDENTIAL_ENCRYPTION_KEY")) "")

  -- What the checks in production accept.
  record IsRestricted (cfg : Config) : Type 0 where
    no_dev_login : cfg.dev_login_enabled ≡ false
    session_secret : 32 ≤ length (utf8 cfg.session_secret)
    not_blank : trim_space (lookup "CREDENTIAL_ENCRYPTION_KEY") ≢ ""
    differs :
        credential_key_matches decoding
          (trim_space (lookup "CREDENTIAL_ENCRYPTION_KEY"))
          development_key
        ≡ false

  checks_production :
      (cfg : Config)
      → cfg.environment ≡ "production"
      → production_error cfg ≡ none
      → check_production decoding lookup cfg ≡ none
  checks_production cfg e h = ground (arith, h, e, eq_iff cfg.environment "production")

  check_production-IsRestricted :
      (cfg : Config) → check_production decoding lookup cfg ≡ none → IsRestricted cfg
  unfolding check_production
  check_production-IsRestricted cfg h =
      let e = eq_iff (trim_space (lookup "CREDENTIAL_ENCRYPTION_KEY")) "" in
      record {
        no_dev_login = ground (arith, h);
        session_secret = ground (arith, h);
        not_blank = λ blank. ground (arith, h, e, blank);
        differs = ground (arith, h);
      }

  -- a configuration of production, with the checks that it has passed
  load-IsRestricted :
      (cfg : Config)
      → load decoding lookup ≡ inr cfg
      → cfg.environment ≡ "production"
      → (accepted : Config) × (accepted ≡ cfg)
        × IsRestricted accepted
        × (accepted.credential_encryption_key
            ≡ setting decoding lookup "CREDENTIAL_ENCRYPTION_KEY" development_key)
  unfolding settings
  load-IsRestricted cfg h production =
      let l = load-IsLoaded cfg h in
      let known : l.environment ≡ "production" =
        ap (λ c. c.environment) l.checked.same ∙ production in
      (
        _,
        l.checked.same,
        check_production-IsRestricted _ (checks_production _ known l.checked.production),
        refl,
      )

  pub load-no_dev_login :
      (cfg : Config)
      → load decoding lookup ≡ inr cfg
      → cfg.environment ≡ "production"
      → cfg.dev_login_enabled ≡ false
  load-no_dev_login cfg h production =
      let (accepted, same, r, key) = load-IsRestricted cfg h production in
      ap (λ c. c.dev_login_enabled) (sym same) ∙ r.no_dev_login

  -- In production a configuration that Load accepts has no development login and a session secret of
  -- 32 bytes at least, and its encryption key is not the development key, in whatever way its text
  -- spells the bytes, for a base64 decoder that ignores no other white space than line ends.
  pub load-IsSecured :
      IsBase64 decoding
      → (cfg : Config) → load decoding lookup ≡ inr cfg
      → cfg.environment ≡ "production"
      → (cfg.dev_login_enabled ≡ false)
        × (32 ≤ length (utf8 cfg.session_secret))
        × (key_bytes decoding cfg.credential_encryption_key ≢ utf8 development_key)
  load-IsSecured base64 cfg h production =
      let (accepted, same, r, key) = load-IsRestricted cfg h production in
      rw (← same) (
        r.no_dev_login,
        r.session_secret,
        rw (key ∙ configured_key r.not_blank) (key_bytes-differs decoding base64 _ r.differs),
      )
