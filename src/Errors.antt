-- ===== src/Errors.antt =====
-- The error values that cross the packages: internal/integrations/shopify/graphql.go
-- (ProviderError), internal/shopifysync/decoder.go (Error), internal/shopifysync/handler.go
-- (HandlerError) and the sentinels of internal/shopifysync/models.go. A text made by fmt.Errorf
-- keeps its literal words; the values that it interpolates are left out.
use Prim.Native.String.{◌++◌ as text_append}
use xg_mangement.Base.{
  ℕ, String, Bool, true, false, Option, none, some, if◌then◌else◌, ◌=ₛ◌, is_blank, trim_space,
}

pub record ProviderError : Type 0 where
  pub status_code : ℕ
  pub code : String
  pub message : String
  pub retryable : Bool
  pub retry_after : ℕ  -- nanoseconds

-- `shopifysync.Error`
pub record SyncError : Type 0 where
  pub code : String
  pub message : String
  pub retryable : Bool

-- The fields of HandlerError besides its cause, which is never nil in this code.
pub record HandlerError : Type 0 where
  pub code : String
  pub retryable : Bool
  pub preserve_attempt : Bool

pub data GoError : Type 0 where
  plain : String → GoError  -- errors.New, fmt.Errorf without %w
  wrap : String → GoError → GoError  -- fmt.Errorf("…: %w", err)
  provider : ProviderError → GoError
  sync_failed : SyncError → GoError
  handler : HandlerError → GoError → GoError
  pg_error : String → GoError  -- *pgconn.PgError with its SQLSTATE
  deadline_exceeded canceled no_rows : GoError
  already_running already_completed not_connected webhook_store_not_found : GoError

-- What errors.As and errors.Is see at the end of the Unwrap chain.
abbrev pub leaf : GoError → GoError
leaf (wrap _ e) = leaf e
leaf (handler _ e) = leaf e
leaf e = e

-- errors.As(err, &providerErr)
abbrev pub as_provider : GoError → Option ProviderError
as_provider e = elim (leaf e) [ provider p ↦ some p | _ ↦ none ]

-- errors.As(err, &syncErr)
abbrev pub as_sync : GoError → Option SyncError
as_sync e = elim (leaf e) [ sync_failed s ↦ some s | _ ↦ none ]

-- errors.As(err, &handlerErr): the outermost one
abbrev pub as_handler : GoError → Option HandlerError
as_handler (wrap _ e) = as_handler e
as_handler (handler h _) = some h
as_handler _ = none

abbrev pub is_deadline : GoError → Bool
is_deadline e = elim (leaf e) [ deadline_exceeded ↦ true | _ ↦ false ]

abbrev pub is_canceled : GoError → Bool
is_canceled e = elim (leaf e) [ canceled ↦ true | _ ↦ false ]

abbrev pub is_already_running : GoError → Bool
is_already_running e = elim (leaf e) [ already_running ↦ true | _ ↦ false ]

abbrev pub is_already_completed : GoError → Bool
is_already_completed e = elim (leaf e) [ already_completed ↦ true | _ ↦ false ]

abbrev pub is_not_connected : GoError → Bool
is_not_connected e = elim (leaf e) [ not_connected ↦ true | _ ↦ false ]

abbrev pub is_webhook_store_not_found : GoError → Bool
is_webhook_store_not_found e = elim (leaf e) [ webhook_store_not_found ↦ true | _ ↦ false ]

infixr 65 ◌⁀◌
abbrev pub ◌⁀◌ : String → String → String
s ⁀ t = text_append s t

-- ProviderError.Error
provider_text : ProviderError → String
provider_text p =
    let message = trim_space p.message in
    "Shopify " ⁀ p.code ⁀ ": " ⁀ (if is_blank p.message then "Shopify request failed" else message)

-- (*Error).Error
sync_text : SyncError → String
sync_text e = if is_blank e.message then e.code else e.code ⁀ ": " ⁀ e.message

-- The Error method.
unfoldable pub error_text : GoError → String
unfolding provider_text sync_text
error_text (plain s) = s
error_text (wrap s e) = s ⁀ ": " ⁀ error_text e
error_text (provider p) = provider_text p
error_text (sync_failed e) = sync_text e
error_text (handler h e) = h.code ⁀ ": " ⁀ error_text e
error_text (pg_error c) = "SQLSTATE " ⁀ c
error_text deadline_exceeded = "context deadline exceeded"
error_text canceled = "context canceled"
error_text no_rows = "no rows in result set"
error_text already_running = "Shopify sync is already running"
error_text already_completed = "Shopify sync is already completed"
error_text not_connected = "Shopify store is missing or not connected"
error_text webhook_store_not_found = "Shopify webhook store not found"

-- errors.As(err, &pgErr) && pgErr.Code == "23505"
abbrev pub is_unique_violation : GoError → Bool
is_unique_violation e = elim (leaf e) [ pg_error c ↦ c =ₛ "23505" | _ ↦ false ]
