-- ===== src/Sync/Handler.antt =====
-- internal/shopifysync/handler.go: the job handler and the classes of its errors. What the syncer
-- does is an argument: a panic, or the error that it returns.
use xg_mangement.Base.{
  List, [], ◌∷◌, String, Bool, true, false, not, Option, none, some, if◌then◌else◌, ◌=ₛ◌,
}
use xg_mangement.Errors.{GoError, plain, handler, as_provider, as_sync, as_handler, is_deadline}
use xg_mangement.Jobs.{Envelope, Codec, SyncPayload, type_store_sync}
use xg_mangement.Sync.Model.{SyncRequest, validate_request}

-- the tags of the struct that a payload is decoded into
abbrev pub payload_tags : List String
payload_tags = "store_id" ∷ "run_id" ∷ "mode" ∷ []

abbrev payload_of : List String → Option SyncPayload
payload_of (store_id ∷ run_id ∷ mode ∷ []) =
    some (record { store_id = store_id; run_id = run_id; mode = mode })
payload_of _ = none

-- json.Unmarshal of the payload
abbrev pub decode_payload : Codec → String → Option SyncPayload
decode_payload codec text = elim (codec.decode_strings payload_tags text) [
  | none ↦ none
  | some texts ↦ payload_of texts
]

-- How a call that may panic ends.
pub data Outcome : Type 0 where
  returned : Option GoError → Outcome
  panicked : Outcome

abbrev permanent : String → GoError → GoError
permanent code cause =
    handler (record { code = code; retryable = false; preserve_attempt = false }) cause

-- classifyHandlerError
unfoldable pub classify_handler_error : GoError → GoError
classify_handler_error err = elim (as_provider err) [
  | some p ↦
      handler (record { code = p.code; retryable = p.retryable; preserve_attempt = false }) err
  | none ↦ elim (as_sync err) [
    | some s ↦
        handler
          (record {
            code = s.code;
            retryable = s.retryable;
            preserve_attempt = s.code =ₛ "sync_already_running";
          })
          err
    | none ↦
        if is_deadline err
        then handler (record { code = "sync_timeout"; retryable = true; preserve_attempt = false })
            err
        else permanent "sync_failed" err
  ]
]

abbrev pub classified : Outcome → Outcome
classified panicked = panicked
classified (returned none) = returned none
classified (returned (some err)) = returned (some (classify_handler_error err))

-- Handler.Handle; the syncer is `none` where the interface is nil
unfoldable pub handle : (codec : Codec) → Option (SyncRequest → Outcome) → Envelope → Outcome
handle codec syncer envelope =
    if not (envelope.job_type =ₛ type_store_sync)
    then returned (some (permanent "unsupported_job_type" (plain "unsupported job type")))
    else elim (decode_payload codec envelope.payload) [
      | none ↦ returned (some (permanent "invalid_job_payload" (plain "invalid JSON")))
      | some payload ↦
          let request : SyncRequest = record {
            organization_id = envelope.organization_id;
            store_id = payload.store_id;
            run_id = payload.run_id;
            mode = payload.mode;
            lease_owner = "";
          } in
          elim (validate_request request) [
            | some err ↦ returned (some (permanent "invalid_job_payload" err))
            | none ↦ elim syncer [
              | none ↦ returned (
                  some (
                    permanent "handler_not_configured"
                      (plain "Shopify sync handler is not configured")))
              | some sync ↦ classified (sync request)
            ]
          ]
    ]

-- IsRetryable
abbrev pub is_retryable : GoError → Bool
is_retryable err = elim (as_handler err) [ none ↦ false | some h ↦ h.retryable ]
