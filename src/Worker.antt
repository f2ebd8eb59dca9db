-- ===== src/Worker.antt =====
-- backend/cmd/worker/main.go: processDelivery and safeHandle, over the table processed_jobs
-- (internal/platform/postgres/jobs.go).
pub mod Delivery
use xg_mangement.Base.{
  String, Bool, true, false, Option, none, some, List, [], ◌∷◌, inl, inr, if◌then◌else◌, ◌=ₛ◌, any,
}
use xg_mangement.Errors.{GoError, HandlerError, handler, plain}
use xg_mangement.Jobs.{Envelope, Codec}
use xg_mangement.Queue.{
  Client, Broker, Handoff, Message, delivery_envelope, acknowledge, retry, dead_letter,
}
use xg_mangement.Sync.{Outcome, returned, panicked, is_retryable}

-- `IsJobProcessed` and `MarkJobProcessed` on the ids of processed_jobs
abbrev pub is_job_processed : String → List String → Bool
is_job_processed id processed = any (λ j. j =ₛ id) processed

abbrev pub mark_job_processed : String → List String → List String
mark_job_processed id processed =
    if is_job_processed id processed then processed else id ∷ processed

-- What fails while one delivery is processed.
pub record Faults : Type 0 where
  pub lookup_error : Option GoError
  pub mark_error : Option GoError
  pub broker : Broker

-- What processing one delivery did: whether the handler ran, the table after it, the hand-over.
pub record Report (B : Type 0) : Type 0 where
  pub handled : Bool
  pub processed : List String
  pub handoff : Handoff B

-- safeHandle: a panic of the handler becomes a retryable error
abbrev pub safe_handle : Outcome → Option GoError
safe_handle (returned err) = err
safe_handle panicked = some (
    handler (record { code = "handler_panic"; retryable = true; preserve_attempt = false })
      (plain "recovered worker panic"))

module _ (codec : Codec) (client : Client) (handle : Envelope → Outcome) (faults : Faults) where
  -- the part of processDelivery after the handler has run
  unfoldable pub finish :
      Envelope → Option GoError → List String → Message codec.Body → Report codec.Body
  finish envelope (some err) processed d = record {
    handled = true;
    processed = processed;
    handoff =
        if is_retryable err
        then retry client d err faults.broker
        else dead_letter client d err faults.broker;
  }
  finish envelope none processed d = elim faults.mark_error [
    | some err ↦ record {
      handled = true;
      processed = processed;
      handoff = retry client d err faults.broker;
    }
    | none ↦ record {
      handled = true;
      processed = mark_job_processed envelope.id processed;
      handoff = acknowledge faults.broker;
    }
  ]

  abbrev skip : List String → Handoff codec.Body → Report codec.Body
  skip processed handoff = record { handled = false; processed = processed; handoff = handoff }

  -- processDelivery
  unfoldable pub process_delivery : List String → Message codec.Body → Report codec.Body
  unfolding finish
  process_delivery processed d = elim (delivery_envelope codec d) [
    | inl err ↦ skip processed (dead_letter client d err faults.broker)
    | inr envelope ↦ elim faults.lookup_error [
      | some err ↦ skip processed (retry client d err faults.broker)
      | none ↦
          if is_job_processed envelope.id processed
          then skip processed (acknowledge faults.broker)
          else finish envelope (safe_handle (handle envelope)) processed d
    ]
  ]
