-- ===== src/Tests/Workers.antt =====
-- The queue and the worker at concrete deliveries.
use xg_mangement.Base.{◌≡◌, refl, ◌↔◌, true, false, none, some, [], ◌∷◌, leb, ◌+◌, arith, inr}
use xg_mangement.Jobs.{Envelope, validate}
use xg_mangement.Queue.{
  IsHonest, acked, publish, retry, dead_letter, retry_message, delivery_envelope, header_attempt,
  should_preserve_attempt,
}
use xg_mangement.Queue.Settlement.{PlacedIn, retry_target, retry-PlacedIn, dead_letter-PlacedIn}
use xg_mangement.Queue.Attempts.{
  retried, counted, is_buried, is_buried_iff, header_attempt-retry_message,
}
use xg_mangement.Sync.{Outcome, returned}
use xg_mangement.Worker.{Faults, process_delivery, is_job_processed, finish}
use xg_mangement.Worker.Delivery.{IsKept, process_delivery-IsKept, process_delivery-handled_iff}
use xg_mangement.Tests.JsonText.{codec}
use xg_mangement.Tests.Values.{client, message, transient, contended, broker, channel}

honest : IsHonest channel
honest answer here = refl

retry-PlacedIn_example :
    ((retry client message transient broker).settlement ≡ acked
      → PlacedIn
          (retry_target client message transient broker)
          message
          (retry client message transient broker).placed)
    × (((retry client message transient broker).settlement ≡ acked)
        ↔ ((retry client message transient broker).error ≡ none))
retry-PlacedIn_example = retry-PlacedIn client message transient broker honest

dead_letter-PlacedIn_example :
    ((dead_letter client message transient broker).settlement ≡ acked
      → PlacedIn client.queues.dead message (dead_letter client message transient broker).placed)
    × (((dead_letter client message transient broker).settlement ≡ acked)
        ↔ ((dead_letter client message transient broker).error ≡ none))
dead_letter-PlacedIn_example = dead_letter-PlacedIn client message transient broker honest

one_attempt : header_attempt message.headers ≡ 1
unfolding header_attempt
one_attempt = refl

header_attempt-retry_message_example :
    header_attempt (retry_message transient message).headers
    ≡ retried (header_attempt message.headers) (should_preserve_attempt transient)
header_attempt-retry_message_example =
    header_attempt-retry_message transient message (omega (arith, one_attempt))

is_buried_iff_example :
    is_buried 3 (transient ∷ contended ∷ transient ∷ transient ∷ []) message
    ≡ leb 3 (0 + counted (transient ∷ contended ∷ transient ∷ transient ∷ []))
is_buried_iff_example =
    is_buried_iff 3 0 (transient ∷ contended ∷ transient ∷ transient ∷ []) message (omega arith)
      one_attempt (omega arith)

abbrev failing : Envelope → Outcome
failing e = returned (some transient)

abbrev faults : Faults
faults = record { lookup_error = none; mark_error = none; broker = broker }

process_delivery-acked :
    (process_delivery codec client failing faults [] message).handoff.settlement ≡ acked
unfolding process_delivery delivery_envelope validate finish retry publish header_attempt
    should_preserve_attempt
process_delivery-acked = refl

process_delivery-IsKept_example :
    IsKept codec client failing faults message
      (process_delivery codec client failing faults [] message)
process_delivery-IsKept_example =
    process_delivery-IsKept codec client failing faults honest message [] process_delivery-acked

process_delivery-handled_iff_example :
    ((process_delivery codec client failing faults [] message).handled ≡ true) ↔ (
      (e : Envelope) × (delivery_envelope codec message ≡ inr e)
      × (faults.lookup_error ≡ none)
      × (is_job_processed e.id [] ≡ false))
process_delivery-handled_iff_example =
    process_delivery-handled_iff codec client failing faults [] message
