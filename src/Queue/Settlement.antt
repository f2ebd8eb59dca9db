-- ===== src/Queue/Settlement.antt =====
-- A consumed message is not lost: what Retry and DeadLetter leave in the queues when they end.
use xg_mangement.Base.{
  ◌≡◌, ◌↔◌, true, none, List, [], ◌∷◌, String, arith, if◌then◌else◌, Bool-cases, inl, inr,
}
use xg_mangement.Errors.{GoError}
use xg_mangement.Queue.Publish.{Message, IsHonest, publish-stored}
use xg_mangement.Queue.Delivery.{
  Client, Broker, acked, retry, dead_letter, retry_message, dead_message, exhausted,
}

-- All but the headers is kept, and the copy is persistent.
pub record IsCopyOf {B : Type 0} (d m : Message B) : Type 0 where
  pub body : m.body ≡ d.body
  pub message_id : m.message_id ≡ d.message_id
  pub message_type : m.message_type ≡ d.message_type
  pub content_type : m.content_type ≡ d.content_type
  pub timestamp : m.timestamp ≡ d.timestamp
  pub persistent : m.persistent ≡ true

-- The one copy of `d` that a hand-over has placed, and in which queue.
abbrev pub PlacedIn : {B : Type 0} → String → Message B → List (String × Message B) → Type 0
PlacedIn {B} queue d placed = (m : Message B) × (placed ≡ (queue, m) ∷ []) × IsCopyOf d m

module _ {B : Type 0} (client : Client) (d : Message B) (cause : GoError) (broker : Broker) where
  -- Where Retry sends a message.
  abbrev pub retry_target : String
  retry_target =
      if exhausted client.max_attempts cause d then client.queues.dead else client.queues.retry

  -- If the broker keeps its promise on confirmed messages, a consumed message that Retry
  -- acknowledges stands as one persistent copy with the same body, id and type in the dead queue
  -- if its attempts are used up and in the retry queue if not; and Retry acknowledges it exactly
  -- when it returns no error, so that every message it fails on goes back to the broker.
  pub retry-PlacedIn :
      IsHonest broker.channel
      → ((retry client d cause broker).settlement ≡ acked
          → PlacedIn retry_target d (retry client d cause broker).placed)
        × (((retry client d cause broker).settlement ≡ acked)
            ↔ ((retry client d cause broker).error ≡ none))
  unfolding retry dead_letter dead_message retry_message
  retry-PlacedIn honest =
      let stored = publish-stored broker.channel honest in
      elim (Bool-cases (exhausted client.max_attempts cause d)) [
        | inl e ↦ (λ h. (dead_message cause d, ground arith, ground arith), ground arith)
        | inr e ↦ (λ h. (retry_message cause d, ground arith, ground arith), ground arith)
      ]

  -- The same of DeadLetter, which always aims at the dead queue.
  pub dead_letter-PlacedIn :
      IsHonest broker.channel
      → ((dead_letter client d cause broker).settlement ≡ acked
          → PlacedIn client.queues.dead d (dead_letter client d cause broker).placed)
        × (((dead_letter client d cause broker).settlement ≡ acked)
            ↔ ((dead_letter client d cause broker).error ≡ none))
  unfolding dead_letter dead_message
  dead_letter-PlacedIn honest =
      let stored = publish-stored broker.channel honest in
      (λ h. (dead_message cause d, ground arith, ground arith), ground arith)
