-- ===== src/Queue/Delivery.antt =====
-- Delivery of queue.go: Envelope, Ack, Retry, DeadLetter, copyMessage.
use xg_mangement.Base.{
  ℕ, ◌+◌, Bool, true, not, ◌&&◌, Option, none, some, List, [], ◌∷◌, String, leb, if◌then◌else◌,
  insert, erase, ◌⊎◌, inl, inr,
}
use xg_mangement.Errors.{GoError, plain, wrap}
use xg_mangement.Jobs.{Envelope, Codec, validate}
use xg_mangement.Queue.Headers.{
  Headers, int32, text, flag, attempt_header, preserve_attempt_header, last_error_header,
  header_attempt, to_int32, safe_cause, should_preserve_attempt,
}
use xg_mangement.Queue.Publish.{QueueNames, Message, Channel, publish}

pub record Client : Type 0 where
  pub queues : QueueNames
  pub max_attempts : ℕ

-- What the broker answers while a delivery is handed over.
pub record Broker : Type 0 where
  pub channel : Channel
  pub ack_error : Option GoError

-- An unsettled delivery is given out again by the broker when the channel closes.
pub data Settlement : Type 0 where
  acked requeued unsettled : Settlement

-- How a delivery was handed over: the copies that stand in a queue, its settlement, the error.
pub record Handoff (B : Type 0) : Type 0 where
  pub placed : List (String × Message B)
  pub settlement : Settlement
  pub error : Option GoError

module _ {B : Type 0} where
  -- `d.raw.Ack(false)` once the copies stand where they stand
  abbrev settle : List (String × Message B) → Broker → Handoff B
  settle placed broker = elim broker.ack_error [
    | none ↦ record { placed = placed; settlement = acked; error = none }
    | some e ↦ record { placed = placed; settlement = unsettled; error = some e }
  ]

  -- `publish`, then the Ack, or the Nack with requeue when the publish failed
  abbrev hand_over : String → String → Message B → Broker → Handoff B
  hand_over failure key message broker =
      let placed : List (String × Message B) =
        if broker.channel.stored then (key, message) ∷ [] else [] in
      elim (publish broker.channel) [
        | none ↦ settle placed broker
        | some e ↦ record { placed = placed; settlement = requeued; error = some (wrap failure e) }
      ]

  -- copyMessage with other headers
  abbrev copy_message : Message B → Headers → Message B
  copy_message d headers = record d { headers = headers; persistent = true }

  -- the message that Retry publishes
  unfoldable pub retry_message : GoError → Message B → Message B
  retry_message cause d =
      let attempt : ℕ = header_attempt d.headers in
      let counted : Headers =
        if should_preserve_attempt cause
        then insert preserve_attempt_header (flag true)
            (insert attempt_header (int32 (to_int32 attempt)) d.headers)
        else erase preserve_attempt_header
            (insert attempt_header (int32 (to_int32 (attempt + 1))) d.headers) in
      copy_message d (insert last_error_header (text (safe_cause (some cause))) counted)

  -- the message that DeadLetter publishes
  unfoldable pub dead_message : GoError → Message B → Message B
  dead_message cause d = copy_message d (
      insert last_error_header (text (safe_cause (some cause)))
        (insert attempt_header (int32 (to_int32 (header_attempt d.headers))) d.headers))

  -- whether Retry gives up
  abbrev pub exhausted : ℕ → GoError → Message B → Bool
  exhausted max_attempts cause d =
      leb max_attempts (header_attempt d.headers) && not (should_preserve_attempt cause)

  -- `Delivery.Ack`
  unfoldable pub acknowledge : Broker → Handoff B
  acknowledge broker = settle [] broker

  -- `Delivery.DeadLetter`
  unfoldable pub dead_letter : Client → Message B → GoError → Broker → Handoff B
  dead_letter client d cause broker =
      hand_over "publish dead-letter job" client.queues.dead (dead_message cause d) broker

  -- `Delivery.Retry`
  unfoldable pub retry : Client → Message B → GoError → Broker → Handoff B
  retry client d cause broker =
      if exhausted client.max_attempts cause d
      then dead_letter client d cause broker
      else hand_over "publish retry job" client.queues.retry (retry_message cause d) broker

-- `Delivery.Envelope`: the envelope, or the error
unfoldable pub delivery_envelope : (codec : Codec) → Message codec.Body → GoError ⊎ Envelope
delivery_envelope codec d = elim (codec.decode d.body) [
  | none ↦ inl (wrap "decode job envelope" (plain "invalid JSON"))
  | some e ↦ elim (validate codec.valid e) [ some invalid ↦ inl invalid | none ↦ inr e ]
]
