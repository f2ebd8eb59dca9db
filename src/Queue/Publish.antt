-- ===== src/Queue/Publish.antt =====
-- Names, (*Client).publish, (*Client).Publish and LazyPublisher. What the broker and the network
-- answer in one call is the record `Channel`.
use xg_mangement.Base.{
  refl, Bool-cases, Option-cases, inl, inr, ℕ, Bool, true, false, not, Option, none, some, [], ◌∷◌,
  String, if◌then◌else◌, pos, ◌≡◌,
}
use xg_mangement.Errors.{GoError, plain, wrap, ◌⁀◌}
use xg_mangement.Jobs.{Envelope, Codec, validate}
use xg_mangement.Queue.Headers.{Headers, int32, attempt_header}

pub record QueueNames : Type 0 where
  pub main : String
  pub retry : String
  pub dead : String

pub names : String → QueueNames
names main = record { main = main; retry = main ⁀ ".retry"; dead = main ⁀ ".dead" }

-- amqp091.Publishing, and a delivery's message
pub record Message (B : Type 0) : Type 0 where
  pub headers : Headers
  pub content_type : String
  pub persistent : Bool
  pub message_id : String
  pub message_type : String
  pub timestamp : ℕ
  pub body : B

-- What WaitContext returns.
pub data Confirmation : Type 0 where
  failed : GoError → Confirmation
  answered : Bool → Confirmation

-- The answers to one publish: whether the channel is there, the error of the send, the deferred
-- confirmation, whether the broker returned the message as unroutable, and, which no code sees,
-- whether the message stands in the queue.
pub record Channel : Type 0 where
  pub available : Bool
  pub send_error : Option GoError
  pub confirmation : Option Confirmation
  pub returned : Bool
  pub stored : Bool

-- waitForPublisherConfirmation
abbrev pub wait_for_confirmation : Confirmation → Option GoError
wait_for_confirmation (failed e) = some (wrap "wait for RabbitMQ publisher confirmation" e)
wait_for_confirmation (answered true) = none
wait_for_confirmation (answered false) =
    some (plain "RabbitMQ negatively acknowledged the published message")

abbrev confirmed : Option Confirmation → Bool → Option GoError
confirmed none _ = some (plain "RabbitMQ publisher confirmation is unavailable")
confirmed (some c) returned = elim (wait_for_confirmation c) [
  | some e ↦ some e
  | none ↦ if returned then some (plain "RabbitMQ returned unroutable message") else none
]

-- `(*Client).publish`; the stale returns of earlier messages are drained before the send
unfoldable pub publish : Channel → Option GoError
publish ch =
    if not ch.available
    then some (plain "RabbitMQ publisher channel is unavailable")
    else elim ch.send_error [ some e ↦ some e | none ↦ confirmed ch.confirmation ch.returned ]

-- Publisher confirms: a message that is acked and was not returned is in the queue.
abbrev pub IsHonest : Channel → Type 0
IsHonest ch = ch.confirmation ≡ some (answered true) → ch.returned ≡ false → ch.stored ≡ true

-- A publish without an error has read such an answer.
pub publish-stored : (ch : Channel) → IsHonest ch → publish ch ≡ none → ch.stored ≡ true
unfolding publish
publish-stored ch honest sent = elim (Bool-cases ch.available) [
  | inr a ↦ let stuck = rw (a, publish) at sent in cc stuck
  | inl a ↦ elim (Option-cases ch.send_error) [
    | inr (e, s) ↦ let stuck = rw (a, s, publish) at sent in cc stuck
    | inl s ↦ confirmed-stored ch.confirmation refl (rw (a, s, publish) at sent)
  ]
]
  where
    confirmed-stored :
        (c : Option Confirmation)
        → ch.confirmation ≡ c
        → confirmed c ch.returned ≡ none
        → ch.stored ≡ true
    confirmed-stored none e h = cc
    confirmed-stored (some (failed x)) e h = cc
    confirmed-stored (some (answered false)) e h = cc
    confirmed-stored (some (answered true)) e h = elim (Bool-cases ch.returned) [
      | inl r ↦ let stuck = rw r at h in cc stuck
      | inr r ↦ honest e r
    ]

module _ (codec : Codec) where
  -- the amqp091.Publishing of an envelope
  abbrev pub job_message : Envelope → Message codec.Body
  job_message e = record {
    headers = (attempt_header, int32 (pos 1)) ∷ [];
    content_type = "application/json";
    persistent = true;
    message_id = e.id;
    message_type = e.job_type;
    timestamp = 0;
    body = codec.encode e;
  }

  -- `(*Client).Publish`: the message that it sends to the main queue, or its error
  unfoldable pub client_publish : Envelope → Channel → Option (Message codec.Body) × Option GoError
  client_publish e ch = elim (validate codec.valid e) [
    | some invalid ↦ (none, some invalid)
    | none ↦ elim (codec.encode_error e) [
      | some failure ↦ (none, some failure)
      | none ↦ (some (job_message e), publish ch)
    ]
  ]

  -- `LazyPublisher.Publish` on whether a client is connected; `connect` is connectPublisher's error
  unfoldable pub lazy_publish : Bool → Option GoError → Envelope → Channel → Bool × Option GoError
  lazy_publish connected connect e ch =
      let result : Option GoError = (client_publish e ch).1 in
      let sent : Bool × Option GoError = elim result [
        | some failure ↦ (false, some failure)
        | none ↦ (true, none)
      ] in
      if connected
      then sent
      else elim connect [ some failure ↦ (false, some failure) | none ↦ sent ]

-- `LazyPublisher.Close`
unfoldable pub lazy_close : Bool → Option GoError → Bool × Option GoError
lazy_close connected close_error = (false, if connected then close_error else none)
