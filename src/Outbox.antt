-- ===== src/Outbox.antt =====
-- internal/platform/postgres/outbox.go: the outbox that carries the queued jobs to RabbitMQ. What
-- the publisher and the database answer while a batch is processed is the record `Answers`.
pub mod Backoff
pub mod Progress
pub mod Delivery
use xg_mangement.Base.{
  ℕ, suc, ◌+◌, ◌*◌, ◌-◌, ◌^◌, ◌/◌, min, String, Bool, true, false, ◌&&◌, ◌||◌, Option, none, some,
  List, [], ◌∷◌, ◌⊎◌, inl, inr, ℤ, pos, negsuc, ltb, leb, ◌==◌, if◌then◌else◌, ◌=ₛ◌, any, take,
  utf8,
}
use xg_mangement.Errors.{GoError, plain, wrap, error_text}
use xg_mangement.Jobs.{Envelope, validate}
use xg_mangement.Store.{OutboxStatus, pending, publishing, published, retrying, OutboxRow, update}

abbrev pub second : ℕ
second = 1_000_000_000

abbrev pub millisecond : ℕ
millisecond = 1_000_000

abbrev pub minute : ℕ
minute = 60 * second

-- claimedOutboxMessage
pub record Claimed : Type 0 where
  pub id : String
  pub envelope : Envelope
  pub attempts : ℕ

-- What happens while a batch is processed: the result of Publish for the message with an id, the
-- error of the UPDATE that follows it, and that statement's time.
pub record Answers : Type 0 where
  pub send : String → Option GoError
  pub write_error : String → Option GoError
  pub time : String → ℕ

-- outboxBackoff, in nanoseconds; an attempt below 1 counts as 1
unfoldable pub outbox_backoff : ℕ → ℕ
outbox_backoff attempt =
    let counted : ℕ = if ltb attempt 1 then 1 else attempt in
    let delay : ℕ = second * 2 ^ min (counted - 1) 9 in
    if ltb (5 * minute) delay then 5 * minute else delay

abbrev pub is_publishing : OutboxStatus → Bool
is_publishing publishing = true
is_publishing _ = false

abbrev waiting : OutboxStatus → Bool
waiting pending = true
waiting retrying = true
waiting _ = false

-- the WHERE clause of claimOutbox; `locked` are the rows that another transaction holds
abbrev pub claimable : ℕ → (String → Bool) → OutboxRow → Bool
claimable now locked row =
    let due : Bool =
      (waiting row.status && leb row.available_at now)
      || (is_publishing row.status && ltb (row.updated_at + 5 * minute) now) in
    if locked row.id then false else due

-- ORDER BY created_at
insert_by_age : OutboxRow → List OutboxRow → List OutboxRow
insert_by_age row [] = row ∷ []
insert_by_age row (other ∷ rows) =
    if leb row.created_at other.created_at
    then row ∷ other ∷ rows
    else other ∷ insert_by_age row rows

pub candidates : ℕ → (String → Bool) → List OutboxRow → List OutboxRow
unfolding insert_by_age
candidates now locked [] = []
candidates now locked (row ∷ rows) =
    let rest : List OutboxRow = candidates now locked rows in
    if claimable now locked row then insert_by_age row rest else rest

abbrev pub has_id : List OutboxRow → String → Bool
has_id rows id = any (λ row. row.id =ₛ id) rows

-- decodeOutboxEnvelope, of an envelope that is stored as JSON
abbrev pub decode_outbox_envelope : (String → Bool) → Envelope → GoError ⊎ Envelope
decode_outbox_envelope valid e = elim (validate valid e) [ some err ↦ inl err | none ↦ inr e ]

-- the loop over the returned rows; their order is that of `candidates`
pub decode_claimed : (String → Bool) → List OutboxRow → GoError ⊎ List Claimed
decode_claimed valid [] = inr []
decode_claimed valid (row ∷ rows) = elim (decode_outbox_envelope valid row.envelope) [
  | inl e ↦ inl (wrap "decode outbox message" e)
  | inr envelope ↦ elim (decode_claimed valid rows) [
    | inl e ↦ inl e
    | inr rest ↦ inr (record { id = row.id; envelope = envelope; attempts = row.attempts } ∷ rest)
  ]
]

-- claimOutbox: the claimed messages or the error, and the table
unfoldable pub claim_outbox :
    (String → Bool)
    → ℕ
    → (String → Bool)
    → Option GoError
    → ℕ
    → List OutboxRow
    → (GoError ⊎ List Claimed) × List OutboxRow
unfolding candidates decode_claimed
claim_outbox valid now locked fault limit rows =
    let chosen : List OutboxRow = take limit (candidates now locked rows) in
    elim fault [
      | some e ↦ (inl e, rows)
      | none ↦ elim (decode_claimed valid chosen) [
        | inl e ↦ (inl e, rows)
        | inr messages ↦ (
          inr messages,
          update (λ row. has_id chosen row.id)
              (λ row. record row { status = publishing; updated_at = now }) rows,
        )
      ]
    ]

-- WHERE id=$1 AND status='publishing'
abbrev pub in_flight : String → OutboxRow → Bool
in_flight id row = row.id =ₛ id && is_publishing row.status

unfoldable pub published_row : ℕ → OutboxRow → OutboxRow
published_row now row = record row {
  status = published;
  published_at = some now;
  last_error = none;
  updated_at = now;
}

-- the delay goes through whole milliseconds, and the cut at 512 counts bytes
unfoldable pub retrying_row : ℕ → ℕ → GoError → OutboxRow → OutboxRow
retrying_row now attempts cause row = record row {
  status = retrying;
  attempts = attempts;
  available_at = now + outbox_backoff attempts / millisecond * millisecond;
  last_error = some (take 512 (utf8 (error_text cause)));
  updated_at = now;
}

-- completeOutbox
unfoldable pub complete_outbox : Answers → String → List OutboxRow → Option GoError × List OutboxRow
complete_outbox a id rows = elim (a.write_error id) [
  | some e ↦ (some (wrap "complete outbox message" e), rows)
  | none ↦ (none, update (in_flight id) (published_row (a.time id)) rows)
]

-- retryOutbox
unfoldable pub retry_outbox :
    Answers → String → ℕ → GoError → List OutboxRow → Option GoError × List OutboxRow
retry_outbox a id attempts cause rows = elim (a.write_error id) [
  | some e ↦ (some (wrap "retry outbox message" e), rows)
  | none ↦ (none, update (in_flight id) (retrying_row (a.time id) attempts cause) rows)
]

-- How many were published, the error, the table.
pub record Batch : Type 0 where
  pub published : ℕ
  pub error : Option GoError
  pub rows : List OutboxRow

-- the loop of PublishOutboxBatch
unfoldable pub publish_all : Answers → List Claimed → ℕ → List OutboxRow → Batch
publish_all a [] n rows = record { published = n; error = none; rows = rows }
publish_all a (m ∷ ms) n rows = elim (a.send m.id) [
  | some cause ↦
      let written : Option GoError × List OutboxRow =
        retry_outbox a m.id (m.attempts + 1) cause rows in
      elim written.0 [
        | some e ↦ record { published = n; error = some e; rows = written.1 }
        | none ↦ publish_all a ms n written.1
      ]
  | none ↦
      let written : Option GoError × List OutboxRow = complete_outbox a m.id rows in
      elim written.0 [
        | some e ↦ record { published = n; error = some e; rows = written.1 }
        | none ↦ publish_all a ms (suc n) written.1
      ]
]

-- if limit <= 0 || limit > 100 { limit = 50 }
abbrev pub batch_limit : ℤ → ℕ
batch_limit (negsuc _) = 50
batch_limit (pos n) = if n == 0 || ltb 100 n then 50 else n

-- PublishOutboxBatch
unfoldable pub publish_outbox_batch :
    (String → Bool)
    → ℕ
    → (String → Bool)
    → Option GoError
    → Bool
    → Answers
    → ℤ
    → List OutboxRow
    → Batch
unfolding publish_all
publish_outbox_batch valid now locked fault configured a limit rows =
    let claimed : (GoError ⊎ List Claimed) × List OutboxRow =
      claim_outbox valid now locked fault (batch_limit limit) rows in
    if configured
    then elim claimed.0 [
      | inl e ↦ record { published = 0; error = some e; rows = rows }
      | inr messages ↦ publish_all a messages 0 claimed.1
    ]
    else record {
      published = 0;
      error = some (plain "outbox publisher is not configured");
      rows = rows;
    }
