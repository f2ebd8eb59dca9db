-- ===== src/Outbox/Delivery.antt =====
-- What PublishOutboxBatch promises.
use xg_mangement.Base.{
  ℕ, String, ◌≡◌, refl, Bool, true, false, Option, none, List, inl, inr, ℤ, ◌=ₛ◌, any, All, All-imp,
  arith, Option-cases, ⊎-cases, take,
}
use xg_mangement.Errors.{GoError}
use xg_mangement.Store.{publishing, OutboxRow}
use xg_mangement.Store.Runs.Updates.{All-update}
use xg_mangement.Outbox.{
  Claimed, Answers, publish_outbox_batch, claim_outbox, has_id, decode_claimed, candidates,
  batch_limit,
}
use xg_mangement.Outbox.Progress.{
  IsHonestRow, IsLanded, publish_all-IsHonestRow, publish_all-IsLanded, all-IsLanded,
}

module _ (valid : String → Bool) (now : ℕ) (locked : String → Bool) (fault : Option GoError)
    (a : Answers) (Was : String → Type 0) where
  claim_outbox-IsHonestRow :
      (limit : ℕ) (rows : List OutboxRow)
      → All (IsHonestRow a Was) rows
      → All (IsHonestRow a Was) (claim_outbox valid now locked fault limit rows).1
  unfolding claim_outbox
  claim_outbox-IsHonestRow limit rows h = elim (Option-cases fault) [
    | inr (e, f) ↦ rw (f, claim_outbox) h
    | inl f ↦ elim (⊎-cases (decode_claimed valid (take limit (candidates now locked rows)))) [
      | inl (e, d) ↦ rw (f, d, claim_outbox) h
      | inr (ms, d) ↦
          rw (f, d, claim_outbox)
            (All-update (IsHonestRow a Was)
              (λ row. has_id (take limit (candidates now locked rows)) row.id)
              (λ row. record row { status = publishing; updated_at = now }) (λ row _ _ p. cc p) rows
              h)
    ]
  ]

  -- Whatever the database and RabbitMQ answer, a row counts as published after a batch only if it did
  -- before or if the publisher has confirmed its message; and if the batch returns no error, no row of
  -- a claimed message is still in flight: each is published or waits for its retry.
  pub publish_outbox_batch-settles :
      (configured : Bool) (limit : ℤ) (rows : List OutboxRow)
      → All (IsHonestRow a Was) rows
      → All
          (IsHonestRow a Was)
          (publish_outbox_batch valid now locked fault configured a limit rows).rows
        × ((publish_outbox_batch valid now locked fault configured a limit rows).error ≡ none
            → (ms : List Claimed) × ((claim_outbox valid now locked fault
                  (batch_limit limit)
                  rows).0
                ≡ inr ms)
              × IsLanded
                  (λ row. any (λ m. m.id =ₛ row.id) ms)
                  (publish_outbox_batch valid now locked fault configured a limit rows).rows)
  unfolding publish_outbox_batch
  publish_outbox_batch-settles false limit rows h = (h, λ ok. cc ok)
  publish_outbox_batch-settles true limit rows h =
      elim (⊎-cases (claim_outbox valid now locked fault (batch_limit limit) rows).0) [
        | inl (e, c) ↦ rw (c, publish_outbox_batch) (h, λ ok. cc ok)
        | inr (ms, c) ↦
            let claimed : List OutboxRow =
              (claim_outbox valid now locked fault (batch_limit limit) rows).1 in
            rw (c, publish_outbox_batch)
              (
                publish_all-IsHonestRow a Was ms 0 claimed
                    (claim_outbox-IsHonestRow (batch_limit limit) rows h),
                λ ok. (
                  ms,
                  refl,
                  All-imp _ _ (λ row k g. k (ground arith)) _
                      (publish_all-IsLanded a ms 0 (λ _. false) claimed ok
                        (all-IsLanded a claimed)),
                ),
              )
      ]
