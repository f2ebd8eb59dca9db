-- ===== src/Tests/Outboxes.antt =====
-- The outbox at a concrete batch.
use xg_mangement.Base.{
  ◌≡◌, refl, ◌*◌, ◌^◌, ◌≤◌, min, String, Bool, true, false, none, List, [], ◌∷◌, inr, any, All, pos,
  ◌=ₛ◌,
}
use xg_mangement.Jobs.{validate}
use xg_mangement.Store.{OutboxRow, outbox_row}
use xg_mangement.Outbox.{
  Claimed, Answers, batch_limit, claim_outbox, publish_outbox_batch, second, minute, outbox_backoff,
  publish_all, complete_outbox,
}
use xg_mangement.Outbox.Backoff.{outbox_backoff-doubles}
use xg_mangement.Outbox.Progress.{IsHonestRow, IsLanded}
use xg_mangement.Outbox.Delivery.{publish_outbox_batch-settles}
use xg_mangement.Tests.JsonText.{codec}
use xg_mangement.Tests.Values.{fresh, queued_row}

outbox_backoff-doubles_example :
    (outbox_backoff 4 ≡ min (second * 2 ^ 3) (5 * minute)) × (second ≤ outbox_backoff 4)
outbox_backoff-doubles_example = outbox_backoff-doubles 3

abbrev row : OutboxRow
row = outbox_row codec 1 fresh "shopify-sync:" queued_row

abbrev answers : Answers
answers = record { send = λ _. none; write_error = λ _. none; time = λ _. 9 }

abbrev Before : String → Type 0
Before id = ◌≡◌ {A = Bool} true false

abbrev free : String → Bool
free id = false

publish_outbox_batch-settles_example :
    All
      (IsHonestRow answers Before)
      (publish_outbox_batch codec.valid 5 free none true answers (pos 10) (row ∷ [])).rows
    × ((publish_outbox_batch codec.valid 5 free none true answers (pos 10) (row ∷ [])).error ≡ none
        → (ms : List Claimed) × ((claim_outbox codec.valid 5 free none
              (batch_limit (pos 10))
              (row ∷ [])).0
            ≡ inr ms)
          × IsLanded
              (λ r. any (λ m. m.id =ₛ r.id) ms)
              (publish_outbox_batch codec.valid 5 free none true answers (pos 10) (row ∷ [])).rows)
publish_outbox_batch-settles_example =
    publish_outbox_batch-settles codec.valid 5 free none answers Before true (pos 10) (row ∷ [])
      ((λ h. cc h), tt)

-- the batch publishes the row
publishes_row :
    (publish_outbox_batch codec.valid 5 free none true answers (pos 10) (row ∷ [])).published ≡ 1
unfolding publish_outbox_batch claim_outbox publish_all validate complete_outbox
publishes_row = refl
