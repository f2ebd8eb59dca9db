-- ===== src/Worker/Delivery.antt =====
-- What holds of processDelivery, whatever the handler, the database and the broker do.
use xg_mangement.Base.{
  ◌≡◌, refl, sym, ◌∙◌, ◌↔◌, Bool, true, false, Option, none, some, List, String, arith, ◌⊎◌, inl,
  inr, Bool-cases, ⊎-cases, Option-cases, eq_refl,
}
use xg_mangement.Errors.{GoError}
use xg_mangement.Jobs.{Envelope, Codec}
use xg_mangement.Queue.{
  Client, Message, IsHonest, acked, delivery_envelope, acknowledge, retry, dead_letter, exhausted,
}
use xg_mangement.Queue.Settlement.{PlacedIn, retry-PlacedIn, dead_letter-PlacedIn}
use xg_mangement.Sync.{Outcome, is_retryable}
use xg_mangement.Worker.{
  Faults, Report, is_job_processed, mark_job_processed, safe_handle, finish, skip, process_delivery,
}

pub is_job_processed-mark :
    (id : String) (processed : List String)
    → is_job_processed id (mark_job_processed id processed) ≡ true
is_job_processed-mark id processed = ground (arith, eq_refl id)

module _ (codec : Codec) (client : Client) (handle : Envelope → Outcome) (faults : Faults) where
  -- The four ways through processDelivery.
  data Way (processed : List String) (d : Message codec.Body) (r : Report codec.Body) : Type 0 where
    invalid :
        (err : GoError)
        → delivery_envelope codec d ≡ inl err
        → r ≡ skip codec client handle faults processed (dead_letter client d err faults.broker)
        → Way processed d r
    unknown :
        (e : Envelope) (err : GoError)
        → delivery_envelope codec d ≡ inr e
        → faults.lookup_error ≡ some err
        → r ≡ skip codec client handle faults processed (retry client d err faults.broker)
        → Way processed d r
    repeated :
        (e : Envelope)
        → delivery_envelope codec d ≡ inr e
        → faults.lookup_error ≡ none
        → is_job_processed e.id processed ≡ true
        → r ≡ skip codec client handle faults processed (acknowledge faults.broker)
        → Way processed d r
    fresh :
        (e : Envelope)
        → delivery_envelope codec d ≡ inr e
        → faults.lookup_error ≡ none
        → is_job_processed e.id processed ≡ false
        → r ≡ finish codec client handle faults e (safe_handle (handle e)) processed d
        → Way processed d r

  process_delivery-cases :
      (processed : List String) (d : Message codec.Body)
      → Way processed d (process_delivery codec client handle faults processed d)
  unfolding process_delivery
  process_delivery-cases processed d = elim (⊎-cases (delivery_envelope codec d)) [
    | inl (err, bad) ↦ invalid err bad (rw (bad, process_delivery))
    | inr (e, decoded) ↦ elim (Option-cases faults.lookup_error) [
      | inr (err, l) ↦ unknown e err decoded l (rw (decoded, l, process_delivery))
      | inl l ↦ elim (Bool-cases (is_job_processed e.id processed)) [
        | inl old ↦ repeated e decoded l old (rw (decoded, l, old, process_delivery))
        | inr new ↦ fresh e decoded l new (rw (decoded, l, new, process_delivery))
      ]
    ]
  ]

  -- A copy stands in one of the two queues, or the job is recorded as processed.
  abbrev pub IsKept : Message codec.Body → Report codec.Body → Type 0
  IsKept d r =
      PlacedIn client.queues.dead d r.handoff.placed
      ⊎ PlacedIn client.queues.retry d r.handoff.placed
      ⊎ ((e : Envelope) × (delivery_envelope codec d ≡ inr e)
          × (is_job_processed e.id r.processed ≡ true))

  module _ (honest : IsHonest faults.broker.channel) (d : Message codec.Body) where
    dead_letter-IsKept :
        (err : GoError) (handled : Bool) (processed : List String)
        → (dead_letter client d err faults.broker).settlement ≡ acked
        → IsKept d (record {
          handled = handled;
          processed = processed;
          handoff = dead_letter client d err faults.broker;
        })
    dead_letter-IsKept err handled processed h =
        inl ((dead_letter-PlacedIn client d err faults.broker honest).0 h)

    retry-IsKept :
        (err : GoError) (handled : Bool) (processed : List String)
        → (retry client d err faults.broker).settlement ≡ acked
        → IsKept d (record {
          handled = handled;
          processed = processed;
          handoff = retry client d err faults.broker;
        })
    retry-IsKept err handled processed h =
        let placed = (retry-PlacedIn client d err faults.broker honest).0 h in
        elim (Bool-cases (exhausted client.max_attempts err d)) [
          | inl e ↦ inl (rw e at placed)
          | inr e ↦ inr (inl (rw e at placed))
        ]

    finish-IsKept :
        (e : Envelope) (err : Option GoError) (processed : List String)
        → delivery_envelope codec d ≡ inr e
        → (finish codec client handle faults e err processed d).handoff.settlement ≡ acked
        → IsKept d (finish codec client handle faults e err processed d)
    unfolding finish
    finish-IsKept e (some err) processed decoded h = elim (Bool-cases (is_retryable err)) [
      | inl b ↦ rw b (retry-IsKept err true processed (rw (b, finish) at h))
      | inr b ↦ rw b (dead_letter-IsKept err true processed (rw (b, finish) at h))
    ]
    finish-IsKept e none processed decoded h = elim (Option-cases faults.mark_error) [
      | inl m ↦ rw (m, finish) (inr (inr (e, decoded, is_job_processed-mark e.id processed)))
      | inr (err, m) ↦ rw (m, finish) (retry-IsKept err true processed (rw (m, finish) at h))
    ]

    -- If the broker keeps its promise on confirmed messages, a delivery that the worker
    -- acknowledges has left one persistent copy in the retry or the dead queue, or it decodes to a
    -- job whose id is recorded as processed, whatever the handler, the database and the broker do.
    pub process_delivery-IsKept :
        (processed : List String)
        → (process_delivery codec client handle faults processed d).handoff.settlement ≡ acked
        → IsKept d (process_delivery codec client handle faults processed d)
    process_delivery-IsKept processed h = elim (process_delivery-cases processed d) [
      | invalid err bad e ↦ rw e (dead_letter-IsKept err false processed (rw e at h))
      | unknown _ err _ _ e ↦ rw e (retry-IsKept err false processed (rw e at h))
      | repeated env decoded _ old e ↦ rw e (inr (inr (env, decoded, old)))
      | fresh env decoded _ _ e ↦
          rw e (finish-IsKept env (safe_handle (handle env)) processed decoded (rw e at h))
    ]

  finish-handled :
      (e : Envelope) (err : Option GoError) (processed : List String) (d : Message codec.Body)
      → (finish codec client handle faults e err processed d).handled ≡ true
  unfolding finish
  finish-handled e (some err) processed d = refl
  finish-handled e none processed d = ground arith

  -- The handler runs exactly for a delivery that decodes to a valid envelope whose id was looked up
  -- and is not yet processed, so a job that was recorded is never handled again.
  pub process_delivery-handled_iff :
      (processed : List String) (d : Message codec.Body)
      → ((process_delivery codec client handle faults processed d).handled ≡ true) ↔ (
          (e : Envelope) × (delivery_envelope codec d ≡ inr e)
          × (faults.lookup_error ≡ none)
          × (is_job_processed e.id processed ≡ false))
  process_delivery-handled_iff processed d = elim (process_delivery-cases processed d) [
    | invalid err bad e ↦ rw e ((λ h. cc), λ (_, decoded, _, _). cc (bad, decoded))
    | unknown _ err decoded l e ↦ rw e ((λ h. cc), λ (_, _, none_lookup, _). cc (l, none_lookup))
    | repeated env decoded l old e ↦
        rw e ((λ h. cc), λ (env', decoded', _, new). cc (sym decoded ∙ decoded', old, new))
    | fresh env decoded l new e ↦ rw e (
      (λ h. (env, decoded, l, new)),
      λ h. finish-handled env (safe_handle (handle env)) processed d,
    )
  ]
