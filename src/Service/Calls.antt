-- ===== src/Service/Calls.antt =====
-- The calls of Sync under its context and beside its heartbeat.
use xg_mangement.Base.{
  ℕ, zero, suc, ◌-◌, Bool, true, false, leb, Option, none, some, if◌then◌else◌, ◌==◌,
}
use xg_mangement.Errors.{GoError, deadline_exceeded, canceled, error_text, ◌⁀◌}
use xg_mangement.Sync.{SyncRequest}
use xg_mangement.Bulk.{bulk_error}
use xg_mangement.Service.{SyncRepository}

-- The state of a running Sync: the shared state, the error with which maintainLease has ended, if it
-- has, the calls made so far, the time left until the deadline, and, if the caller's context is
-- cancelled, the time that is left then.
pub record State (D : Type 0) : Type 0 where
  pub db : D
  pub lost : Option GoError
  pub calls : ℕ
  pub left : ℕ
  pub canceled_at : Option ℕ

abbrev is_canceled_at : Option ℕ → ℕ → Bool
is_canceled_at none left = false
is_canceled_at (some k) left = leb left k

-- ctx.Err(): a lost lease and the caller cancel the context
abbrev pub context_error : {D : Type 0} → State D → Option GoError
context_error s = elim s.lost [
  | some _ ↦ some canceled
  | none ↦
      if is_canceled_at s.canceled_at s.left
      then some canceled
      else if s.left == 0
      then some deadline_exceeded
      else none
]

module _ {D : Type 0} (repo : SyncRepository D) (r : SyncRequest) where
  -- one tick of maintainLease
  unfoldable pub beat : State D → State D
  beat s = elim s.lost [
    | some _ ↦ s
    | none ↦
        let renewed : Option GoError × D = repo.heartbeat_sync_run (context_error s) r s.db in
        record s {
          db = renewed.1;
          lost = elim renewed.0 [
            | none ↦ none
            | some e ↦ some (
                bulk_error "sync_lease_renewal_failed"
                  ("Shopify sync lease could not be renewed: " ⁀ error_text e) true)
          ];
        }
  ]

  -- some ticks of maintainLease
  unfoldable pub beats : ℕ → State D → State D
  beats zero s = s
  beats (suc n) s = beats n (beat s)

  -- a call: the ticks that come before it, then the call, then the time that it has taken
  unfoldable pub call :
      {A : Type 0} (ticks elapsed : ℕ → ℕ)
      → (Option GoError → ℕ → D → A × D)
      → State D
      → A × State D
  call {A = A} ticks elapsed f s =
      let before : State D = beats (ticks s.calls) s in
      let after : A × D = f (context_error before) before.calls before.db in
      (
        after.0,
        record before {
          db = after.1;
          calls = suc before.calls;
          left = before.left - elapsed before.calls;
        },
      )
