-- ===== src/Service/Actions.antt =====
-- The steps of Service.Sync, in service.go: calls that return a value or an error, or panic.
use xg_mangement.Base.{ℕ, zero, suc, String, Option, none, some, ◌⊎◌, inl, inr}
use xg_mangement.Errors.{GoError, wrap}
use xg_mangement.Service.{
  Result, ok, failed, panicked, SyncTarget, BulkOperation, Poll, ready, refused, again,
}
use xg_mangement.Service.Calls.{State}

-- A Sleeper: its error, if any, and the time that it takes, from the context's error, the number of
-- the call and the interval; and a bound on the polls that it is used for.
pub record Sleeper : Type 0 where
  pub sleep : Option GoError → ℕ → ℕ → Option GoError × ℕ
  pub rounds : ℕ

-- What Sync is configured with: the ticks of the heartbeat before each call, the poll interval and
-- the timeout in nanoseconds, the clock's time for the batch, the time left when the caller cancels
-- its context, and the Sleeper, which is nil outside the tests.
pub record Settings : Type 0 where
  pub ticks : ℕ → ℕ
  pub poll_interval : ℕ
  pub timeout : ℕ
  pub synced_at : ℕ
  pub canceled_at : Option ℕ
  pub sleeper : Option Sleeper

-- productsBulkQuery and collectionsBulkQuery stand for their texts.
abbrev pub products_bulk_query : String
products_bulk_query = "products"

abbrev pub collections_bulk_query : String
collections_bulk_query = "collections"

-- the result of a call that returns an error or nothing
abbrev pub lift_error : Option GoError → Result (Unit {0})
lift_error none = ok tt
lift_error (some e) = failed e

abbrev pub lift_sum : {A : Type 0} → GoError ⊎ A → Result A
lift_sum (inl e) = failed e
lift_sum (inr a) = ok a

-- an error of ResolveSyncTarget
abbrev pub in_target : {D : Type 0} → Result SyncTarget × D → Result SyncTarget × D
in_target (ok target, d) = (ok target, d)
in_target (failed e, d) = (failed (wrap "resolve Shopify sync target" e), d)
in_target (panicked, d) = (panicked, d)

abbrev pub lifted : {D : Type 0} → Option GoError × D → Result (Unit {0}) × D
lifted (e, d) = (lift_error e, d)

-- the defaults of a duration that is not positive
abbrev pub or_default : ℕ → ℕ → ℕ
or_default zero fallback = fallback
or_default (suc n) fallback = suc n

abbrev pub default_poll_interval : ℕ
default_poll_interval = 5000000000

abbrev pub default_sync_timeout : ℕ
default_sync_timeout = 900000000000

abbrev pub Action : Type 0 → Type 0 → Type 0
Action D A = State D → Result A × State D

-- the early returns of Go: an error or a panic ends the function
abbrev pub proceed : {D A B : Type 0} → (A → Action D B) → Result A → Action D B
proceed f (ok a) s = f a s
proceed f (failed e) s = (failed e, s)
proceed f panicked s = (panicked, s)

infixl 5 ◌>>=◌
unfoldable pub ◌>>=◌ : {D A B : Type 0} → Action D A → (A → Action D B) → Action D B
(m >>= f) s = proceed f (m s).0 (m s).1

unfoldable pub pure : {D A : Type 0} → Result A → Action D A
pure a s = (a, s)

-- the loop of waitForBulk ends, or goes on
abbrev pub settled : {D : Type 0} → Poll → Action D BulkOperation → Action D BulkOperation
settled (ready found) next s = (ok found, s)
settled (refused e) next s = (failed e, s)
settled again next s = next s
