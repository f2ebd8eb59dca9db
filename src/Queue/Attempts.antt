-- ===== src/Queue/Attempts.antt =====
-- The attempt counter of a message over its redeliveries: TTL expiry in the retry queue brings a
-- message back with the headers that Retry gave it.
use xg_mangement.Base.{
  ℕ, suc, ◌+◌, ◌≤◌, ◌<◌, ◌≡◌, Bool, true, false, List, [], ◌∷◌, arith, leb, if◌then◌else◌,
  Bool-cases, inl, inr, lookup-insert, lookup-erase, ℤ,
}
use xg_mangement.Errors.{GoError}
use xg_mangement.Queue.Headers.{
  header_attempt, should_preserve_attempt, Headers, at_least_one, to_int32,
}
use xg_mangement.Queue.Publish.{Message}
use xg_mangement.Queue.Delivery.{retry_message, exhausted}

-- What the counter reads after Retry.
abbrev pub retried : ℕ → Bool → ℕ
retried attempt preserve = if preserve then attempt else attempt + 1

at_least_one-pos : (z : ℤ) → 1 ≤ at_least_one z
at_least_one-pos z = ground arith

header_attempt-pos : (headers : Headers) → 1 ≤ header_attempt headers
unfolding header_attempt
header_attempt-pos headers = ground arith

at_least_one-to_int32 : (n : ℕ) → 1 ≤ n → n < 2147483648 → at_least_one (to_int32 n) ≡ n
at_least_one-to_int32 n h k = ground arith

-- The failures that count as an attempt.
abbrev pub counted : List GoError → ℕ
counted [] = 0
counted (cause ∷ causes) =
    if should_preserve_attempt cause then counted causes else suc (counted causes)

module _ {B : Type 0} where
  pub header_attempt-retry_message :
      (cause : GoError) (d : Message B)
      → header_attempt d.headers < 2147483647
      → header_attempt (retry_message cause d).headers
        ≡ retried (header_attempt d.headers) (should_preserve_attempt cause)
  unfolding header_attempt retry_message
  header_attempt-retry_message cause d h = elim (Bool-cases (should_preserve_attempt cause)) [
    | inl e ↦
        rw e (
          simp lookup-insert (at_least_one-to_int32 _ (header_attempt-pos d.headers) (omega arith)))
    | inr e ↦
        rw e
          (simp (lookup-insert, lookup-erase) (at_least_one-to_int32 _ (omega arith) (omega arith)))
  ]

  -- Whether a message whose handling fails with these retryable errors, one delivery after the
  -- other, has gone to the dead queue by the end.
  abbrev pub is_buried : ℕ → List GoError → Message B → Bool
  is_buried max_attempts [] d = false
  is_buried max_attempts (cause ∷ causes) d =
      let later : Bool = is_buried max_attempts causes (retry_message cause d) in
      if exhausted max_attempts cause d then true else later

  -- A message whose counter reads k + 1 is dead-lettered exactly when the failures that do not
  -- preserve the attempt reach max_attempts - k: failures that preserve it never use up an attempt.
  pub is_buried_iff :
      (max_attempts k : ℕ) (causes : List GoError) (d : Message B)
      → max_attempts < 2147483647
      → header_attempt d.headers ≡ suc k
      → suc k ≤ max_attempts
      → is_buried max_attempts causes d ≡ leb max_attempts (k + counted causes)
  is_buried_iff m k [] d bound at within = ground arith
  is_buried_iff m k (c ∷ causes) d bound at within = ground (
    arith,
    header_attempt-retry_message c d,
    is_buried_iff m k causes (retry_message c d) bound,
    is_buried_iff m (suc k) causes (retry_message c d) bound,
  )
