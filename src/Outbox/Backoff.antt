-- ===== src/Outbox/Backoff.antt =====
-- The delays of outboxBackoff.
use native.Mathlib.Omega.{pow_step}
use xg_mangement.Base.{
  ℕ, zero, suc, ◌*◌, ◌-◌, ◌^◌, min, ◌≤◌, ◌≡◌, ltb, if◌then◌else◌, arith, Bool-cases, leb, false,
  inl, inr, ◌∙◌,
}
use xg_mangement.Outbox.{second, minute, outbox_backoff}

pow_large : (n : ℕ) → 9 ≤ n → 512 ≤ 2 ^ n
pow_large zero h = omega arith
pow_large (suc n) h = elim (Bool-cases (leb 9 n)) [
  | inl e ↦ let large = pow_large n (ground arith) in omega (arith, large, pow_step 2 n)
  | inr e ↦ let eight : n ≡ 8 = ground arith in rw eight (omega arith)
]

-- outbox_backoff once the shift is known
capped : ℕ → ℕ
capped delay = if ltb (5 * minute) delay then 5 * minute else delay

capped-min : (delay : ℕ) → capped delay ≡ min delay (5 * minute)
unfolding capped
capped-min delay = ground arith

step : (n : ℕ) → ltb (suc n) 1 ≡ false
step n = ground arith

outbox_backoff-suc : (n : ℕ) → outbox_backoff (suc n) ≡ capped (second * 2 ^ min n 9)
unfolding outbox_backoff capped
outbox_backoff-suc n = rw (step n, suc_minus n, outbox_backoff)
  where
    suc_minus : (n : ℕ) → suc n - 1 ≡ n
    suc_minus n = omega arith

-- The delay before the retry after n + 1 attempts is 2 ^ n seconds, cut at five minutes: the bound on
-- the shift never shows. It is at least a second.
pub outbox_backoff-doubles :
    (n : ℕ)
    → (outbox_backoff (suc n) ≡ min (second * 2 ^ n) (5 * minute))
      × (second ≤ outbox_backoff (suc n))
outbox_backoff-doubles n =
    let e : outbox_backoff (suc n) ≡ min (second * 2 ^ n) (5 * minute) =
      outbox_backoff-suc n ∙ capped-min (second * 2 ^ min n 9) ∙ cut n in
    (e, rw e (omega (arith, pow_pos n)))
  where
    pow_pos : (n : ℕ) → 1 ≤ 2 ^ n
    pow_pos zero = omega arith
    pow_pos (suc n) = omega (arith, pow_pos n, pow_step 2 n)

    cut : (n : ℕ) → min (second * 2 ^ min n 9) (5 * minute) ≡ min (second * 2 ^ n) (5 * minute)
    cut n = elim (Bool-cases (leb 9 n)) [
      | inl e ↦
          let nine : min n 9 ≡ 9 = ground arith in
          let large = pow_large n (ground arith) in rw nine (omega (arith, large))
      | inr e ↦ let small : min n 9 ≡ n = ground arith in rw small
    ]
