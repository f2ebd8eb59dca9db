-- ===== src/Base/Int.antt =====
-- Signed integers over the native numbers.
use Prim.Native.Nat.{ℕ, suc, ◌+◌, ◌-◌, ◌%◌}
use xg_mangement.Base.Tests.{ltb, if◌then◌else◌}

-- `negsuc n` is -(n + 1)
pub data ℤ : Type 0 where
  pos : ℕ → ℤ
  negsuc : ℕ → ℤ

-- The bit pattern of a w-bit word, read as a signed integer: the conversion int32(n) of Go.
abbrev pub signed_word : ℕ → ℕ → ℤ
signed_word half n =
    let modulus : ℕ = half + half in
    if ltb (n % modulus) half then pos (n % modulus) else negsuc (modulus - suc (n % modulus))
