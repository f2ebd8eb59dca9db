-- ===== src/Credentials.antt =====
-- internal/security/credentials.go: the cipher of stored credentials, around an AEAD (AES-GCM of the
-- standard library), which is an argument, as is the nonce that rand.Reader gives.
use xg_mangement.Base.{
  ℕ, zero, suc, ◌+◌, false, not, ◌||◌, Option, none, some, List, [], ◌∷◌, ◌++◌, ◌⊎◌, inl, inr, ◌≡◌,
  refl, ap, if◌then◌else◌, ltb, ◌==◌, length, take, length-append, arith,
}
use xg_mangement.Errors.{GoError, plain, wrap}

pub record Aead : Type 0 where
  pub nonce_size : ℕ
  pub overhead : ℕ
  pub seal : (nonce plaintext additional : List ℕ) → List ℕ
  pub unseal : (nonce ciphertext additional : List ℕ) → Option (List ℕ)

-- What a client of an AEAD relies on.
pub record IsAead (aead : Aead) : Type 0 where
  pub unseal-seal :
      (nonce plaintext additional : List ℕ)
      → aead.unseal nonce (aead.seal nonce plaintext additional) additional ≡ some plaintext
  pub length-seal :
      (nonce plaintext additional : List ℕ)
      → length (aead.seal nonce plaintext additional) ≡ length plaintext + aead.overhead

abbrev drop : ℕ → List ℕ → List ℕ
drop zero xs = xs
drop (suc n) [] = []
drop (suc n) (x ∷ xs) = drop n xs

take-append : (xs ys : List ℕ) → take (length xs) (xs ++ ys) ≡ xs
take-append [] ys = refl
take-append (x ∷ xs) ys = ap (λ l. x ∷ l) (take-append xs ys)

drop-append : (xs ys : List ℕ) → drop (length xs) (xs ++ ys) ≡ ys
drop-append [] ys = refl
drop-append (x ∷ xs) ys = drop-append xs ys

-- credentialCipherVersion
abbrev version : ℕ
version = 1

module _ (aead : Aead) where
  -- Encrypt, on the answer of rand.Reader
  unfoldable pub encrypt : GoError ⊎ List ℕ → List ℕ → GoError ⊎ List ℕ
  encrypt (inl e) plaintext = inl (wrap "generate credential nonce" e)
  encrypt (inr nonce) plaintext =
      inr (version ∷ (nonce ++ aead.seal nonce plaintext (version ∷ [])))

  abbrev unsealed : Option (List ℕ) → GoError ⊎ List ℕ
  unsealed none = inl (wrap "decrypt credentials" (plain "cipher: message authentication failed"))
  unsealed (some plaintext) = inr plaintext

  abbrev malformed : GoError ⊎ List ℕ
  malformed = inl (plain "unsupported or malformed credential ciphertext")

  -- Decrypt
  unfoldable pub decrypt : List ℕ → GoError ⊎ List ℕ
  decrypt [] = malformed
  decrypt (v ∷ rest) =
      if ltb (length (v ∷ rest)) (1 + aead.nonce_size + aead.overhead) || not (v == version)
      then malformed
      else unsealed
          (aead.unseal (take aead.nonce_size rest) (drop aead.nonce_size rest) (version ∷ []))

  -- What Encrypt returns, Decrypt reads back, whatever the plaintext, for a nonce of the cipher's size.
  pub decrypt-encrypt :
      (nonce plaintext : List ℕ) (ciphertext : List ℕ)
      → IsAead aead
      → length nonce ≡ aead.nonce_size
      → encrypt (inr nonce) plaintext ≡ inr ciphertext
      → decrypt ciphertext ≡ inr plaintext
  unfolding encrypt decrypt
  decrypt-encrypt nonce plaintext ciphertext laws size h =
      let sealed : List ℕ = aead.seal nonce plaintext (version ∷ []) in
      let same : version ∷ (nonce ++ sealed) ≡ ciphertext = inr_injective h in
      let long : ltb (suc (length (nonce ++ sealed))) (1 + aead.nonce_size + aead.overhead)
          ≡ false =
        ground (
          arith,
          length-append nonce sealed,
          laws.length-seal nonce plaintext (version ∷ []),
          size,
        ) in
      rw (← same, long, ← size, take-append nonce sealed, drop-append nonce sealed)
        (ap unsealed (laws.unseal-seal nonce plaintext (version ∷ [])))
    where
      inr_injective : {x y : List ℕ} → ◌≡◌ {A = GoError ⊎ List ℕ} (inr x) (inr y) → x ≡ y
      inr_injective q = cc
