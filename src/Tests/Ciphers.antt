-- ===== src/Tests/Ciphers.antt =====
-- The credential cipher around an AEAD that hides nothing.
use xg_mangement.Base.{◌≡◌, refl, some, [], ◌∷◌, inr, arith}
use xg_mangement.Credentials.{Aead, IsAead, encrypt, decrypt, decrypt-encrypt}

abbrev aead : Aead
aead = record {
  nonce_size = 2;
  overhead = 0;
  seal = λ nonce plaintext additional. plaintext;
  unseal = λ nonce ciphertext additional. some ciphertext;
}

lawful : IsAead aead
lawful = record {
  unseal-seal = λ nonce plaintext additional. refl;
  length-seal = λ nonce plaintext additional. omega arith;
}

encrypted : encrypt aead (inr (5 ∷ 6 ∷ [])) (9 ∷ []) ≡ inr (1 ∷ 5 ∷ 6 ∷ 9 ∷ [])
unfolding encrypt
encrypted = refl

decrypt-encrypt_example : decrypt aead (1 ∷ 5 ∷ 6 ∷ 9 ∷ []) ≡ inr (9 ∷ [])
decrypt-encrypt_example =
    decrypt-encrypt aead (5 ∷ 6 ∷ []) (9 ∷ []) (1 ∷ 5 ∷ 6 ∷ 9 ∷ []) lawful refl encrypted
