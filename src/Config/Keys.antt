-- ===== src/Config/Keys.antt =====
-- The keys of internal/config/config.go: when the key in use is not the development key.
use xg_mangement.Base.{
  ℕ, ◌*◌, ◌≤◌, String, ◌≡◌, ◌≢◌, refl, sym, ap, ◌∙◌, true, false, some, List, [], ◌∷◌, arith,
  length, utf8, utf8-ascii, IsAscii, ◌⊎◌, trim_space, Option-cases, Bool-cases, inl, inr, ◌==◌,
  ==_iff, both,
}
use xg_mangement.Config.{Decoding, development_key, key_bytes, bytes_equal, credential_key_matches}

-- base64.StdEncoding: it accepts no white space but line ends, which it ignores, and four characters
-- make at most three bytes.
pub record IsBase64 (decoding : Decoding) : Type 0 where
  pub trimmed :
      (s : String) (b : List ℕ)
      → decoding.decode_base64 s ≡ some b
      → decoding.decode_base64 (trim_space s) ≡ some b
  pub bounded :
      (s : String) (b : List ℕ)
      → decoding.decode_base64 s ≡ some b
      → length b * 4 ≤ length (utf8 s) * 3

bytes_equal_refl : (xs : List ℕ) → bytes_equal xs xs ≡ true
bytes_equal_refl [] = refl
bytes_equal_refl (x ∷ xs) = ground (arith, bytes_equal_refl xs)

-- equal bytes are the same bytes
pub bytes_equal-same : (xs ys : List ℕ) → bytes_equal xs ys ≡ true → xs ≡ ys
bytes_equal-same [] [] h = refl
bytes_equal-same [] (y ∷ ys) h = cc
bytes_equal-same (x ∷ xs) [] h = cc
bytes_equal-same (x ∷ xs) (y ∷ ys) h =
    let (e, es) = both (x == y) (bytes_equal xs ys) h in
    cc ((==_iff x y).0 e, bytes_equal-same xs ys es)

development_bytes : length (utf8 development_key) ≡ 32
unfolding utf8
development_bytes = refl

development-IsAscii : IsAscii development_key
development-IsAscii = omega arith

development_trimmed : trim_space development_key ≡ development_key
unfolding trim_space
development_trimmed = refl

-- The two kinds of keys: decoded, of 32 bytes, or as the text has them.
key_bytes-way :
    (decoding : Decoding) (key : String)
    → ((b : List ℕ) × (decoding.decode_base64 key ≡ some b)
        × (length b ≡ 32)
        × (key_bytes decoding key ≡ b))
      ⊎ (key_bytes decoding key ≡ utf8 key)
key_bytes-way decoding key = elim (Option-cases (decoding.decode_base64 key)) [
  | inl e ↦ inr (rw (e, key_bytes) refl)
  | inr (b, e) ↦ elim (Bool-cases (length b == 32)) [
    | inl q ↦ inl (b, e, (==_iff (length b) 32).0 q, rw (e, key_bytes, q) refl)
    | inr q ↦ inr (rw (e, key_bytes, q) refl)
  ]
]

decoded-key :
    (decoding : Decoding) (key : String) (b : List ℕ)
    → decoding.decode_base64 key ≡ some b
    → length b ≡ 32
    → key_bytes decoding key ≡ b
decoded-key decoding key b e n = rw (e, key_bytes, n) refl

module _ (decoding : Decoding) (base64 : IsBase64 decoding) where
  -- the development key is no text of 32 bytes in base64
  key_bytes-development : key_bytes decoding development_key ≡ utf8 development_key
  key_bytes-development = elim (key_bytes-way decoding development_key) [
    | inr e ↦ e
    | inl (b, e, n, q) ↦
        let short = base64.bounded development_key b e in
        absurd (omega (arith, short, development_bytes))
  ]

  matches-development :
      (key : String)
      → key_bytes decoding key ≡ utf8 development_key
      → credential_key_matches decoding key development_key ≡ true
  unfolding credential_key_matches
  matches-development key e =
      rw (e, key_bytes-development) (bytes_equal_refl (utf8 development_key))

  -- A key whose trimmed text does not match the development key is another key.
  pub key_bytes-differs :
      (key : String)
      → credential_key_matches decoding (trim_space key) development_key ≡ false
      → key_bytes decoding key ≢ utf8 development_key
  key_bytes-differs key h same = elim (key_bytes-way decoding key) [
    | inl (b, e, n, q) ↦
        let trimmed = decoded-key decoding (trim_space key) b (base64.trimmed key b e) n in
        cc (h, matches-development (trim_space key) (trimmed ∙ sym q ∙ same))
    | inr e ↦
        let plain : key ≡ development_key =
          utf8-ascii key development_key development-IsAscii (sym e ∙ same) in
        cc (
          h,
          matches-development (trim_space key) (
              ap (key_bytes decoding) (ap trim_space plain ∙ development_trimmed)
              ∙ key_bytes-development),
        )
  ]
