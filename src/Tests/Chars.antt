-- ===== src/Tests/Chars.antt =====
-- Texts that a reader can take apart again: each character behind an "x", and a "." at the end.
use Prim.Native.Char.{Char, code}
use Prim.Native.String.{[], ◌∷◌}
use xg_mangement.Base.{
  String, Bool, true, false, Option, none, some, ◌≡◌, refl, if◌then◌else◌, ◌==◌, ◌=ₛ◌, eq_iff,
  Bool-cases, inl, inr,
}

abbrev pub closed : String → String → String
closed [] rest = "." ∷ rest
closed (c ∷ s) rest = "x" ∷ c ∷ closed s rest

abbrev pub before : Char → Option (String × String) → Option (String × String)
before c none = none
before c (some (s, rest)) = some (c ∷ s, rest)

abbrev pub opened : String → Option (String × String)
opened [] = none
opened (c ∷ []) = if code c == b'.' then some ("", "") else none
opened (c ∷ d ∷ s) =
    let later = opened s in if code c == b'.' then some ("", d ∷ s) else before d later

pub opened-closed : (s rest : String) → opened (closed s rest) ≡ some (s, rest)
opened-closed [] [] = refl
opened-closed [] (c ∷ rest) = refl
opened-closed (c ∷ s) rest = rw (opened-closed s rest) refl

abbrev is_filled : String → Bool
is_filled [] = false
is_filled (c ∷ s) = true

filled : (s : String) → is_filled s ≡ true → (s =ₛ "") ≡ false
filled s h = elim (Bool-cases (s =ₛ "")) [
  | inr e ↦ e
  | inl e ↦ let empty : false ≡ true = rw ((eq_iff s "").0 e) at h in cc empty
]

pub closed-filled : (s rest : String) → (closed s rest =ₛ "") ≡ false
closed-filled [] rest = filled _ refl
closed-filled (c ∷ s) rest = filled _ refl
