-- ===== src/Base/Text.antt =====
-- Go's strings as texts over code points: TrimSpace, HasPrefix and the order `<`.
use Prim.Native.Char.{Char, code}
use Prim.Native.String.{String, [], ◌∷◌, ◌++◌ as text_append}
use mathlib.Core.Path.{◌≡◌, refl, sym, ap, ◌∙◌}
use mathlib.Core.Bool.{Bool, true, false, ◌&&◌, ◌||◌}
use native.Mathlib.Omega.{arith}
use text.Mathlib.Text.{◌==◌ as text_eq, starts_with}
use text.Mathlib.TextLemmas.{cons-append, nil-append}
use Prim.Native.Nat.{ℕ, ◌<◌}
use text.Mathlib.TextEquality.{Char-path, eq_iff}
use mathlib.Core.Logic.{◌≢◌}
use xg_mangement.Base.Space.{is_space}
use xg_mangement.Base.Tests.{ltb, ◌==◌, if◌then◌else◌}

infix 50 ◌=ₛ◌
abbrev pub ◌=ₛ◌ : String → String → Bool
s =ₛ t = text_eq s t

trim_left : String → String
trim_left [] = ""
trim_left (c ∷ s) = let rest = trim_left s in if is_space (code c) then rest else c ∷ s

-- a character before what is left of the text behind it
keep_char : Char → String → String
keep_char c [] = if is_space (code c) then "" else c ∷ ""
keep_char c (d ∷ s) = c ∷ d ∷ s

trim_right : String → String
unfolding keep_char
trim_right [] = ""
trim_right (c ∷ s) = keep_char c (trim_right s)

-- strings.TrimSpace
unfoldable pub trim_space : String → String
unfolding trim_left trim_right is_space
trim_space s = trim_right (trim_left s)

-- `strings.TrimSpace(s) == ""`
abbrev pub is_blank : String → Bool
is_blank s = trim_space s =ₛ ""

-- strings.HasPrefix
abbrev pub has_prefix : String → String → Bool
has_prefix s p = starts_with s p

-- `s < t`: the order of the bytes, which for UTF-8 is that of the code points
unfoldable pub text_lt : String → String → Bool
text_lt [] [] = false
text_lt [] (d ∷ t) = true
text_lt (c ∷ s) [] = false
text_lt (c ∷ s) (d ∷ t) = ltb (code c) (code d) || (code c == code d && text_lt s t)

pub text_lt_irrefl : (s : String) → text_lt s s ≡ false
unfolding text_lt
text_lt_irrefl [] = refl
text_lt_irrefl (c ∷ s) = ground (arith, text_lt_irrefl s)

pub text_lt_trans : (s t u : String) → text_lt s t ≡ true → text_lt t u ≡ true → text_lt s u ≡ true
unfolding text_lt
text_lt_trans [] [] u h k = cc
text_lt_trans [] (d ∷ t) [] h k = cc
text_lt_trans [] (d ∷ t) (e ∷ u) h k = refl
text_lt_trans (c ∷ s) [] u h k = cc
text_lt_trans (c ∷ s) (d ∷ t) [] h k = cc
text_lt_trans (c ∷ s) (d ∷ t) (e ∷ u) h k = ground (arith, text_lt_trans s t u)

pub text_lt_total : (s t : String) → text_lt s t ≡ false → text_lt t s ≡ false → s ≡ t
unfolding text_lt
text_lt_total [] [] h k = refl
text_lt_total [] (d ∷ t) h k = cc
text_lt_total (c ∷ s) [] h k = cc
text_lt_total (c ∷ s) (d ∷ t) h k =
    let same : c ≡ d = Char-path c d (ground arith) in
    cc (same, text_lt_total s t (ground arith) (ground arith))

-- the first code point, 0 where there is none
unfoldable pub first : String → ℕ
first [] = 0
first (c ∷ s) = code c

pub first-append : (s t : String) → 0 < first s → first (text_append s t) ≡ first s
unfolding first
first-append [] t h = omega (arith, h)
first-append (c ∷ s) t h = ap first (cons-append c s t)

-- A common front can be taken away.
pub append-cancel : (s t u : String) → text_append s t ≡ text_append s u → t ≡ u
append-cancel [] t u h = sym (nil-append t) ∙ h ∙ nil-append u
append-cancel (c ∷ s) t u h =
    append-cancel s t u (tail_injective (sym (cons-append c s t) ∙ h ∙ cons-append c s u))
  where
    tail_injective : {x y : String} → c ∷ x ≡ c ∷ y → x ≡ y
    tail_injective q = cc

pub differs : (s t : String) → (s =ₛ t) ≡ false → s ≢ t
differs s t h e = ground (arith, eq_iff s t, h, e)
