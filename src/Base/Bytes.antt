-- ===== src/Base/Bytes.antt =====
-- The UTF-8 bytes of a text, which Go's len() and slicing count.
use Prim.Native.Nat.{ℕ, ◌+◌, ◌/◌, ◌%◌, ◌<◌}
use Prim.Native.Char.{code}
use Prim.Native.String.{String}
use mathlib.Core.Path.{◌≡◌, refl, sym}
use native.Mathlib.Omega.{arith}
use text.Mathlib.TextEquality.{Char-path}
use mathlib.Core.List.{List, [], ◌∷◌, ◌++◌}
use xg_mangement.Base.Tests.{ltb, if◌then◌else◌}

-- the UTF-8 bytes of a code point
utf8_char : ℕ → List ℕ
utf8_char n =
    if ltb n 0x80
    then n ∷ []
    else if ltb n 0x800
    then (0xc0 + n / 64) ∷ (0x80 + n % 64) ∷ []
    else if ltb n 0x10000
    then (0xe0 + n / 4096) ∷ (0x80 + n / 64 % 64) ∷ (0x80 + n % 64) ∷ []
    else (0xf0 + n / 262144) ∷ (0x80 + n / 4096 % 64) ∷ (0x80 + n / 64 % 64) ∷ (0x80 + n % 64) ∷ []

unfoldable pub utf8 : String → List ℕ
unfolding utf8_char
utf8 String.[] = []
utf8 (String.◌∷◌ c s) = utf8_char (code c) ++ utf8 s

-- The texts whose code points are one byte each.
abbrev pub IsAscii : String → Type 0
IsAscii String.[] = Unit
IsAscii (String.◌∷◌ c s) = (code c < 0x80) × IsAscii s

small_char : (n : ℕ) → n < 0x80 → utf8_char n ≡ n ∷ []
unfolding utf8_char
small_char n h = ground arith

-- the first byte and the rest
heads :
    (n m : ℕ) (xs ys : List ℕ)
    → m < 0x80
    → utf8_char n ++ xs ≡ utf8_char m ++ ys
    → (n ≡ m) × (xs ≡ ys)
unfolding utf8_char
heads n m xs ys h e = (ground arith, ground arith)

no_text : (s : String) → utf8 s ≡ [] → ◌≡◌ {A = String} String.[] s
unfolding utf8 utf8_char
no_text String.[] h = refl
no_text (String.◌∷◌ c s) h = ground arith

-- No other text has the bytes of such a text.
pub utf8-ascii : (s t : String) → IsAscii t → utf8 s ≡ utf8 t → s ≡ t
unfolding utf8
utf8-ascii s String.[] a h = sym (no_text s h)
utf8-ascii String.[] (String.◌∷◌ d t) (small, a) h =
    let stuck = rw (small_char (code d) small) at h in cc stuck
utf8-ascii (String.◌∷◌ c s) (String.◌∷◌ d t) (small, a) h =
    let same = heads (code c) (code d) (utf8 s) (utf8 t) small h in
    cc (Char-path c d same.0, utf8-ascii s t a same.1)
