-- ===== src/Base/Space.antt =====
-- The white space that strings.TrimSpace cuts.
use Prim.Native.Nat.{ℕ}
use mathlib.Core.Bool.{Bool, ◌&&◌}
use mathlib.Core.List.{List, [], ◌∷◌}
use xg_mangement.Base.Tests.{leb}
use xg_mangement.Base.Lists.{any}

-- the ranges of unicode.IsSpace
abbrev white_space : List (ℕ × ℕ)
white_space =
    (9, 13)
    ∷ (0x20, 0x20)
    ∷ (0x85, 0x85)
    ∷ (0xa0, 0xa0)
    ∷ (0x1680, 0x1680)
    ∷ (0x2000, 0x200a)
    ∷ (0x2028, 0x2029)
    ∷ (0x202f, 0x202f)
    ∷ (0x205f, 0x205f)
    ∷ (0x3000, 0x3000)
    ∷ []

unfoldable pub is_space : ℕ → Bool
is_space c = any (λ r. leb r.0 c && leb c r.1) white_space
