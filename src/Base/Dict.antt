-- ===== src/Base/Dict.antt =====
-- Maps with text keys, as association lists: Go's map[string]V, one entry for each key.
use Prim.Native.String.{String}
use mathlib.Core.Path.{◌≡◌, refl}
use mathlib.Core.Option.{Option, none, some}
use mathlib.Core.List.{List, [], ◌∷◌}
use native.Mathlib.Omega.{arith}
use text.Mathlib.Text.{◌==◌}
use text.Mathlib.TextEquality.{eq_iff}
use xg_mangement.Base.Tests.{if◌then◌else◌}

module _ {ℓ} {V : Type ℓ} where
  abbrev pub lookup : String → List (String × V) → Option V
  lookup k [] = none
  lookup k (e ∷ m) = if e.0 == k then some e.1 else lookup k m

  -- `m[k] = v`
  abbrev pub insert : String → V → List (String × V) → List (String × V)
  insert k v [] = (k, v) ∷ []
  insert k v (e ∷ m) = if e.0 == k then (k, v) ∷ m else e ∷ insert k v m

  -- `delete(m, k)`
  abbrev pub erase : String → List (String × V) → List (String × V)
  erase k [] = []
  erase k (e ∷ m) = if e.0 == k then erase k m else e ∷ erase k m

  pub lookup-insert :
      (key sought : String) (value : V) (m : List (String × V))
      → lookup sought (insert key value m) ≡ (if key == sought then some value else lookup sought m)
  lookup-insert key sought value [] = refl
  lookup-insert key sought value (e ∷ m) = ground (
    arith,
    lookup-insert key sought value m,
    eq_iff e.0 sought,
    eq_iff e.0 key,
    eq_iff key sought,
  )

  pub lookup-erase :
      (key sought : String) (m : List (String × V))
      → lookup sought (erase key m) ≡ (if key == sought then none else lookup sought m)
  lookup-erase key sought [] = ground arith
  lookup-erase key sought (e ∷ m) =
      ground
        (arith, lookup-erase key sought m, eq_iff e.0 sought, eq_iff e.0 key, eq_iff key sought)
