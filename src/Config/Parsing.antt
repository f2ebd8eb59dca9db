-- ===== src/Config/Parsing.antt =====
-- internal/config/config.go: the texts of the environment, with strconv.ParseBool and strconv.Atoi.
use Prim.Native.Char.{code}
use Prim.Native.String.{[] as empty_text, ◌∷◌ as char_cons}
use xg_mangement.Base.{
  ℕ, ◌+◌, ◌*◌, ◌-◌, String, Bool, true, false, ◌&&◌, ◌||◌, Option, none, some, ℤ, pos, negsuc,
  if◌then◌else◌, ◌=ₛ◌, leb, ◌==◌, is_blank,
}

-- valueOrDefault
abbrev pub value_or_default : String → String → String
value_or_default value fallback = if is_blank value then fallback else value

-- strconv.ParseBool
unfoldable pub parse_bool : String → Option Bool
parse_bool s =
    if s =ₛ "1" || s =ₛ "t" || s =ₛ "T" || s =ₛ "TRUE" || s =ₛ "true" || s =ₛ "True"
    then some true
    else if s =ₛ "0" || s =ₛ "f" || s =ₛ "F" || s =ₛ "FALSE" || s =ₛ "false" || s =ₛ "False"
    then some false
    else none

-- the value of decimal digits behind a prefix of value `n`
unfoldable pub digits : ℕ → String → Option ℕ
digits n empty_text = some n
digits n (char_cons c s) =
    let rest : Option ℕ = digits (n * 10 + (code c - 48)) s in
    if leb 48 (code c) && leb (code c) 57 then rest else none

-- decimal digits, one at least, in range
abbrev pub magnitude : ℕ → String → Option ℕ
magnitude most s =
    if s =ₛ ""
    then none
    else elim (digits 0 s) [ none ↦ none | some n ↦ if leb n most then some n else none ]

abbrev pub negated : Option ℕ → Option ℤ
negated none = none
negated (some n) = some (if n == 0 then pos 0 else negsuc (n - 1))

abbrev pub positive : Option ℕ → Option ℤ
positive none = none
positive (some n) = some (pos n)

-- strconv.Atoi, for an int of 64 bits
unfoldable pub atoi : String → Option ℤ
atoi empty_text = none
atoi (char_cons c s) =
    if code c == 45
    then negated (magnitude 9223372036854775808 s)
    else if code c == 43
    then positive (magnitude 9223372036854775807 s)
    else positive (magnitude 9223372036854775807 (char_cons c s))
