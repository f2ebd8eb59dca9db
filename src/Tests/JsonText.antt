-- ===== src/Tests/JsonText.antt =====
-- A codec in which every law of `Codec` holds: a message body is the envelope itself, and an object
-- is the texts of its values.
use xg_mangement.Base.{
  String, not, Option, none, some, List, [], ◌∷◌, ◌≡◌, refl, ap, arith, if◌then◌else◌, ◌=ₛ◌, false,
  ltb,
}
use xg_mangement.Errors.{plain}
use xg_mangement.Jobs.{Envelope, Codec, keys, values, year_10000}
use xg_mangement.Tests.Chars.{closed, opened, opened-closed, closed-filled}

-- the values behind a "."
abbrev pub joined : List (String × String) → String
joined [] = "."
joined (e ∷ m) = closed e.1 (joined m)

-- as many texts as there are tags
abbrev pub split : List String → String → Option (List String)
split [] s = some []
split (tag ∷ tags) s = elim (opened s) [
  | none ↦ none
  | some (text, rest) ↦ elim (split tags rest) [ none ↦ none | some texts ↦ some (text ∷ texts) ]
]

pub split-joined : (m : List (String × String)) → split (keys m) (joined m) ≡ some (values m)
split-joined [] = refl
split-joined (e ∷ m) = ground (arith, opened-closed e.1 (joined m), split-joined m)

pub joined-filled : (m : List (String × String)) → (joined m =ₛ "") ≡ false
joined-filled [] = refl
joined-filled (e ∷ m) = closed-filled e.1 (joined m)

abbrev pub codec : Codec
codec = record {
  Body = Envelope;
  valid = λ s. not (s =ₛ "");
  compact = λ s. s;
  encode = λ e. e;
  encode_error = λ e. if ltb e.occurred_at year_10000 then none else some (plain "year");
  decode = λ e. some e;
  encode_object = joined;
  decode_strings = split;
  encode_error-none = λ e valid early. rw early refl;
  decode-encode = λ e h. refl;
  encode_object-valid = λ m. ap not (joined-filled m);
  encode_object-filled = joined-filled;
  compact-encode_object = λ m. refl;
  decode_strings-encode_object = λ m h. split-joined m;
}
