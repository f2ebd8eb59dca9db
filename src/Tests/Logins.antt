-- ===== src/Tests/Logins.antt =====
-- Sessions and OAuth states in a store that is a dictionary.
use xg_mangement.Base.{
  ◌≡◌, ◌≢◌, refl, ap, String, true, false, Option, none, some, List, [], ◌∷◌, ◌⊎◌, inl, inr, arith,
  if◌then◌else◌, ◌=ₛ◌, eq_iff, eq_refl, lookup, insert, erase, lookup-insert, lookup-erase,
  trim_space, is_blank,
}
use xg_mangement.Errors.{GoError, no_rows}
use xg_mangement.Tests.JsonText.{joined, split, split-joined}
use xg_mangement.Sessions.{
  SessionRecord, OauthState, Json, KeyValueStore, session_key, state_key, create, read, consume,
}
use xg_mangement.Sessions.Tokens.{ReadsBack, read-create, consume-once}

abbrev pub Entries : Type 0
Entries = List (String × String)

abbrev pub found : Option String → GoError ⊎ String
found none = inl no_rows
found (some v) = inr v

pub found-some : (o : Option String) (v : String) → found o ≡ inr v → o ≡ some v
found-some none v h = cc
found-some (some w) v h = cc

pub inserted : (key value : String) (s : Entries) → lookup key (insert key value s) ≡ some value
inserted key value s = ground (arith, lookup-insert key key value s, eq_refl key)

pub inserted_other :
    (key other value : String) (s : Entries)
    → key ≢ other
    → lookup other (insert key value s) ≡ lookup other s
inserted_other key other value s h =
    ground (arith, lookup-insert key other value s, eq_iff key other, h)

pub erased : (key : String) (s : Entries) → lookup key (erase key s) ≡ none
erased key s = ground (arith, lookup-erase key key s, eq_refl key)

pub erased_other :
    (key other : String) (s : Entries) → key ≢ other → lookup other (erase key s) ≡ lookup other s
erased_other key other s h = ground (arith, lookup-erase key other s, eq_iff key other, h)

abbrev pub dictionary : KeyValueStore Entries
dictionary = record {
  set = λ key value s. (none, insert key value s);
  get = λ key s. (found (lookup key s), s);
  get_delete = λ key s. (found (lookup key s), erase key s);
  delete = λ key s. (none, erase key s);
  entry = λ key s. lookup key s;
  set-entry = λ key value s _. inserted key value s;
  set-other = inserted_other;
  get-entry = λ key value s h. found-some (lookup key s) value h;
  get-same = λ key other s. refl;
  get_delete-entry = λ key value s h. (found-some (lookup key s) value h, erased key s);
  get_delete-other = erased_other;
  delete-entry = λ key s _. erased key s;
  delete-other = erased_other;
}

abbrev pub session : SessionRecord
session = record { user_id = "u"; organization_id = "o" }

abbrev pub oauth : OauthState
oauth = record {
  provider = "shopify";
  organization_id = "o";
  user_id = "u";
  subject = "a.myshopify.com";
  return_to = "/stores";
}

abbrev pub record_of : Option (List String) → Option SessionRecord
record_of (some (user_id ∷ organization_id ∷ [])) =
    some (record { user_id = user_id; organization_id = organization_id })
record_of _ = none

abbrev pub texts_of : SessionRecord → List (String × String)
texts_of r = ("user_id", r.user_id) ∷ ("organization_id", r.organization_id) ∷ []

abbrev pub session_json : Json SessionRecord
session_json = record {
  marshal = λ r. joined (texts_of r);
  unmarshal = λ text. record_of (split ("user_id" ∷ "organization_id" ∷ []) text);
}

reads_back : ReadsBack session_json
reads_back r = ap record_of (split-joined (texts_of r))

abbrev pub state_json : Json OauthState
state_json = record {
  marshal = λ _. "state";
  unmarshal = λ text. if text =ₛ "state" then some oauth else none;
}

abbrev pub states : Entries
states = ("oauth_state:t", "state") ∷ ("session:s", joined (texts_of session)) ∷ []

consumed : (consume dictionary state_json true "t" "shopify" states).0 ≡ inr oauth
unfolding consume
consumed = refl

consume-once_example :
    ((payload : String) × (dictionary.entry (state_key "t") states ≡ some payload)
      × (state_json.unmarshal payload ≡ some oauth))
    × (oauth.provider ≡ "shopify")
    × (oauth.organization_id ≢ "")
    × ((other : String)
        → (e : GoError) × ((consume dictionary state_json true "t" other
              (consume dictionary state_json true "t" "shopify" states).1).0
            ≡ inl e))
    × ((s : String)
        → dictionary.entry
            (session_key s)
            (consume dictionary state_json true "t" "shopify" states).1
          ≡ dictionary.entry (session_key s) states)
consume-once_example = consume-once dictionary state_json true "t" "shopify" states oauth consumed

created :
    create dictionary session_json true (inr "s") "u" "o" []
    ≡ (inr "s", insert "session:s" (joined (texts_of session)) [])
unfolding create trim_space
created = refl

not_blank : is_blank "s" ≡ false
unfolding trim_space
not_blank = refl

read-create_example :
    ((read dictionary session_json true "s" states).0 ≡ inr session)
    ⊎ ((e : GoError) × ((dictionary.get (session_key "s") states).0 ≡ inl e))
read-create_example =
    read-create dictionary session_json true (inr "s") "u" "o" "s" []
      (insert "session:s" (joined (texts_of session)) []) states reads_back not_blank created refl
