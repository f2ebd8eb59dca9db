-- ===== src/Jobs.antt =====
-- internal/jobs/envelope.go: the job envelope and its validation. The JSON coding of an envelope
-- and of its payload is a parameter, the record `Codec`.
use xg_mangement.Base.{
  ℕ, String, Bool, not, ◌||◌, Option, none, some, ◌≡◌, true, if◌then◌else◌, ◌=ₛ◌, ◌==◌, ℤ, pos,
  negsuc, List, [], ◌∷◌, any, ◌&&◌, ltb,
}
use xg_mangement.Errors.{GoError, plain}

abbrev pub type_store_sync : String
type_store_sync = "shopify.store.sync.requested"

abbrev pub type_catalog_publish : String
type_catalog_publish = "shopify.catalog.publish.requested"

abbrev pub type_report_aggregate : String
type_report_aggregate = "report.aggregate.requested"

-- `occurred_at` counts nanoseconds from Go's zero time, so 0 is the zero time. The payload is the
-- raw JSON text.
pub record Envelope : Type 0 where
  pub version : ℤ
  pub id : String
  pub job_type : String
  pub organization_id : String
  pub occurred_at : ℕ
  pub payload : String

-- The struct that Handler.Handle decodes a payload into.
pub record SyncPayload : Type 0 where
  pub store_id : String
  pub run_id : String
  pub mode : String

-- the zero time plus 9999 years, in nanoseconds: time.Time has no JSON text from there on
abbrev pub year_10000 : ℕ
year_10000 = 315537897600000000000

abbrev pub keys : List (String × String) → List String
keys [] = []
keys (e ∷ m) = e.0 ∷ keys m

abbrev pub values : List (String × String) → List String
values [] = []
values (e ∷ m) = e.1 ∷ values m

abbrev pub distinct : List String → Bool
distinct [] = true
distinct (k ∷ ks) = not (any (λ other. other =ₛ k) ks) && distinct ks

-- encoding/json, as far as the queue uses it: `Body` is the type of a message body, `compact` what
-- Marshal does to a RawMessage, `encode_object` Marshal on a map of texts, and `decode_strings`
-- Unmarshal into a struct of texts with the given tags, whose values it lists in the tags' order.
-- An object with exactly the struct's tags as its keys is read back.
pub record Codec : Type 1 where
  pub Body : Type 0
  pub valid : String → Bool
  pub compact : String → String
  pub encode : Envelope → Body
  pub encode_error : Envelope → Option GoError
  pub decode : Body → Option Envelope
  pub encode_object : List (String × String) → String
  pub decode_strings : List String → String → Option (List String)
  pub encode_error-none :
      (e : Envelope)
      → valid e.payload ≡ true
      → ltb e.occurred_at year_10000 ≡ true
      → encode_error e ≡ none
  pub decode-encode :
      (e : Envelope)
      → valid e.payload ≡ true
      → decode (encode e) ≡ some (record e { payload = compact e.payload })
  pub encode_object-valid : (m : List (String × String)) → valid (encode_object m) ≡ true
  pub encode_object-filled : (m : List (String × String)) → (encode_object m =ₛ "") ≡ Bool.false
  pub compact-encode_object :
      (m : List (String × String)) → compact (encode_object m) ≡ encode_object m
  pub decode_strings-encode_object :
      (m : List (String × String))
      → distinct (keys m) ≡ true
      → decode_strings (keys m) (encode_object m) ≡ some (values m)

abbrev is_one : ℤ → Bool
is_one (pos n) = n == 1
is_one (negsuc _) = Bool.false

abbrev supported_type : String → Bool
supported_type t = t =ₛ type_store_sync || t =ₛ type_catalog_publish || t =ₛ type_report_aggregate

-- Envelope.Validate; `none` is the nil error
unfoldable pub validate : (String → Bool) → Envelope → Option GoError
validate valid e =
    if not (is_one e.version)
    then some (plain "unsupported version")
    else if e.id =ₛ ""
    then some (plain "id is required")
    else if e.organization_id =ₛ ""
    then some (plain "organization_id is required")
    else if not (supported_type e.job_type)
    then some (plain "unsupported type")
    else if e.occurred_at == 0
    then some (plain "occurred_at is required")
    else if e.payload =ₛ "" || not (valid e.payload)
    then some (plain "payload must be valid JSON")
    else none
