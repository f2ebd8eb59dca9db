-- ===== src/Sessions.antt =====
-- internal/auth/session.go: sessions and OAuth states, kept in a key-value store (Redis, by
-- internal/platform/redis) that is an argument: the interface `KeyValueStore`. The random bytes of
-- a token, its base64 and encoding/json are arguments too. A time to live is the store's affair: an
-- entry that has expired is an entry that is gone.
pub mod Tokens
pub mod Authenticators
pub mod Identity
use xg_mangement.Base.{
  ℕ, String, Bool, true, false, not, ◌&&◌, ◌||◌, Option, none, some, List, [], ◌∷◌, ◌⊎◌, inl, inr,
  ◌≡◌, ◌≢◌, if◌then◌else◌, ◌=ₛ◌, is_blank,
}
use xg_mangement.Errors.{GoError, plain, wrap, ◌⁀◌}

pub record SessionRecord : Type 0 where
  pub user_id : String
  pub organization_id : String

pub record OauthState : Type 0 where
  pub provider : String
  pub organization_id : String
  pub user_id : String
  pub subject : String
  pub return_to : String

-- json.Marshal of a type and json.Unmarshal into it
pub record Json (A : Type 0) : Type 0 where
  pub marshal : A → String
  pub unmarshal : String → Option A

-- KeyValueStore, with what its clients rely on: `entry` is the value of a key. A call that fails may
-- have done anything to its own key.
pub record KeyValueStore (S : Type 0) : Type 0 where
  pub set : String → String → S → Option GoError × S
  pub get : String → S → (GoError ⊎ String) × S
  pub get_delete : String → S → (GoError ⊎ String) × S
  pub delete : String → S → Option GoError × S
  pub entry : String → S → Option String
  pub set-entry :
      (key value : String) (s : S)
      → (set key value s).0 ≡ none
      → entry key (set key value s).1 ≡ some value
  pub set-other :
      (key other value : String) (s : S)
      → key ≢ other
      → entry other (set key value s).1 ≡ entry other s
  pub get-entry :
      (key value : String) (s : S) → (get key s).0 ≡ inr value → entry key s ≡ some value
  pub get-same : (key other : String) (s : S) → entry other (get key s).1 ≡ entry other s
  pub get_delete-entry :
      (key value : String) (s : S)
      → (get_delete key s).0 ≡ inr value
      → (entry key s ≡ some value) × (entry key (get_delete key s).1 ≡ none)
  pub get_delete-other :
      (key other : String) (s : S) → key ≢ other → entry other (get_delete key s).1 ≡ entry other s
  pub delete-entry :
      (key : String) (s : S) → (delete key s).0 ≡ none → entry key (delete key s).1 ≡ none
  pub delete-other :
      (key other : String) (s : S) → key ≢ other → entry other (delete key s).1 ≡ entry other s

abbrev pub session_key : String → String
session_key token = "session:" ⁀ token

abbrev pub state_key : String → String
state_key token = "oauth_state:" ⁀ token

module _ {S : Type 0} where
  -- the result of Set, for the token that it stores
  abbrev pub stored : String → String → Option GoError × S → (GoError ⊎ String) × S
  stored text token (none, s) = (inr token, s)
  stored text token (some e, s) = (inl (wrap text e), s)

  -- SessionManager; `configured` says that the manager and its store are not nil, `random` is what
  -- randomToken returns
  module _ (kv : KeyValueStore S) (json : Json SessionRecord) (configured : Bool) where
    -- SessionManager.Create
    unfoldable pub create : GoError ⊎ String → String → String → S → (GoError ⊎ String) × S
    create random user_id organization_id s =
        if not configured || is_blank user_id || is_blank organization_id
        then (inl (plain "invalid session"), s)
        else elim random [
          | inl e ↦ (inl e, s)
          | inr token ↦ stored "store session" token (
              kv.set (session_key token)
                (json.marshal (record { user_id = user_id; organization_id = organization_id })) s)
        ]

    abbrev pub session_of : Option SessionRecord → GoError ⊎ SessionRecord
    session_of none = inl (plain "invalid session payload")
    session_of (some r) =
        if r.user_id =ₛ "" || r.organization_id =ₛ ""
        then inl (plain "invalid session payload")
        else inr r

    abbrev pub session_found : (GoError ⊎ String) × S → (GoError ⊎ SessionRecord) × S
    session_found (inl e, s) = (inl (wrap "read session" e), s)
    session_found (inr payload, s) = (session_of (json.unmarshal payload), s)

    -- SessionManager.Read
    unfoldable pub read : String → S → (GoError ⊎ SessionRecord) × S
    read token s =
        if not configured || is_blank token
        then (inl (plain "session not found"), s)
        else session_found (kv.get (session_key token) s)

    -- SessionManager.Delete
    unfoldable pub delete_session : String → S → Option GoError × S
    delete_session token s =
        if not configured || token =ₛ "" then (none, s) else kv.delete (session_key token) s

  -- OAuthStateManager
  module _ (kv : KeyValueStore S) (json : Json OauthState) (configured : Bool) where
    -- OAuthStateManager.Create
    unfoldable pub create_state : GoError ⊎ String → OauthState → S → (GoError ⊎ String) × S
    create_state random state s =
        if not configured || state.provider =ₛ "" || state.organization_id =ₛ ""
        then (inl (plain "invalid OAuth state"), s)
        else elim random [
          | inl e ↦ (inl e, s)
          | inr token ↦
              stored "store OAuth state" token (kv.set (state_key token) (json.marshal state) s)
        ]

    abbrev pub state_of : String → Option OauthState → GoError ⊎ OauthState
    state_of provider none = inl (wrap "decode OAuth state" (plain "invalid JSON"))
    state_of provider (some state) =
        if not (state.provider =ₛ provider) || state.organization_id =ₛ ""
        then inl (plain "OAuth state provider mismatch")
        else inr state

    abbrev pub state_found : String → (GoError ⊎ String) × S → (GoError ⊎ OauthState) × S
    state_found provider (inl e, s) = (inl (wrap "consume OAuth state" e), s)
    state_found provider (inr payload, s) = (state_of provider (json.unmarshal payload), s)

    -- OAuthStateManager.Consume
    unfoldable pub consume : String → String → S → (GoError ⊎ OauthState) × S
    consume token provider s =
        if not configured || token =ₛ ""
        then (inl (plain "OAuth state not found"), s)
        else state_found provider (kv.get_delete (state_key token) s)

-- randomToken, on the answer of rand.Read
unfoldable pub random_token : (List ℕ → String) → GoError ⊎ List ℕ → GoError ⊎ String
random_token encode (inl e) = inl (wrap "generate random token" e)
random_token encode (inr value) = inr (encode value)
