-- ===== src/Sessions/Authenticators.antt =====
-- internal/auth: SessionAuthenticator, DevAuthenticator and CompositeAuthenticator, the
-- authenticator of cmd/api/main.go, and the middleware `authenticate` of
-- internal/httpapi/middleware.go.
use Prim.Native.Char.{code}
use xg_mangement.Base.{
  ℕ, String, Bool, not, ◌||◌, ◌&&◌, Option, none, some, List, [], ◌∷◌, ◌⊎◌, inl, inr, if◌then◌else◌,
  ◌=ₛ◌, trim_space, keep, map, ◌==◌,
}
use xg_mangement.Errors.{GoError, ◌⁀◌}
use xg_mangement.Config.{Config}
use xg_mangement.Sessions.{SessionRecord, Json, KeyValueStore, read}

pub record Principal : Type 0 where
  pub user_id : String
  pub organization_id : String
  pub display_name : String
  pub permissions : List String

-- what the authenticators read of an HTTP request: the value of the cookie xg_session, and the
-- headers, "" where there is none
pub record Request : Type 0 where
  pub cookie : Option String
  pub header : String → String

-- a character at the front of the first part
prepend : String → List String → List String
prepend s [] = s ∷ []
prepend s (part ∷ parts) = (s ⁀ part) ∷ parts

-- strings.Split(s, ",")
unfoldable pub split : String → List String
unfolding prepend
split String.[] = "" ∷ []
split (String.◌∷◌ c s) =
    let rest : List String = split s in
    if code c == 44 then "" ∷ rest else prepend (String.◌∷◌ c "") rest

abbrev pub is_valid : Principal → Bool
is_valid principal = not (principal.user_id =ₛ "") && not (principal.organization_id =ₛ "")

-- auth.Authenticator, on the state that it reads
abbrev pub Authenticator : Type 0 → Type 0
Authenticator S = Request → S → Option Principal × S

-- What a middleware does: it passes the request on with a principal, or answers with a status.
pub data Gate : Type 0 where
  admitted : Principal → Gate
  refused : ℕ → String → Gate

-- the check of the middleware `authenticate`
abbrev pub gate_of : Option Principal → Gate
gate_of none = refused 401 "unauthenticated"
gate_of (some principal) =
    if principal.user_id =ₛ "" || principal.organization_id =ₛ ""
    then refused 401 "unauthenticated"
    else admitted principal

module _ {S : Type 0} where
  -- DevAuthenticator.Authenticate
  unfoldable pub authenticate_dev : Bool → Authenticator S
  authenticate_dev enabled request s =
      let user_id : String = trim_space (request.header "X-Dev-User-ID") in
      let organization_id : String = trim_space (request.header "X-Dev-Organization-ID") in
      if not enabled || user_id =ₛ "" || organization_id =ₛ "" then (none, s) else (
        some (record {
          user_id = user_id;
          organization_id = organization_id;
          display_name = trim_space (request.header "X-Dev-Display-Name");
          permissions =
              keep (λ permission. not (permission =ₛ ""))
                (map trim_space (split (request.header "X-Dev-Permissions")));
        }),
        s,
      )

  -- the principal that was found, or what follows
  abbrev pub otherwise : (S → Option Principal × S) → Option Principal × S → Option Principal × S
  otherwise next (some principal, s) = (some principal, s)
  otherwise next (none, s) = next s

  -- CompositeAuthenticator.Authenticate; `none` is a nil
  unfoldable pub authenticate_any : List (Option (Authenticator S)) → Authenticator S
  authenticate_any [] request s = (none, s)
  authenticate_any (none ∷ authenticators) request s = authenticate_any authenticators request s
  authenticate_any (some authenticator ∷ authenticators) request s =
      otherwise (authenticate_any authenticators request) (authenticator request s)

  -- the middleware `authenticate`
  unfoldable pub gate : Option (Authenticator S) → Request → S → Gate × S
  gate none request s = (refused 401 "unauthenticated", s)
  gate (some authenticator) request s =
      (gate_of (authenticator request s).0, (authenticator request s).1)

  module _ (kv : KeyValueStore S) (json : Json SessionRecord) (configured : Bool)
      (resolve_principal : String → String → GoError ⊎ Principal) where
    -- the principal of a session, when it is the session's own
    abbrev pub own_principal : SessionRecord → GoError ⊎ Principal → Option Principal
    own_principal session (inl e) = none
    own_principal session (inr principal) =
        if not (principal.user_id =ₛ session.user_id)
          || not (principal.organization_id =ₛ session.organization_id)
        then none
        else some principal

    abbrev pub principal_of : (GoError ⊎ SessionRecord) × S → Option Principal × S
    principal_of (inl e, s) = (none, s)
    principal_of (inr session, s) =
        (own_principal session (resolve_principal session.user_id session.organization_id), s)

    -- SessionAuthenticator.Authenticate
    unfoldable pub authenticate_session : Authenticator S
    authenticate_session request s = if not configured then (none, s) else elim request.cookie [
      | none ↦ (none, s)
      | some token ↦ principal_of (read kv json configured token s)
    ]

    -- the authenticator of the API process
    abbrev pub api_authenticator : Config → Authenticator S
    api_authenticator cfg =
        authenticate_any
          (some authenticate_session ∷ some (authenticate_dev cfg.dev_login_enabled) ∷ [])
