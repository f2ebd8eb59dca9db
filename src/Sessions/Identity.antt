-- ===== src/Sessions/Identity.antt =====
-- Who a request of the API acts for: internal/auth, with the configuration and cmd/api/main.go.
use xg_mangement.Base.{
  String, Bool, true, false, not, ◌||◌, Option, none, some, [], ◌∷◌, ◌⊎◌, inl, inr, ◌≡◌, ◌≢◌, refl,
  sym, ap, ◌∙◌, ◌=ₛ◌, is_blank, arith, Option-cases, Bool-cases, eq_iff, neither, differs,
}
use xg_mangement.Errors.{GoError}
use xg_mangement.Config.{Config, Decoding, load}
use xg_mangement.Config.Production.{load-no_dev_login}
use xg_mangement.Sessions.{
  SessionRecord, Json, KeyValueStore, session_key, read, session_of, session_found,
}
use xg_mangement.Sessions.Authenticators.{
  Principal, Request, Authenticator, admitted, gate_of, gate, otherwise, authenticate_dev,
  authenticate_any, authenticate_session, principal_of, own_principal, api_authenticator,
}

same_text : (s t : String) → not (s =ₛ t) ≡ false → s ≡ t
same_text s t h = ground (arith, eq_iff s t, h)

inr_injective : {A : Type 0} {x y : A} → ◌≡◌ {A = GoError ⊎ A} (inr x) (inr y) → x ≡ y
inr_injective q = cc

some_injective : {A : Type 0} {x y : A} → ◌≡◌ {A = Option A} (some x) (some y) → x ≡ y
some_injective q = cc

module _ {S : Type 0} (kv : KeyValueStore S) (json : Json SessionRecord) (configured : Bool)
    (resolve_principal : String → String → GoError ⊎ Principal) where
  -- A principal that a stored session stands for.
  pub record IsOwn (request : Request) (s : S) (principal : Principal) : Type 0 where
    pub token : String
    pub payload : String
    pub session : SessionRecord
    pub cookie : request.cookie ≡ some token
    pub entry : kv.entry (session_key token) s ≡ some payload
    pub decoded : json.unmarshal payload ≡ some session
    pub resolved : resolve_principal session.user_id session.organization_id ≡ inr principal
    pub same_user : principal.user_id ≡ session.user_id
    pub same_organization : principal.organization_id ≡ session.organization_id
    pub has_user : session.user_id ≢ ""
    pub has_organization : session.organization_id ≢ ""

  session_of-ok :
      (o : Option SessionRecord) (r : SessionRecord)
      → session_of kv json configured o ≡ inr r
      → (o ≡ some r) × (r.user_id ≢ "") × (r.organization_id ≢ "")
  session_of-ok none r h = cc
  session_of-ok (some found) r h =
      elim (Bool-cases (found.user_id =ₛ "" || found.organization_id =ₛ "")) [
        | inl e ↦ let stuck = rw e at h in cc stuck
        | inr e ↦
            let same : found ≡ r = inr_injective (rw e at h) in
            let (u, o) = neither (found.user_id =ₛ "") (found.organization_id =ₛ "") e in
            rw (← same) (refl, differs found.user_id "" u, differs found.organization_id "" o)
      ]

  session_found-ok :
      (result : (GoError ⊎ String) × S) (r : SessionRecord)
      → (session_found kv json configured result).0 ≡ inr r
      → (payload : String) × (result.0 ≡ inr payload)
        × (session_of kv json configured (json.unmarshal payload) ≡ inr r)
  session_found-ok (inl e, s) r h = cc
  session_found-ok (inr payload, s) r h = (payload, refl, h)

  read-ok :
      (token : String) (s : S) (r : SessionRecord)
      → (read kv json configured token s).0 ≡ inr r
      → (payload : String) × (kv.entry (session_key token) s ≡ some payload)
        × (session_of kv json configured (json.unmarshal payload) ≡ inr r)
  unfolding read
  read-ok token s r h = elim (Bool-cases (not configured || is_blank token)) [
    | inl e ↦ let stuck = rw e at h in cc stuck
    | inr e ↦
        let (payload, got, session) =
          session_found-ok (kv.get (session_key token) s) r (rw e at h) in
        (payload, kv.get-entry (session_key token) payload s got, session)
  ]

  own_principal-ok :
      (session : SessionRecord) (result : GoError ⊎ Principal) (principal : Principal)
      → own_principal kv json configured resolve_principal session result ≡ some principal
      → (result ≡ inr principal)
        × (principal.user_id ≡ session.user_id)
        × (principal.organization_id ≡ session.organization_id)
  own_principal-ok session (inl e) principal h = cc
  own_principal-ok session (inr found) principal h =
      elim (Bool-cases (
        not (found.user_id =ₛ session.user_id)
        || not (found.organization_id =ₛ session.organization_id))) [
          | inl e ↦ let stuck = rw e at h in cc stuck
          | inr e ↦
              let same : found ≡ principal = some_injective (rw e at h) in
              let (u, o) =
                neither (not (found.user_id =ₛ session.user_id))
                  (not (found.organization_id =ₛ session.organization_id)) e in
              rw (← same) (
                refl,
                same_text found.user_id session.user_id u,
                same_text found.organization_id session.organization_id o,
              )
        ]

  principal_of-ok :
      (result : (GoError ⊎ SessionRecord) × S) (principal : Principal)
      → (principal_of kv json configured resolve_principal result).0 ≡ some principal
      → (session : SessionRecord) × (result.0 ≡ inr session)
        × (own_principal kv json configured resolve_principal session
              (resolve_principal session.user_id session.organization_id)
            ≡ some principal)
  principal_of-ok (inl e, s) principal h = cc
  principal_of-ok (inr session, s) principal h = (session, refl, h)

  session_read :
      (request : Request) (s : S) (token : String)
      → configured ≡ true
      → request.cookie ≡ some token
      → authenticate_session kv json configured resolve_principal request s
        ≡ principal_of kv json configured resolve_principal (read kv json configured token s)
  unfolding authenticate_session
  session_read request s token c k = ground (arith, c, k)

  -- a principal of SessionAuthenticator is that of a stored session
  authenticate_session-IsOwn :
      (request : Request) (s : S) (principal : Principal)
      → (authenticate_session kv json configured resolve_principal request s).0 ≡ some principal
      → IsOwn request s principal
  unfolding authenticate_session
  authenticate_session-IsOwn request s principal h = elim (Bool-cases configured) [
    | inr c ↦ let stuck = rw c at h in cc stuck
    | inl c ↦ elim (Option-cases request.cookie) [
      | inl k ↦ let stuck = rw (c, k) at h in cc stuck
      | inr (token, k) ↦
          let (session, found, own) =
            principal_of-ok (read kv json configured token s) principal
              (ap (λ p. p.0) (sym (session_read request s token c k)) ∙ h) in
          let (payload, entry, valid) = read-ok token s session found in
          let (decoded, user, organization) =
            session_of-ok (json.unmarshal payload) session valid in
          let (resolved, same_user, same_organization) =
            own_principal-ok session (resolve_principal session.user_id session.organization_id)
              principal own in
          record {
            token = token;
            payload = payload;
            session = session;
            cookie = k;
            entry = entry;
            decoded = decoded;
            resolved = resolved;
            same_user = same_user;
            same_organization = same_organization;
            has_user = user;
            has_organization = organization;
          }
    ]
  ]

  -- a disabled DevAuthenticator accepts nobody
  authenticate_dev-off :
      (enabled : Bool) (request : Request) (s : S)
      → enabled ≡ false
      → (authenticate_dev enabled request s).0 ≡ none
  unfolding authenticate_dev
  authenticate_dev-off enabled request s off = rw off refl

  otherwise-ok :
      (next : S → Option Principal × S) (result : Option Principal × S) (principal : Principal)
      → (otherwise next result).0 ≡ some principal
      → (result.0 ≡ some principal) ⊎ ((next result.1).0 ≡ some principal)
  otherwise-ok next (some found, s) principal h = inl h
  otherwise-ok next (none, s) principal h = inr h

  -- the one of two authenticators that accepts a request
  authenticate_any-two :
      (first second : Authenticator S) (request : Request) (s : S) (principal : Principal)
      → (authenticate_any (some first ∷ some second ∷ []) request s).0 ≡ some principal
      → ((first request s).0 ≡ some principal)
        ⊎ ((second request (first request s).1).0 ≡ some principal)
  unfolding authenticate_any
  authenticate_any-two first second request s principal h =
      elim (otherwise-ok _ (first request s) principal h) [
        | inl e ↦ inl e
        | inr e ↦ elim (otherwise-ok _ (second request (first request s).1) principal e) [
          | inl f ↦ inr f
          | inr f ↦ let stuck = f in cc stuck
        ]
      ]

  gate_of-ok :
      (o : Option Principal) (principal : Principal)
      → gate_of o ≡ admitted principal
      → o ≡ some principal
  gate_of-ok none principal h = cc
  gate_of-ok (some found) principal h =
      elim (Bool-cases (found.user_id =ₛ "" || found.organization_id =ₛ "")) [
        | inl e ↦ let stuck = rw e at h in cc stuck
        | inr e ↦ let same = rw e at h in cc same
      ]

  -- In production, that is with a configuration that Load has accepted for it, the API's middleware
  -- admits a request only for the principal of a session: the request's cookie is a token whose entry
  -- in the store is that session, the database resolves the session's user and organisation to the
  -- principal, and the principal has the session's user and organisation, neither empty.
  pub gate-IsOwn :
      (decoding : Decoding) (lookup : String → String) (cfg : Config) (request : Request) (s : S)
      (principal : Principal)
      → load decoding lookup ≡ inr cfg
      → cfg.environment ≡ "production"
      → (gate (some (api_authenticator kv json configured resolve_principal cfg)) request s).0
        ≡ admitted principal
      → IsOwn request s principal
  unfolding gate
  gate-IsOwn decoding lookup cfg request s principal loaded production h =
      let off = load-no_dev_login decoding lookup cfg loaded production in
      elim (authenticate_any-two (authenticate_session kv json configured resolve_principal)
        (authenticate_dev cfg.dev_login_enabled) request s principal (gate_of-ok _ principal h)) [
          | inl e ↦ authenticate_session-IsOwn request s principal e
          | inr e ↦
              let stuck = sym (authenticate_dev-off cfg.dev_login_enabled request _ off) ∙ e in
              cc stuck
        ]
