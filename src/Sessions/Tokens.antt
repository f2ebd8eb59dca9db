-- ===== src/Sessions/Tokens.antt =====
-- What a token of internal/auth/session.go stands for.
use xg_mangement.Base.{
  String, Bool, true, false, not, ◌||◌, Option, none, some, ◌⊎◌, inl, inr, ◌≡◌, ◌≢◌, refl, sym, ap,
  ◌∙◌, ◌=ₛ◌, is_blank, trim_space, arith, ⊎-cases, Bool-cases, eq_iff, first, first-append,
}
use xg_mangement.Errors.{GoError}
use xg_mangement.Sessions.{
  SessionRecord, OauthState, Json, KeyValueStore, session_key, state_key, stored, create, read,
  session_found, session_of, consume, state_found, state_of,
}

-- encoding/json reads back what it has written
abbrev pub ReadsBack : {A : Type 0} → Json A → Type 0
ReadsBack {A} json = (a : A) → json.unmarshal (json.marshal a) ≡ some a

-- The two kinds of keys differ.
session_key-state_key : (a b : String) → session_key a ≢ state_key b
unfolding first
session_key-state_key a b h = omega (
  arith,
  first-append "session:" a (omega arith),
  first-append "oauth_state:" b (omega arith),
  ap first h,
)

state_key-session_key : (a b : String) → state_key a ≢ session_key b
state_key-session_key a b h = session_key-state_key b a (sym h)

guard_passed : (c u o : Bool) → (not c || u || o) ≡ false → (c ≡ true) × (u ≡ false) × (o ≡ false)
guard_passed true false false h = (refl, refl, refl)
guard_passed true false true h = cc
guard_passed true true o h = cc
guard_passed false u o h = cc

inr_injective : {A : Type 0} {x y : A} → ◌≡◌ {A = GoError ⊎ A} (inr x) (inr y) → x ≡ y
inr_injective q = cc

some_injective : {A : Type 0} {x y : A} → ◌≡◌ {A = Option A} (some x) (some y) → x ≡ y
some_injective q = cc

none_some : {A : Type 0} {x : A} → ◌≢◌ {A = Option A} none (some x)
none_some q = cc

module _ {S : Type 0} (kv : KeyValueStore S) where
  stored-ok :
      (text token : String) (result : Option GoError × S) (found : String) (s : S)
      → stored text token result ≡ (inr found, s)
      → (token ≡ found) × (result ≡ (none, s))
  stored-ok text token (none, s') found s h = (cc, cc)
  stored-ok text token (some e, s') found s h = let stuck = ap (λ p. p.0) h in cc stuck

  module _ (json : Json SessionRecord) (configured : Bool) where
    -- A session that Create stores.
    create-stored :
        (random : GoError ⊎ String) (user_id organization_id token : String) (s s1 : S)
        → create kv json configured random user_id organization_id s ≡ (inr token, s1)
        → (configured ≡ true)
          × (is_blank user_id ≡ false)
          × (is_blank organization_id ≡ false)
          × (random ≡ inr token)
          × (kv.set
                (session_key token)
                (json.marshal (record { user_id = user_id; organization_id = organization_id }))
                s
              ≡ (none, s1))
    unfolding create
    create-stored random user_id organization_id token s s1 h =
        elim (Bool-cases (not configured || is_blank user_id || is_blank organization_id)) [
          | inl e ↦ let stuck = ap (λ p. p.0) (rw e at h) in cc stuck
          | inr e ↦ elim (⊎-cases random) [
            | inl (x, f) ↦ let stuck = ap (λ p. p.0) (rw (e, f) at h) in cc stuck
            | inr (t, f) ↦
                let (same, result) = stored-ok "store session" t _ token s1 (rw (e, f) at h) in
                let (c, u, o) =
                  guard_passed configured (is_blank user_id) (is_blank organization_id) e in
                (c, u, o, f ∙ ap inr same, rw (← same) result)
          ]
        ]

    -- not blank, not empty
    not_empty : (s : String) → is_blank s ≡ false → (s =ₛ "") ≡ false
    unfolding trim_space
    not_empty s h = elim (Bool-cases (s =ₛ "")) [
      | inr e ↦ e
      | inl e ↦ let same : s ≡ "" = (eq_iff s "").0 e in let stuck = rw same at h in cc stuck
    ]

    session_found-value :
        (result : (GoError ⊎ String) × S) (payload : String)
        → result.0 ≡ inr payload
        → (session_found kv json configured result).0
          ≡ session_of kv json configured (json.unmarshal payload)
    session_found-value (inl e, s) payload h = cc
    session_found-value (inr v, s) payload h =
        ap (λ w. session_of kv json configured (json.unmarshal w)) (inr_injective h)

    session_of-record :
        (r : SessionRecord)
        → is_blank r.user_id ≡ false
        → is_blank r.organization_id ≡ false
        → session_of kv json configured (some r) ≡ inr r
    session_of-record r u o = rw (not_empty r.user_id u, not_empty r.organization_id o) refl

    -- Read, while the entry of a token holds a record.
    read-entry :
        (token payload : String) (r : SessionRecord) (s : S)
        → configured ≡ true
        → is_blank token ≡ false
        → kv.entry (session_key token) s ≡ some payload
        → session_of kv json configured (json.unmarshal payload) ≡ inr r
        → ((read kv json configured token s).0 ≡ inr r)
          ⊎ ((e : GoError) × ((kv.get (session_key token) s).0 ≡ inl e))
    unfolding read
    read-entry token payload r s c t entry found = elim (⊎-cases (kv.get (session_key token) s).0) [
      | inl missed ↦ inr missed
      | inr (value, got) ↦
          let same : value ≡ payload =
            some_injective (sym (kv.get-entry (session_key token) value s got) ∙ entry) in
          inl (
            rw (c, t)
              (session_found-value (kv.get (session_key token) s) payload (got ∙ ap inr same)
                ∙ found))
    ]

    -- A session that Create returned without an error reads back: while its entry is in the store,
    -- Read of its token returns just that user and that organisation, or the error of the store's Get,
    -- for a random token that is not blank and a JSON codec that reads back what it writes.
    pub read-create :
        (random : GoError ⊎ String) (user_id organization_id token : String) (s s1 s2 : S)
        → ReadsBack json
        → is_blank token ≡ false
        → create kv json configured random user_id organization_id s ≡ (inr token, s1)
        → kv.entry (session_key token) s2 ≡ kv.entry (session_key token) s1
        → ((read kv json configured token s2).0
            ≡ inr (record { user_id = user_id; organization_id = organization_id }))
          ⊎ ((e : GoError) × ((kv.get (session_key token) s2).0 ≡ inl e))
    read-create random user_id organization_id token s s1 s2 back token_text h kept =
        let (c, u, o, drawn, set) = create-stored random user_id organization_id token s s1 h in
        let r : SessionRecord = record { user_id = user_id; organization_id = organization_id } in
        let entry = kv.set-entry (session_key token) (json.marshal r) s (ap (λ p. p.0) set) in
        read-entry token (json.marshal r) r s2 c token_text
          (kept ∙ ap (λ p. kv.entry (session_key token) p.1) (sym set) ∙ entry)
          (ap (session_of kv json configured) (back r) ∙ session_of-record r u o)

  module _ (json : Json OauthState) (configured : Bool) where
    state_found-value :
        (provider : String) (result : (GoError ⊎ String) × S) (found : OauthState)
        → (state_found kv json configured provider result).0 ≡ inr found
        → (payload : String) × (result.0 ≡ inr payload)
          × (state_of kv json configured provider (json.unmarshal payload) ≡ inr found)
    state_found-value provider (inl e, s) found h = cc
    state_found-value provider (inr payload, s) found h = (payload, refl, h)

    state_found-store :
        (provider : String) (result : (GoError ⊎ String) × S)
        → (state_found kv json configured provider result).1 ≡ result.1
    state_found-store provider (inl e, s) = refl
    state_found-store provider (inr payload, s) = refl

    -- what a successful Consume has taken out of the store
    consume-taken :
        (token provider : String) (s : S) (found : OauthState)
        → (consume kv json configured token provider s).0 ≡ inr found
        → (payload : String) × ((kv.get_delete (state_key token) s).0 ≡ inr payload)
          × (state_of kv json configured provider (json.unmarshal payload) ≡ inr found)
          × ((consume kv json configured token provider s).1
              ≡ (kv.get_delete (state_key token) s).1)
    unfolding consume
    consume-taken token provider s found h = elim (Bool-cases (not configured || token =ₛ "")) [
      | inl e ↦ let stuck = rw e at h in cc stuck
      | inr e ↦
          let (payload, got, state) =
            state_found-value provider (kv.get_delete (state_key token) s) found (rw e at h) in
          (
            payload,
            got,
            state,
            rw e (state_found-store provider (kv.get_delete (state_key token) s)),
          )
    ]

    state_of-ok :
        (provider : String) (o : Option OauthState) (found : OauthState)
        → state_of kv json configured provider o ≡ inr found
        → (o ≡ some found) × (found.provider ≡ provider) × (found.organization_id ≢ "")
    state_of-ok provider none found h = cc
    state_of-ok provider (some state) found h =
        elim (Bool-cases (not (state.provider =ₛ provider) || state.organization_id =ₛ "")) [
          | inl e ↦ let stuck = rw e at h in cc stuck
          | inr e ↦
              let same : state ≡ found = inr_injective (rw e at h) in
              rw (← same) (
                refl,
                ground (arith, e, eq_iff state.provider provider),
                λ empty. ground (arith, e, empty, eq_iff state.organization_id ""),
              )
        ]

    -- An OAuth state that Consume returns is the one that the store held for the token: it is for the
    -- provider asked for and names an organisation, and the entry is gone, so that every later Consume
    -- of the token, for whatever provider, is an error, and no session is touched.
    pub consume-once :
        (token provider : String) (s : S) (found : OauthState)
        → (consume kv json configured token provider s).0 ≡ inr found
        → ((payload : String) × (kv.entry (state_key token) s ≡ some payload)
            × (json.unmarshal payload ≡ some found))
          × (found.provider ≡ provider)
          × (found.organization_id ≢ "")
          × ((other : String)
              → (e : GoError) × ((consume kv json configured token other
                    (consume kv json configured token provider s).1).0
                  ≡ inl e))
          × ((session : String)
              → kv.entry (session_key session) (consume kv json configured token provider s).1
                ≡ kv.entry (session_key session) s)
    consume-once token provider s found h =
        let (payload, got, state, left) = consume-taken token provider s found h in
        let (held, gone) = kv.get_delete-entry (state_key token) payload s got in
        let (decoded, same_provider, organization) =
          state_of-ok provider (json.unmarshal payload) found state in
        (
          (payload, held, decoded),
          same_provider,
          organization,
          (λ other.
              consumed other (consume kv json configured token provider s).1
                (ap (kv.entry (state_key token)) left ∙ gone)),
          λ session.
              ap (kv.entry (session_key session)) left
              ∙ kv.get_delete-other (state_key token) (session_key session) s
                  (state_key-session_key token session),
        )
      where
        consumed :
            (other : String) (later : S)
            → kv.entry (state_key token) later ≡ none
            → (e : GoError) × ((consume kv json configured token other later).0 ≡ inl e)
        consumed other later gone =
            elim (⊎-cases (consume kv json configured token other later).0) [
              | inl missed ↦ missed
              | inr (found', again) ↦
                  let (payload, got, _, _) = consume-taken token other later found' again in
                  let held = (kv.get_delete-entry (state_key token) payload later got).0 in
                  let stuck = sym gone ∙ held in absurd (none_some stuck)
            ]
