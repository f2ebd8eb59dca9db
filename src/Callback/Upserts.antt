-- ===== src/Callback/Upserts.antt =====
-- What the OAuth callback of internal/httpapi/integration_handlers.go writes.
use xg_mangement.Base.{
  String, true, false, Option, none, some, ◌⊎◌, inl, inr, ◌≡◌, refl, sym, ap, ◌∙◌, eq_iff,
  Bool-cases, Option-cases, ⊎-cases,
}
use xg_mangement.Errors.{GoError}
use xg_mangement.Sessions.{OauthState, Json, KeyValueStore, consume}
use xg_mangement.Sessions.Tokens.{consume-once}
use xg_mangement.Callback.{
  query_value, Authorization, Services, CallbackRequest, authorization_of, completed, upserted,
  after_consume, has_cookie, shopify_callback,
}
use xg_mangement.Callback.Authorized.{IsAuthorized, authorization_of-ok}

module _ {S D : Type 0} (v : Services) (kv : KeyValueStore S) (json : Json OauthState)
    (upsert : Authorization → D → Option GoError × D) (request : CallbackRequest) (s : S)
    (d : D) where
  -- An authorisation that is written, and the state that is used up for it.
  pub record IsWritten (after : S × D) : Type 0 where
    pub authorization : Authorization
    pub authorized : IsAuthorized v kv json request s authorization
    pub written : after.1 ≡ (upsert authorization d).1
    pub used_up :
        (provider : String)
        → (e : GoError) × ((consume kv json true (query_value "state" request) provider after.0).0
            ≡ inl e)

  upserted-store : (result : Option GoError × D) → (upserted v kv json upsert result).1 ≡ result.1
  upserted-store (none, d') = refl
  upserted-store (some e, d') = refl

  cookie-state :
      has_cookie v kv json upsert request ≡ true
      → request.cookie ≡ some (query_value "state" request)
  cookie-state h = elim (Option-cases request.cookie) [
    | inl n ↦ let stuck = rw (n, has_cookie) at h in cc stuck
    | inr (value, n) ↦
        n ∙ ap some ((eq_iff value (query_value "state" request)).0 (rw (n, has_cookie) at h))
  ]

  after_consume-IsWritten :
      (result : (GoError ⊎ OauthState) × S)
      → has_cookie v kv json upsert request ≡ true
      → consume kv json true (query_value "state" request) "shopify" s ≡ result
      → ((after_consume v kv json upsert request result d).1.1 ≡ d)
        ⊎ IsWritten (after_consume v kv json upsert request result d).1
  after_consume-IsWritten (inl e, s1) cookie h = inl refl
  after_consume-IsWritten (inr state, s1) cookie h =
      let ((payload, entry, decoded), provider, _, once, _) =
        consume-once kv json true (query_value "state" request) "shopify" s state
          (ap (λ r. r.0) h) in
      elim (⊎-cases (authorization_of v request state)) [
        | inl (reply, e) ↦ inl (ap (λ x. (completed v kv json upsert x d).1) e)
        | inr (authorization, e) ↦ inr (record {
          authorization = authorization;
          authorized =
              authorization_of-ok v kv json request s state payload authorization
                (cookie-state cookie) entry decoded provider e;
          written =
              ap (λ x. (completed v kv json upsert x d).1) e
              ∙ upserted-store (upsert authorization d);
          used_up = λ other.
              let (x, refused) = once other in
              (
                x,
                ap (λ r. (consume kv json true (query_value "state" request) other r.1).0) (sym h)
                    ∙ refused,
              );
        })
      ]

  -- The callback of Shopify's OAuth changes nothing in the repository, or writes one authorisation,
  -- for the organisation and the shop of a state that the store held for the request's token: the
  -- browser has the token in its cookie, the state was made for Shopify, the request is signed with the
  -- client secret of that organisation and names that shop, Shopify has exchanged its code for a token
  -- with both required scopes, which is what is stored, encrypted; and the state is used up, so that
  -- no later request can use it.
  pub shopify_callback-IsWritten :
      ((shopify_callback v kv json upsert request s d).1.1 ≡ d)
      ⊎ IsWritten (shopify_callback v kv json upsert request s d).1
  unfolding shopify_callback
  shopify_callback-IsWritten = elim (Bool-cases (has_cookie v kv json upsert request)) [
    | inr e ↦ inl (ap (λ r. r.1.1) (no_cookie e))
    | inl e ↦ rw (with_cookie e) (
        after_consume-IsWritten (consume kv json true (query_value "state" request) "shopify" s) e
          refl)
  ]
    where
      no_cookie :
          has_cookie v kv json upsert request ≡ false
          → shopify_callback v kv json upsert request s d
            ≡ (record { status = 400; code = "invalid_oauth_state" }, (s, d))
      no_cookie e = rw (e, shopify_callback) refl

      with_cookie :
          has_cookie v kv json upsert request ≡ true
          → shopify_callback v kv json upsert request s d
            ≡ after_consume v kv json upsert request
                (consume kv json true (query_value "state" request) "shopify" s)
                d
      with_cookie e = rw (e, shopify_callback) refl
