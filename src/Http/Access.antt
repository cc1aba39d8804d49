-- ===== src/Http/Access.antt =====
-- Who may do what: the guards of auth/ before the handlers of the controllers.
use program_capacity_invoice.Base.{
  String, true, ◌≡◌, refl, ◌∙◌, ap, ◌↔◌, ◌⊎◌, inl, inr, Option, none, some, List, [], ◌∷◌, Date,
  Bool-cases, Option-cases,
}
use program_capacity_invoice.Errors.{Exception, plain_error, Result, ok, fail}
use program_capacity_invoice.Errors.Filter.{includes}
use program_capacity_invoice.Http.Request.{one, many, HeaderValue, Headers, Request}
use program_capacity_invoice.Http.Controllers.{scopes}
use program_capacity_invoice.Http.Server.{pass_token, pass_scopes, pass_guards}
use program_capacity_invoice.Auth.Guards.{
  JwtService, JwtPayload, ScopeClaim, worded, other, readable, with_claim, extract_bearer_token,
  bearer_token, check_token, verified, jwt_can_activate, scopes_can_activate, check_scopes,
  has_all_scopes, granted, user_of, with_payload, header_token, missing_token, invalid_token,
  insufficient_scope,
}
use program_capacity_invoice.Auth.Bearer.{IsBearer, bearer_token_lem}

module _ (jwt : JwtService) (now : Date) where
  -- The request carries a bearer token that verifies, with the scope among those of its claim.
  pub record Holds (headers : Headers) (scope : String) : Type 0 where
    pub header : String
    pub token : String
    pub payload : JwtPayload
    pub sent : headers "authorization" ≡ some (one header)
    pub bearer : IsBearer header token
    pub verifies : jwt.verify_async now token ≡ some payload
    pub claim : Option String
    pub claims : readable payload.scope ≡ ok claim
    pub has_scope : includes (granted claim) scope ≡ true

  -- Why a request is turned away.
  pub data Denies (headers : Headers) (scope : String) (e : Exception) : Type 0 where
    unauthenticated : (e ≡ missing_token) ⊎ (e ≡ invalid_token) → Denies headers scope e
    forbidden : e ≡ insufficient_scope (scope ∷ []) → Denies headers scope e
    unreadable :
        (values : List String)
        → headers "authorization" ≡ some (many values)
        → e ≡ plain_error
        → Denies headers scope e
    untyped :
        (token : String) (payload : JwtPayload)
        → jwt.verify_async now token ≡ some payload
        → payload.scope ≡ some other
        → e ≡ plain_error
        → Denies headers scope e

  -- What the guards say of a request.
  pub data Verdict (request : Request) (scope : String) (r : Result Request) : Type 0 where
    admits :
        (admitted : Request)
        → r ≡ ok admitted
        → Holds request.headers scope
        → Verdict request scope r
    denies : (e : Exception) → r ≡ fail e → Denies request.headers scope e → Verdict request scope r

  module _ (request : Request) (scope : String) where
    -- The guards, from what was read of the header on.
    guard_token : Result (Option String) → Result Request
    unfolding pass_token
    guard_token token = pass_token (scopes scope) (check_token jwt now request token)

    token_Verdict :
        (header token : String)
        → request.headers "authorization" ≡ some (one header)
        → IsBearer header token
        → Verdict request scope (guard_token (ok (some token)))
    unfolding guard_token pass_token check_token verified pass_scopes scopes_can_activate
        check_scopes has_all_scopes
    token_Verdict header token sent bearer = by_payload (jwt.verify_async now token) refl
      where
        by_payload :
            (found : Option JwtPayload)
            → jwt.verify_async now token ≡ found
            → Verdict request scope (pass_token (scopes scope) (with_payload request found))
        by_payload none is = denies invalid_token refl (unauthenticated (inr refl))
        by_payload (some payload) is = by_claim payload.scope refl
          where
            by_text :
                (claim : Option String)
                → readable payload.scope ≡ ok claim
                → Verdict request scope
                    (pass_token (scopes scope) (with_claim request payload (ok claim)))
            by_text claim claims = elim (Bool-cases (includes (granted claim) scope)) [
              | inl has ↦
                  admits (record request { user = some (user_of payload claim) }) (rw has refl)
                    (record {
                      header = header;
                      token = token;
                      payload = payload;
                      sent = sent;
                      bearer = bearer;
                      verifies = is;
                      claim = claim;
                      claims = claims;
                      has_scope = has;
                    })
              | inr lacks ↦
                  denies (insufficient_scope (scope ∷ [])) (rw lacks refl) (forbidden refl)
            ]

            by_claim :
                (found : Option ScopeClaim)
                → payload.scope ≡ found
                → Verdict request scope
                    (pass_token (scopes scope) (with_claim request payload (readable found)))
            by_claim none at = by_text none (ap readable at)
            by_claim (some (worded claim)) at = by_text (some claim) (ap readable at)
            by_claim (some other) at = denies plain_error refl (untyped token payload is at refl)

    header_Verdict :
        (header : String)
        → request.headers "authorization" ≡ some (one header)
        → Verdict request scope (guard_token (ok (bearer_token header)))
    unfolding guard_token pass_token check_token verified
    header_Verdict header sent = elim (Option-cases (bearer_token header)) [
      | inl absent ↦ rw absent (denies missing_token refl (unauthenticated (inl refl)))
      | inr (token, is) ↦
          rw is (token_Verdict header token sent ((bearer_token_lem header token).0 is))
    ]

    pub guards_Verdict : Verdict request scope (pass_guards jwt now (scopes scope) request)
    unfolding pass_guards jwt_can_activate extract_bearer_token guard_token check_token verified
        pass_token
    guards_Verdict = by_header (request.headers "authorization") refl
      where
        by_header :
            (found : Option HeaderValue)
            → request.headers "authorization" ≡ found
            → Verdict request scope (guard_token (header_token found))
        by_header none is = denies missing_token refl (unauthenticated (inl refl))
        by_header (some (one header)) is = header_Verdict header is
        by_header (some (many values)) is = denies plain_error refl (unreadable values is refl)

    extract_lem :
        (h : Holds request.headers scope) → extract_bearer_token request.headers ≡ ok (some h.token)
    unfolding extract_bearer_token
    extract_lem h = rw (h.sent, (bearer_token_lem h.header h.token).1 h.bearer) refl

    guard_token_lem :
        (h : Holds request.headers scope)
        → guard_token (ok (some h.token))
          ≡ ok (record request { user = some (user_of h.payload h.claim) })
    unfolding guard_token pass_token check_token verified pass_scopes scopes_can_activate
        check_scopes has_all_scopes
    guard_token_lem h = rw (h.verifies, h.claims, h.has_scope) refl

    Holds-admitted :
        Holds request.headers scope
        → (admitted : Request) × (pass_guards jwt now (scopes scope) request ≡ ok admitted)
    unfolding pass_guards jwt_can_activate guard_token
    Holds-admitted h = (_, ap guard_token (extract_lem h) ∙ guard_token_lem h)

    admitted-Holds :
        (r : Result Request) (admitted : Request)
        → Verdict request scope r
        → r ≡ ok admitted
        → Holds request.headers scope
    admitted-Holds r admitted (admits _ _ holds) h = holds
    admitted-Holds r admitted (denies e is _) h = absurd (cc (is, h))

    -- The guards let a request to a handler with a scope exactly if it carries a bearer token that
    -- verifies, with that scope among those of its claim.
    pub pass_guards_lem :
        ((admitted : Request) × (pass_guards jwt now (scopes scope) request ≡ ok admitted))
        ↔ Holds request.headers scope
    pass_guards_lem =
        (λ (admitted, is). admitted-Holds _ admitted guards_Verdict is, Holds-admitted)
