-- ===== src/Auth/Guards.antt =====
-- auth/jwt-auth.guard.ts and auth/scopes.guard.ts. The JWT library is a parameter; what a handler's
-- decorators say is what the `Reflector` answers for it.
use program_capacity_invoice.Base.{
  String, ◌==◌, Bool, true, not, ◌&&◌, ◌||◌, Option, none, some, List, [], ◌∷◌, Date, strings,
  if◌then◌else◌,
}
use program_capacity_invoice.Base.Int.{ℤ}
use program_capacity_invoice.Base.Words.{split, is_text}
use program_capacity_invoice.Errors.{
  unauthorized, forbidden, app_error, app, plain_error, Exception, Result, ok, fail,
}
use program_capacity_invoice.Errors.Filter.{includes}
use program_capacity_invoice.Http.Request.{
  one, many, HeaderValue, Headers, AuthenticatedUser, Request,
}

-- A token's `scope` claim as it comes: a text, or another JSON value. The payload is not validated.
pub data ScopeClaim : Type 0 where
  worded : String → ScopeClaim
  other : ScopeClaim

-- JwtPayload. A claim that is `null` is absent; `sub` is passed on and not read.
pub record JwtPayload : Type 0 where
  pub sub : String
  pub scope : Option ScopeClaim
  pub iat : ℤ
  pub exp : ℤ

-- `verifyAsync`, at a time and with the service's secret: `none` where it rejects.
pub record JwtService : Type 0 where
  pub verify_async : Date → String → Option JwtPayload

-- `@Public()` and `@Scopes(...)` on the handler, or else on its class.
pub record Metadata : Type 0 where
  pub is_public : Option Bool
  pub scopes : Option (List String)

-- `const [scheme, token] = ...`
unfoldable pub token_of : List String → Option String
token_of [] = none
token_of (scheme ∷ []) = none
token_of (scheme ∷ token ∷ rest) =
    if not (scheme == "Bearer") || not (is_text token) then none else some token

unfoldable pub bearer_token : String → Option String
unfolding split token_of
bearer_token header = if is_text header then token_of (split " " header) else none

-- The token in the header; an array has no `split`.
abbrev pub header_token : Option HeaderValue → Result (Option String)
header_token none = ok none
header_token (some (one header)) = ok (bearer_token header)
header_token (some (many values)) = fail plain_error

-- `extractBearerToken`
unfoldable pub extract_bearer_token : Headers → Result (Option String)
unfolding bearer_token
extract_bearer_token headers = header_token (headers "authorization")

-- `.filter(Boolean)`
unfoldable pub texts : List String → List String
texts [] = []
texts (part ∷ parts) = let rest = texts parts in if is_text part then part ∷ rest else rest

-- `payload.scope ?? ''`
abbrev pub scope_text : Option String → String
scope_text none = ""
scope_text (some text) = text

-- `(payload.scope ?? '').split(' ').filter(Boolean)`
unfoldable pub granted : Option String → List String
unfolding split texts
granted scope = texts (split " " (scope_text scope))

abbrev pub missing_token : Exception
missing_token = app (app_error unauthorized "Missing bearer token." none)

abbrev pub invalid_token : Exception
invalid_token = app (app_error unauthorized "Invalid or expired token." none)

-- The claim as a text: another value has no `split`, and the TypeError is not caught.
abbrev pub readable : Option ScopeClaim → Result (Option String)
readable none = ok none
readable (some (worded claim)) = ok (some claim)
readable (some other) = fail plain_error

abbrev pub user_of : JwtPayload → Option String → AuthenticatedUser
user_of payload claim = record { sub = payload.sub; scopes = granted claim }

abbrev pub with_claim : Request → JwtPayload → Result (Option String) → Result (Bool × Request)
with_claim request payload (fail e) = fail e
with_claim request payload (ok claim) =
    ok (true, record request { user = some (user_of payload claim) })

-- The user of a verified token is attached to the request.
abbrev pub with_payload : Request → Option JwtPayload → Result (Bool × Request)
with_payload request none = fail invalid_token
with_payload request (some payload) = with_claim request payload (readable payload.scope)

module _ (jwt : JwtService) (now : Date) where
  unfoldable pub verified : Request → Option String → Result (Bool × Request)
  verified request none = fail missing_token
  verified request (some token) = with_payload request (jwt.verify_async now token)

  unfoldable pub check_token : Request → Result (Option String) → Result (Bool × Request)
  unfolding verified
  check_token request (fail e) = fail e
  check_token request (ok token) = verified request token

  -- `JwtAuthGuard.canActivate`
  unfoldable pub jwt_can_activate : Metadata → Request → Result (Bool × Request)
  unfolding check_token extract_bearer_token
  jwt_can_activate metadata request = elim metadata.is_public [
    | some true ↦ ok (true, request)
    | _ ↦ check_token request (extract_bearer_token request.headers)
  ]

-- `requiredScopes.every((scope) => userScopes.includes(scope))`
unfoldable pub has_all_scopes : List String → List String → Bool
has_all_scopes [] user_scopes = true
has_all_scopes (scope ∷ required) user_scopes =
    includes user_scopes scope && has_all_scopes required user_scopes

abbrev pub insufficient_scope : List String → Exception
insufficient_scope required = app (
    app_error forbidden "Insufficient scope for this operation."
      (some (("requiredScopes", strings required) ∷ [])))

-- `user?.scopes ?? []`
abbrev pub user_scopes : Request → List String
user_scopes request = elim request.user [ none ↦ [] | some user ↦ user.scopes ]

unfoldable pub check_scopes : List String → Request → Result Bool
unfolding has_all_scopes
check_scopes [] request = ok true
check_scopes (scope ∷ required) request =
    if not (has_all_scopes (scope ∷ required) (user_scopes request))
    then fail (insufficient_scope (scope ∷ required))
    else ok true

-- `ScopesGuard.canActivate`
unfoldable pub scopes_can_activate : Metadata → Request → Result Bool
unfolding check_scopes
scopes_can_activate metadata request = elim metadata.scopes [
  | none ↦ ok true
  | some required ↦ check_scopes required request
]
