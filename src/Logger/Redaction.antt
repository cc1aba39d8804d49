-- ===== src/Logger/Redaction.antt =====
-- logger/logger.utils.ts and logger/logger.constants.ts: the paths whose values are redacted.
use Prim.Native.String
use program_capacity_invoice.Base.{String, List, [], ◌∷◌, ◌++◌}

-- SENSITIVE_FIELD_NAMES
abbrev pub sensitive_field_names : List String
sensitive_field_names =
    "password" ∷ "passwordConfirm" ∷ "currentPassword" ∷ "newPassword" ∷ "token" ∷ "accessToken"
    ∷ "refreshToken" ∷ "idToken" ∷ "apiKey" ∷ "secret" ∷ "clientSecret" ∷ "privateKey"
    ∷ "creditCard" ∷ "cardNumber" ∷ "cvv" ∷ "authorization" ∷ "cookie" ∷ "setCookie" ∷ []

abbrev pub header_paths : List String
header_paths =
    "req.headers.authorization" ∷ "req.headers.cookie" ∷ "req.headers['proxy-authorization']"
    ∷ "req.headers['x-api-key']" ∷ "req.headers['x-auth-token']" ∷ "req.headers['x-csrf-token']"
    ∷ "res.headers['set-cookie']" ∷ []

-- The `flatMap` over the names.
unfoldable pub field_paths : List String → List String
field_paths [] = []
field_paths (field ∷ fields) =
    field ∷ String.◌++◌ "*." field ∷ String.◌++◌ "req.body." field ∷ field_paths fields

unfoldable pub build_redaction_paths : List String
unfolding field_paths
build_redaction_paths = header_paths ++ field_paths sensitive_field_names
