-- ===== src/Http/Request.antt =====
-- What the service reads of an HTTP request, and what it attaches to it: auth/ and logger/.
use program_capacity_invoice.Base.{String, Option, List}

-- The value of a header: `string | string[]`.
pub data HeaderValue : Type 0 where
  one : String → HeaderValue
  many : List String → HeaderValue

-- `Record<string, string | string[] | undefined>`, by names in lower case.
abbrev pub Headers : Type 0
Headers = String → Option HeaderValue

-- AuthenticatedUser
pub record AuthenticatedUser : Type 0 where
  pub sub : String
  pub scopes : List String

pub record Request : Type 0 where
  pub headers : Headers
  -- attached by the middleware, and by the guard
  pub id : Option String
  pub user : Option AuthenticatedUser
