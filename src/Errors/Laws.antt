-- ===== src/Errors/Laws.antt =====
-- common/errors/http-exception.filter.ts: the status and the code of an answer.
use program_capacity_invoice.Base.{
  ℕ, String, ◌==◌, true, ◌||◌, ◌≡◌, ◌⊎◌, ◌↔◌, refl, inl, inr, Option, none, some, List, [], arith,
  leb, Bool-cases,
}
use program_capacity_invoice.Errors.Codes.{
  ErrorCode, internal_error, error_code_http_status, Exception, app, prisma_known, http,
  plain_error,
}
use program_capacity_invoice.Errors.Filter.{
  ErrorResponse, includes, http_status_to_error_code, from_code, unexpected, resolve_unique,
  resolve, logs_unhandled,
}

-- What the service throws itself, and the statuses of NestJS that have a code.
abbrev pub HasCode : Exception → Type 0
HasCode (app error) = error.http_status ≡ error_code_http_status error.code
HasCode (prisma_known code target) = Unit
HasCode (http status payload own) =
    (status ≡ 401) ⊎ (status ≡ 403) ⊎ (status ≡ 400) ⊎ (status ≡ 404) ⊎ (status ≡ 500)
HasCode plain_error = Unit

-- The status is the one of the code, and exactly internal errors are logged as unhandled.
pub record Agrees (response : ErrorResponse) : Type 0 where
  pub status : response.status ≡ error_code_http_status response.body.code
  pub logged : (logs_unhandled response ≡ true) ↔ (response.body.code ≡ internal_error)

logged_lem :
    (code : ErrorCode) → (leb 500 (error_code_http_status code) ≡ true) ↔ (code ≡ internal_error)
logged_lem code = (λ h. ground arith, λ e. rw e refl)

agrees :
    (response : ErrorResponse)
    → response.status ≡ error_code_http_status response.body.code
    → Agrees response
unfolding logs_unhandled
agrees response same = record { status = same; logged = rw same (logged_lem response.body.code) }

http_status_lem :
    (status : ℕ)
    → (status ≡ 401) ⊎ (status ≡ 403) ⊎ (status ≡ 400) ⊎ (status ≡ 404) ⊎ (status ≡ 500)
    → status ≡ error_code_http_status (http_status_to_error_code status)
unfolding http_status_to_error_code
http_status_lem status h = ground arith

unique_lem :
    (target : List String) (id : Option String)
    → (resolve_unique target id).status
      ≡ error_code_http_status (resolve_unique target id).body.code
unfolding resolve_unique from_code unexpected
unique_lem target id =
    elim (Bool-cases (includes target "invoiceId" || includes target "invoice_id")) [
      | inl taken ↦ rw taken refl
      | inr free ↦
          elim (Bool-cases
            (includes target "externalMessageId" || includes target "external_message_id")) [
              | inl seen ↦ rw (free, seen) refl
              | inr none_of ↦ rw (free, none_of) refl
            ]
    ]

-- An exception of the service, of Prisma, of JavaScript, or of NestJS with status 400, 401, 403, 404
-- or 500 is answered with the status of the code in the body, and it is logged as unhandled exactly
-- if that code is INTERNAL_ERROR.
pub resolve-Agrees :
    (e : Exception) (request_id : Option String) → HasCode e → Agrees (resolve e request_id)
unfolding resolve unexpected
resolve-Agrees (app error) id h = agrees _ h
resolve-Agrees (prisma_known code target) id h = elim (Bool-cases (code == "P2002")) [
  | inl unique ↦
      rw unique (agrees _ (unique_lem (elim target [ none ↦ [] | some names ↦ names ]) id))
  | inr other ↦ rw other (agrees _ refl)
]
resolve-Agrees (http status payload own) id h = agrees _ (http_status_lem status h)
resolve-Agrees plain_error id h = agrees _ refl
