-- ===== src/Auth/Bearer.antt =====
-- The bearer tokens that auth/jwt-auth.guard.ts reads from a header.
use Prim.Native.String
use program_capacity_invoice.Base.{
  String, eq_iff, true, ◌≡◌, ◌≢◌, refl, sym, ◌∙◌, ap, Option, none, some, List, [], ◌∷◌, arith, ◌↔◌,
}
use mathlib.Core.Path.{subst}
use text.Mathlib.TextLemmas.{append-nil, cons-append}
use program_capacity_invoice.Base.Words.{
  is_text, Lacks, split, split-append, split-Lacks, split-Splits, whole, at,
}
use program_capacity_invoice.Auth.Guards.{token_of, bearer_token}

-- What may follow the token: nothing, or a space and any text.
abbrev pub ending : Option String → String
ending none = ""
ending (some rest) = String.◌∷◌ " " rest

-- "Bearer", a space, and the token up to the next space.
pub record IsBearer (header token : String) : Type 0 where
  pub rest : Option String
  pub is : header ≡ String.◌++◌ "Bearer" (String.◌∷◌ " " (String.◌++◌ token (ending rest)))
  pub nonempty : is_text token ≡ true
  pub word : Lacks " " token

token_of_first :
    (scheme token : String) (parts : List String)
    → is_text token ≡ true
    → scheme ≡ "Bearer"
    → token_of (scheme ∷ token ∷ parts) ≡ some token
unfolding token_of
token_of_first scheme token parts h is = ground (arith, eq_iff scheme "Bearer")

split_token :
    (token : String) (rest : Option String)
    → Lacks " " token
    → (parts : List String) × (split " " (String.◌++◌ token (ending rest)) ≡ token ∷ parts)
split_token token none h = ([], rw append-nil (split-Lacks " " token h))
split_token token (some rest) h = (split " " rest, split-append " " token rest h)

is_text-append : (s t : String) → is_text s ≡ true → is_text (String.◌++◌ s t) ≡ true
is_text-append String.[] t h = cc
is_text-append (String.◌∷◌ c s) t h = rw (cons-append c s t) refl

token_of-eq_some :
    (scheme first : String) (parts : List String) (token : String)
    → token_of (scheme ∷ first ∷ parts) ≡ some token
    → (scheme ≡ "Bearer") × (is_text first ≡ true) × (first ≡ token)
unfolding token_of
token_of-eq_some scheme first parts token h = ground (arith, eq_iff scheme "Bearer")

-- A header whose first part is the scheme.
header_Bearer :
    (part rest token : String)
    → token_of (part ∷ split " " rest) ≡ some token
    → IsBearer (String.◌++◌ part (String.◌∷◌ " " rest)) token
header_Bearer part rest token h = elim (split-Splits " " rest) [
  | whole lacks same ↦
      let (scheme, text, is) =
        token_of-eq_some part rest [] token
          (subst (λ x. token_of (part ∷ x) ≡ some token) same h) in
      record {
        rest = none;
        is = rw (scheme, is, append-nil token) refl;
        nonempty = subst (λ x. is_text x ≡ true) is text;
        word = subst (Lacks " ") is lacks;
      }
  | at first more lacks same parts ↦
      let (scheme, text, is) =
        token_of-eq_some part first (split " " more) token
          (subst (λ x. token_of (part ∷ x) ≡ some token) parts h) in
      record {
        rest = some more;
        is = rw (scheme, same, is) refl;
        nonempty = subst (λ x. is_text x ≡ true) is text;
        word = subst (Lacks " ") is lacks;
      }
]

token_of_one : (s token : String) → token_of (s ∷ []) ≢ some token
unfolding token_of
token_of_one s token e = cc

bearer_token-IsBearer :
    (header token : String) → bearer_token header ≡ some token → IsBearer header token
unfolding bearer_token
bearer_token-IsBearer header token h =
    let found : token_of (split " " header) ≡ some token = ground arith in
    elim (split-Splits " " header) [
      | whole lacks same ↦
          absurd (token_of_one header token (subst (λ x. token_of x ≡ some token) same found))
      | at part rest lacks same parts ↦
          subst (λ x. IsBearer x token) (sym same)
            (header_Bearer part rest token (subst (λ x. token_of x ≡ some token) parts found))
    ]

IsBearer-bearer_token :
    (header token : String) → IsBearer header token → bearer_token header ≡ some token
unfolding bearer_token
IsBearer-bearer_token header token b =
    let (parts, cut) = split_token token b.rest b.word in
    let at_header : split " " header ≡ "Bearer" ∷ token ∷ parts =
      ap (split " ") b.is
      ∙ split-append " " "Bearer" (String.◌++◌ token (ending b.rest))
          (refl, (refl, (refl, (refl, (refl, (refl, tt))))))
      ∙ ap (λ x. "Bearer" ∷ x) cut in
    let text : is_text header ≡ true =
      ap is_text b.is
      ∙ is_text-append "Bearer" (String.◌∷◌ " " (String.◌++◌ token (ending b.rest))) refl in
    rw (text, at_header) (token_of_first "Bearer" token parts b.nonempty refl)

-- The guard reads a token from a header exactly if the header is the word Bearer, a space, and the
-- token, a text without spaces that is not empty, with nothing behind it but what a space separates.
pub bearer_token_lem :
    (header token : String) → (bearer_token header ≡ some token) ↔ IsBearer header token
bearer_token_lem header token =
    (bearer_token-IsBearer header token, IsBearer-bearer_token header token)
