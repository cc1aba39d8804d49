-- ===== src/Auth/Granted.antt =====
-- The scopes that auth/jwt-auth.guard.ts reads from a token's `scope` claim, and what
-- auth/scopes.guard.ts asks of them.
use program_capacity_invoice.Base.{
  String, true, ◌≡◌, refl, ◌∙◌, ap, Option, none, some, List, [], ◌∷◌, arith, Bool-cases, inl, inr,
}
use program_capacity_invoice.Base.Rows.{All}
use program_capacity_invoice.Base.Words.{
  is_text, Lacks, AllLack, split, join, split-join, split-AllLack,
}
use program_capacity_invoice.Errors.Filter.{includes}
use program_capacity_invoice.Auth.Guards.{texts, scope_text, granted, has_all_scopes}

-- A scope that can stand in the claim: a text without spaces that is not empty.
pub record IsScope (scope : String) : Type 0 where
  pub nonempty : is_text scope ≡ true
  pub word : Lacks " " scope

texts_lem : (scopes : List String) → All IsScope scopes → texts scopes ≡ scopes
unfolding texts
texts_lem [] h = refl
texts_lem (scope ∷ scopes) h = rw (h.0.nonempty, texts_lem scopes h.1) refl

scopes_lack : (scopes : List String) → All IsScope scopes → AllLack " " scopes
scopes_lack [] h = tt
scopes_lack (scope ∷ scopes) h = (h.0.word, scopes_lack scopes h.1)

texts-IsScope : (parts : List String) → AllLack " " parts → All IsScope (texts parts)
unfolding texts
texts-IsScope [] h = tt
texts-IsScope (part ∷ parts) h = elim (Bool-cases (is_text part)) [
  | inl text ↦ rw text (record { nonempty = text; word = h.0 }, texts-IsScope parts h.1)
  | inr empty ↦ rw empty (texts-IsScope parts h.1)
]

-- The scopes of a token are the parts of its `scope` claim: no scope is empty or has a space, a token
-- without the claim has none, and any list of scopes written with spaces between is read back.
pub granted-join :
    (claim : Option String) (scopes : List String)
    → All IsScope scopes
    → (granted none ≡ [])
      × All IsScope (granted claim)
      × (granted (some (join " " scopes)) ≡ scopes)
unfolding granted split texts
granted-join claim [] h = (
  refl,
  texts-IsScope (split " " (scope_text claim)) (split-AllLack " " (scope_text claim)),
  unfold join in refl,
)
granted-join claim (scope ∷ scopes) h = (
  refl,
  texts-IsScope (split " " (scope_text claim)) (split-AllLack " " (scope_text claim)),
  ap texts (split-join " " scope scopes (scopes_lack (scope ∷ scopes) h))
      ∙ texts_lem (scope ∷ scopes) h,
)

-- Every scope that is required is among those of the user.
pub has_all_scopes_lem :
    (required scopes : List String)
    → has_all_scopes required scopes ≡ true
    → All (λ scope. includes scopes scope ≡ true) required
unfolding has_all_scopes
has_all_scopes_lem [] scopes h = tt
has_all_scopes_lem (scope ∷ required) scopes h =
    (ground arith, has_all_scopes_lem required scopes (ground arith))
