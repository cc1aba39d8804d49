-- ===== src/Base/Lookup.antt =====
-- What is found in a table whose keys are unique, and what is found after a row was overwritten.
use mathlib.Core.Path.{◌≡◌, refl}
use mathlib.Core.Logic.{inl, inr}
use mathlib.Core.Bool.{Bool, true, false}
use mathlib.Core.Option.{none, some}
use mathlib.Core.List.{List, [], ◌∷◌}
use native.Mathlib.Omega.{arith}
use program_capacity_invoice.Base.Tests.{Bool-cases}
use program_capacity_invoice.Base.Rows.{find, replace, All, find_alike}
use program_capacity_invoice.Base.Unique.{AreUnique}

module _ {ℓ} {A : Type ℓ} where
  -- A row that is not the one overwritten is found as before.
  pub find-replace_away :
      (sel test : A → Bool) (new : A) (rows : List A)
      → ((row : A) → sel row ≡ true → test row ≡ false)
      → test new ≡ false
      → find test (replace sel new rows) ≡ find test rows
  unfolding find replace
  find-replace_away sel test new [] apart h = refl
  find-replace_away sel test new (row ∷ rows) apart h = elim (Bool-cases (sel row)) [
    | inl is ↦ rw (is, h, apart row is) refl
    | inr other ↦ rw (other, find-replace_away sel test new rows apart h) refl
  ]

  -- A row that is in the table is found by its key.
  pub find_unique :
      (has_key : A → A → Bool) (sel test : A → Bool) (rows : List A) (row : A)
      → ((a b : A) → test a ≡ true → has_key a b ≡ test b)
      → AreUnique has_key rows
      → find sel rows ≡ some row
      → test row ≡ true
      → find test rows ≡ some row
  unfolding find
  find_unique has_key sel test [] row key unique h is = absurd (cc h)
  find_unique has_key sel test (r ∷ rows) row key unique h is = elim (Bool-cases (sel r)) [
    | inl here ↦ let same : r ≡ row = ground arith in rw (same, is) refl
    | inr there ↦
        let rest = find_unique has_key sel test rows row key unique.1 (rw there at h) is in
        elim (Bool-cases (test r)) [
          | inl clash ↦
              let none_left = find_alike (has_key r) test rows (λ b. key r b clash) unique.0 in
              absurd (cc (rest, none_left))
          | inr other ↦ rw other rest
        ]
  ]

  pub find-none-All :
      (test : A → Bool) (rows : List A) → find test rows ≡ none → All (λ r. test r ≡ false) rows
  unfolding find
  find-none-All test [] h = tt
  find-none-All test (r ∷ rows) h =
      let fails : test r ≡ false = ground arith in (fails, find-none-All test rows (rw fails at h))

  pub All-map : (P Q : A → Type ℓ) (rows : List A) → ((r : A) → P r → Q r) → All P rows → All Q rows
  All-map P Q [] f h = tt
  All-map P Q (r ∷ rows) f h = (f r h.0, All-map P Q rows f h.1)

  module _ (has_key : A → A → Bool) (reflexive : (a : A) → has_key a a ≡ true)
      (symmetric : (a b : A) → has_key a b ≡ false → has_key b a ≡ false) where
    deeper :
        (r : A) (rows some_rows : List A)
        → All (λ x. has_key r x ≡ false) some_rows
        → All (λ x. find (has_key x) rows ≡ some x) some_rows
        → All (λ x. find (has_key x) (r ∷ rows) ≡ some x) some_rows
    unfolding find
    deeper r rows [] h k = tt
    deeper r rows (x ∷ xs) h k = (rw (symmetric r x h.0) k.0, deeper r rows xs h.1 k.1)

    -- Every row is found by its own key.
    pub All-found :
        (rows : List A) → AreUnique has_key rows → All (λ x. find (has_key x) rows ≡ some x) rows
    unfolding find
    All-found [] h = tt
    All-found (r ∷ rows) h = (
      rw (reflexive r) refl,
      deeper r rows rows (find-none-All (has_key r) rows h.0) (All-found rows h.1),
    )
