-- ===== src/Base/Rows.antt =====
-- Database tables as lists of rows. A test selects rows; `key` is the primary key of the table.
use mathlib.Core.Path.{◌≡◌, refl, subst}
use mathlib.Core.Logic.{inl, inr}
use mathlib.Core.Bool.{Bool, true}
use mathlib.Core.Option.{Option, none, some}
use mathlib.Core.List.{List, [], ◌∷◌, ◌++◌}
use native.Mathlib.Omega.{arith}
use program_capacity_invoice.Base.Tests.{if◌then◌else◌, Bool-cases}

module _ {ℓ} {A : Type ℓ} where
  -- The first row that passes the test (`findFirst`, `rows[0]`).
  unfoldable pub find : (A → Bool) → List A → Option A
  find test [] = none
  find test (row ∷ rows) = if test row then some row else find test rows

  -- A unique row is overwritten (`UPDATE ... WHERE id = ...`).
  unfoldable pub replace : (A → Bool) → A → List A → List A
  replace test new [] = []
  replace test new (row ∷ rows) = if test row then new ∷ rows else row ∷ replace test new rows

  -- What was found passes the test.
  pub find_passes :
      (test : A → Bool) (rows : List A) (row : A) → find test rows ≡ some row → test row ≡ true
  unfolding find
  find_passes test [] row h = cc
  find_passes test (r ∷ rows) row h = ground (arith, find_passes test rows row)

  -- Tests that agree find the same row.
  pub find_alike :
      (p q : A → Bool) (rows : List A)
      → ((row : A) → p row ≡ q row)
      → find p rows ≡ none
      → find q rows ≡ none
  unfolding find
  find_alike p q [] same h = refl
  find_alike p q (r ∷ rows) same h = ground (arith, same r, find_alike p q rows same)

  -- A found row, overwritten by one that passes the test, is found again.
  pub find-replace_self :
      (test : A → Bool) (new : A) (rows : List A) (old : A)
      → find test rows ≡ some old
      → test new ≡ true
      → find test (replace test new rows) ≡ some new
  unfolding find replace
  find-replace_self test new [] old h p = cc
  find-replace_self test new (r ∷ rows) old h p =
      ground (arith, find-replace_self test new rows old)

  pub find-append_none :
      (test : A → Bool) (rows : List A) (new : A)
      → find test rows ≡ none
      → find test (rows ++ new ∷ []) ≡ (if test new then some new else none)
  unfolding find
  find-append_none test [] new h = refl
  find-append_none test (r ∷ rows) new h = ground (arith, find-append_none test rows new)

  pub find-append_some :
      (test : A → Bool) (rows : List A) (new row : A)
      → find test rows ≡ some row
      → find test (rows ++ new ∷ []) ≡ some row
  unfolding find
  find-append_some test [] new row h = cc
  find-append_some test (r ∷ rows) new row h = ground (arith, find-append_some test rows new row)

module _ {ℓ} {A : Type ℓ} (sel test : A → Bool) (new : A) where
  -- A row that takes another's place, and passes the test where that one did, is not found more.
  pub find-replace-none :
      (rows : List A)
      → ((old : A) → find sel rows ≡ some old → test new ≡ test old)
      → find test rows ≡ none
      → find test (replace sel new rows) ≡ none
  unfolding find replace
  find-replace-none [] same h = refl
  find-replace-none (r ∷ rows) same h = elim (Bool-cases (sel r)) [
    | inl at ↦ rw at (ground (arith, same r (rw at)))
    | inr away ↦
        let rest : find test rows ≡ none = ground arith in
        rw away (ground (arith, find-replace-none rows (λ old e. same old (rw away e)) rest))
  ]

module _ {ℓ κ} {A : Type ℓ} (P : A → Type κ) where
  abbrev pub All : List A → Type κ
  All [] = Unit
  All (row ∷ rows) = P row × All rows

  pub All-append_one : (rows : List A) (new : A) → All rows → P new → All (rows ++ new ∷ [])
  All-append_one [] new h p = (p, tt)
  All-append_one (row ∷ rows) new h p = (h.0, All-append_one rows new h.1 p)

  pub All-find :
      (test : A → Bool) (rows : List A) (row : A) → All rows → find test rows ≡ some row → P row
  unfolding find
  All-find test [] row h e = absurd (cc e)
  All-find test (r ∷ rows) row h e = elim (Bool-cases (test r)) [
    | inl passes ↦ let same : r ≡ row = ground arith in subst P same h.0
    | inr fails ↦ All-find test rows row h.1 (rw fails at e)
  ]

  pub All-replace :
      (test : A → Bool) (new : A) (rows : List A) → All rows → P new → All (replace test new rows)
  unfolding replace
  All-replace test new [] h p = tt
  All-replace test new (r ∷ rows) h p = elim (Bool-cases (test r)) [
    | inl passes ↦ rw passes (p, h.1)
    | inr fails ↦ rw fails (h.0, All-replace test new rows h.1 p)
  ]
