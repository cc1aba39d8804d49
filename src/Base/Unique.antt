-- ===== src/Base/Unique.antt =====
-- Unique indexes: no two rows of a table have the same key. `has_key a b` tests whether the row b
-- has the key of the row a.
use mathlib.Core.Path.{◌≡◌, refl, sym, ◌∙◌}
use mathlib.Core.Logic.{inl, inr}
use mathlib.Core.Bool.{Bool, false}
use mathlib.Core.Option.{none, some}
use mathlib.Core.List.{List, [], ◌∷◌, ◌++◌}
use native.Mathlib.Omega.{arith}
use program_capacity_invoice.Base.Tests.{Bool-cases}
use program_capacity_invoice.Base.Rows.{
  find, replace, find_alike, find-append_none, find-replace-none,
}

-- No later row has the key of an earlier one.
abbrev pub AreUnique {ℓ} : {A : Type ℓ} → (A → A → Bool) → List A → Type ℓ
AreUnique has_key [] = Unit
AreUnique has_key (row ∷ rows) = (find (has_key row) rows ≡ none) × AreUnique has_key rows

module _ {ℓ} {A : Type ℓ} (has_key : A → A → Bool) where
  pub AreUnique-append_one :
      ((a b : A) → has_key a b ≡ false → has_key b a ≡ false)
      → (rows : List A) (new : A) → find (has_key new) rows ≡ none
      → AreUnique has_key rows
      → AreUnique has_key (rows ++ new ∷ [])
  unfolding find
  AreUnique-append_one symmetric [] new free h = (refl, tt)
  AreUnique-append_one symmetric (r ∷ rows) new free h = elim (Bool-cases (has_key new r)) [
    | inl same ↦ absurd (ground arith)
    | inr other ↦ (
      find-append_none (has_key r) rows new h.0 ∙ rw (symmetric new r other) refl,
      AreUnique-append_one symmetric rows new (ground arith) h.1,
    )
  ]

  -- A row that takes the place of one with its key.
  pub AreUnique-replace :
      (sel : A → Bool) (new : A) (rows : List A)
      → ((old row : A)
          → find sel rows ≡ some old
          → (has_key row new ≡ has_key row old) × (has_key new row ≡ has_key old row))
      → AreUnique has_key rows
      → AreUnique has_key (replace sel new rows)
  unfolding find replace
  AreUnique-replace sel new [] same h = tt
  AreUnique-replace sel new (r ∷ rows) same h = elim (Bool-cases (sel r)) [
    | inl at ↦ rw at (
      find_alike (has_key r) (has_key new) rows (λ row. sym (same r row (rw at refl)).1) h.0,
      h.1,
    )
    | inr away ↦ rw away (
      find-replace-none sel (has_key r) new rows (λ old e. (same old r (rw away e)).0) h.0,
      AreUnique-replace sel new rows (λ old row e. same old row (rw away e)) h.1,
    )
  ]
