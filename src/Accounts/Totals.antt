-- ===== src/Accounts/Totals.antt =====
-- Sums over the rows of a table.
use program_capacity_invoice.Base.{
  ℕ, ◌+◌, ◌≤◌, Bool, true, false, ◌≡◌, refl, sym, none, some, inl, inr, List, [], ◌∷◌, ◌++◌, arith,
  Bool-cases,
}
use program_capacity_invoice.Base.Rows.{find, replace, All, find_alike}
use program_capacity_invoice.Base.Unique.{AreUnique}

module _ {ℓ} {A : Type ℓ} where
  unfoldable pub total : (A → ℕ) → List A → ℕ
  total weight [] = 0
  total weight (row ∷ rows) = weight row + total weight rows

  module _ (weight : A → ℕ) where
    pub total-append_one :
        (rows : List A) (new : A) → total weight (rows ++ new ∷ []) ≡ total weight rows + weight new
    unfolding total
    total-append_one [] new = ground arith
    total-append_one (row ∷ rows) new = ground (arith, total-append_one rows new)

    -- A row that takes another's place.
    pub total-replace :
        (sel : A → Bool) (new : A) (rows : List A) (old : A)
        → find sel rows ≡ some old
        → total weight (replace sel new rows) + weight old ≡ total weight rows + weight new
    unfolding total find replace
    total-replace sel new [] old h = absurd (cc h)
    total-replace sel new (row ∷ rows) old h = elim (Bool-cases (sel row)) [
      | inl is ↦ let same : row ≡ old = ground arith in rw (is, sym same) (ground arith)
      | inr other ↦
          let rest = total-replace sel new rows old (rw other at h) in rw other (ground arith)
    ]

  -- Weights that agree on every row.
  pub total_alike :
      (v w : A → ℕ) (rows : List A) → All (λ row. v row ≡ w row) rows → total v rows ≡ total w rows
  unfolding total
  total_alike v w [] h = refl
  total_alike v w (row ∷ rows) h = let rest = total_alike v w rows h.1 in ground arith

  -- Weights that agree on the rows that fail a test, where no row passes it.
  pub total_none :
      (v w : A → ℕ) (sel : A → Bool) (rows : List A)
      → find sel rows ≡ none
      → ((row : A) → sel row ≡ false → v row ≡ w row)
      → total v rows ≡ total w rows
  unfolding total find
  total_none v w sel [] h agree = refl
  total_none v w sel (row ∷ rows) h agree =
      let other : sel row ≡ false = ground arith in
      let rest = total_none v w sel rows (rw other at h) agree in
      let same = agree row other in ground arith

  -- Weights that agree on the rows that fail a test, where one row passes it.
  pub total_one :
      (v w : A → ℕ) (sel : A → Bool) (has_key : A → A → Bool) (rows : List A) (old : A)
      → ((a b : A) → sel a ≡ true → has_key a b ≡ sel b)
      → AreUnique has_key rows
      → find sel rows ≡ some old
      → ((row : A) → sel row ≡ false → v row ≡ w row)
      → total v rows + w old ≡ total w rows + v old
  unfolding total find
  total_one v w sel has_key [] old key unique h agree = absurd (cc h)
  total_one v w sel has_key (row ∷ rows) old key unique h agree = elim (Bool-cases (sel row)) [
    | inl is ↦
        let same : row ≡ old = ground arith in
        let rest =
          total_none v w sel rows (find_alike (has_key row) sel rows (λ b. key row b is) unique.0)
            agree in
        rw (sym same) (ground arith)
    | inr other ↦
        let rest = total_one v w sel has_key rows old key unique.1 (rw other at h) agree in
        let same = agree row other in ground arith
  ]

  pub total_le :
      (v w : A → ℕ) (rows : List A) → ((row : A) → v row ≤ w row) → total v rows ≤ total w rows
  unfolding total
  total_le v w [] h = ground arith
  total_le v w (row ∷ rows) h = let rest = total_le v w rows h in let here = h row in ground arith
