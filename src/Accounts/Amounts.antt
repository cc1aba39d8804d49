-- ===== src/Accounts/Amounts.antt =====
-- The sum of a snapshot whose amounts are not negative.
use mathlib.Core.Path.{subst}
use program_capacity_invoice.Base.{
  ℕ, ◌+◌, Bool, true, false, ◌≡◌, refl, ◌∙◌, some, inl, inr, List, [], ◌∷◌, ◌++◌, JsNumber, integer,
  fraction, infinite, nan, arith, Option-cases,
}
use program_capacity_invoice.Base.Int.{ℤ, pos, negsuc, ◌+ℤ◌, pos_part}
use program_capacity_invoice.Base.Rows.{find, All, All-find, find-append_none, find-append_some}
use program_capacity_invoice.Base.Lookup.{find-none-All}
use program_capacity_invoice.Errors.{Result, ok, fail, big_int}
use program_capacity_invoice.Treasury.Events.{TreasuryActiveReservation}
use program_capacity_invoice.Treasury.Snapshot.{snapshot_sum}
use program_capacity_invoice.Accounts.Loop.{spending}

-- No amount of a snapshot is negative.
abbrev pub is_negative : JsNumber → Bool
is_negative (integer (pos n)) = false
is_negative (integer (negsuc n)) = true
is_negative fraction = false
is_negative infinite = false
is_negative nan = false

abbrev pub HasAmounts : List TreasuryActiveReservation → Type 0
HasAmounts = All (λ item. is_negative item.reserved_amount_minor ≡ false)

add_pos : (a b : ℕ) → pos a +ℤ pos b ≡ pos (a + b)
unfolding ◌+ℤ◌
add_pos a b = ground arith

abbrev rest_sum : ℕ → List TreasuryActiveReservation → JsNumber → Result ℤ
rest_sum spent items n = elim (big_int n) [
  | ok amount ↦ snapshot_sum (pos spent +ℤ amount) items
  | fail e ↦ fail e
]

abbrev counted_amount : JsNumber → ℕ
counted_amount n = elim (big_int n) [ ok amount ↦ pos_part amount | _ ↦ 0 ]

add_item :
    (spent : ℕ) (items : List TreasuryActiveReservation) (sum : ℤ)
    → ((more : ℕ) → snapshot_sum (pos more) items ≡ ok sum → pos_part sum ≡ spending more items)
    → (n : JsNumber) → is_negative n ≡ false
    → rest_sum spent items n ≡ ok sum
    → pos_part sum ≡ spending (spent + counted_amount n) items
add_item spent items sum rest (integer (pos m)) h is =
    rest (spent + m) (subst (λ z. snapshot_sum z items ≡ ok sum) (add_pos spent m) is)
add_item spent items sum rest (integer (negsuc m)) h is = absurd (cc h)
add_item spent items sum rest fraction h is = absurd (cc is)
add_item spent items sum rest infinite h is = absurd (cc is)
add_item spent items sum rest nan h is = absurd (cc is)

-- Whatever else finds a row, a test that it passes finds one.
pub find_other :
    {A : Type 0} (sel test : A → Bool) (rows : List A) (row : A)
    → find sel rows ≡ some row
    → test row ≡ true
    → (other : A) × (find test rows ≡ some other)
find_other sel test rows row h is = elim (Option-cases (find test rows)) [
  | inr found ↦ found
  | inl absent ↦
      let fails : test row ≡ false =
        All-find (λ r. test r ≡ false) sel rows row (find-none-All test rows absent) h in
      absurd (cc (is, fails))
]

pub find_last :
    {A : Type 0} (test : A → Bool) (rows : List A) (new : A)
    → test new ≡ true
    → (other : A) × (find test (rows ++ new ∷ []) ≡ some other)
find_last test rows new is = elim (Option-cases (find test rows)) [
  | inr (row, found) ↦ (row, find-append_some test rows new row found)
  | inl absent ↦ (new, find-append_none test rows new absent ∙ rw is refl)
]

pub sum-spending :
    (spent : ℕ) (items : List TreasuryActiveReservation) (sum : ℤ)
    → HasAmounts items
    → snapshot_sum (pos spent) items ≡ ok sum
    → pos_part sum ≡ spending spent items
unfolding snapshot_sum
sum-spending spent [] sum h is = ground arith
sum-spending spent (item ∷ items) sum h is =
    add_item spent items sum (λ more. sum-spending more items sum h.1) item.reserved_amount_minor
      h.0 is
