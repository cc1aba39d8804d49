-- ===== src/Fx/Money.antt =====
-- fx/money.ts. The decimal arithmetic is decimal.js, a parameter: its operations as the code calls
-- them, on a type of decimals that it keeps to itself.
use program_capacity_invoice.Base.{ℕ, ◌-◌, ◌^◌, String, ◌||◌, if◌then◌else◌}
use program_capacity_invoice.Base.Int.{ℤ, pos, negsuc, ltb_ℤ}
use program_capacity_invoice.Errors.{Result, ok, fail, plain_error}

pub record DecimalJs : Type 1 where
  pub Decimal : Type 0
  -- `new Decimal(n)` for an integer, and for the text of a number
  pub of_integer : ℤ → Decimal
  pub of_text : String → Decimal
  pub divided_by : Decimal → Decimal → Decimal
  pub times : Decimal → Decimal → Decimal
  pub pow : Decimal → ℤ → Decimal
  -- `toDecimalPlaces(0, ROUND_HALF_UP)`
  pub round_half_up : Decimal → Decimal
  -- `toFixed(places)`, and the `BigInt` of `toFixed(0)`
  pub to_fixed : Decimal → ℕ → String
  pub to_big_int : Decimal → ℤ

module _ (dec : DecimalJs) where
  open dec use {Decimal, of_integer, divided_by, times, pow, round_half_up, to_big_int}

  unfoldable pub convert_minor_units : ℤ → ℤ → ℤ → Decimal → ℤ
  convert_minor_units amount_minor source_exponent target_exponent rate =
      let source_major =
        divided_by (of_integer amount_minor) (pow (of_integer (pos 10)) source_exponent) in
      let target_major = times source_major rate in
      let target_minor =
        round_half_up (times target_major (pow (of_integer (pos 10)) target_exponent)) in
      to_big_int target_minor

-- Number.MAX_SAFE_INTEGER and Number.MIN_SAFE_INTEGER
abbrev pub max_safe_integer : ℤ
max_safe_integer = pos (2 ^ 53 - 1)

abbrev pub min_safe_integer : ℤ
min_safe_integer = negsuc (2 ^ 53 - 2)

unfoldable pub big_int_to_safe_number : ℤ → Result ℤ
big_int_to_safe_number value =
    if ltb_ℤ max_safe_integer value || ltb_ℤ value min_safe_integer
    then fail plain_error
    else ok value
