-- ===== src/Fx/Conversion.antt =====
-- fx/money.ts: what `convertMinorUnits` computes, where decimal.js is exact.
use mathlib.Core.Path.{subst}
use program_capacity_invoice.Base.{ℕ, ◌+◌, ◌*◌, ◌/◌, ◌^◌, ◌<◌, ◌≡◌, arith}
use program_capacity_invoice.Base.Int.{pos}
use program_capacity_invoice.Fx.Money.{DecimalJs, convert_minor_units}

-- Half up: the nearest integer to `n / 10 ^ k`, and the greater of two.
abbrev pub rounded : ℕ → ℕ → ℕ
rounded n k = (2 * n + 10 ^ k) / (2 * 10 ^ k)

-- The documented arithmetic of decimal.js at its default precision of 20 significant digits:
-- `denotes d n k` says that d is n / 10^k, and an operation is exact on digits that fit.
pub record DecimalLaws (dec : DecimalJs) : Type 1 where
  pub denotes : dec.Decimal → ℕ → ℕ → Type 0
  pub of_integer_law : (n : ℕ) → denotes (dec.of_integer (pos n)) n 0
  pub divided_by_law :
      (d : dec.Decimal) (n k e : ℕ)
      → denotes d n k
      → n < 10 ^ 20
      → denotes (dec.divided_by d (dec.pow (dec.of_integer (pos 10)) (pos e))) n (k + e)
  pub times_law :
      (d e : dec.Decimal) (n k m l : ℕ)
      → denotes d n k
      → denotes e m l
      → n * m < 10 ^ 20
      → denotes (dec.times d e) (n * m) (k + l)
  pub pow_law : (e : ℕ) → denotes (dec.pow (dec.of_integer (pos 10)) (pos e)) (10 ^ e) 0
  pub round_law :
      (d : dec.Decimal) (n k : ℕ) → denotes d n k → denotes (dec.round_half_up d) (rounded n k) 0
  pub to_big_int_law : (d : dec.Decimal) (n : ℕ) → denotes d n 0 → dec.to_big_int d ≡ pos n

module _ (dec : DecimalJs) (laws : DecimalLaws dec) where
  -- The amount converted is the exact product, rounded once, as long as no product has more than 20
  -- digits: an amount of s decimals, times a rate m / 10^l, in t decimals.
  pub convert_minor_units_lem :
      (amount s t : ℕ) (rate : dec.Decimal) (m l : ℕ)
      → laws.denotes rate m l
      → amount < 10 ^ 20
      → amount * m < 10 ^ 20
      → amount * m * 10 ^ t < 10 ^ 20
      → convert_minor_units dec (pos amount) (pos s) (pos t) rate
        ≡ pos (rounded (amount * m * 10 ^ t) (s + l))
  unfolding convert_minor_units
  convert_minor_units_lem amount s t rate m l is_rate small small' small'' =
      let ten = dec.pow (dec.of_integer (pos 10)) in
      let source = dec.divided_by (dec.of_integer (pos amount)) (ten (pos s)) in
      let at_source = subst (laws.denotes source amount) (omega arith) (
        laws.divided_by_law (dec.of_integer (pos amount)) amount 0 s (laws.of_integer_law amount)
          small) in
      let target = dec.times source rate in
      let at_target = laws.times_law source rate amount s m l at_source is_rate small' in
      let minor = dec.times target (ten (pos t)) in
      let at_minor = subst (laws.denotes minor (amount * m * 10 ^ t)) (omega arith) (
        laws.times_law target (ten (pos t)) (amount * m) (s + l) (10 ^ t) 0 at_target
          (laws.pow_law t) small'') in
      laws.to_big_int_law (dec.round_half_up minor) (rounded (amount * m * 10 ^ t) (s + l))
        (laws.round_law minor (amount * m * 10 ^ t) (s + l) at_minor)
