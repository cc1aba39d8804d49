-- ===== src/Tests/Conversion.antt =====
-- Decimals as scaled integers, exact without a bound, and a conversion with them.
use Prim.Native.Nat.{ℕ}
use program_capacity_invoice.Base.{◌+◌, ◌*◌, ◌^◌, ◌≡◌, refl, ◌∙◌, ap, arith}
use program_capacity_invoice.Base.Int.{pos, pos_part}
use program_capacity_invoice.Fx.Money.{DecimalJs, convert_minor_units}
use program_capacity_invoice.Fx.Conversion.{DecimalLaws, rounded, convert_minor_units_lem}

-- mantissa * 10 ^ up / 10 ^ down
abbrev Scaled : Type 0
Scaled = ℕ × ℕ × ℕ

abbrev scale_of : Scaled → ℕ
scale_of (m, k, u) = m * 10 ^ u

abbrev scaled : DecimalJs
scaled = record {
  Decimal = Scaled;
  of_integer = λ n. (pos_part n, 0, 0);
  of_text = λ t. (108, 2, 0);
  divided_by = λ a b. (a.0, a.1 + b.2, a.2);
  times = λ a b. (scale_of a * scale_of b, a.1 + b.1, 0);
  pow = λ a e. (1, 0, pos_part e);
  round_half_up = λ a. (rounded (scale_of a) a.1, 0, 0);
  to_fixed = λ a places. "1.0800000000";
  to_big_int = λ a. pos (scale_of a);
}

abbrev Denotes : Scaled → ℕ → ℕ → Type 0
Denotes a n k = (scale_of a ≡ n) × (a.1 ≡ k)

abbrev scaled_laws : DecimalLaws scaled
scaled_laws = record {
  denotes = Denotes;
  of_integer_law = λ n. (omega arith, refl);
  divided_by_law = λ d n k e h _. (h.0, ap (λ x. x + e) h.1);
  times_law = λ d e n k m l h g _. (
    omega arith ∙ ap (λ x. x * scale_of e) h.0 ∙ ap (λ x. n * x) g.0,
    ap (λ x. x + e.1) h.1 ∙ ap (λ x. k + x) g.1,
  );
  pow_law = λ e. (omega arith, refl);
  round_law =
      λ d n k h. (omega arith ∙ ap (λ x. rounded x d.1) h.0 ∙ ap (λ x. rounded n x) h.1, refl);
  to_big_int_law = λ d n h. ap pos h.0;
}

-- 123.45 at the rate 1.08 are 133.33, rounded from 133.326.
convert_minor_units_lem_example :
    convert_minor_units scaled (pos 12345) (pos 2) (pos 2) (108, 2, 0)
    ≡ pos (rounded (12345 * 108 * 10 ^ 2) (2 + 2))
convert_minor_units_lem_example =
    convert_minor_units_lem scaled scaled_laws 12345 2 2 (108, 2, 0) 108 2 (refl, refl)
      (omega arith) (omega arith) (omega arith)
