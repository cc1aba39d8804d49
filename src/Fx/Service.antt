-- ===== src/Fx/Service.antt =====
-- fx/fx.service.ts and fx/currency-metadata.service.ts
use Prim.Native.String
use program_capacity_invoice.Base.{
  String, ◌==◌, Bool, ◌&&◌, Option, none, some, List, [], ◌∷◌, Date, words, if◌then◌else◌,
}
use program_capacity_invoice.Base.Int.{ℤ, pos, ltb_ℤ}
use program_capacity_invoice.Base.Rows.{find}
use program_capacity_invoice.Errors.{app, app_error, unsupported_currency, fx_rate_not_found}
use program_capacity_invoice.Store.{FxRate, Env, Tx, pure, throw, gets, ◌>>=◌}
use program_capacity_invoice.Fx.Money.{DecimalJs}

abbrev concat : List String → String
concat [] = ""
concat (s ∷ rest) = String.◌++◌ s (concat rest)

unfoldable pub get_exponent : String → Tx ℤ
get_exponent currency_code = do
  currency ← gets (λ db. find (λ c. c.code == currency_code) db.currencies)
  elim currency [
    | none ↦ throw (
        app (
          app_error unsupported_currency
            (concat ("Currency " ∷ currency_code ∷ " is not supported." ∷ []))
            (some (("currency", words currency_code) ∷ []))))
    | some c ↦ pure c.exponent
  ]

-- `orderBy: { validAt: 'desc' }`, `findFirst`: of the pair's rates one with the latest date.
unfoldable pub latest : (FxRate → Bool) → List FxRate → Option FxRate
latest test [] = none
latest test (rate ∷ rates) =
    let best = latest test rates in
    if test rate
    then (elim best [
      | none ↦ some rate
      | some other ↦ if ltb_ℤ rate.valid_at other.valid_at then some other else some rate
    ])
    else best

abbrev pub quotes : String → String → FxRate → Bool
quotes base_currency quote_currency rate =
    rate.base_currency == base_currency && rate.quote_currency == quote_currency

module _ (dec : DecimalJs) where
  open dec use {Decimal, of_integer, of_text}

  pub record ResolvedFxRate : Type 0 where
    pub rate : Decimal
    pub source : String
    pub valid_at : Date

  -- The rate found for a pair, or the error that there is none.
  unfoldable pub rate_found : String → String → Option FxRate → Tx ResolvedFxRate
  rate_found base_currency quote_currency none = throw (
      app (
        app_error fx_rate_not_found
          (concat
            ("No FX rate available for " ∷ base_currency ∷ " -> " ∷ quote_currency ∷ "." ∷ []))
          (some (
            ("baseCurrency", words base_currency) ∷ ("quoteCurrency", words quote_currency) ∷ []))))
  rate_found base_currency quote_currency (some found) =
      pure (record { rate = of_text found.rate; source = found.source; valid_at = found.valid_at })

  unfoldable pub stored_rate : String → String → Tx ResolvedFxRate
  unfolding latest rate_found
  stored_rate base_currency quote_currency = do
    fx_rate ← gets (λ db. latest (quotes base_currency quote_currency) db.fx_rates)
    rate_found base_currency quote_currency fx_rate

  unfoldable pub resolve_rate : Env → String → String → Tx ResolvedFxRate
  unfolding stored_rate
  resolve_rate env base_currency quote_currency =
      if base_currency == quote_currency
      then pure (record { rate = of_integer (pos 1); source = "IDENTITY"; valid_at = env.now })
      else stored_rate base_currency quote_currency
