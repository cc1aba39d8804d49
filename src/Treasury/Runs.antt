-- ===== src/Treasury/Runs.antt =====
-- treasury/reconciliation.repository.ts: the record of every reconciliation received.
use program_capacity_invoice.Errors.{plain_error}
use program_capacity_invoice.Base.Columns.{in_bigint}
use program_capacity_invoice.Base.{String, ◌==◌, Bool, ◌&&◌, not, none, some, [], ◌∷◌, ◌++◌}
use program_capacity_invoice.Base.Rows.{find}
use program_capacity_invoice.Store.{
  ReconciliationRun, Tx, pure, gets, modify, throw_if, ◌>>=◌, ◌>>◌,
}

abbrev pub has_message_id : String → ReconciliationRun → Bool
has_message_id message_id run = run.external_message_id == message_id

-- The amounts fit their BIGINT columns.
abbrev pub admits : ReconciliationRun → Bool
admits run =
    in_bigint run.treasury_total_limit_minor
    && in_bigint run.treasury_reserved_amount_minor
    && in_bigint run.local_total_limit_minor_before
    && in_bigint run.local_reserved_amount_minor_before
    && in_bigint run.total_limit_difference_minor
    && in_bigint run.reserved_difference_minor

-- A value out of its column's range is refused; else ON CONFLICT (external_message_id) DO NOTHING
unfoldable pub insert : ReconciliationRun → Tx (Unit {0})
insert new = do
  throw_if (not (admits new)) plain_error
  recorded ← gets (λ db. find (has_message_id new.external_message_id) db.reconciliation_runs)
  elim recorded [
    | some _ ↦ pure tt
    | none ↦ modify (λ db. record db { reconciliation_runs = db.reconciliation_runs ++ new ∷ [] })
  ]
