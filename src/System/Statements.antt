-- ===== src/System/Statements.antt =====
-- Every transaction of the service is built from the statements of the repositories. What each
-- statement keeps, each request and each message keeps.
use program_capacity_invoice.Base.{String}
use program_capacity_invoice.Base.Int.{ℤ}
use program_capacity_invoice.Store.{LedgerEntry, ReconciliationRun, ProcessedMessage, Db, Env}
use program_capacity_invoice.Store.Keeps.{
  Keeps, keeps_rules, Keeps-pure, Keeps-gets, Keeps-throw, Keeps-lift, Keeps-or_throw,
  Keeps-throw_if, Keeps-branch, Keeps-bind, Keeps-run,
}
use program_capacity_invoice.Programs.Repository as Programs
use program_capacity_invoice.Reservations.Repository as Reservations
use program_capacity_invoice.Audit as Ledger
use program_capacity_invoice.Treasury.Messages as Messages
use program_capacity_invoice.Treasury.Runs as Runs

pub record KeptByStatements {ℓ} (P : Db → Type ℓ) : Type ℓ where
  pub reserve_capacity :
      (env : Env) (id : String) (amount : ℤ) → Keeps P (Programs.reserve_capacity env id amount)
  pub release_capacity :
      (env : Env) (id : String) (amount : ℤ) → Keeps P (Programs.release_capacity env id amount)
  pub create_from_treasury :
      (env : Env) (input : Programs.CreateFromTreasuryInput)
      → Keeps P (Programs.create_from_treasury env input)
  pub apply_capacity_update :
      (env : Env) (id : String) (input : Programs.ApplyCapacityUpdateInput)
      → Keeps P (Programs.apply_capacity_update env id input)
  pub apply_reconciliation :
      (env : Env) (id : String) (input : Programs.ApplyReconciliationInput)
      → Keeps P (Programs.apply_reconciliation env id input)
  pub insert_reservation :
      (env : Env) (input : Reservations.InsertReservationInput)
      → Keeps P (Reservations.insert env input)
  pub mark_released : (env : Env) (id : String) → Keeps P (Reservations.mark_released env id)
  pub update_from_reconciliation :
      (id : String) (input : Reservations.ReconciliationAmounts)
      → Keeps P (Reservations.update_from_reconciliation id input)
  pub mark_reconciled :
      (env : Env) (id message_id : String)
      → Keeps P (Reservations.mark_reconciled env id message_id)
  pub insert_ledger : (entry : LedgerEntry) → Keeps P (Ledger.insert entry)
  pub insert_run : (new : ReconciliationRun) → Keeps P (Runs.insert new)
  pub mark_processed : (row : ProcessedMessage) → Keeps P (Messages.mark_processed row)

module _ {ℓ} {P : Db → Type ℓ} where
  pub find_program-Keeps : (id : String) → Keeps P (Programs.find_by_id id)
  unfolding Programs.find_by_id
  find_program-Keeps id = Keeps-gets _

  pub lock_program-Keeps : (id : String) → Keeps P (Programs.find_by_id_for_update id)
  unfolding Programs.find_by_id_for_update
  lock_program-Keeps id = Keeps-gets _

  pub lock_external_ref-Keeps :
      (ref : String) → Keeps P (Programs.find_by_external_ref_for_update ref)
  unfolding Programs.find_by_external_ref_for_update
  lock_external_ref-Keeps ref = Keeps-gets _

  pub lock_reservation-Keeps : (id : String) → Keeps P (Reservations.find_by_id_for_update id)
  unfolding Reservations.find_by_id_for_update
  lock_reservation-Keeps id = Keeps-gets _

  pub lock_all-Keeps : (id : String) → Keeps P (Reservations.find_all_for_program_for_update id)
  unfolding Reservations.find_all_for_program_for_update
  lock_all-Keeps id = Keeps-gets _

  pub find_invoice-Keeps :
      (id invoice : String) → Keeps P (Reservations.find_by_program_and_invoice id invoice)
  unfolding Reservations.find_by_program_and_invoice
  find_invoice-Keeps id invoice = Keeps-gets _

pub ruleset reads = (
  keeps_rules, find_program-Keeps, lock_program-Keeps, lock_external_ref-Keeps,
  lock_reservation-Keeps, lock_all-Keeps, find_invoice-Keeps,
)
