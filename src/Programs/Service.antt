-- ===== src/Programs/Service.antt =====
-- programs/programs.service.ts: the availability of a program, read outside any transaction.
use program_capacity_invoice.Base.Columns.{as_uuid}
use program_capacity_invoice.Base.{String, Option, none, some, [], ◌∷◌, Date, words, if◌then◌else◌}
use program_capacity_invoice.Base.Int.{ℤ, pos, ◌-ℤ◌, ltb_ℤ}
use program_capacity_invoice.Errors.{app, app_error, program_not_found}
use program_capacity_invoice.Store.{ProgramStatus, Program, Tx, pure, throw, lift, ◌>>=◌}
use program_capacity_invoice.Fx.Money.{big_int_to_safe_number}
use program_capacity_invoice.Programs.Repository.{find_by_id}

pub record ProgramAvailabilityResponse : Type 0 where
  pub program_id : String
  pub external_ref : String
  pub currency : String
  pub total_limit_minor : ℤ
  pub reserved_amount_minor : ℤ
  pub available_amount_minor : ℤ
  pub over_reserved_amount_minor : ℤ
  pub status : ProgramStatus
  pub version : ℤ
  pub last_reconciled_at : Option Date

-- `reserved > total ? 0n : total - reserved`
unfoldable pub available_amount : Program → ℤ
available_amount program =
    if ltb_ℤ program.total_limit_minor program.reserved_amount_minor
    then pos 0
    else program.total_limit_minor -ℤ program.reserved_amount_minor

unfoldable pub over_reserved_amount : Program → ℤ
over_reserved_amount program =
    if ltb_ℤ program.total_limit_minor program.reserved_amount_minor
    then program.reserved_amount_minor -ℤ program.total_limit_minor
    else pos 0

unfoldable pub availability_of : Program → Tx ProgramAvailabilityResponse
availability_of program = do
  total ← lift (big_int_to_safe_number program.total_limit_minor)
  reserved ← lift (big_int_to_safe_number program.reserved_amount_minor)
  available ← lift (big_int_to_safe_number (available_amount program))
  over_reserved ← lift (big_int_to_safe_number (over_reserved_amount program))
  version ← lift (big_int_to_safe_number program.version)
  pure (record {
    program_id = program.id;
    external_ref = program.external_ref;
    currency = program.currency;
    total_limit_minor = total;
    reserved_amount_minor = reserved;
    available_amount_minor = available;
    over_reserved_amount_minor = over_reserved;
    status = program.status;
    version = version;
    last_reconciled_at = program.last_reconciled_at;
  })

unfoldable pub get_availability : String → Tx ProgramAvailabilityResponse
get_availability program_id = do
  found ← find_by_id (as_uuid program_id)
  elim found [
    | none ↦ throw (
        app (
          app_error program_not_found "Program not found."
            (some (("programId", words program_id) ∷ []))))
    | some program ↦ availability_of program
  ]
