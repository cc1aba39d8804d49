-- ===== src/Reservations/Creation.antt =====
-- reservations/reservations.service.ts: `create`.
use program_capacity_invoice.Base.Columns.{as_uuid}
use program_capacity_invoice.Base.{
  String, ◌==◌, Option, none, some, [], ◌∷◌, Date, Details, JsNumber, words, minor, if◌then◌else◌,
}
use program_capacity_invoice.Base.Int.{ℤ, pos}
use program_capacity_invoice.Errors.{
  ErrorCode, program_not_found, program_not_active, program_over_limit, invoice_already_reserved,
  invoice_already_processed, insufficient_capacity, app, app_error, big_int, Result,
}
use program_capacity_invoice.Store.{
  ProgramStatus, Program, ReservationStatus, Reservation, LedgerEntry, reservation_created, Db, Env,
  Tx, pure, throw, or_throw, lift, run, ◌>>=◌, ◌>>◌,
}
use program_capacity_invoice.Fx.Money.{DecimalJs, convert_minor_units, big_int_to_safe_number}
use program_capacity_invoice.Fx.Service.{resolve_rate, get_exponent}
use program_capacity_invoice.Programs.Repository as Programs
use program_capacity_invoice.Reservations.Repository as Reservations
use program_capacity_invoice.Audit as Ledger
use program_capacity_invoice.Reservations.Service.{compute_available}

-- CreateReservationRequest
pub record CreateReservationRequest : Type 0 where
  pub program_id : String
  pub invoice_id : String
  pub invoice_amount_minor : JsNumber
  pub invoice_currency : String

pub record ReservationResponse : Type 0 where
  pub reservation_id : String
  pub program_id : String
  pub invoice_id : String
  pub status : ReservationStatus
  pub invoice_amount_minor : ℤ
  pub invoice_currency : String
  pub reserved_amount_minor : ℤ
  pub program_currency : String
  pub available_amount_minor : ℤ
  pub fx_rate : String
  pub fx_rate_valid_at : Date

-- The error for a program that is not ACTIVE.
abbrev pub not_active_code : ProgramStatus → ErrorCode
not_active_code ProgramStatus.active = program_not_active
not_active_code ProgramStatus.over_limit = program_over_limit
not_active_code ProgramStatus.inactive = program_not_active

abbrev program_detail : String → Option Details
program_detail program_id = some (("programId", words program_id) ∷ [])

unfoldable pub require_active : String → Program → Tx (Unit {0})
require_active program_id p =
    if Programs.is_active p.status
    then pure tt
    else throw (
        app
          (app_error (not_active_code p.status) "Program not active." (program_detail program_id)))

-- The error for an invoice that has a reservation.
abbrev pub taken_code : ReservationStatus → ErrorCode
taken_code ReservationStatus.active = invoice_already_reserved
taken_code ReservationStatus.released = invoice_already_processed
taken_code ReservationStatus.reconciled = invoice_already_processed

unfoldable pub require_new_invoice : CreateReservationRequest → Option Reservation → Tx (Unit {0})
require_new_invoice dto none = pure tt
require_new_invoice dto (some existing) = throw (
    app (
      app_error (taken_code existing.status)
        "This invoice already has a reservation on this program."
        (some (("invoiceId", words dto.invoice_id) ∷ ("programId", words dto.program_id) ∷ []))))

unfoldable pub handle_reservation_conflict : {A : Type 0} → String → ℤ → Tx A
handle_reservation_conflict program_id requested_amount_minor = do
  found ← Programs.find_by_id program_id
  current ←
      or_throw found
        (app (app_error program_not_found "Program not found." (program_detail program_id)))
  require_active program_id current
  available ← lift (big_int_to_safe_number (compute_available current))
  requested ← lift (big_int_to_safe_number requested_amount_minor)
  throw (
      app (
        app_error insufficient_capacity
          "Program does not have enough available capacity for this reservation."
          (some (
            ("programId", words program_id)
            ∷ ("availableAmountMinor", minor available)
            ∷ ("requestedAmountMinor", minor requested)
            ∷ ("currency", words current.currency)
            ∷ []))))

module _ (dec : DecimalJs) where
  open dec use {Decimal, of_integer, to_fixed}

  -- The amounts of a request: in the invoice's currency, and converted to the program's.
  pub record Quote : Type 0 where
    pub invoice_currency_exponent : ℤ
    pub invoice_amount_minor : ℤ
    pub reserved_amount_minor : ℤ
    pub fx_rate : Decimal
    pub fx_rate_source : String
    pub fx_rate_valid_at : Date

  unfoldable pub quote : Env → CreateReservationRequest → Program → Tx Quote
  unfolding get_exponent resolve_rate
  quote env dto program = do
    exponent ← get_exponent dto.invoice_currency
    amount ← lift (big_int dto.invoice_amount_minor)
    if dto.invoice_currency == program.currency
        then pure (record {
          invoice_currency_exponent = exponent;
          invoice_amount_minor = amount;
          reserved_amount_minor = amount;
          fx_rate = of_integer (pos 1);
          fx_rate_source = "IDENTITY";
          fx_rate_valid_at = env.now;
        })
        else do
          resolved ← resolve_rate dec env dto.invoice_currency program.currency
          pure (record {
            invoice_currency_exponent = exponent;
            invoice_amount_minor = amount;
            reserved_amount_minor =
                convert_minor_units dec amount exponent program.currency_exponent resolved.rate;
            fx_rate = resolved.rate;
            fx_rate_source = resolved.source;
            fx_rate_valid_at = resolved.valid_at;
          })

  abbrev pub reservation_input :
      CreateReservationRequest → Program → Quote → Reservations.InsertReservationInput
  reservation_input dto program q = record {
    program_id = program.id;
    invoice_id = dto.invoice_id;
    invoice_currency = dto.invoice_currency;
    invoice_currency_exponent = q.invoice_currency_exponent;
    invoice_amount_minor = q.invoice_amount_minor;
    program_currency = program.currency;
    program_currency_exponent = program.currency_exponent;
    reserved_amount_minor = q.reserved_amount_minor;
    fx_rate = to_fixed q.fx_rate 10;
    fx_rate_source = q.fx_rate_source;
    fx_rate_valid_at = q.fx_rate_valid_at;
    source = none;
    reconciliation_message_id = none;
  }

  -- The response, whose amounts must be safe numbers.
  unfoldable pub creation_response :
      CreateReservationRequest → Program → Quote → Program → Reservation → Tx ReservationResponse
  unfolding compute_available big_int_to_safe_number
  creation_response dto program q updated_program reservation = do
    invoice_amount ← lift (big_int_to_safe_number q.invoice_amount_minor)
    reserved ← lift (big_int_to_safe_number q.reserved_amount_minor)
    available ← lift (big_int_to_safe_number (compute_available updated_program))
    pure (record {
      reservation_id = reservation.id;
      program_id = program.id;
      invoice_id = dto.invoice_id;
      status = ReservationStatus.active;
      invoice_amount_minor = invoice_amount;
      invoice_currency = dto.invoice_currency;
      reserved_amount_minor = reserved;
      program_currency = program.currency;
      available_amount_minor = available;
      fx_rate = to_fixed q.fx_rate 10;
      fx_rate_valid_at = q.fx_rate_valid_at;
    })

  abbrev pub creation_entry : Program → Quote → Reservation → LedgerEntry
  creation_entry program q reservation = record {
    program_id = program.id;
    reservation_id = some reservation.id;
    event_type = reservation_created;
    amount_minor = q.reserved_amount_minor;
    currency = program.currency;
    source = "api";
    external_message_id = none;
    metadata = [];
  }

  -- After `reserveCapacity` has updated the program: the row, the ledger and the response.
  unfoldable pub record_reservation :
      Env → CreateReservationRequest → Program → Quote → Program → Tx ReservationResponse
  unfolding Reservations.insert Ledger.insert creation_response
  record_reservation env dto program q updated_program = do
    reservation ← Reservations.insert env (reservation_input dto program q)
    Ledger.insert (creation_entry program q reservation)
    creation_response dto program q updated_program reservation

  -- What follows `reserveCapacity`, on the row that it returned.
  unfoldable pub finish_reservation :
      Env → CreateReservationRequest → Program → Quote → Option Program → Tx ReservationResponse
  unfolding handle_reservation_conflict record_reservation
  finish_reservation env dto program q none =
      handle_reservation_conflict program.id q.reserved_amount_minor
  finish_reservation env dto program q (some updated_program) =
      record_reservation env dto program q updated_program

  -- From the price on: reserve the capacity, or report why it cannot be.
  unfoldable pub reserve_quote :
      Env → CreateReservationRequest → Program → Quote → Tx ReservationResponse
  unfolding Programs.reserve_capacity finish_reservation
  reserve_quote env dto program q = do
    updated ← Programs.reserve_capacity env program.id q.reserved_amount_minor
    finish_reservation env dto program q updated

  -- An invoice without a reservation is priced, and reserved.
  unfoldable pub price_and_reserve :
      Env → CreateReservationRequest → Program → Tx ReservationResponse
  price_and_reserve env dto program = do q ← quote env dto program; reserve_quote env dto program q

  unfoldable pub run_reservation_transaction :
      Env → CreateReservationRequest → Tx ReservationResponse
  run_reservation_transaction env dto = do
    found ← Programs.find_by_id_for_update (as_uuid dto.program_id)
    program ←
        or_throw found
          (app (app_error program_not_found "Program not found." (program_detail dto.program_id)))
    require_active dto.program_id program
    existing ← Reservations.find_by_program_and_invoice program.id dto.invoice_id
    require_new_invoice dto existing
    price_and_reserve env dto program

  unfoldable pub create : Env → CreateReservationRequest → Db → Result ReservationResponse × Db
  create env dto = run (run_reservation_transaction env dto)
