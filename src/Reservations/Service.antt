-- ===== src/Reservations/Service.antt =====
-- reservations/reservations.service.ts: what `create` and `release` share, and `findById`.
use program_capacity_invoice.Base.Columns.{as_uuid}
use program_capacity_invoice.Base.{String, Option, some, [], ◌∷◌, Date, words, if◌then◌else◌}
use program_capacity_invoice.Base.Int.{ℤ, pos, ◌-ℤ◌, ltb_ℤ}
use program_capacity_invoice.Errors.{reservation_not_found, app, app_error, Exception}
use program_capacity_invoice.Store.{Program, ReservationStatus, Tx, pure, or_throw, lift, ◌>>=◌}
use program_capacity_invoice.Fx.Money.{big_int_to_safe_number}
use program_capacity_invoice.Reservations.Repository as Reservations

-- `computeAvailable`
unfoldable pub compute_available : Program → ℤ
compute_available program =
    if ltb_ℤ program.total_limit_minor program.reserved_amount_minor
    then pos 0
    else program.total_limit_minor -ℤ program.reserved_amount_minor

abbrev pub reservation_missing : String → Exception
reservation_missing reservation_id = app (
    app_error reservation_not_found "Reservation not found."
      (some (("reservationId", words reservation_id) ∷ [])))

pub record ReservationDetailResponse : Type 0 where
  pub reservation_id : String
  pub program_id : String
  pub invoice_id : String
  pub status : ReservationStatus
  pub invoice_amount_minor : ℤ
  pub invoice_currency : String
  pub reserved_amount_minor : ℤ
  pub program_currency : String
  pub fx_rate : String
  pub fx_rate_source : String
  pub fx_rate_valid_at : Date
  pub released_at : Option Date
  pub reconciled_at : Option Date

unfoldable pub find_by_id : String → Tx ReservationDetailResponse
unfolding Reservations.find_by_id big_int_to_safe_number
find_by_id reservation_id = do
  found ← Reservations.find_by_id (as_uuid reservation_id)
  r ← or_throw found (reservation_missing reservation_id)
  invoice_amount ← lift (big_int_to_safe_number r.invoice_amount_minor)
  reserved ← lift (big_int_to_safe_number r.reserved_amount_minor)
  pure (record {
    reservation_id = r.id;
    program_id = r.program_id;
    invoice_id = r.invoice_id;
    status = r.status;
    invoice_amount_minor = invoice_amount;
    invoice_currency = r.invoice_currency;
    reserved_amount_minor = reserved;
    program_currency = r.program_currency;
    fx_rate = r.fx_rate;
    fx_rate_source = r.fx_rate_source;
    fx_rate_valid_at = r.fx_rate_valid_at;
    released_at = r.released_at;
    reconciled_at = r.reconciled_at;
  })
