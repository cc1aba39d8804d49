-- ===== src/Reservations/Release.antt =====
-- reservations/reservations.service.ts: `release`.
use program_capacity_invoice.Base.Columns.{as_uuid}
use program_capacity_invoice.Base.{String, Option, none, some, [], ◌∷◌, Date, words}
use program_capacity_invoice.Base.Int.{ℤ, pos, ◌-ℤ◌}
use program_capacity_invoice.Errors.{reconciliation_conflict, app, app_error, plain_error, Result}
use program_capacity_invoice.Store.{
  ReservationStatus, Reservation, reservation_released, Db, Env, Tx, pure, throw, or_throw, lift,
  run, ◌>>=◌, ◌>>◌,
}
use program_capacity_invoice.Fx.Money.{big_int_to_safe_number}
use program_capacity_invoice.Programs.Repository as Programs
use program_capacity_invoice.Reservations.Repository as Reservations
use program_capacity_invoice.Audit as Ledger
use program_capacity_invoice.Reservations.Service.{compute_available, reservation_missing}

pub record ReleaseReservationResponse : Type 0 where
  pub reservation_id : String
  pub program_id : String
  pub status : ReservationStatus
  pub released_amount_minor : ℤ
  pub program_currency : String
  pub available_amount_minor : ℤ
  pub released_at : Option Date

unfoldable pub build_release_response : Reservation → ℤ → Tx ReleaseReservationResponse
unfolding big_int_to_safe_number
build_release_response reservation available_amount_minor = do
  released ← lift (big_int_to_safe_number reservation.reserved_amount_minor)
  available ← lift (big_int_to_safe_number available_amount_minor)
  pure (record {
    reservation_id = reservation.id;
    program_id = reservation.program_id;
    status = reservation.status;
    released_amount_minor = released;
    program_currency = reservation.program_currency;
    available_amount_minor = available;
    released_at = reservation.released_at;
  })

unfoldable pub available_for_program : String → Tx ℤ
available_for_program program_id = do
  program ← Programs.find_by_id program_id
  pure (elim program [ none ↦ pos 0 | some p ↦ compute_available p ])

-- The release of a reservation that is still held.
unfoldable pub release_held : Env → String → Reservation → Tx ReleaseReservationResponse
release_held env reservation_id reservation = do
  Programs.find_by_id_for_update reservation.program_id
  updated ← Programs.release_capacity env reservation.program_id reservation.reserved_amount_minor
  updated_reservation ← Reservations.mark_released env reservation_id
  Ledger.insert (record {
    program_id = reservation.program_id;
    reservation_id = some reservation_id;
    event_type = reservation_released;
    amount_minor = pos 0 -ℤ reservation.reserved_amount_minor;
    currency = reservation.program_currency;
    source = "api";
    external_message_id = none;
    metadata = [];
  })
  -- a TypeError where no program row was updated
  updated_program ← or_throw updated plain_error
  build_release_response updated_reservation (compute_available updated_program)

-- What a release does, by the status of the reservation found.
unfoldable pub release_by_status :
    Env → String → Reservation → ReservationStatus → Tx ReleaseReservationResponse
release_by_status env reservation_id reservation ReservationStatus.active =
    release_held env (as_uuid reservation_id) reservation
release_by_status env reservation_id reservation ReservationStatus.released = do
  available ← available_for_program reservation.program_id
  build_release_response reservation available
release_by_status env reservation_id reservation ReservationStatus.reconciled = throw (
    app (
      app_error reconciliation_conflict
        "Reservation was superseded by treasury reconciliation and cannot be released through the API."
        (some (("reservationId", words reservation_id) ∷ ("status", words "RECONCILED") ∷ []))))

unfoldable pub run_release_transaction : Env → String → Tx ReleaseReservationResponse
run_release_transaction env reservation_id = do
  found ← Reservations.find_by_id_for_update (as_uuid reservation_id)
  reservation ← or_throw found (reservation_missing reservation_id)
  release_by_status env reservation_id reservation reservation.status

unfoldable pub release : Env → String → Db → Result ReleaseReservationResponse × Db
release env reservation_id = run (run_release_transaction env reservation_id)
