-- ===== src/System/Requests.antt =====
-- What the statements keep, `create` and `release` keep.
use program_capacity_invoice.Base.Columns.{as_uuid}
use program_capacity_invoice.Base.{String, Option, none, some}
use program_capacity_invoice.Base.Int.{ℤ}
use program_capacity_invoice.Store.{FxRate, Program, ReservationStatus, Reservation, Db, Env}
use program_capacity_invoice.Store.Keeps.{
  Keeps, keeps_rules, Keeps-pure, Keeps-gets, Keeps-throw, Keeps-bind,
}
use program_capacity_invoice.Reservations.Creation as Creation
use program_capacity_invoice.Reservations.Release as Release
use program_capacity_invoice.Fx.Money.{DecimalJs}
use program_capacity_invoice.Fx.Service.{get_exponent, rate_found, stored_rate, resolve_rate}
use program_capacity_invoice.System.Statements.{KeptByStatements, reads}

module _ {ℓ} {P : Db → Type ℓ} where
  build_release_response-Keeps :
      (r : Reservation) (available : ℤ) → Keeps P (Release.build_release_response r available)
  unfolding Release.build_release_response
  build_release_response-Keeps r available = search keeps_rules

  available_for_program-Keeps : (id : String) → Keeps P (Release.available_for_program id)
  unfolding Release.available_for_program
  available_for_program-Keeps id = search reads

module _ {ℓ} {P : Db → Type ℓ} (kept : KeptByStatements P) where
  release_held-Keeps :
      (env : Env) (id : String) (r : Reservation) → Keeps P (Release.release_held env id r)
  unfolding Release.release_held
  release_held-Keeps env id r =
      search
        (
          reads, kept.release_capacity, kept.mark_released, kept.insert_ledger,
          build_release_response-Keeps,
        )
        depth 12

  release_by_status-Keeps :
      (env : Env) (id : String) (r : Reservation) (status : ReservationStatus)
      → Keeps P (Release.release_by_status env id r status)
  unfolding Release.release_by_status
  release_by_status-Keeps env id r ReservationStatus.active = release_held-Keeps env (as_uuid id) r
  release_by_status-Keeps env id r ReservationStatus.released =
      search (reads, available_for_program-Keeps, build_release_response-Keeps)
  release_by_status-Keeps env id r ReservationStatus.reconciled = Keeps-throw _

  pub release-Keeps : (env : Env) (id : String) → Keeps P (Release.run_release_transaction env id)
  unfolding Release.run_release_transaction
  release-Keeps env id = search (reads, release_by_status-Keeps) depth 8

module _ {ℓ} {P : Db → Type ℓ} where
  get_exponent-Keeps : (code : String) → Keeps P (get_exponent code)
  unfolding get_exponent
  get_exponent-Keeps code =
      Keeps-bind _ _ (Keeps-gets _) (elim [ none ↦ Keeps-throw _ | some c ↦ Keeps-pure _ ])

  rate_found-Keeps :
      (dec : DecimalJs) (base quote : String) (found : Option FxRate)
      → Keeps P (rate_found dec base quote found)
  unfolding rate_found
  rate_found-Keeps dec base quote none = Keeps-throw _
  rate_found-Keeps dec base quote (some rate) = Keeps-pure _

  stored_rate-Keeps : (dec : DecimalJs) (base quote : String) → Keeps P (stored_rate dec base quote)
  unfolding stored_rate
  stored_rate-Keeps dec base quote = search (keeps_rules, rate_found-Keeps)

  resolve_rate-Keeps :
      (dec : DecimalJs) (env : Env) (base quote : String)
      → Keeps P (resolve_rate dec env base quote)
  unfolding resolve_rate
  resolve_rate-Keeps dec env base quote = search (keeps_rules, stored_rate-Keeps)

  require_active-Keeps : (id : String) (p : Program) → Keeps P (Creation.require_active id p)
  unfolding Creation.require_active
  require_active-Keeps id p = search keeps_rules

  require_new_invoice-Keeps :
      (dto : Creation.CreateReservationRequest) (found : Option Reservation)
      → Keeps P (Creation.require_new_invoice dto found)
  unfolding Creation.require_new_invoice
  require_new_invoice-Keeps dto none = Keeps-pure _
  require_new_invoice-Keeps dto (some r) = Keeps-throw _

  pub conflict-Keeps :
      {A : Type 0} (id : String) (amount : ℤ)
      → Keeps P (Creation.handle_reservation_conflict {A = A} id amount)
  unfolding Creation.handle_reservation_conflict
  conflict-Keeps id amount = search (reads, require_active-Keeps) depth 12

  pub quote-Keeps :
      (dec : DecimalJs) (env : Env) (dto : Creation.CreateReservationRequest) (p : Program)
      → Keeps P (Creation.quote dec env dto p)
  unfolding Creation.quote
  quote-Keeps dec env dto p = search (keeps_rules, get_exponent-Keeps, resolve_rate-Keeps) depth 12

module _ {ℓ} {P : Db → Type ℓ} where
  pub creation_response-Keeps :
      (dec : DecimalJs) (dto : Creation.CreateReservationRequest) (p : Program)
      (q : Creation.Quote dec) (updated : Program) (r : Reservation)
      → Keeps P (Creation.creation_response dec dto p q updated r)
  unfolding Creation.creation_response
  creation_response-Keeps dec dto p q updated r = search keeps_rules depth 12

module _ {ℓ} {P : Db → Type ℓ} (kept : KeptByStatements P) (dec : DecimalJs) (env : Env) where
  record_reservation-Keeps :
      (dto : Creation.CreateReservationRequest) (p : Program) (q : Creation.Quote dec)
      (updated : Program)
      → Keeps P (Creation.record_reservation dec env dto p q updated)
  unfolding Creation.record_reservation
  record_reservation-Keeps dto p q updated =
      search (reads, kept.insert_reservation, kept.insert_ledger, creation_response-Keeps) depth 14

  finish_reservation-Keeps :
      (dto : Creation.CreateReservationRequest) (p : Program) (q : Creation.Quote dec)
      (updated : Option Program)
      → Keeps P (Creation.finish_reservation dec env dto p q updated)
  unfolding Creation.finish_reservation
  finish_reservation-Keeps dto p q none = conflict-Keeps p.id q.reserved_amount_minor
  finish_reservation-Keeps dto p q (some updated) = record_reservation-Keeps dto p q updated

  reserve_quote-Keeps :
      (dto : Creation.CreateReservationRequest) (p : Program) (q : Creation.Quote dec)
      → Keeps P (Creation.reserve_quote dec env dto p q)
  unfolding Creation.reserve_quote
  reserve_quote-Keeps dto p q =
      search (keeps_rules, kept.reserve_capacity, finish_reservation-Keeps)

  price_and_reserve-Keeps :
      (dto : Creation.CreateReservationRequest) (p : Program)
      → Keeps P (Creation.price_and_reserve dec env dto p)
  unfolding Creation.price_and_reserve
  price_and_reserve-Keeps dto p = search (reads, quote-Keeps, reserve_quote-Keeps)

  pub create-Keeps :
      (dto : Creation.CreateReservationRequest)
      → Keeps P (Creation.run_reservation_transaction dec env dto)
  unfolding Creation.run_reservation_transaction
  create-Keeps dto =
      search (reads, require_active-Keeps, require_new_invoice-Keeps, price_and_reserve-Keeps) depth
        16
