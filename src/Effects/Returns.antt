-- ===== src/Effects/Returns.antt =====
-- When a release returns: reservations/reservations.service.ts, `release`.
use mathlib.Core.Path.{subst}
use program_capacity_invoice.Base.Columns.{as_uuid, in_bigint}
use program_capacity_invoice.Base.{sym, String, true, ◌≡◌, refl, ◌∙◌, ap, some, arith}
use program_capacity_invoice.Base.Int.{◌-ℤ◌, ℤ, pos, ◌≤ℤ◌, -ℤ_parts}
use program_capacity_invoice.Base.Rows.{find, All-find}
use program_capacity_invoice.Errors.{ok}
use program_capacity_invoice.Store.{
  Program, ReservationStatus, Reservation, Db, Env, ◌>>=◌, run, settle,
}
use program_capacity_invoice.Fx.Money.{max_safe_integer, big_int_to_safe_number}
use program_capacity_invoice.Programs.Repository as Programs
use program_capacity_invoice.Programs.Updates.{with_program}
use program_capacity_invoice.Reservations.Repository as Reservations
use program_capacity_invoice.Reservations.Updates.{with_reservation}
use program_capacity_invoice.Audit as Ledger
use program_capacity_invoice.Reservations.Service.{compute_available}
use program_capacity_invoice.Reservations.Release.{
  ReleaseReservationResponse, build_release_response, release_held, release_by_status,
  run_release_transaction, release,
}
use program_capacity_invoice.System.Bounds.{
  ProgramInRange, ReservationInRange, InRange, released-fits, reservation_admits,
}
use program_capacity_invoice.Effects.Release.{after_release}

safe_number :
    (amount : ℤ)
    → pos 0 ≤ℤ amount
    → amount ≤ℤ max_safe_integer
    → big_int_to_safe_number amount ≡ ok amount
unfolding big_int_to_safe_number
safe_number amount positive small = ground arith

available_range :
    (p : Program)
    → pos 0 ≤ℤ p.reserved_amount_minor
    → pos 0 ≤ℤ p.total_limit_minor
    → (pos 0 ≤ℤ compute_available p) × (compute_available p ≤ℤ p.total_limit_minor)
unfolding compute_available
available_range p reserved total =
    ground (arith, -ℤ_parts p.total_limit_minor p.reserved_amount_minor)

-- The ledger takes the amount with its sign reversed.
ledger_fits :
    (amount : ℤ) → pos 0 ≤ℤ amount → amount ≤ℤ max_safe_integer → in_bigint (pos 0 -ℤ amount) ≡ true
ledger_fits amount positive small = ground (arith, -ℤ_parts (pos 0) amount)

module _ (env : Env) (r : Reservation) (p : Program) where
  abbrev paid : Program
  paid = Programs.released_by r.reserved_amount_minor env.now p

  abbrev closed : Reservation
  closed = Reservations.released_at_now env.now r

  -- The answer to the client.
  abbrev pub answer : ReleaseReservationResponse
  answer = record {
    reservation_id = r.id;
    program_id = r.program_id;
    status = ReservationStatus.released;
    released_amount_minor = r.reserved_amount_minor;
    program_currency = r.program_currency;
    available_amount_minor = compute_available paid;
    released_at = some env.now;
  }

module _ (env : Env) (r : Reservation) (p : Program) (db : Db)
    (has_program : find (Programs.has_id r.program_id) db.programs ≡ some p)
    (has_row : find (Reservations.has_id r.id) db.invoice_reservations ≡ some r)
    (in_range : InRange db) (small_limit : p.total_limit_minor ≤ℤ max_safe_integer)
    (small_amount : r.reserved_amount_minor ≤ℤ max_safe_integer) where
  program_in_range : ProgramInRange p
  program_in_range =
      All-find ProgramInRange (Programs.has_id r.program_id) db.programs p in_range.programs
        has_program

  row_in_range : ReservationInRange r
  row_in_range =
      All-find ReservationInRange (Reservations.has_id r.id) db.invoice_reservations r
        in_range.reservations has_row

  amount_nonneg : pos 0 ≤ℤ r.reserved_amount_minor
  amount_nonneg = let h = row_in_range.reserved_positive in ground arith

  release_capacity_lem :
      Programs.release_capacity env r.program_id r.reserved_amount_minor db
      ≡ ok (some (paid env r p), with_program (paid env r p) db)
  unfolding Programs.release_capacity Programs.update_where Programs.find_by_id Programs.write_row
      ◌>>=◌
  release_capacity_lem =
      let fits =
        (released-fits p r.reserved_amount_minor env.now program_in_range amount_nonneg).1 in
      rw has_program (rw fits refl)

  mark_released_lem :
      Reservations.mark_released env r.id (with_program (paid env r p) db)
      ≡ ok (closed env r p, with_reservation r.id (closed env r p) (with_program (paid env r p) db))
  unfolding Reservations.mark_released Reservations.update ◌>>=◌
  mark_released_lem = let fits = reservation_admits r row_in_range in rw has_row (rw fits refl)

  response_lem :
      (d : Db)
      → build_release_response (closed env r p) (compute_available (paid env r p)) d
        ≡ ok (answer env r p, d)
  unfolding build_release_response ◌>>=◌
  response_lem d =
      let h = program_in_range in
      let (low, high) =
        available_range (paid env r p)
          (released-fits p r.reserved_amount_minor env.now h amount_nonneg).0 h.total_nonneg in
      let amount_safe = safe_number r.reserved_amount_minor amount_nonneg small_amount in
      let available_safe = safe_number (compute_available (paid env r p)) low (ground arith) in
      rw amount_safe (rw available_safe refl)

  release_held_lem : release_held env r.id r db ≡ ok (answer env r p, after_release env p r db)
  unfolding release_held Programs.find_by_id_for_update Ledger.insert ◌>>=◌
  release_held_lem =
      let logged = ledger_fits r.reserved_amount_minor amount_nonneg small_amount in
      rw release_capacity_lem
        (rw mark_released_lem (rw logged (response_lem (after_release env p r db))))

  -- A release, by any spelling of its id, of an ACTIVE reservation of a stored program returns, and
  -- so frees the reservation and the amount, if the amounts in the tables are in range and the
  -- program's limit and the reservation's amount are at most 2^53 - 1, the largest number that an
  -- answer carries.
  pub release_returns :
      (id : String)
      → as_uuid id ≡ r.id
      → r.status ≡ ReservationStatus.active
      → release env id db ≡ (ok (answer env r p), after_release env p r db)
  unfolding release run_release_transaction Reservations.find_by_id_for_update run release_by_status
      ◌>>=◌
  release_returns id spelled active = rw (as_row has_row) (
      ap (λ status. settle db (release_by_status env id r status db)) active
      ∙ ap (λ x. settle db (release_held env x r db)) spelled
      ∙ ap (settle db) release_held_lem)
    where
      as_row :
          find (Reservations.has_id r.id) db.invoice_reservations ≡ some r
          → find (Reservations.has_id (as_uuid id)) db.invoice_reservations ≡ some r
      as_row =
          subst (λ x. find (Reservations.has_id x) db.invoice_reservations ≡ some r) (sym spelled)
