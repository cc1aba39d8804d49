-- ===== src/Tests/Requests.antt =====
-- Requests and messages on the test data.
use program_capacity_invoice.Effects.Booked.{Books, create-Books}
use program_capacity_invoice.Effects.Freed.{Ends, release-Ends}
use program_capacity_invoice.Base.{
  inl, inr, none, some, integer, ◌≡◌, refl, ap, [], ◌∷◌, arith, map, List,
}
use program_capacity_invoice.Base.Int.{ℤ, pos, ◌+ℤ◌, ◌-ℤ◌}
use program_capacity_invoice.Base.Rows.{find, replace}
use program_capacity_invoice.Errors.{ok, fail, http, words_payload}
use program_capacity_invoice.Errors.Filter.{resolve}
use program_capacity_invoice.Errors.Laws.{Agrees, resolve-Agrees}
use program_capacity_invoice.Store.{ProgramStatus, Program, ReservationStatus, Db, ◌>>=◌, run}
use program_capacity_invoice.Fx.Money.{big_int_to_safe_number, convert_minor_units}
use program_capacity_invoice.Programs.Repository as Programs
use program_capacity_invoice.Reservations.Repository as Reservations
use program_capacity_invoice.Reservations.Creation.{
  ReservationResponse, CreateReservationRequest, finish_reservation, handle_reservation_conflict,
  create, run_reservation_transaction, require_active, require_new_invoice, price_and_reserve,
  quote, reserve_quote,
}
use program_capacity_invoice.Reservations.Service.{compute_available}
use program_capacity_invoice.Programs.Service.{
  ProgramAvailabilityResponse, get_availability, availability_of, available_amount,
  over_reserved_amount,
}
use program_capacity_invoice.Programs.Balance.{Describes, get_availability-Describes}
use program_capacity_invoice.Effects.Refusal.{Refusal, create-Refusal, no_capacity}
use program_capacity_invoice.Effects.Idempotence.{release_again}
use program_capacity_invoice.Reservations.Release.{
  ReleaseReservationResponse, release, run_release_transaction, release_by_status, release_held,
  build_release_response,
}
use program_capacity_invoice.Effects.Restored.{SameCapacity, release-create}
use program_capacity_invoice.System.Reach.{here, next, create as create_step}
use program_capacity_invoice.System.Safety.{IsSound, Reach-IsSound}
use program_capacity_invoice.Tests.Fixtures.{program, fractions, env, db, request, setting, state}

abbrev amounts : Db → List ℤ
amounts d = map (λ (p : Program). p.reserved_amount_minor) d.programs

create_run : amounts (create fractions env request db).1 ≡ pos 108 ∷ []
unfolding create run run_reservation_transaction Programs.find_by_id_for_update require_active
    Reservations.find_by_program_and_invoice require_new_invoice price_and_reserve quote
    reserve_quote ◌>>=◌ find replace convert_minor_units ◌+ℤ◌ ◌-ℤ◌
create_run = refl

pub db-IsSound : IsSound db
unfolding find
db-IsSound = record {
  consistent = ground arith;
  unique = ground arith;
  unique_ids = ground arith;
  unique_programs = (refl, tt);
  unique_references = (refl, tt);
  admitted = ground arith;
}

Reach-IsSound_example : IsSound (create fractions env request db).1
Reach-IsSound_example =
    Reach-IsSound setting state _ (next here (create_step (pos 5000) request)) db-IsSound

abbrev granted : ReservationResponse
granted = record {
  reservation_id = "r0";
  program_id = "p0";
  invoice_id = "INV-1";
  status = ReservationStatus.active;
  invoice_amount_minor = pos 100;
  invoice_currency = "EUR";
  reserved_amount_minor = pos 108;
  program_currency = "USD";
  available_amount_minor = pos 892;
  fx_rate = "1.0800000000";
  fx_rate_valid_at = pos 1;
}

granted_run : (create fractions env request db).0 ≡ ok granted
unfolding create run run_reservation_transaction Programs.find_by_id_for_update require_active
    Reservations.find_by_program_and_invoice require_new_invoice price_and_reserve quote
    reserve_quote ◌>>=◌ find replace convert_minor_units ◌+ℤ◌ ◌-ℤ◌
granted_run = refl

create-Books_example : Books fractions env request db granted (create fractions env request db).1
create-Books_example =
    create-Books fractions env request db granted _
      (ap (λ r. (r, (create fractions env request db).1)) granted_run)

-- 1000.00 EUR are 1080.00 USD, and the limit is 1000.00 USD.
abbrev large_request : CreateReservationRequest
large_request = record request { invoice_amount_minor = integer (pos 1000) }

refused_run : create fractions env large_request db ≡ (fail (no_capacity program (pos 1080)), db)
unfolding create run run_reservation_transaction Programs.find_by_id_for_update require_active
    Reservations.find_by_program_and_invoice require_new_invoice price_and_reserve quote
    reserve_quote finish_reservation handle_reservation_conflict Programs.find_by_id
    compute_available big_int_to_safe_number ◌>>=◌ find replace convert_minor_units ◌+ℤ◌ ◌-ℤ◌
refused_run = refl

create-Refusal_example :
    (db ≡ db) × Refusal fractions env large_request db (no_capacity program (pos 1080))
create-Refusal_example =
    create-Refusal fractions env large_request db (no_capacity program (pos 1080)) db refused_run

-- The database after the reservation of `granted`.
abbrev pub held : Db
held = (create fractions env request db).1

abbrev freed_response : ReleaseReservationResponse
freed_response = record {
  reservation_id = "r0";
  program_id = "p0";
  status = ReservationStatus.released;
  released_amount_minor = pos 108;
  program_currency = "USD";
  available_amount_minor = pos 1000;
  released_at = some (pos 5000);
}

release_run : (release env "r0" held).0 ≡ ok freed_response
unfolding create run run_reservation_transaction Programs.find_by_id_for_update require_active
    Reservations.find_by_program_and_invoice require_new_invoice price_and_reserve quote
    reserve_quote release run_release_transaction Reservations.find_by_id_for_update
    release_by_status release_held Programs.release_capacity Reservations.mark_released
    build_release_response compute_available big_int_to_safe_number ◌>>=◌ find replace
    convert_minor_units ◌+ℤ◌ ◌-ℤ◌
release_run = refl

release-Ends_example : Ends env "r0" held freed_response (release env "r0" held).1
release-Ends_example =
    release-Ends env "r0" held freed_response _
      (ap (λ r. (r, (release env "r0" held).1)) release_run)

release_again_example :
    release env "r0" (release env "r0" held).1 ≡ (ok freed_response, (release env "r0" held).1)
release_again_example =
    release_again env env "r0" held freed_response _
      (ap (λ r. (r, (release env "r0" held).1)) release_run)

abbrev available : ProgramAvailabilityResponse
available = record {
  program_id = "p0";
  external_ref = "PROGRAM-ABC";
  currency = "USD";
  total_limit_minor = pos 1000;
  reserved_amount_minor = pos 0;
  available_amount_minor = pos 1000;
  over_reserved_amount_minor = pos 0;
  status = ProgramStatus.active;
  version = pos 0;
  last_reconciled_at = none;
}

availability_run : get_availability "p0" db ≡ ok (available, db)
unfolding get_availability availability_of available_amount over_reserved_amount Programs.find_by_id
    big_int_to_safe_number ◌>>=◌ find ◌-ℤ◌
availability_run = refl

get_availability-Describes_example :
    (p : Program) × (find (Programs.has_id "p0") db.programs ≡ some p)
    × Describes p available
    × (db ≡ db)
get_availability-Describes_example =
    get_availability-Describes "p0" db available db availability_run

resolve-Agrees_example :
    Agrees (resolve (http 404 (words_payload "Cannot GET /x") "Cannot GET /x") (some "q1"))
resolve-Agrees_example =
    resolve-Agrees (http 404 (words_payload "Cannot GET /x") "Cannot GET /x") (some "q1")
      (inr (inr (inr (inl refl))))

release-create_example :
    (p q : Program) × (find (Programs.has_id "p0") db.programs ≡ some p)
    × (find (Programs.has_id p.id) (release env "r0" held).1.programs ≡ some q)
    × SameCapacity p q
unfolding find
release-create_example =
    release-create fractions env env request db held (release env "r0" held).1 "r0" granted
      freed_response db-IsSound.consistent (ap (λ r. (r, held)) granted_run) refl
      (ap (λ r. (r, (release env "r0" held).1)) release_run)
