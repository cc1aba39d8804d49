-- ===== src/Effects/Idempotence.antt =====
-- A release that is repeated: reservations/reservations.service.ts, `release`.
use mathlib.Core.Path.{subst}
use program_capacity_invoice.Base.Columns.{as_uuid}
use program_capacity_invoice.Base.{String, ◌≡◌, refl, sym, ◌∙◌, ap, some, eq_iff}
use program_capacity_invoice.Base.Rows.{find, replace, find-replace_self, find_passes}
use program_capacity_invoice.Errors.{ok}
use program_capacity_invoice.Store.{ReservationStatus, Program, Reservation, Db, Env, run, ◌>>=◌}
use program_capacity_invoice.Programs.Repository as Programs
use program_capacity_invoice.Reservations.Repository as Reservations
use program_capacity_invoice.Reservations.Service.{compute_available}
use program_capacity_invoice.Reservations.Release.{
  ReleaseReservationResponse, build_release_response, available_for_program, release_by_status,
  run_release_transaction, release,
}
use program_capacity_invoice.Effects.Release.{Frees, Releases, freed, repeated, release-Releases}

-- A release of a reservation that is RELEASED reads its program, and answers.
released_again :
    (env : Env) (id : String) (r : Reservation) (p : Program) (db : Db)
    (response : ReleaseReservationResponse)
    → find (Reservations.has_id (as_uuid id)) db.invoice_reservations ≡ some r
    → r.status ≡ ReservationStatus.released
    → find (Programs.has_id r.program_id) db.programs ≡ some p
    → build_release_response r (compute_available p) db ≡ ok (response, db)
    → release env id db ≡ (ok response, db)
unfolding release run run_release_transaction Reservations.find_by_id_for_update release_by_status
    available_for_program Programs.find_by_id ◌>>=◌
released_again env id r p db response found is program told = simp (found, is, program, told)

-- It does not read the clock.
released_alike :
    (env later : Env) (id : String) (r : Reservation) (db : Db)
    → find (Reservations.has_id (as_uuid id)) db.invoice_reservations ≡ some r
    → r.status ≡ ReservationStatus.released
    → release later id db ≡ release env id db
unfolding release run run_release_transaction Reservations.find_by_id_for_update release_by_status
    ◌>>=◌
released_alike env later id r db found is = simp (found, is)

-- A row replaced by one with its id is found in its place.
reservation_replaced :
    (id : String) (old new : Reservation) (db : Db)
    → find (Reservations.has_id id) db.invoice_reservations ≡ some old
    → new.id ≡ old.id
    → find
        (Reservations.has_id id)
        (replace (Reservations.has_id old.id) new db.invoice_reservations)
      ≡ some new
reservation_replaced id old new db found same =
    let key : old.id ≡ id =
      (eq_iff old.id id).0
        (find_passes (Reservations.has_id id) db.invoice_reservations old found) in
    subst
      (λ x.
        find (Reservations.has_id id) (replace (Reservations.has_id x) new db.invoice_reservations)
        ≡ some new)
      (sym key)
      (find-replace_self (Reservations.has_id id) new db.invoice_reservations old found
        ((eq_iff new.id id).1 (same ∙ key)))

pub program_replaced :
    (id : String) (old new : Program) (db : Db)
    → find (Programs.has_id id) db.programs ≡ some old
    → new.id ≡ old.id
    → find (Programs.has_id id) (replace (Programs.has_id new.id) new db.programs) ≡ some new
program_replaced id old new db found same =
    let key : old.id ≡ id =
      (eq_iff old.id id).0 (find_passes (Programs.has_id id) db.programs old found) in
    subst (λ x. find (Programs.has_id id) (replace (Programs.has_id x) new db.programs) ≡ some new)
      (sym (same ∙ key))
      (find-replace_self (Programs.has_id id) new db.programs old found
        ((eq_iff new.id id).1 (same ∙ key)))

-- After a release the reservation is found RELEASED, and the program paid back.
freed_again :
    (env later : Env) (id : String) (r : Reservation) (db : Db)
    (response : ReleaseReservationResponse) (after : Db)
    → find (Reservations.has_id (as_uuid id)) db.invoice_reservations ≡ some r
    → Frees env r db response after
    → release later id after ≡ (ok response, after)
freed_again env later id r db response after found f =
    let row = Reservations.released_at_now env.now r in
    let paid = Programs.released_by r.reserved_amount_minor env.now f.program in
    released_again later id row paid after response
      (ap (λ (d : Db). find (Reservations.has_id (as_uuid id)) d.invoice_reservations) f.state
        ∙ reservation_replaced (as_uuid id) r row db found refl)
      refl
      (ap (λ (d : Db). find (Programs.has_id r.program_id) d.programs) f.state
        ∙ program_replaced r.program_id f.program paid db f.found refl)
      f.told

-- Releasing is idempotent: a release that returned, repeated in the state that it left at any later
-- time, returns the same response and changes nothing.
pub release_again :
    (env later : Env) (id : String) (db : Db) (response : ReleaseReservationResponse) (after : Db)
    → release env id db ≡ (ok response, after)
    → release later id after ≡ (ok response, after)
release_again env later id db response after h =
    by_release (release-Releases env id db response after h)
  where
    by_release : Releases env id db response after → release later id after ≡ (ok response, after)
    by_release (freed r found _ f) = freed_again env later id r db response after found f
    by_release (repeated r found is _ same) =
        subst (λ d. release later id d ≡ (ok response, after)) (sym same)
          (released_alike env later id r db found is ∙ h)
