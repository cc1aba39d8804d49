-- ===== src/Accounts/Requests.antt =====
-- A reservation and its release leave every program covered.
use mathlib.Core.Path.{subst}
use program_capacity_invoice.Base.Columns.{as_uuid}
use program_capacity_invoice.Base.{
  ◌+◌, ◌≤◌, String, ◌==◌, eq_iff, true, false, ◌≡◌, refl, sym, ◌∙◌, Option, some, [], ◌∷◌, ◌++◌,
  arith,
}
use program_capacity_invoice.Base.Int.{ℤ, pos, ◌≤ℤ◌, ◌<ℤ◌, ◌+ℤ◌, ◌-ℤ◌, pos_part, +ℤ_parts, -ℤ_parts}
use program_capacity_invoice.Base.Rows.{find, replace, All-find, find_passes}
use program_capacity_invoice.Errors.{Result, ok, fail}
use program_capacity_invoice.Store.{Program, Reservation, ReservationStatus, Db, Env}
use program_capacity_invoice.Store.Inversion.{run-eq-fail}
use program_capacity_invoice.Fx.Money.{DecimalJs}
use program_capacity_invoice.Programs.Repository as Programs
use program_capacity_invoice.Programs.Lookup.{Lookup, at, away, with_program-Lookup}
use program_capacity_invoice.Programs.Consistency.{ConsistentPrograms, IsConsistent}
use program_capacity_invoice.Reservations.Repository as Reservations
use program_capacity_invoice.Reservations.Uniqueness.{AdmittedReservations}
use program_capacity_invoice.Reservations.Creation.{
  CreateReservationRequest, ReservationResponse, Quote, run_reservation_transaction, create,
}
use program_capacity_invoice.Reservations.Release.{
  ReleaseReservationResponse, run_release_transaction, release,
}
use program_capacity_invoice.Effects.Creation.{Grants, create-Reserves, new_reservation, find_again}
use program_capacity_invoice.Effects.Release.{Frees, Releases, freed, repeated, release-Releases}
use program_capacity_invoice.Accounts.Totals.{total-append_one, total-replace}
use program_capacity_invoice.Accounts.Held.{held_by, held, reserved_of, CoveredPrograms}

admitted_amount :
    (r : Reservation) → Reservations.admits r ≡ true → pos 0 <ℤ r.reserved_amount_minor
admitted_amount r h = ground arith

reserved_more :
    (reserved amount : ℤ)
    → pos 0 ≤ℤ reserved
    → pos 0 <ℤ amount
    → pos_part (reserved +ℤ amount) ≡ pos_part reserved + pos_part amount
reserved_more reserved amount h k = ground (arith, +ℤ_parts reserved amount)

module _ (dec : DecimalJs) (env : Env) (dto : CreateReservationRequest) where
  Grants-Covered :
      (p : Program) (q : Quote dec) (db : Db) (response : ReservationResponse) (after : Db)
      → find (Programs.has_id p.id) db.programs ≡ some p
      → pos 0 ≤ℤ p.reserved_amount_minor
      → Grants dec env dto p q db response after
      → CoveredPrograms db
      → CoveredPrograms after
  Grants-Covered p q db response after found nonneg g h = rw g.state (λ id. by_id id (
      with_program-Lookup (Programs.reserved_by q.reserved_amount_minor env.now p) p id db.programs
        found))
    where
      new : Reservation
      new = new_reservation dec env dto p q db

      by_id :
          (id : String) {found_after : Option Program}
          → Lookup
              (Programs.reserved_by q.reserved_amount_minor env.now p)
              id
              (find (Programs.has_id id) db.programs)
              found_after
          → held id (db.invoice_reservations ++ new ∷ []) ≤ reserved_of found_after
      by_id id (at is here) =
          let sum = total-append_one (held_by id) db.invoice_reservations new in
          let before : held id db.invoice_reservations ≤ pos_part p.reserved_amount_minor =
            subst (λ o. held id db.invoice_reservations ≤ reserved_of o)
              (subst (λ x. find (Programs.has_id x) db.programs ≡ some p) (sym is) found) (h id) in
          let most : held_by id new ≤ pos_part q.reserved_amount_minor = ground arith in
          let amount : pos 0 <ℤ q.reserved_amount_minor = admitted_amount new g.fits in
          let paid = reserved_more p.reserved_amount_minor q.reserved_amount_minor nonneg amount in
          rw here (ground arith)
      by_id id (away other same) =
          let sum = total-append_one (held_by id) db.invoice_reservations new in
          let before = h id in
          let nothing : held_by id new ≡ 0 = rw other refl in rw same (ground arith)

  -- A request for a reservation, granted or not.
  pub create-CoveredPrograms :
      (db : Db)
      → ConsistentPrograms db
      → CoveredPrograms db
      → CoveredPrograms (create dec env dto db).1
  unfolding create
  create-CoveredPrograms db consistent h = by_result (create dec env dto db) refl
    where
      by_result :
          (r : Result ReservationResponse × Db) → create dec env dto db ≡ r → CoveredPrograms r.1
      by_result (ok response, after) e =
          let made = create-Reserves dec env dto db response after e in
          let found = find_again dec env dto made.program db made.found in
          Grants-Covered made.program made.price db response after found
            (All-find IsConsistent (Programs.has_id made.program.id) db.programs made.program
              consistent found).reserved_nonneg
            made.granted h
      by_result (fail x, after) e =
          subst CoveredPrograms
            (sym (run-eq-fail (run_reservation_transaction dec env dto) db x after e).0) h

reserved_less :
    (reserved amount : ℤ)
    → pos 0 ≤ℤ reserved
    → pos 0 <ℤ amount
    → pos_part reserved ≤ pos_part (Programs.greatest_zero (reserved -ℤ amount)) + pos_part amount
reserved_less reserved amount h k = ground (arith, -ℤ_parts reserved amount)

module _ (env : Env) where
  Frees-Covered :
      (r : Reservation) (db : Db) (response : ReleaseReservationResponse) (after : Db)
      → find (Reservations.has_id r.id) db.invoice_reservations ≡ some r
      → r.status ≡ ReservationStatus.active
      → pos 0 <ℤ r.reserved_amount_minor
      → ConsistentPrograms db
      → Frees env r db response after
      → CoveredPrograms db
      → CoveredPrograms after
  Frees-Covered r db response after here active positive consistent f h = rw f.state (λ id.
      by_id id (
        with_program-Lookup (Programs.released_by r.reserved_amount_minor env.now f.program)
          f.program id db.programs found))
    where
      new : Reservation
      new = Reservations.released_at_now env.now r

      program_id : f.program.id ≡ r.program_id
      program_id =
          (eq_iff f.program.id r.program_id).0
            (find_passes (Programs.has_id r.program_id) db.programs f.program f.found)

      found : find (Programs.has_id f.program.id) db.programs ≡ some f.program
      found =
          subst (λ x. find (Programs.has_id x) db.programs ≡ some f.program) (sym program_id)
            f.found

      by_id :
          (id : String) {found_after : Option Program}
          → Lookup
              (Programs.released_by r.reserved_amount_minor env.now f.program)
              id
              (find (Programs.has_id id) db.programs)
              found_after
          → held id (replace (Reservations.has_id r.id) new db.invoice_reservations)
            ≤ reserved_of found_after
      by_id id (at is there) =
          let sum =
            total-replace (held_by id) (Reservations.has_id r.id) new db.invoice_reservations r
              here in
          let before : held id db.invoice_reservations ≤ pos_part f.program.reserved_amount_minor =
            subst (λ o. held id db.invoice_reservations ≤ reserved_of o)
              (subst (λ x. find (Programs.has_id x) db.programs ≡ some f.program) (sym is) found)
              (h id) in
          let own : (r.program_id == id) ≡ true =
            (eq_iff r.program_id id).1 (sym (is ∙ program_id)) in
          let gone : held_by id r ≡ pos_part r.reserved_amount_minor = rw (own, active) refl in
          let nothing : held_by id new ≡ 0 = rw own refl in
          let nonneg =
            (All-find IsConsistent (Programs.has_id f.program.id) db.programs f.program consistent
              found).reserved_nonneg in
          let paid =
            reserved_less f.program.reserved_amount_minor r.reserved_amount_minor nonneg positive in
          rw there (ground arith)
      by_id id (away other same) =
          let sum =
            total-replace (held_by id) (Reservations.has_id r.id) new db.invoice_reservations r
              here in
          let before = h id in
          let apart : (r.program_id == id) ≡ false =
            subst (λ x. (x == id) ≡ false) program_id other in
          let nothing : held_by id new ≡ 0 = rw apart refl in rw same (ground arith)

  -- A release, successful or not.
  pub release-CoveredPrograms :
      (id : String) (db : Db)
      → ConsistentPrograms db
      → AdmittedReservations db
      → CoveredPrograms db
      → CoveredPrograms (release env id db).1
  unfolding release
  release-CoveredPrograms id db consistent admitted h = by_result (release env id db) refl
    where
      by_effect :
          (response : ReleaseReservationResponse) (after : Db)
          → Releases env id db response after
          → CoveredPrograms after
      by_effect response after (repeated _ _ _ _ same) = subst CoveredPrograms (sym same) h
      by_effect response after (freed r found active f) =
          let same : r.id ≡ as_uuid id =
            (eq_iff r.id (as_uuid id)).0
              (find_passes (Reservations.has_id (as_uuid id)) db.invoice_reservations r found) in
          Frees-Covered r db response after
            (subst (λ x. find (Reservations.has_id x) db.invoice_reservations ≡ some r) (sym same)
              found)
            active
            (admitted_amount r (
              All-find (λ x. Reservations.admits x ≡ true) (Reservations.has_id (as_uuid id))
                db.invoice_reservations r admitted found))
            consistent f h

      by_result :
          (r : Result ReleaseReservationResponse × Db) → release env id db ≡ r → CoveredPrograms r.1
      by_result (ok response, after) e =
          by_effect response after (release-Releases env id db response after e)
      by_result (fail x, after) e =
          subst CoveredPrograms (sym (run-eq-fail (run_release_transaction env id) db x after e).0)
            h
