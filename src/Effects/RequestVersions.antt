-- ===== src/Effects/RequestVersions.antt =====
-- Requests, and updates of a limit, leave no program with an older version.
use mathlib.Core.Path.{subst}
use program_capacity_invoice.Base.{String, eq_iff, false, ◌≡◌, refl, sym, ap, some}
use program_capacity_invoice.Base.Rows.{find, find_passes}
use program_capacity_invoice.Errors.{Result, ok, fail}
use program_capacity_invoice.Store.{Program, Db, Env}
use program_capacity_invoice.Store.Inversion.{run-eq-fail}
use program_capacity_invoice.Fx.Money.{DecimalJs}
use program_capacity_invoice.Programs.Repository as Programs
use program_capacity_invoice.Programs.Uniqueness.{UniquePrograms}
use program_capacity_invoice.Reservations.Creation.{
  CreateReservationRequest, ReservationResponse, run_reservation_transaction,
}
use program_capacity_invoice.Reservations.Creation as Creation
use program_capacity_invoice.Reservations.Release.{
  ReleaseReservationResponse, run_release_transaction,
}
use program_capacity_invoice.Reservations.Release as Release
use program_capacity_invoice.Treasury.Events.{
  Platform, TreasuryMessageMeta, TreasuryHandlerResultStatus, TreasuryCapacityUpdateEvent,
}
use program_capacity_invoice.Treasury.CapacityUpdate as CapacityUpdate
use program_capacity_invoice.Effects.Creation.{create-Reserves, find_again}
use program_capacity_invoice.Effects.Release.{Releases, freed, repeated, release-Releases}
use program_capacity_invoice.Effects.CapacityUpdate as Capacity
use program_capacity_invoice.Effects.CapacityUpdate.{capacity_update-Outcome}
use program_capacity_invoice.Effects.Versions.{
  Advances, NotOlder-same, NotOlder-fresh, Advances-refl, Advances-append, Advances-replace,
  Updates-Advances, find_by_reference,
}

pub create-Advances :
    (dec : DecimalJs) (env : Env) (dto : CreateReservationRequest) (db : Db)
    → Advances db.programs (Creation.create dec env dto db).1.programs
unfolding Creation.create
create-Advances dec env dto db = by_result (Creation.create dec env dto db) refl
  where
    by_result :
        (r : Result ReservationResponse × Db)
        → Creation.create dec env dto db ≡ r
        → Advances db.programs r.1.programs
    by_result (ok response, after) e =
        let made = create-Reserves dec env dto db response after e in
        let new = Programs.reserved_by made.price.reserved_amount_minor env.now made.program in
        subst (λ (d : Db). Advances db.programs d.programs) (sym made.granted.state)
          (Advances-replace new made.program db.programs
            (find_again dec env dto made.program db made.found)
            (NotOlder-same made.program new refl))
    by_result (fail x, after) e =
        subst (λ (d : Db). Advances db.programs d.programs)
          (sym (run-eq-fail (run_reservation_transaction dec env dto) db x after e).0)
          (Advances-refl db.programs)

pub release-Advances :
    (env : Env) (id : String) (db : Db)
    → Advances db.programs (Release.release env id db).1.programs
unfolding Release.release
release-Advances env id db = by_result (Release.release env id db) refl
  where
    by_effect :
        (response : ReleaseReservationResponse) (after : Db)
        → Releases env id db response after
        → Advances db.programs after.programs
    by_effect response after (repeated _ _ _ _ same) =
        subst (λ (d : Db). Advances db.programs d.programs) (sym same) (Advances-refl db.programs)
    by_effect response after (freed r _ _ f) =
        let new = Programs.released_by r.reserved_amount_minor env.now f.program in
        let key =
          (eq_iff f.program.id r.program_id).0
            (find_passes (Programs.has_id r.program_id) db.programs f.program f.found) in
        subst (λ (d : Db). Advances db.programs d.programs) (sym f.state)
          (Advances-replace new f.program db.programs
            (subst (λ x. find (Programs.has_id x) db.programs ≡ some f.program) (sym key) f.found)
            (NotOlder-same f.program new refl))

    by_result :
        (r : Result ReleaseReservationResponse × Db)
        → Release.release env id db ≡ r
        → Advances db.programs r.1.programs
    by_result (ok response, after) e =
        by_effect response after (release-Releases env id db response after e)
    by_result (fail x, after) e =
        subst (λ (d : Db). Advances db.programs d.programs)
          (sym (run-eq-fail (run_release_transaction env id) db x after e).0)
          (Advances-refl db.programs)

-- Tables of programs that are equal.
pub same_programs : (a b : Db) → b.programs ≡ a.programs → Advances a.programs b.programs
same_programs a b same = subst (Advances a.programs) (sym same) (Advances-refl a.programs)

pub capacity_update-Advances :
    (platform : Platform) (env : Env) (event : TreasuryCapacityUpdateEvent)
    (meta : TreasuryMessageMeta) (db : Db) (status : TreasuryHandlerResultStatus) (after : Db)
    → UniquePrograms db
    → CapacityUpdate.handle platform env event meta db ≡ ok (status, after)
    → Advances db.programs after.programs
capacity_update-Advances platform env event meta db status after unique e =
    elim (capacity_update-Outcome platform env event meta db status after e) [
      | Capacity.seen _ same ↦ same_programs db after (ap (λ (d : Db). d.programs) same)
      | Capacity.outdated _ _ _ _ _ _ _ _ same ↦ same_programs db after same.programs
      | Capacity.created _ _ _ _ _ _ _ _ programs _ ↦
          subst (Advances db.programs) (sym programs) (Advances-append db.programs _)
      | Capacity.updated p limit exponent version date row mid found _ _ fresh _ done programs _ ↦
          subst (Advances db.programs) (sym programs) (
            Updates-Advances p.id
              (Programs.capacity_updated_by
                (Capacity.update_input platform env event limit exponent version date) env.now)
              db row mid (λ x. refl)
              (λ x there.
                let same : p ≡ x =
                  cc (find_by_reference db event.program_external_ref p unique found, there) in
                NotOlder-fresh x _ version
                  (subst
                    (λ (y : Program). CapacityUpdate.is_stale version y.treasury_version ≡ false)
                    same fresh)
                  refl)
              done)
    ]
