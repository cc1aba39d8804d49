-- ===== src/Effects/Restored.antt =====
-- A reservation that is created and then released: reservations/reservations.service.ts.
use mathlib.Core.Path.{subst}
use program_capacity_invoice.Base.Columns.{as_uuid}
use program_capacity_invoice.Base.{
  String, eq_iff, ◌≡◌, refl, sym, ◌∙◌, ap, Option, none, some, Date, arith, if◌then◌else◌,
}
use program_capacity_invoice.Base.Int.{ℤ, pos, ◌+ℤ◌, ◌-ℤ◌, ◌≤ℤ◌, +ℤ_parts, -ℤ_parts, eq_of_parts}
use program_capacity_invoice.Base.Rows.{find, find-append_none, All-find}
use program_capacity_invoice.Errors.{ok}
use program_capacity_invoice.Store.{ProgramStatus, Program, ReservationStatus, Reservation, Db, Env}
use program_capacity_invoice.Fx.Money.{DecimalJs}
use program_capacity_invoice.Programs.Repository as Programs
use program_capacity_invoice.Programs.Consistency.{IsConsistent, ConsistentPrograms}
use program_capacity_invoice.Reservations.Repository as Reservations
use program_capacity_invoice.Reservations.Creation.{
  CreateReservationRequest, ReservationResponse, create,
}
use program_capacity_invoice.Reservations.Release.{ReleaseReservationResponse, release}
use program_capacity_invoice.Effects.Creation.{
  Reserves, create-Reserves, new_reservation, find_again,
}
use program_capacity_invoice.Effects.Release.{Releases, freed, repeated, release-Releases}
use program_capacity_invoice.Effects.Idempotence.{program_replaced}

some_injective : {A : Type 0} {a b : A} → ◌≡◌ {A = Option A} (some a) (some b) → a ≡ b
some_injective h = cc h

active_not_released : ¬ (ReservationStatus.active ≡ ReservationStatus.released)
active_not_released h = cc h

-- What is reserved and given back is as it was before.
undone :
    (reserved amount : ℤ)
    → pos 0 ≤ℤ reserved
    → Programs.greatest_zero ((reserved +ℤ amount) -ℤ amount) ≡ reserved
undone reserved amount h = ground (
  arith,
  +ℤ_parts reserved amount,
  -ℤ_parts (reserved +ℤ amount) amount,
  eq_of_parts ((reserved +ℤ amount) -ℤ amount) reserved,
)

status_again :
    (reserved total : ℤ)
    → reserved ≤ℤ total
    → Programs.status_for reserved total ≡ ProgramStatus.active
status_again reserved total h = ground arith

-- The limit, the reserved amount and the status of a program.
pub record SameCapacity (p q : Program) : Type 0 where
  pub total : q.total_limit_minor ≡ p.total_limit_minor
  pub reserved : q.reserved_amount_minor ≡ p.reserved_amount_minor
  pub status : q.status ≡ p.status

paid_back-SameCapacity :
    (p : Program) (amount : ℤ) (now later : Date)
    → IsConsistent p
    → p.status ≡ ProgramStatus.active
    → SameCapacity p (Programs.released_by amount later (Programs.reserved_by amount now p))
paid_back-SameCapacity p amount now later h active =
    let back = undone p.reserved_amount_minor amount h.reserved_nonneg in
    record {
      total = refl;
      reserved = back;
      status =
          ap (λ x. Programs.status_for x p.total_limit_minor) back
          ∙ status_again p.reserved_amount_minor p.total_limit_minor (h.within_limit active)
          ∙ sym active;
    }

module _ (dec : DecimalJs) (env later : Env) (dto : CreateReservationRequest) where
  -- The row of a reservation just granted is found by the id in the answer.
  row_found :
      (db mid : Db) (response : ReservationResponse) (made : Reserves dec env dto db response mid)
      → find (Reservations.has_id response.reservation_id) mid.invoice_reservations
        ≡ some (new_reservation dec env dto made.program made.price db)
  row_found db mid response made =
      let row = new_reservation dec env dto made.program made.price db in
      ap (λ (d : Db). find (Reservations.has_id response.reservation_id) d.invoice_reservations)
        made.granted.state
      ∙ find-append_none (Reservations.has_id response.reservation_id) db.invoice_reservations row (
          subst (λ id. find (Reservations.has_id id) db.invoice_reservations ≡ none)
            (sym made.granted.told.reservation_id) made.granted.new_id)
      ∙ ap (λ b. if b then some row else none)
          ((eq_iff row.id response.reservation_id).1 (sym made.granted.told.reservation_id))

  program_found :
      (db mid : Db) (response : ReservationResponse) (made : Reserves dec env dto db response mid)
      → find (Programs.has_id made.program.id) mid.programs
        ≡ some (Programs.reserved_by made.price.reserved_amount_minor env.now made.program)
  program_found db mid response made =
      ap (λ (d : Db). find (Programs.has_id made.program.id) d.programs) made.granted.state
      ∙ program_replaced made.program.id made.program
          (Programs.reserved_by made.price.reserved_amount_minor env.now made.program) db
          (find_again dec env dto made.program db made.found) refl

  -- A reservation that is granted and then released, by any spelling of its id, leaves its program
  -- with the limit, the reserved amount and the status that it had, if programs agree with their
  -- status.
  pub release-create :
      (db mid after : Db) (id : String) (response : ReservationResponse)
      (answer : ReleaseReservationResponse)
      → ConsistentPrograms db
      → create dec env dto db ≡ (ok response, mid)
      → as_uuid id ≡ response.reservation_id
      → release later id mid ≡ (ok answer, after)
      → (p q : Program) × (find (Programs.has_id (as_uuid dto.program_id)) db.programs ≡ some p)
        × (find (Programs.has_id p.id) after.programs ≡ some q)
        × SameCapacity p q
  release-create db mid after id response answer sound created spelled released =
      let made = create-Reserves dec env dto db response mid created in
      by_release made (release-Releases later id mid answer after released)
    where
      at_id :
          {r : Reservation}
          → find (Reservations.has_id (as_uuid id)) mid.invoice_reservations ≡ some r
          → find (Reservations.has_id response.reservation_id) mid.invoice_reservations ≡ some r
      at_id {r} found =
          subst (λ x. find (Reservations.has_id x) mid.invoice_reservations ≡ some r) spelled found

      by_release :
          (made : Reserves dec env dto db response mid)
          → Releases later id mid answer after
          → (p q : Program) × (find (Programs.has_id (as_uuid dto.program_id)) db.programs ≡ some p)
            × (find (Programs.has_id p.id) after.programs ≡ some q)
            × SameCapacity p q
      by_release made (freed r found _ f) =
          let p = made.program in
          let paid = Programs.reserved_by made.price.reserved_amount_minor env.now p in
          let is_row : r ≡ new_reservation dec env dto p made.price db =
            some_injective (sym (at_id found) ∙ row_found db mid response made) in
          let at_p : find (Programs.has_id p.id) mid.programs ≡ some f.program =
            subst
              (λ (x : Reservation).
                find (Programs.has_id x.program_id) mid.programs ≡ some f.program)
              is_row f.found in
          let is_paid : f.program ≡ paid =
            some_injective (sym at_p ∙ program_found db mid response made) in
          let last = Programs.released_by r.reserved_amount_minor later.now f.program in
          let same : last ≡ Programs.released_by made.price.reserved_amount_minor later.now paid =
            ap
              (λ (x : Reservation).
                Programs.released_by x.reserved_amount_minor later.now f.program)
              is_row
            ∙ ap (Programs.released_by made.price.reserved_amount_minor later.now) is_paid in
          (
            p,
            Programs.released_by made.price.reserved_amount_minor later.now paid,
            made.found,
            ap (λ (d : Db). find (Programs.has_id p.id) d.programs) f.state
                ∙ program_replaced p.id f.program last mid at_p refl
                ∙ ap some same,
            paid_back-SameCapacity p made.price.reserved_amount_minor env.now later.now
                (All-find IsConsistent (Programs.has_id (as_uuid dto.program_id)) db.programs p
                  sound made.found)
                made.was_active,
          )
      by_release made (repeated r found is_released _ _) =
          let is_row : r ≡ new_reservation dec env dto made.program made.price db =
            some_injective (sym (at_id found) ∙ row_found db mid response made) in
          absurd
            (active_not_released (sym (ap (λ (x : Reservation). x.status) is_row) ∙ is_released))
