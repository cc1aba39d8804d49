-- ===== src/Effects/Booked.antt =====
-- reservations/reservations.service.ts, `create`: what a granted request leaves, in figures.
use program_capacity_invoice.Base.{true, ◌≡◌, refl, ◌∙◌, ap, none, some, [], ◌∷◌, ◌++◌, arith}
use program_capacity_invoice.Base.Columns.{as_uuid}
use program_capacity_invoice.Base.Int.{ℤ, ◌+ℤ◌, ◌-ℤ◌, ◌≤ℤ◌, +ℤ_parts, -ℤ_parts}
use program_capacity_invoice.Base.Rows.{find, replace}
use program_capacity_invoice.Errors.{ok}
use program_capacity_invoice.Store.{
  ProgramStatus, Program, ReservationStatus, Reservation, LedgerEntry, reservation_created, Db, Env,
}
use program_capacity_invoice.Fx.Money.{DecimalJs}
use program_capacity_invoice.Programs.Repository as Programs
use program_capacity_invoice.Reservations.Repository as Reservations
use program_capacity_invoice.Reservations.Service.{compute_available}
use program_capacity_invoice.Reservations.Creation.{
  CreateReservationRequest, ReservationResponse, Quote, quote, create, creation_entry,
}
use program_capacity_invoice.Effects.Creation.{create-Reserves, new_reservation, find_again}
use program_capacity_invoice.Effects.Idempotence.{program_replaced}

-- What is left of a limit that had room for the amount.
left_over :
    (p : Program) (amount : ℤ) (now : _)
    → Programs.can_reserve amount p ≡ true
    → (amount ≤ℤ (p.total_limit_minor -ℤ p.reserved_amount_minor))
      × (compute_available (Programs.reserved_by amount now p)
          ≡ p.total_limit_minor -ℤ (p.reserved_amount_minor +ℤ amount))
unfolding compute_available
left_over p amount now can = ground (
  arith,
  +ℤ_parts p.reserved_amount_minor amount,
  -ℤ_parts p.total_limit_minor p.reserved_amount_minor,
  -ℤ_parts p.total_limit_minor (p.reserved_amount_minor +ℤ amount),
)

-- The program's row, with more reserved.
pub record Charged (p : Program) (amount : ℤ) (q : Program) : Type 0 where
  pub reserved : q.reserved_amount_minor ≡ p.reserved_amount_minor +ℤ amount
  pub total : q.total_limit_minor ≡ p.total_limit_minor
  pub status : q.status ≡ p.status

-- The row of the reservation.
pub record Holding (p : Program) (dto : CreateReservationRequest) (amount : ℤ) (r : Reservation)
    : Type 0 where
  pub program : r.program_id ≡ p.id
  pub invoice : r.invoice_id ≡ dto.invoice_id
  pub amount_held : r.reserved_amount_minor ≡ amount
  pub status : r.status ≡ ReservationStatus.active

-- Its entry in the ledger.
pub record Entered (r : Reservation) (amount : ℤ) (entry : LedgerEntry) : Type 0 where
  pub program : entry.program_id ≡ r.program_id
  pub reservation : entry.reservation_id ≡ some r.id
  pub kind : entry.event_type ≡ reservation_created
  pub amount_entered : entry.amount_minor ≡ amount

module _ (dec : DecimalJs) (env : Env) (dto : CreateReservationRequest) where
  -- A request that was granted, with the rows that were found and the rows that were written.
  pub record Books (db : Db) (response : ReservationResponse) (after : Db) : Type 0 where
    pub program : Program
    pub price : Quote dec
    pub found : find (Programs.has_id (as_uuid dto.program_id)) db.programs ≡ some program
    pub was_active : program.status ≡ ProgramStatus.active
    pub new_invoice :
        find (Reservations.has_invoice program.id dto.invoice_id) db.invoice_reservations ≡ none
    pub priced : quote dec env dto program db ≡ ok (price, db)
    pub room :
        price.reserved_amount_minor ≤ℤ (program.total_limit_minor -ℤ program.reserved_amount_minor)
    pub charged : Program
    pub charge : Charged program price.reserved_amount_minor charged
    pub programs : after.programs ≡ replace (Programs.has_id program.id) charged db.programs
    pub stored : find (Programs.has_id program.id) after.programs ≡ some charged
    pub row : Reservation
    pub holding : Holding program dto price.reserved_amount_minor row
    pub rows : after.invoice_reservations ≡ db.invoice_reservations ++ row ∷ []
    pub entry : LedgerEntry
    pub entered : Entered row price.reserved_amount_minor entry
    pub ledger : after.capacity_ledger ≡ db.capacity_ledger ++ entry ∷ []
    pub told_id : response.reservation_id ≡ row.id
    pub told_amount : response.reserved_amount_minor ≡ price.reserved_amount_minor
    pub told_rest :
        response.available_amount_minor
        ≡ program.total_limit_minor
          -ℤ (program.reserved_amount_minor +ℤ price.reserved_amount_minor)

  -- A request that returns has found an ACTIVE program with room for the price and without this
  -- invoice. It has added exactly the price to the program's reserved amount, and changed neither its
  -- limit nor its status; it has added one reservation of the price, ACTIVE, for the program and the
  -- invoice, and one ledger entry of the price for it. The answer gives the reservation's id, the
  -- price, and what is left of the limit.
  pub create-Books :
      (db : Db) (response : ReservationResponse) (after : Db)
      → create dec env dto db ≡ (ok response, after)
      → Books db response after
  create-Books db response after h =
      let made = create-Reserves dec env dto db response after h in
      let p = made.program in
      let amount = made.price.reserved_amount_minor in
      let charged = Programs.reserved_by amount env.now p in
      let row = new_reservation dec env dto p made.price db in
      let (room, rest) = left_over p amount env.now made.granted.affordable in
      record {
        program = p;
        price = made.price;
        found = made.found;
        was_active = made.was_active;
        new_invoice = made.new_invoice;
        priced = made.priced;
        room = room;
        charged = charged;
        charge = record { reserved = refl; total = refl; status = refl };
        programs = ap (λ (d : Db). d.programs) made.granted.state;
        stored =
            ap (λ (d : Db). find (Programs.has_id p.id) d.programs) made.granted.state
            ∙ program_replaced p.id p charged db (find_again dec env dto p db made.found) refl;
        row = row;
        holding = record { program = refl; invoice = refl; amount_held = refl; status = refl };
        rows = ap (λ (d : Db). d.invoice_reservations) made.granted.state;
        entry = creation_entry dec p made.price row;
        entered = record { program = refl; reservation = refl; kind = refl; amount_entered = refl };
        ledger = ap (λ (d : Db). d.capacity_ledger) made.granted.state;
        told_id = made.granted.told.reservation_id;
        told_amount = made.granted.told.reserved;
        told_rest = made.granted.told.available ∙ rest;
      }
