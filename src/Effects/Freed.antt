-- ===== src/Effects/Freed.antt =====
-- reservations/reservations.service.ts, `release`: what a release leaves, in figures.
use program_capacity_invoice.Base.{String, ◌≡◌, refl, ap, some, [], ◌∷◌, ◌++◌, arith}
use program_capacity_invoice.Base.Columns.{as_uuid}
use program_capacity_invoice.Base.Int.{
  ℤ, pos, ◌+ℤ◌, ◌-ℤ◌, ◌≤ℤ◌, ◌<ℤ◌, +ℤ_parts, -ℤ_parts, eq_of_parts,
}
use program_capacity_invoice.Base.Rows.{find, replace}
use program_capacity_invoice.Errors.{ok}
use program_capacity_invoice.Store.{
  ProgramStatus, Program, ReservationStatus, Reservation, LedgerEntry, reservation_released, Db,
  Env,
}
use program_capacity_invoice.Programs.Repository as Programs
use program_capacity_invoice.Reservations.Repository as Reservations
use program_capacity_invoice.Reservations.Release.{ReleaseReservationResponse, release}
use program_capacity_invoice.Effects.Release.{
  Frees, freed, repeated, release_entry, release-Releases,
}

-- The program's row, with less reserved: the amount is taken away where it is there, and else
-- nothing stays reserved. The status is the one that the limit then implies.
pub record Refunded (p : Program) (amount : ℤ) (q : Program) : Type 0 where
  pub less :
      amount ≤ℤ p.reserved_amount_minor
      → q.reserved_amount_minor +ℤ amount ≡ p.reserved_amount_minor
  pub none_left : p.reserved_amount_minor <ℤ amount → q.reserved_amount_minor ≡ pos 0
  pub total : q.total_limit_minor ≡ p.total_limit_minor
  pub within : q.reserved_amount_minor ≤ℤ q.total_limit_minor → q.status ≡ ProgramStatus.active
  pub beyond : q.total_limit_minor <ℤ q.reserved_amount_minor → q.status ≡ ProgramStatus.over_limit

-- The reservation's row, closed.
pub record Closed (env : Env) (r x : Reservation) : Type 0 where
  pub id : x.id ≡ r.id
  pub amount : x.reserved_amount_minor ≡ r.reserved_amount_minor
  pub status : x.status ≡ ReservationStatus.released
  pub at : x.released_at ≡ some env.now

-- The entry in the ledger: the amount that was held, with its sign reversed.
pub record Reversed (r : Reservation) (entry : LedgerEntry) : Type 0 where
  pub program : entry.program_id ≡ r.program_id
  pub reservation : entry.reservation_id ≡ some r.id
  pub kind : entry.event_type ≡ reservation_released
  pub opposite : entry.amount_minor +ℤ r.reserved_amount_minor ≡ pos 0

released_by-Refunded :
    (p : Program) (amount : ℤ) (now : _) → Refunded p amount (Programs.released_by amount now p)
released_by-Refunded p amount now = record {
  less = λ h. ground (
    arith,
    -ℤ_parts p.reserved_amount_minor amount,
    +ℤ_parts (p.reserved_amount_minor -ℤ amount) amount,
    eq_of_parts ((p.reserved_amount_minor -ℤ amount) +ℤ amount) p.reserved_amount_minor,
  );
  none_left = λ h. ground (arith, -ℤ_parts p.reserved_amount_minor amount);
  total = refl;
  within = λ h. ground arith;
  beyond = λ h. ground arith;
}

reversed : (amount : ℤ) → (pos 0 -ℤ amount) +ℤ amount ≡ pos 0
reversed amount = ground (
  arith,
  -ℤ_parts (pos 0) amount,
  +ℤ_parts (pos 0 -ℤ amount) amount,
  eq_of_parts ((pos 0 -ℤ amount) +ℤ amount) (pos 0),
)

module _ (env : Env) where
  -- A release of an ACTIVE reservation, with the rows that it found and wrote.
  pub record Settlement (r : Reservation) (db : Db) (response : ReleaseReservationResponse)
      (after : Db) : Type 0 where
    pub program : Program
    pub found : find (Programs.has_id r.program_id) db.programs ≡ some program
    pub refunded : Program
    pub refund : Refunded program r.reserved_amount_minor refunded
    pub programs : after.programs ≡ replace (Programs.has_id program.id) refunded db.programs
    pub row : Reservation
    pub closed : Closed env r row
    pub rows :
        after.invoice_reservations ≡ replace (Reservations.has_id r.id) row db.invoice_reservations
    pub entry : LedgerEntry
    pub reversal : Reversed r entry
    pub ledger : after.capacity_ledger ≡ db.capacity_ledger ++ entry ∷ []
    pub told : response.released_amount_minor ≡ r.reserved_amount_minor

  -- What a release that returned has done.
  pub data Ends (id : String) (db : Db) (response : ReleaseReservationResponse) (after : Db)
      : Type 0 where
    ended :
        (r : Reservation)
        → find (Reservations.has_id (as_uuid id)) db.invoice_reservations ≡ some r
        → r.status ≡ ReservationStatus.active
        → Settlement r db response after
        → Ends id db response after
    ended_before :
        (r : Reservation)
        → find (Reservations.has_id (as_uuid id)) db.invoice_reservations ≡ some r
        → r.status ≡ ReservationStatus.released
        → response.released_amount_minor ≡ r.reserved_amount_minor
        → after ≡ db
        → Ends id db response after

  figures :
      (r : Reservation) (db : Db) (response : ReleaseReservationResponse) (after : Db)
      → Frees env r db response after
      → Settlement r db response after
  figures r db response after f = record {
    program = f.program;
    found = f.found;
    refunded = Programs.released_by r.reserved_amount_minor env.now f.program;
    refund = released_by-Refunded f.program r.reserved_amount_minor env.now;
    programs = ap (λ (d : Db). d.programs) f.state;
    row = Reservations.released_at_now env.now r;
    closed = record { id = refl; amount = refl; status = refl; at = refl };
    rows = ap (λ (d : Db). d.invoice_reservations) f.state;
    entry = release_entry r;
    reversal = record {
      program = refl;
      reservation = refl;
      kind = refl;
      opposite = reversed r.reserved_amount_minor;
    };
    ledger = ap (λ (d : Db). d.capacity_ledger) f.state;
    told = f.released;
  }

  -- A release that returns has found the reservation. An ACTIVE one became RELEASED at the current
  -- time. Its amount was taken from the program's reserved amount, which is 0 where it was less; the
  -- limit stays, and the status is the one that the limit implies. The ledger has one entry more, of
  -- the amount with its sign reversed. A RELEASED one was left as it is, with the whole database. No
  -- other status returns.
  pub release-Ends :
      (id : String) (db : Db) (response : ReleaseReservationResponse) (after : Db)
      → release env id db ≡ (ok response, after)
      → Ends id db response after
  release-Ends id db response after h = elim (release-Releases env id db response after h) [
    | freed r found is f ↦ ended r found is (figures r db response after f)
    | repeated r found is told same ↦ ended_before r found is told same
  ]
