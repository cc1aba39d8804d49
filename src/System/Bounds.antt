-- ===== src/System/Bounds.antt =====
-- The range of the amounts in the tables: `bigint` columns with CHECK constraints.
use program_capacity_invoice.Base.{
  Date, Option, none, some, refl, inl, inr, Option-cases, Bool-cases, String, ◌-◌, ◌^◌, Bool, true,
  ◌≡◌, sym, arith,
}
use mathlib.Core.Path.{subst}
use program_capacity_invoice.Base.Int.{ℤ, +ℤ_parts, -ℤ_parts, pos, ◌≤ℤ◌, ◌<ℤ◌}
use program_capacity_invoice.Base.Rows.{replace, find, All-find, All, All-append_one, All-replace}
use program_capacity_invoice.Base.Lookup.{All-map}
use program_capacity_invoice.Store.{Program, Reservation, Db, Env, ◌>>=◌}
use program_capacity_invoice.Errors.{ok}
use program_capacity_invoice.Base.Columns.{in_nullable_bigint, fits_char_3}
use program_capacity_invoice.Store.Keeps.{Keeps}
use program_capacity_invoice.Treasury.Consumer.{ConsumerState}
use program_capacity_invoice.Programs.Repository as Programs
use program_capacity_invoice.Programs.Updates.{
  untouched, written, update_where-Updates, create_from_treasury-Creates,
}
use program_capacity_invoice.Reservations.Repository as Reservations
use program_capacity_invoice.System.Statements.{KeptByStatements}
use program_capacity_invoice.System.Invariants.{kept_on_programs, AdmittedReservations-kept}
use program_capacity_invoice.System.Reach.{Setting, Reach, Reach_keeps}

-- The amounts of a program are not negative, and fit their columns, as its other values do.
pub record ProgramInRange (p : Program) : Type 0 where
  pub total_nonneg : pos 0 ≤ℤ p.total_limit_minor
  pub total_fits : p.total_limit_minor ≤ℤ pos (2 ^ 63 - 1)
  pub reserved_nonneg : pos 0 ≤ℤ p.reserved_amount_minor
  pub reserved_fits : p.reserved_amount_minor ≤ℤ pos (2 ^ 63 - 1)
  pub version_fits : in_nullable_bigint p.treasury_version ≡ true
  pub currency_fits : fits_char_3 p.currency ≡ true

-- Those of a reservation are positive, and fit theirs.
pub record ReservationInRange (r : Reservation) : Type 0 where
  pub invoice_positive : pos 0 <ℤ r.invoice_amount_minor
  pub invoice_fits : r.invoice_amount_minor ≤ℤ pos (2 ^ 63 - 1)
  pub reserved_positive : pos 0 <ℤ r.reserved_amount_minor
  pub reserved_fits : r.reserved_amount_minor ≤ℤ pos (2 ^ 63 - 1)
  pub invoice_currency_fits : fits_char_3 r.invoice_currency ≡ true
  pub program_currency_fits : fits_char_3 r.program_currency ≡ true

pub record InRange (db : Db) : Type 0 where
  pub programs : All ProgramInRange db.programs
  pub reservations : All ReservationInRange db.invoice_reservations

program_range : (p : Program) → Programs.admits p ≡ true → ProgramInRange p
program_range p h = ground arith

program_admits : (p : Program) → ProgramInRange p → Programs.admits p ≡ true
program_admits p h = ground arith

reservation_range : (r : Reservation) → Reservations.admits r ≡ true → ReservationInRange r
reservation_range r h = ground arith

pub reservation_admits : (r : Reservation) → ReservationInRange r → Reservations.admits r ≡ true
reservation_admits r h = ground arith

abbrev AdmittedPrograms : Db → Type 0
AdmittedPrograms db = All (λ p. Programs.admits p ≡ true) db.programs

create-AdmittedPrograms :
    (env : Env) (input : Programs.CreateFromTreasuryInput)
    → Keeps AdmittedPrograms (Programs.create_from_treasury env input)
create-AdmittedPrograms env input = record {
  at = λ db p after e h.
      let made = create_from_treasury-Creates env input db p after e in
      subst AdmittedPrograms (sym made.state)
        (All-append_one (λ x. Programs.admits x ≡ true) db.programs p h (rw made.row made.fits));
}

update-AdmittedPrograms :
    (id : String) (cond : Program → Bool) (set : Program → Program)
    → Keeps AdmittedPrograms (Programs.update_where id cond set)
update-AdmittedPrograms id cond set = record {
  at = λ db r after e h. elim (update_where-Updates id cond set db r after e) [
    | untouched _ _ same ↦ subst AdmittedPrograms (sym same) h
    | written p _ _ fits _ same ↦ subst AdmittedPrograms (sym same) (
        All-replace (λ x. Programs.admits x ≡ true) (Programs.has_id (set p).id) (set p) db.programs
          h fits)
  ];
}

AdmittedPrograms-kept : KeptByStatements AdmittedPrograms
AdmittedPrograms-kept =
    kept_on_programs (All (λ p. Programs.admits p ≡ true)) create-AdmittedPrograms
      (λ id cond set _. update-AdmittedPrograms id cond set)

Reach-InRange :
    (setting : Setting) (s t : ConsumerState) → Reach setting s t → InRange s.db → InRange t.db
Reach-InRange setting s t r h = record {
  programs =
      All-map (λ p. Programs.admits p ≡ true) ProgramInRange t.db.programs program_range
        (Reach_keeps AdmittedPrograms-kept setting r (
          All-map ProgramInRange (λ p. Programs.admits p ≡ true) s.db.programs program_admits
            h.programs));
  reservations =
      All-map (λ x. Reservations.admits x ≡ true) ReservationInRange t.db.invoice_reservations
        reservation_range
        (Reach_keeps AdmittedReservations-kept setting r (
          All-map ReservationInRange (λ x. Reservations.admits x ≡ true) s.db.invoice_reservations
            reservation_admits h.reservations));
}

reserved-fits :
    (p : Program) (amount : ℤ) (now : Date)
    → ProgramInRange p
    → pos 0 ≤ℤ amount
    → Programs.can_reserve amount p ≡ true
    → Programs.admits (Programs.reserved_by amount now p) ≡ true
reserved-fits p amount now h positive can = ground (
  arith,
  +ℤ_parts p.reserved_amount_minor amount,
  -ℤ_parts p.total_limit_minor p.reserved_amount_minor,
)

-- Giving back an amount leaves the program in range.
pub released-fits :
    (p : Program) (amount : ℤ) (now : Date)
    → ProgramInRange p
    → pos 0 ≤ℤ amount
    → (pos 0 ≤ℤ (Programs.released_by amount now p).reserved_amount_minor)
      × (Programs.admits (Programs.released_by amount now p) ≡ true)
released-fits p amount now h positive = ground (arith, -ℤ_parts p.reserved_amount_minor amount)

-- An UPDATE returns if the table admits every row that it would write.
update_returns :
    (id : String) (cond : Program → Bool) (set : Program → Program) (db : Db)
    → ((p : Program)
        → find (Programs.has_id id) db.programs ≡ some p
        → cond p ≡ true
        → Programs.admits (set p) ≡ true)
    → (r : Option Program) × (after : Db) × (Programs.update_where id cond set db ≡ ok (r, after))
unfolding Programs.update_where Programs.find_by_id Programs.write_row ◌>>=◌
update_returns id cond set db fits = elim (Option-cases (find (Programs.has_id id) db.programs)) [
  | inl absent ↦ (none, db, rw absent refl)
  | inr (p, found) ↦ elim (Bool-cases (cond p)) [
    | inl holds ↦
        let ok_row = fits p found holds in
        (
          some (set p),
          record db { programs = replace (Programs.has_id (set p).id) (set p) db.programs },
          rw found (rw holds (rw ok_row refl)),
        )
    | inr fails ↦ (none, db, rw found (rw fails refl))
  ]
]

-- No reservation and no release is refused by the table's constraints, in any state that is reached
-- from one in range: adding an amount that is not negative to a reserved amount, where the limit has
-- room for it, or taking one away, never leaves 0 to 2^63 - 1.
pub capacity_returns :
    (setting : Setting) (s t : ConsumerState) (env : Env) (id : String) (amount : ℤ)
    → Reach setting s t
    → InRange s.db
    → pos 0 ≤ℤ amount
    → ((r : Option Program) × (after : Db) × (Programs.reserve_capacity env id amount t.db
          ≡ ok (r, after)))
      × ((r : Option Program) × (after : Db) × (Programs.release_capacity env id amount t.db
            ≡ ok (r, after)))
unfolding Programs.reserve_capacity Programs.release_capacity
capacity_returns setting s t env id amount reach start positive =
    let in_range = (Reach-InRange setting s t reach start).programs in
    (
      update_returns id (Programs.can_reserve amount) (Programs.reserved_by amount env.now) t.db
          (λ p found can.
            reserved-fits p amount env.now
              (All-find ProgramInRange (Programs.has_id id) t.db.programs p in_range found) positive
              can),
      update_returns id (λ _. true) (Programs.released_by amount env.now) t.db
          (λ p found _.
            (released-fits p amount env.now
              (All-find ProgramInRange (Programs.has_id id) t.db.programs p in_range found)
              positive).1),
    )
