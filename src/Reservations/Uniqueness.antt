-- ===== src/Reservations/Uniqueness.antt =====
-- The unique indexes of `invoice_reservations`, the primary key and the invoice of a program, and its
-- CHECK constraints.
use program_capacity_invoice.Base.{
  String, ◌==◌, eq_iff, Bool, true, false, ◌≡◌, sym, ap, none, arith, ◌&&◌,
}
use mathlib.Core.Path.{subst, ap₂}
use program_capacity_invoice.Base.Rows.{find, All, All-append_one, All-replace}
use program_capacity_invoice.Base.Unique.{AreUnique, AreUnique-append_one, AreUnique-replace}
use program_capacity_invoice.Store.{Reservation, Db, Env}
use program_capacity_invoice.Store.Keeps.{Keeps}
use program_capacity_invoice.Reservations.Repository.{
  has_id, has_invoice, admits, InsertReservationInput, insert, update,
}
use program_capacity_invoice.Reservations.Updates.{Inserts, insert-Inserts, update-Rewrites}

-- The second row has the id of the first, or its invoice.
abbrev pub has_id_of : Reservation → Reservation → Bool
has_id_of a = has_id a.id

abbrev pub has_invoice_of : Reservation → Reservation → Bool
has_invoice_of a = has_invoice a.program_id a.invoice_id

abbrev pub UniqueIds : Db → Type 0
UniqueIds db = AreUnique has_id_of db.invoice_reservations

-- At most one reservation of an invoice on a program.
abbrev pub UniqueInvoices : Db → Type 0
UniqueInvoices db = AreUnique has_invoice_of db.invoice_reservations

-- What no UPDATE of the table changes.
pub record SameKeys (a b : Reservation) : Type 0 where
  pub id : a.id ≡ b.id
  pub program_id : a.program_id ≡ b.program_id
  pub invoice_id : a.invoice_id ≡ b.invoice_id

pub has_id_sym : (a b : Reservation) → has_id_of a b ≡ false → has_id_of b a ≡ false
has_id_sym a b h = ground (arith, eq_iff a.id b.id, eq_iff b.id a.id)

pub has_invoice_sym : (a b : Reservation) → has_invoice_of a b ≡ false → has_invoice_of b a ≡ false
has_invoice_sym a b h = ground (
  arith,
  eq_iff a.program_id b.program_id,
  eq_iff b.program_id a.program_id,
  eq_iff a.invoice_id b.invoice_id,
  eq_iff b.invoice_id a.invoice_id,
)

module _ (has_key : Reservation → Reservation → Bool) where
  insert_unique :
      ((a b : Reservation) → has_key a b ≡ false → has_key b a ≡ false)
      → (env : Env) (input : InsertReservationInput)
      → ((db : Db) (r : Reservation) (after : Db)
          → Inserts env input db r after
          → find (has_key r) db.invoice_reservations ≡ none)
      → Keeps (λ db. AreUnique has_key db.invoice_reservations) (insert env input)
  insert_unique symmetric env input free = record {
    at = λ db r after e h.
        let made = insert-Inserts env input db r after e in
        subst (λ d. AreUnique has_key d.invoice_reservations) (sym made.state)
          (AreUnique-append_one has_key symmetric db.invoice_reservations r (free db r after made)
            h);
  }

  update_unique :
      (id : String) (set : Reservation → Reservation)
      → ((r row : Reservation)
          → (has_key row (set r) ≡ has_key row r) × (has_key (set r) row ≡ has_key r row))
      → Keeps (λ db. AreUnique has_key db.invoice_reservations) (update id set)
  update_unique id set same = record {
    at = λ db r after e h.
        let made = update-Rewrites id set db r after e in
        subst (λ d. AreUnique has_key d.invoice_reservations) (sym made.state)
          (AreUnique-replace has_key (has_id id) r db.invoice_reservations
            (λ old row found.
              let at_old : made.old ≡ old = cc (found, made.found) in
              rw made.row (rw at_old (same old row)))
            h);
  }

pub insert-UniqueIds :
    (env : Env) (input : InsertReservationInput) → Keeps UniqueIds (insert env input)
insert-UniqueIds env input =
    insert_unique has_id_of has_id_sym env input (λ db r after made. rw made.row made.new_id)

pub insert-UniqueInvoices :
    (env : Env) (input : InsertReservationInput) → Keeps UniqueInvoices (insert env input)
insert-UniqueInvoices env input =
    insert_unique has_invoice_of has_invoice_sym env input
      (λ db r after made. rw made.row made.new_invoice)

pub update-UniqueIds :
    (id : String) (set : Reservation → Reservation)
    → ((r : Reservation) → SameKeys (set r) r)
    → Keeps UniqueIds (update id set)
update-UniqueIds id set same =
    update_unique has_id_of id set
      (λ r row. (ap (λ x. x == row.id) (same r).id, ap (λ x. row.id == x) (same r).id))

pub update-UniqueInvoices :
    (id : String) (set : Reservation → Reservation)
    → ((r : Reservation) → SameKeys (set r) r)
    → Keeps UniqueInvoices (update id set)
update-UniqueInvoices id set same = update_unique has_invoice_of id set (λ r row. (
  ap₂ (λ p i. p == row.program_id && i == row.invoice_id) (same r).program_id (same r).invoice_id,
  ap₂ (λ p i. row.program_id == p && row.invoice_id == i) (same r).program_id (same r).invoice_id,
))

-- The amounts of every row pass the CHECK constraints.
abbrev pub AdmittedReservations : Db → Type 0
AdmittedReservations db = All (λ r. admits r ≡ true) db.invoice_reservations

pub insert-AdmittedReservations :
    (env : Env) (input : InsertReservationInput) → Keeps AdmittedReservations (insert env input)
insert-AdmittedReservations env input = record {
  at = λ db r after e h.
      let made = insert-Inserts env input db r after e in
      subst AdmittedReservations (sym made.state)
        (All-append_one (λ x. admits x ≡ true) db.invoice_reservations r h (rw made.row made.fits));
}

pub update-AdmittedReservations :
    (id : String) (set : Reservation → Reservation) → Keeps AdmittedReservations (update id set)
update-AdmittedReservations id set = record {
  at = λ db r after e h.
      let made = update-Rewrites id set db r after e in
      subst AdmittedReservations (sym made.state) (
        All-replace (λ x. admits x ≡ true) (has_id id) r db.invoice_reservations h
          (rw made.row made.fits));
}
