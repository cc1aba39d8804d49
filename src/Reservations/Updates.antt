-- ===== src/Reservations/Updates.antt =====
-- What an INSERT or an UPDATE of one reservation has done, when it returns.
use program_capacity_invoice.Base.{
  String, true, ◌≡◌, inl, inr, none, some, Bool-cases, Option-cases, arith,
}
use program_capacity_invoice.Base.Rows.{find, replace}
use program_capacity_invoice.Errors.{ok}
use program_capacity_invoice.Store.{Reservation, Db, Env, ◌>>=◌}
use program_capacity_invoice.Reservations.Repository.{
  has_id, has_invoice, admits, insert_row, inserted_from, InsertReservationInput, insert, update,
}

-- No row had the invoice, and the new row is the last.
pub record Inserts (env : Env) (input : InsertReservationInput) (db : Db) (r : Reservation)
    (after : Db) : Type 0 where
  pub new_id : find (has_id (env.gen_random_uuid db.uuids)) db.invoice_reservations ≡ none
  pub new_invoice :
      find (has_invoice input.program_id input.invoice_id) db.invoice_reservations ≡ none
  pub row : r ≡ inserted_from (env.gen_random_uuid db.uuids) input
  pub fits : admits (inserted_from (env.gen_random_uuid db.uuids) input) ≡ true
  pub state : after ≡ insert_row r db

module _ (env : Env) (input : InsertReservationInput) (db : Db) where
  pub insert-Inserts :
      (r : Reservation) (after : Db)
      → insert env input db ≡ ok (r, after)
      → Inserts env input db r after
  unfolding insert ◌>>=◌
  insert-Inserts r after e =
      elim (Option-cases
        (find (has_invoice input.program_id input.invoice_id) db.invoice_reservations)) [
          | inr (q, found) ↦ absurd (ground arith)
          | inl free ↦
              elim (Option-cases
                (find (has_id (env.gen_random_uuid db.uuids)) db.invoice_reservations)) [
                  | inr (q, found) ↦ absurd (ground arith)
                  | inl new_id ↦
                      elim (Bool-cases
                        (admits (inserted_from (env.gen_random_uuid db.uuids) input))) [
                          | inr refused ↦ absurd (ground arith)
                          | inl fits ↦ record {
                            new_id = new_id;
                            new_invoice = free;
                            row = ground arith;
                            fits = fits;
                            state = ground arith;
                          }
                        ]
                ]
        ]

abbrev pub with_reservation : String → Reservation → Db → Db
with_reservation id new db = record db {
  invoice_reservations = replace (has_id id) new db.invoice_reservations;
}

-- The row with the id was found, and the new row has taken its place.
pub record Rewrites (id : String) (set : Reservation → Reservation) (db : Db) (r : Reservation)
    (after : Db) : Type 0 where
  pub old : Reservation
  pub found : find (has_id id) db.invoice_reservations ≡ some old
  pub fits : admits (set old) ≡ true
  pub row : r ≡ set old
  pub state : after ≡ with_reservation id r db

module _ (id : String) (set : Reservation → Reservation) (db : Db) where
  pub update-Rewrites :
      (r : Reservation) (after : Db) → update id set db ≡ ok (r, after) → Rewrites id set db r after
  unfolding update ◌>>=◌
  update-Rewrites r after e = elim (Option-cases (find (has_id id) db.invoice_reservations)) [
    | inl absent ↦ absurd (ground arith)
    | inr (old, found) ↦ elim (Bool-cases (admits (set old))) [
      | inr refused ↦ absurd (ground arith)
      | inl fits ↦ record {
        old = old;
        found = found;
        fits = fits;
        row = ground arith;
        state = ground arith;
      }
    ]
  ]
