-- ===== src/Accounts/Items.antt =====
-- What one item of a snapshot does: the loop over `activeReservations` of
-- treasury/treasury-reconciliation.handler.ts.
use mathlib.Core.Path.{subst}
use program_capacity_invoice.Base.{String, ◌≡◌, ◌≢◌, refl, sym, Option, none, some, Date}
use program_capacity_invoice.Base.Int.{ℤ}
use program_capacity_invoice.Errors.{ok, big_int}
use program_capacity_invoice.Store.{Program, Reservation, ReservationStatus, Db, Env, >>=-eq-ok}
use program_capacity_invoice.Store.Inversion.{pure-eq-ok, lift-eq-ok}
use program_capacity_invoice.Reservations.Repository as Reservations
use program_capacity_invoice.Reservations.Updates.{
  Inserts, insert-Inserts, Rewrites, update-Rewrites,
}
use program_capacity_invoice.Treasury.Events.{TreasuryActiveReservation}
use program_capacity_invoice.Treasury.Snapshot.{
  Counts, snapshot_input, snapshot_amounts, update_item, apply_item,
}

module _ (env : Env) (message_id : String) (program : Program) (occurred : Date)
    (item : TreasuryActiveReservation) where
  abbrev pub input : ℤ → Reservations.InsertReservationInput
  input = snapshot_input env message_id program occurred item

  abbrev pub amounts : ℤ → Reservations.ReconciliationAmounts
  amounts = snapshot_amounts env message_id program occurred item

  -- What became of the row that the snapshot of the table has for an item.
  pub data ItemEffect (found : Option Reservation) (amount : ℤ) (db after : Db) : Type 0 where
    added :
        (r : Reservation)
        → found ≡ none
        → Inserts env (input amount) db r after
        → ItemEffect found amount db after
    skipped :
        (row : Reservation)
        → found ≡ some row
        → row.status ≡ ReservationStatus.released
        → after ≡ db
        → ItemEffect found amount db after
    rewritten :
        (row r : Reservation)
        → found ≡ some row
        → row.status ≢ ReservationStatus.released
        → Rewrites row.id (Reservations.updated_from (amounts amount)) db r after
        → ItemEffect found amount db after

  update_item-ItemEffect :
      (row : Reservation) (counts : Counts) (amount : ℤ) (status : ReservationStatus) (db : Db)
      (next : Counts) (after : Db)
      → row.status ≡ status
      → update_item env message_id program occurred item row counts amount status db
        ≡ ok (next, after)
      → ItemEffect (some row) amount db after
  unfolding update_item Reservations.update_from_reconciliation
  update_item-ItemEffect row counts amount ReservationStatus.released db next after is h =
      skipped row refl is (pure-eq-ok _ db next after h).1
  update_item-ItemEffect row counts amount ReservationStatus.active db next after is h =
      let (r, mid, did, rest) = >>=-eq-ok _ _ db next after h in
      rewritten row r refl (λ e. absurd (cc (is, e)))
        (subst (Rewrites row.id (Reservations.updated_from (amounts amount)) db r)
          (sym (pure-eq-ok _ mid next after rest).1)
          (update-Rewrites row.id (Reservations.updated_from (amounts amount)) db r mid did))
  update_item-ItemEffect row counts amount ReservationStatus.reconciled db next after is h =
      let (r, mid, did, rest) = >>=-eq-ok _ _ db next after h in
      rewritten row r refl (λ e. absurd (cc (is, e)))
        (subst (Rewrites row.id (Reservations.updated_from (amounts amount)) db r)
          (sym (pure-eq-ok _ mid next after rest).1)
          (update-Rewrites row.id (Reservations.updated_from (amounts amount)) db r mid did))

  pub apply_item-ItemEffect :
      (found : Option Reservation) (counts : Counts) (db : Db) (next : Counts) (after : Db)
      → apply_item env message_id program occurred item found counts db ≡ ok (next, after)
      → (amount : ℤ) × (big_int item.reserved_amount_minor ≡ ok amount)
        × ItemEffect found amount db after
  unfolding apply_item
  apply_item-ItemEffect none counts db next after h =
      let (amount, db1, h1, rest1) = >>=-eq-ok _ _ db next after h in
      let (r, db2, h2, rest2) = >>=-eq-ok _ _ db1 next after rest1 in
      let (is, at) = lift-eq-ok _ db amount db1 h1 in
      (
        amount,
        is,
        added r refl (
            subst (λ d. Inserts env (input amount) d r after) at
              (subst (Inserts env (input amount) db1 r) (sym (pure-eq-ok _ db2 next after rest2).1)
                (insert-Inserts env (input amount) db1 r db2 h2))),
      )
  apply_item-ItemEffect (some row) counts db next after h =
      let (amount, db1, h1, rest1) = >>=-eq-ok _ _ db next after h in
      let (is, at) = lift-eq-ok _ db amount db1 h1 in
      (
        amount,
        is,
        subst (λ d. ItemEffect (some row) amount d after) at
            (update_item-ItemEffect row counts amount row.status db1 next after refl rest1),
      )
