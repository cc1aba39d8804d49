-- ===== src/Effects/Snapshot.antt =====
-- What applying a snapshot does to its program: treasury/treasury-reconciliation.handler.ts.
use mathlib.Core.Path.{subst}
use program_capacity_invoice.Base.{
  ℕ, ◌+◌, String, Bool, true, false, ◌≡◌, refl, sym, ◌∙◌, ap, Option, none, some, List, [], ◌∷◌,
  Date,
}
use program_capacity_invoice.Base.Int.{ℤ, ◌-ℤ◌}
use program_capacity_invoice.Errors.{ok}
use program_capacity_invoice.Store.{
  Program, Reservation, ReservationStatus, ReconciliationRun, Db, Env, >>=-eq-ok,
}
use program_capacity_invoice.Store.Keeps.{Keeps, Keeps-pure, Keeps-bind, keeps_rules}
use program_capacity_invoice.Store.Inversion.{pure-eq-ok, lift-eq-ok}
use program_capacity_invoice.Programs.Repository as Programs
use program_capacity_invoice.Programs.Updates.{Updates, update_where-Updates}
use program_capacity_invoice.Reservations.Repository as Reservations
use program_capacity_invoice.Treasury.Events.{
  Platform, TreasuryActiveReservation, TreasuryReconciliationEvent,
}
use program_capacity_invoice.Treasury.Runs as Runs
use program_capacity_invoice.Treasury.Snapshot as Snapshot
use program_capacity_invoice.Treasury.Snapshot.{Counts, currency_mismatch, snapshot_sum}
use program_capacity_invoice.Treasury.Reconciliation.{Declared, record_difference, apply_snapshot}
use program_capacity_invoice.System.Statements.{lock_all-Keeps}
use program_capacity_invoice.System.Frames.{
  insert_ledger-frame, insert_run-frame, insert_reservation-frame, update_reservation-frame,
}

-- The loops over a snapshot write no program.
module _ (rows : List Program) (env : Env) (message_id : String) where
  abbrev HasPrograms : Db → Type 0
  HasPrograms db = db.programs ≡ rows

  module _ (program : Program) (occurred : Date) where
    item_programs :
        (item : TreasuryActiveReservation) (row : Reservation) (counts : Counts) (amount : ℤ)
        (status : ReservationStatus)
        → Keeps HasPrograms
            (Snapshot.update_item env message_id program occurred item row counts amount status)
    unfolding Snapshot.update_item Reservations.update_from_reconciliation
    item_programs item row counts amount ReservationStatus.released = Keeps-pure _
    item_programs item row counts amount _ =
        Keeps-bind _ _
          (update_reservation-frame HasPrograms row.id (
            Reservations.updated_from
              (Snapshot.snapshot_amounts env message_id program occurred item amount)))
          (λ _. Keeps-pure _)

    apply_item_programs :
        (item : TreasuryActiveReservation) (found : Option Reservation) (counts : Counts)
        → Keeps HasPrograms (Snapshot.apply_item env message_id program occurred item found counts)
    unfolding Snapshot.apply_item
    apply_item_programs item none counts =
        search (keeps_rules, insert_reservation-frame HasPrograms) depth 8
    apply_item_programs item (some row) counts = search (keeps_rules, item_programs) depth 8

    apply_items_programs :
        (existing : List Reservation) (items : List TreasuryActiveReservation) (counts : Counts)
        → Keeps HasPrograms
            (Snapshot.apply_items env message_id program occurred existing items counts)
    unfolding Snapshot.apply_items
    apply_items_programs existing [] counts = Keeps-pure _
    apply_items_programs existing (item ∷ items) counts =
        Keeps-bind _ _ (apply_item_programs item _ counts)
          (λ next. apply_items_programs existing items next)

  reconcile_row_programs :
      (missing : Bool) (row : Reservation)
      → Keeps HasPrograms (Snapshot.reconcile_row env message_id missing row)
  unfolding Snapshot.reconcile_row Reservations.mark_reconciled
  reconcile_row_programs true row =
      Keeps-bind _ _
        (update_reservation-frame HasPrograms row.id
          (Reservations.reconciled_at_now message_id env.now))
        (λ _. Keeps-pure _)
  reconcile_row_programs false row = Keeps-pure _

  reconcile_missing_programs :
      (items : List TreasuryActiveReservation) (existing : List Reservation) (count : ℕ)
      → Keeps HasPrograms (Snapshot.reconcile_missing env message_id items existing count)
  unfolding Snapshot.reconcile_missing
  reconcile_missing_programs items [] count = Keeps-pure _
  reconcile_missing_programs items (row ∷ existing) count =
      Keeps-bind _ _ (reconcile_row_programs _ row)
        (λ n. reconcile_missing_programs items existing (count + n))

-- Programs, reservations and the ledger are as they were.
pub record SameAccounts (db after : Db) : Type 0 where
  pub programs : after.programs ≡ db.programs
  pub reservations : after.invoice_reservations ≡ db.invoice_reservations
  pub ledger : after.capacity_ledger ≡ db.capacity_ledger

pub accounts_of_eq : {db after : Db} → after ≡ db → SameAccounts db after
accounts_of_eq same = record {
  programs = ap (λ (d : Db). d.programs) same;
  reservations = ap (λ (d : Db). d.invoice_reservations) same;
  ledger = ap (λ (d : Db). d.capacity_ledger) same;
}

pub accounts_trans : (a b c : Db) → SameAccounts a b → SameAccounts b c → SameAccounts a c
accounts_trans a b c h k = record {
  programs = k.programs ∙ h.programs;
  reservations = k.reservations ∙ h.reservations;
  ledger = k.ledger ∙ h.ledger;
}

pub insert_run-SameAccounts :
    (new : ReconciliationRun) (db : Db) (u : Unit {0}) (after : Db)
    → Runs.insert new db ≡ ok (u, after)
    → SameAccounts db after
insert_run-SameAccounts new db u after h =
    let same =
      (insert_run-frame (SameAccounts db) new).at db u after h
        (record { programs = refl; reservations = refl; ledger = refl }) in
    record { programs = same.programs; reservations = same.reservations; ledger = same.ledger }

module _ (platform : Platform) (env : Env) (event : TreasuryReconciliationEvent)
    (declared : Declared) where
  abbrev pub input : ℤ → ℤ → Programs.ApplyReconciliationInput
  input reserved exponent = record {
    total_limit_minor = declared.total_limit_minor;
    reserved_amount_minor = reserved;
    currency = event.payload.currency;
    currency_exponent = exponent;
    treasury_version = declared.treasury_version;
    occurred_at = declared.occurred_at;
  }

  difference_programs :
      (rows : List Program) (p : Program) (total reserved : ℤ)
      → Keeps
          (HasPrograms rows env event.message_id)
          (record_difference platform env event declared p total reserved)
  unfolding record_difference
  difference_programs rows p total reserved =
      search (keeps_rules, insert_ledger-frame (HasPrograms rows env event.message_id)) depth 8

  -- The program's row takes the limit and the sum of the snapshot.
  pub record Replaces (p : Program) (reserved : ℤ) (before after : Db) : Type 0 where
    pub ran : apply_snapshot platform env event declared p reserved before ≡ ok (tt, after)
    pub exponent : ℤ
    pub row : Option Program
    pub mid : Db
    pub same : mid.programs ≡ before.programs
    pub updates :
        Updates p.id
          (λ _. true)
          (Programs.reconciled_by (input reserved exponent) env.now)
          mid
          row
          after

  pub apply_snapshot-Replaces :
      (p : Program) (reserved : ℤ) (db : Db) (u : Unit {0}) (after : Db)
      → apply_snapshot platform env event declared p reserved db ≡ ok (u, after)
      → Replaces p reserved db after
  unfolding apply_snapshot Programs.apply_reconciliation
  apply_snapshot-Replaces p reserved db u after h =
      let rows = db.programs in
      let (existing, db1, h1, rest1) = >>=-eq-ok _ _ db u after h in
      let (counts, db2, h2, rest2) = >>=-eq-ok _ _ db1 u after rest1 in
      let (count, db3, h3, rest3) = >>=-eq-ok _ _ db2 u after rest2 in
      let (u4, db4, h4, rest4) = >>=-eq-ok _ _ db3 u after rest3 in
      let (u5, db5, h5, rest5) = >>=-eq-ok _ _ db4 u after rest4 in
      let (exponent, db6, h6, rest6) = >>=-eq-ok _ _ db5 u after rest5 in
      let (row, db7, h7, rest7) = >>=-eq-ok _ _ db6 u after rest6 in
      let k1 =
        (lock_all-Keeps {P = HasPrograms rows env event.message_id} p.id).at db existing db1 h1
          refl in
      let k2 =
        (apply_items_programs rows env event.message_id p declared.occurred_at existing
            event.payload.active_reservations
            (record { inserted = 0; updated = 0; conflict = 0 })).at
          db1 counts db2 h2 k1 in
      let k3 =
        (reconcile_missing_programs rows env event.message_id event.payload.active_reservations
            existing 0).at
          db2 count db3 h3 k2 in
      let k4 = (insert_run-frame (HasPrograms rows env event.message_id) _).at db3 u4 db4 h4 k3 in
      let k5 =
        (difference_programs rows p (declared.total_limit_minor -ℤ p.total_limit_minor)
            (reserved -ℤ p.reserved_amount_minor)).at
          db4 u5 db5 h5 k4 in
      let (_, at6) = lift-eq-ok _ db5 exponent db6 h6 in
      record {
        ran = h;
        exponent = exponent;
        row = row;
        mid = db6;
        same = ap (λ (d : Db). d.programs) at6 ∙ k5;
        updates =
            subst
              (Updates p.id (λ _. true) (Programs.reconciled_by (input reserved exponent) env.now)
                db6 row)
              (sym (pure-eq-ok tt db7 u after rest7).1)
              (update_where-Updates p.id (λ _. true)
                (Programs.reconciled_by (input reserved exponent) env.now) db6 row db7 h7);
      }
