-- ===== src/System/Frames.antt =====
-- Which tables a statement leaves alone: what is said of the database without the one table that it
-- writes, it keeps.
use program_capacity_invoice.Base.{String, Bool, none, some, [], sym}
use mathlib.Core.Path.{subst}
use program_capacity_invoice.Store.{
  Program, Reservation, LedgerEntry, ReconciliationRun, ProcessedMessage, Db, Env,
}
use program_capacity_invoice.Store.Keeps.{
  Keeps, Keeps-modify, Keeps-bind, Keeps-gets, Keeps-pure, Keeps-throw_if, keeps_rules,
}
use program_capacity_invoice.Programs.Repository as Programs
use program_capacity_invoice.Programs.Updates.{
  untouched, written, update_where-Updates, create_from_treasury-Creates,
}
use program_capacity_invoice.Reservations.Repository as Reservations
use program_capacity_invoice.Reservations.Updates.{insert-Inserts, update-Rewrites}
use program_capacity_invoice.Audit as Ledger
use program_capacity_invoice.Treasury.Messages as Messages
use program_capacity_invoice.Treasury.Runs as Runs

-- The database without the table that statements on programs write, and so on for each table.
abbrev pub but_programs : Db → Db
but_programs db = record db { programs = []; uuids = 0 }

abbrev pub but_reservations : Db → Db
but_reservations db = record db { invoice_reservations = []; uuids = 0 }

abbrev pub but_ledger : Db → Db
but_ledger db = record db { capacity_ledger = [] }

abbrev pub but_runs : Db → Db
but_runs db = record db { reconciliation_runs = [] }

abbrev pub but_messages : Db → Db
but_messages db = record db { processed_kafka_messages = [] }

module _ {ℓ} (Q : Db → Type ℓ) where
  pub update_where-frame :
      (id : String) (cond : Program → Bool) (set : Program → Program)
      → Keeps (λ db. Q (but_programs db)) (Programs.update_where id cond set)
  update_where-frame id cond set = record {
    at = λ db r after e h. elim (update_where-Updates id cond set db r after e) [
      | untouched _ _ same ↦ subst (λ d. Q (but_programs d)) (sym same) h
      | written p _ _ _ _ same ↦ subst (λ d. Q (but_programs d)) (sym same) h
    ];
  }

  pub create_from_treasury-frame :
      (env : Env) (input : Programs.CreateFromTreasuryInput)
      → Keeps (λ db. Q (but_programs db)) (Programs.create_from_treasury env input)
  create_from_treasury-frame env input = record {
    at = λ db p after e h.
        subst (λ d. Q (but_programs d))
          (sym (create_from_treasury-Creates env input db p after e).state) h;
  }

  pub insert_ledger-frame :
      (entry : LedgerEntry) → Keeps (λ db. Q (but_ledger db)) (Ledger.insert entry)
  unfolding Ledger.insert
  insert_ledger-frame entry = Keeps-bind _ _ (Keeps-throw_if _ _) (λ _. Keeps-modify _ (λ db h. h))

  pub insert_run-frame : (new : ReconciliationRun) → Keeps (λ db. Q (but_runs db)) (Runs.insert new)
  unfolding Runs.insert
  insert_run-frame new = Keeps-bind _ _ (Keeps-throw_if _ _) (λ _.
      Keeps-bind _ _ (Keeps-gets _)
        (elim [ some _ ↦ Keeps-pure _ | none ↦ Keeps-modify _ (λ db h. h) ]))

  pub mark_processed-frame :
      (row : ProcessedMessage) → Keeps (λ db. Q (but_messages db)) (Messages.mark_processed row)
  unfolding Messages.mark_processed Messages.find_by_topic_partition_offset
      Messages.find_by_external_message_id
  mark_processed-frame row = Keeps-bind _ _ (search keeps_rules) (elim [
    | some _ ↦ search keeps_rules
    | none ↦
        Keeps-bind _ _ (search keeps_rules)
          (elim [ some _ ↦ search keeps_rules | none ↦ Keeps-modify _ (λ db h. h) ])
  ])

  pub insert_reservation-frame :
      (env : Env) (input : Reservations.InsertReservationInput)
      → Keeps (λ db. Q (but_reservations db)) (Reservations.insert env input)
  insert_reservation-frame env input = record {
    at = λ db r after e h.
        subst (λ d. Q (but_reservations d)) (sym (insert-Inserts env input db r after e).state) h;
  }

  pub update_reservation-frame :
      (id : String) (set : Reservation → Reservation)
      → Keeps (λ db. Q (but_reservations db)) (Reservations.update id set)
  update_reservation-frame id set = record {
    at = λ db r after e h.
        subst (λ d. Q (but_reservations d)) (sym (update-Rewrites id set db r after e).state) h;
  }
