-- ===== src/System/Invariants.antt =====
-- The invariants of the tables that every statement of the service keeps.
use program_capacity_invoice.Base.{String, Bool, true, ◌≡◌, refl, List}
use program_capacity_invoice.Base.Rows.{All}
use program_capacity_invoice.Store.{Program, Env, Reservation}
use program_capacity_invoice.Store.Keeps.{Keeps}
use program_capacity_invoice.Programs.Repository as Programs
use program_capacity_invoice.Programs.Consistency.{
  ConsistentPrograms, reserve_capacity-Keeps, release_capacity-Keeps, apply_capacity_update-Keeps,
  apply_reconciliation-Keeps, create_from_treasury-Keeps,
}
use program_capacity_invoice.Programs.Uniqueness.{
  UniquePrograms, UniqueReferences, SameProgram, has_id_of, has_reference_of, create-UniquePrograms,
  update-UniquePrograms, create-UniqueReferences, update-UniqueReferences,
}
use program_capacity_invoice.Reservations.Repository as Reservations
use program_capacity_invoice.Reservations.Uniqueness.{
  UniqueIds, SameKeys, has_id_of as has_reservation_id_of, has_invoice_of, insert-UniqueIds,
  update-UniqueIds, UniqueInvoices, AdmittedReservations, insert-UniqueInvoices,
  update-UniqueInvoices, insert-AdmittedReservations, update-AdmittedReservations,
}
use program_capacity_invoice.Base.Unique.{AreUnique}
use program_capacity_invoice.System.Statements.{KeptByStatements}
use program_capacity_invoice.System.Frames.{
  update_where-frame, create_from_treasury-frame, insert_ledger-frame, insert_run-frame,
  mark_processed-frame, insert_reservation-frame, update_reservation-frame,
}

pub ConsistentPrograms-kept : KeptByStatements ConsistentPrograms
unfolding Reservations.mark_released Reservations.update_from_reconciliation
    Reservations.mark_reconciled
ConsistentPrograms-kept = record {
  reserve_capacity = reserve_capacity-Keeps;
  release_capacity = release_capacity-Keeps;
  create_from_treasury = create_from_treasury-Keeps;
  apply_capacity_update = apply_capacity_update-Keeps;
  apply_reconciliation = apply_reconciliation-Keeps;
  insert_reservation = insert_reservation-frame ConsistentPrograms;
  mark_released = λ env id.
      update_reservation-frame ConsistentPrograms id (Reservations.released_at_now env.now);
  update_from_reconciliation =
      λ id input. update_reservation-frame ConsistentPrograms id (Reservations.updated_from input);
  mark_reconciled = λ env id message.
      update_reservation-frame ConsistentPrograms id
        (Reservations.reconciled_at_now message env.now);
  insert_ledger = insert_ledger-frame ConsistentPrograms;
  insert_run = insert_run-frame ConsistentPrograms;
  mark_processed = mark_processed-frame ConsistentPrograms;
}

-- A property of the reservations alone is kept where the statements on reservations keep it.
module _ {ℓ} (Q : List Reservation → Type ℓ)
    (inserts : (env : Env) (input : Reservations.InsertReservationInput)
      → Keeps (λ db. Q db.invoice_reservations) (Reservations.insert env input))
    (rewrites : (id : String) (set : Reservation → Reservation)
      → ((r : Reservation) → SameKeys (set r) r)
      → Keeps (λ db. Q db.invoice_reservations) (Reservations.update id set)) where
  kept_on_reservations : KeptByStatements (λ db. Q db.invoice_reservations)
  unfolding Reservations.mark_released Reservations.update_from_reconciliation
      Reservations.mark_reconciled Programs.reserve_capacity Programs.release_capacity
      Programs.apply_capacity_update Programs.apply_reconciliation
  kept_on_reservations = record {
    reserve_capacity = λ env id amount.
        update_where-frame (λ db. Q db.invoice_reservations) id (Programs.can_reserve amount)
          (Programs.reserved_by amount env.now);
    release_capacity = λ env id amount.
        update_where-frame (λ db. Q db.invoice_reservations) id (λ _. true)
          (Programs.released_by amount env.now);
    create_from_treasury = create_from_treasury-frame (λ db. Q db.invoice_reservations);
    apply_capacity_update = λ env id input.
        update_where-frame (λ db. Q db.invoice_reservations) id (λ _. true)
          (Programs.capacity_updated_by input env.now);
    apply_reconciliation = λ env id input.
        update_where-frame (λ db. Q db.invoice_reservations) id (λ _. true)
          (Programs.reconciled_by input env.now);
    insert_reservation = inserts;
    mark_released = λ env id.
        rewrites id (Reservations.released_at_now env.now)
          (λ r. record { id = refl; program_id = refl; invoice_id = refl });
    update_from_reconciliation = λ id input.
        rewrites id (Reservations.updated_from input)
          (λ r. record { id = refl; program_id = refl; invoice_id = refl });
    mark_reconciled = λ env id message.
        rewrites id (Reservations.reconciled_at_now message env.now)
          (λ r. record { id = refl; program_id = refl; invoice_id = refl });
    insert_ledger = insert_ledger-frame (λ db. Q db.invoice_reservations);
    insert_run = insert_run-frame (λ db. Q db.invoice_reservations);
    mark_processed = mark_processed-frame (λ db. Q db.invoice_reservations);
  }

pub UniqueInvoices-kept : KeptByStatements UniqueInvoices
UniqueInvoices-kept =
    kept_on_reservations (AreUnique has_invoice_of) insert-UniqueInvoices update-UniqueInvoices

pub UniqueIds-kept : KeptByStatements UniqueIds
UniqueIds-kept =
    kept_on_reservations (AreUnique has_reservation_id_of) insert-UniqueIds update-UniqueIds

pub AdmittedReservations-kept : KeptByStatements AdmittedReservations
AdmittedReservations-kept =
    kept_on_reservations (All (λ r. Reservations.admits r ≡ true)) insert-AdmittedReservations
      (λ id set _. update-AdmittedReservations id set)

-- A property of the programs alone is kept where the statements on programs keep it.
module _ {ℓ} (Q : List Program → Type ℓ)
    (creates : (env : Env) (input : Programs.CreateFromTreasuryInput)
      → Keeps (λ db. Q db.programs) (Programs.create_from_treasury env input))
    (rewrites : (id : String) (cond : Program → Bool) (set : Program → Program)
      → ((p : Program) → SameProgram (set p) p)
      → Keeps (λ db. Q db.programs) (Programs.update_where id cond set)) where
  pub kept_on_programs : KeptByStatements (λ db. Q db.programs)
  unfolding Reservations.mark_released Reservations.update_from_reconciliation
      Reservations.mark_reconciled Programs.reserve_capacity Programs.release_capacity
      Programs.apply_capacity_update Programs.apply_reconciliation
  kept_on_programs = record {
    reserve_capacity = λ env id amount.
        rewrites id (Programs.can_reserve amount) (Programs.reserved_by amount env.now)
          (λ p. record { id = refl; external_ref = refl });
    release_capacity = λ env id amount.
        rewrites id (λ _. true) (Programs.released_by amount env.now)
          (λ p. record { id = refl; external_ref = refl });
    create_from_treasury = creates;
    apply_capacity_update = λ env id input.
        rewrites id (λ _. true) (Programs.capacity_updated_by input env.now)
          (λ p. record { id = refl; external_ref = refl });
    apply_reconciliation = λ env id input.
        rewrites id (λ _. true) (Programs.reconciled_by input env.now)
          (λ p. record { id = refl; external_ref = refl });
    insert_reservation = insert_reservation-frame (λ db. Q db.programs);
    mark_released = λ env id.
        update_reservation-frame (λ db. Q db.programs) id (Reservations.released_at_now env.now);
    update_from_reconciliation = λ id input.
        update_reservation-frame (λ db. Q db.programs) id (Reservations.updated_from input);
    mark_reconciled = λ env id message.
        update_reservation-frame (λ db. Q db.programs) id
          (Reservations.reconciled_at_now message env.now);
    insert_ledger = insert_ledger-frame (λ db. Q db.programs);
    insert_run = insert_run-frame (λ db. Q db.programs);
    mark_processed = mark_processed-frame (λ db. Q db.programs);
  }

pub UniquePrograms-kept : KeptByStatements UniquePrograms
UniquePrograms-kept =
    kept_on_programs (AreUnique has_id_of) create-UniquePrograms update-UniquePrograms

pub UniqueReferences-kept : KeptByStatements UniqueReferences
UniqueReferences-kept =
    kept_on_programs (AreUnique has_reference_of) create-UniqueReferences update-UniqueReferences
