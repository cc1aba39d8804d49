-- ===== src/System/Messages.antt =====
-- What the statements keep, the handlers of the treasury's messages keep.
use program_capacity_invoice.Base.{
  ℕ, ◌+◌, String, Bool, true, false, Option, none, some, List, [], ◌∷◌, Date,
}
use program_capacity_invoice.Base.Int.{ℤ}
use program_capacity_invoice.Store.{Tx, Program, ReservationStatus, Reservation, Db, Env}
use program_capacity_invoice.Store.Keeps.{Keeps, keeps_rules, Keeps-pure, Keeps-bind}
use program_capacity_invoice.Treasury.Messages.{once}
use program_capacity_invoice.Treasury.Events.{
  TreasuryHandlerResultStatus, Platform, TreasuryActiveReservation, TreasuryMessageMeta,
  TreasuryCapacityUpdateEvent, TreasuryReconciliationEvent,
}
use program_capacity_invoice.Treasury.Messages as Messages
use program_capacity_invoice.Treasury.CapacityUpdate as CapacityUpdate
use program_capacity_invoice.Treasury.Snapshot as Snapshot
use program_capacity_invoice.Treasury.Reconciliation as Reconciliation
use program_capacity_invoice.System.Statements.{KeptByStatements, reads}

module _ {ℓ} {P : Db → Type ℓ} where
  seen_before-Keeps :
      (id : String) (meta : TreasuryMessageMeta) → Keeps P (Messages.seen_before id meta)
  unfolding Messages.seen_before Messages.find_by_topic_partition_offset
      Messages.find_by_external_message_id
  seen_before-Keeps id meta = search keeps_rules depth 8

module _ {ℓ} {P : Db → Type ℓ} (kept : KeptByStatements P) (platform : Platform) (env : Env) where
  module _ (event : TreasuryCapacityUpdateEvent) (version : ℤ) (occurred : Date) where
    create_program-Keeps :
        Keeps P (CapacityUpdate.create_program platform env event version occurred)
    unfolding CapacityUpdate.create_program
    create_program-Keeps = search (reads, kept.create_from_treasury, kept.insert_ledger) depth 12

    update_program-Keeps :
        (p : Program)
        → Keeps P (CapacityUpdate.update_program platform env event version occurred p)
    unfolding CapacityUpdate.update_program
    update_program-Keeps p = search (reads, kept.apply_capacity_update, kept.insert_ledger) depth 14

    apply_update-Keeps :
        (found : Option Program)
        → Keeps P (CapacityUpdate.apply_event platform env event version occurred found)
    unfolding CapacityUpdate.apply_event
    apply_update-Keeps none = search (reads, create_program-Keeps)
    apply_update-Keeps (some p) = search (reads, update_program-Keeps)

  once-Keeps :
      (id : String) (meta : TreasuryMessageMeta) (work : Tx TreasuryHandlerResultStatus)
      → Keeps P work
      → Keeps P (once id meta work)
  unfolding once
  once-Keeps id meta work k =
      Keeps-bind _ _ (seen_before-Keeps id meta) (elim [ some status ↦ Keeps-pure _ | none ↦ k ])

  pub capacity_update-Keeps :
      (event : TreasuryCapacityUpdateEvent) (meta : TreasuryMessageMeta)
      → Keeps P (CapacityUpdate.handle platform env event meta)
  unfolding CapacityUpdate.handle CapacityUpdate.process
  capacity_update-Keeps event meta =
      once-Keeps event.message_id meta _
        (search (reads, apply_update-Keeps, kept.mark_processed) depth 14)

module _ {ℓ} {P : Db → Type ℓ} (kept : KeptByStatements P) (platform : Platform) (env : Env) where
  module _ (message_id : String) (program : Program) (occurred : Date) where
    update_item-Keeps :
        (item : TreasuryActiveReservation) (row : Reservation) (counts : Snapshot.Counts)
        (amount : ℤ) (status : ReservationStatus)
        → Keeps P
            (Snapshot.update_item env message_id program occurred item row counts amount status)
    unfolding Snapshot.update_item
    update_item-Keeps item row counts amount ReservationStatus.released = Keeps-pure _
    update_item-Keeps item row counts amount _ = search (reads, kept.update_from_reconciliation)

    pub apply_item-Keeps :
        (item : TreasuryActiveReservation) (found : Option Reservation) (counts : Snapshot.Counts)
        → Keeps P (Snapshot.apply_item env message_id program occurred item found counts)
    unfolding Snapshot.apply_item
    apply_item-Keeps item none counts = search (reads, kept.insert_reservation) depth 8
    apply_item-Keeps item (some row) counts = search (reads, update_item-Keeps) depth 8

    pub apply_items-Keeps :
        (existing : List Reservation) (items : List TreasuryActiveReservation)
        (counts : Snapshot.Counts)
        → Keeps P (Snapshot.apply_items env message_id program occurred existing items counts)
    unfolding Snapshot.apply_items
    apply_items-Keeps existing [] counts = Keeps-pure _
    apply_items-Keeps existing (item ∷ items) counts =
        Keeps-bind _ _ (apply_item-Keeps item _ counts)
          (λ next. apply_items-Keeps existing items next)

  pub reconcile_row-Keeps :
      (message_id : String) (missing : Bool) (row : Reservation)
      → Keeps P (Snapshot.reconcile_row env message_id missing row)
  unfolding Snapshot.reconcile_row
  reconcile_row-Keeps message_id true row = search (reads, kept.mark_reconciled)
  reconcile_row-Keeps message_id false row = Keeps-pure _

  pub reconcile_missing-Keeps :
      (message_id : String) (items : List TreasuryActiveReservation) (rows : List Reservation)
      (reconciled : ℕ)
      → Keeps P (Snapshot.reconcile_missing env message_id items rows reconciled)
  unfolding Snapshot.reconcile_missing
  reconcile_missing-Keeps message_id items [] reconciled = Keeps-pure _
  reconcile_missing-Keeps message_id items (row ∷ rows) reconciled =
      Keeps-bind _ _ (reconcile_row-Keeps message_id _ row)
        (λ n. reconcile_missing-Keeps message_id items rows (reconciled + n))

  module _ (event : TreasuryReconciliationEvent) (declared : Reconciliation.Declared) where
    open_program-Keeps :
        (found : Option Program)
        → Keeps P (Reconciliation.found_or_created platform env event declared found)
    unfolding Reconciliation.found_or_created
    open_program-Keeps none = search (reads, kept.create_from_treasury) depth 8
    open_program-Keeps (some p) = Keeps-pure _

    find_or_create-Keeps : Keeps P (Reconciliation.find_or_create platform env event declared)
    unfolding Reconciliation.find_or_create
    find_or_create-Keeps = search (reads, open_program-Keeps)

    pub record_difference-Keeps :
        (p : Program) (total reserved : ℤ)
        → Keeps P (Reconciliation.record_difference platform env event declared p total reserved)
    unfolding Reconciliation.record_difference
    record_difference-Keeps p total reserved = search (reads, kept.insert_ledger)

    apply_snapshot-Keeps :
        (p : Program) (reserved : ℤ)
        → Keeps P (Reconciliation.apply_snapshot platform env event declared p reserved)
    unfolding Reconciliation.apply_snapshot
    apply_snapshot-Keeps p reserved =
        search
          (
            reads, apply_items-Keeps, reconcile_missing-Keeps, kept.insert_run,
            record_difference-Keeps, kept.apply_reconciliation,
          )
          depth 20

    check_and_apply-Keeps :
        (p : Program) → Keeps P (Reconciliation.check_and_apply platform env event declared p)
    unfolding Reconciliation.check_and_apply
    check_and_apply-Keeps p = search (reads, kept.insert_run, apply_snapshot-Keeps) depth 12

    apply_event-Keeps :
        (p : Program) (created : Bool)
        → Keeps P (Reconciliation.apply_event platform env event declared p created)
    unfolding Reconciliation.apply_event
    apply_event-Keeps p created = search (reads, kept.insert_run, check_and_apply-Keeps) depth 8

  process-Keeps :
      (event : TreasuryReconciliationEvent) (meta : TreasuryMessageMeta)
      → Keeps P (Reconciliation.process platform env event meta)
  unfolding Reconciliation.process Reconciliation.read_declared
  process-Keeps event meta =
      search (reads, find_or_create-Keeps, apply_event-Keeps, kept.mark_processed) depth 20

  pub reconciliation-Keeps :
      (event : TreasuryReconciliationEvent) (meta : TreasuryMessageMeta)
      → Keeps P (Reconciliation.handle platform env event meta)
  unfolding Reconciliation.handle
  reconciliation-Keeps event meta =
      once-Keeps kept platform env event.message_id meta _ (process-Keeps event meta)
