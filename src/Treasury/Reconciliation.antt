-- ===== src/Treasury/Reconciliation.antt =====
-- treasury/treasury-reconciliation.handler.ts
use program_capacity_invoice.Base.{
  ℕ, suc, Bool, true, false, ◌||◌, ◌&&◌, not, Option, none, some, List, [], ◌∷◌, Date, words, minor,
  count, Details, if◌then◌else◌,
}
use program_capacity_invoice.Base.Int.{ℤ, pos, ◌-ℤ◌, eqb_ℤ}
use program_capacity_invoice.Errors.{big_int}
use program_capacity_invoice.Store.{
  Program, treasury_reconciliation_applied, RunStatus, ReconciliationRun, Env, Tx, pure, lift,
  ◌>>=◌, ◌>>◌,
}
use program_capacity_invoice.Programs.Repository as Programs
use program_capacity_invoice.Reservations.Repository as Reservations
use program_capacity_invoice.Audit as Ledger
use program_capacity_invoice.Treasury.Events.{
  TreasuryReconciliationEvent, TreasuryActiveReservation, TreasuryMessageMeta,
  TreasuryHandlerResultStatus, applied, stale, ignored, Platform, stored,
}
use program_capacity_invoice.Treasury.Messages.{processed_row, mark_processed, once}
use program_capacity_invoice.Treasury.Runs as Runs
use program_capacity_invoice.Treasury.CapacityUpdate.{is_stale}
use program_capacity_invoice.Treasury.Snapshot.{
  Counts, currency_mismatch, snapshot_sum, apply_items, reconcile_missing,
}

abbrev length : List TreasuryActiveReservation → ℕ
length [] = 0
length (_ ∷ items) = suc (length items)

-- The event's fields as the handler reads them.
pub record Declared : Type 0 where
  pub treasury_version : ℤ
  pub occurred_at : Date
  pub total_limit_minor : ℤ
  pub reserved_amount_minor : ℤ

module _ (platform : Platform) (env : Env) (event : TreasuryReconciliationEvent) where
  unfoldable pub read_declared : Tx Declared
  read_declared = do
    treasury_version ← lift (big_int event.treasury_version)
    occurred_at ← lift (stored (platform.parse_date event.occurred_at))
    total_limit ← lift (big_int event.payload.total_limit_minor)
    reserved_amount ← lift (big_int event.payload.reserved_amount_minor)
    pure (record {
      treasury_version = treasury_version;
      occurred_at = occurred_at;
      total_limit_minor = total_limit;
      reserved_amount_minor = reserved_amount;
    })

  module _ (declared : Declared) where
    -- A run that is recorded and not applied.
    abbrev pub unapplied_run : Program → RunStatus → Details → ReconciliationRun
    unapplied_run program status metadata = record {
      external_message_id = event.message_id;
      program_id = program.id;
      treasury_total_limit_minor = declared.total_limit_minor;
      treasury_reserved_amount_minor = declared.reserved_amount_minor;
      local_total_limit_minor_before = program.total_limit_minor;
      local_reserved_amount_minor_before = program.reserved_amount_minor;
      total_limit_difference_minor = pos 0;
      reserved_difference_minor = pos 0;
      status = status;
      occurred_at = declared.occurred_at;
      metadata = metadata;
    }

    abbrev pub conflict_metadata : Bool → ℤ → Details
    conflict_metadata mismatch computed =
        (
          "reason",
          words (
              if mismatch
              then "ACTIVE_RESERVATION_CURRENCY_MISMATCH"
              else "RESERVED_AMOUNT_SUM_MISMATCH"),
        )
        ∷ ("declaredReservedAmountMinor", minor declared.reserved_amount_minor)
        ∷ ("computedReservedAmountMinor", minor computed)
        ∷ []

    -- The program, and whether this event creates it.
    unfoldable pub found_or_created : Option Program → Tx (Program × Bool)
    unfolding Programs.create_from_treasury
    found_or_created (some program) = pure (program, false)
    found_or_created none = do
      exponent ← lift (stored (platform.to_smallint event.payload.currency_exponent))
      created ← Programs.create_from_treasury env (record {
        external_ref = event.program_external_ref;
        currency = event.payload.currency;
        currency_exponent = exponent;
        total_limit_minor = declared.total_limit_minor;
        treasury_version = declared.treasury_version;
        occurred_at = declared.occurred_at;
      })
      pure (created, true)

    unfoldable pub find_or_create : Tx (Program × Bool)
    unfolding Programs.find_by_external_ref_for_update found_or_created
    find_or_create = do
      found ← Programs.find_by_external_ref_for_update event.program_external_ref
      found_or_created found

    -- The ledger records a change of the reserved amount or of the limit.
    unfoldable pub record_difference : Program → ℤ → ℤ → Tx (Unit {0})
    unfolding Ledger.insert
    record_difference program total_limit_difference reserved_difference =
        if eqb_ℤ reserved_difference (pos 0) && eqb_ℤ total_limit_difference (pos 0)
        then pure tt
        else Ledger.insert (record {
          program_id = program.id;
          reservation_id = none;
          event_type = treasury_reconciliation_applied;
          amount_minor = reserved_difference;
          currency = event.payload.currency;
          source = "treasury";
          external_message_id = some event.message_id;
          metadata =
              ("totalLimitDifferenceMinor", minor total_limit_difference)
              ∷ ("reservedDifferenceMinor", minor reserved_difference)
              ∷ [];
        })

    abbrev pub applied_run : Program → ℤ → Counts → ℕ → ReconciliationRun
    applied_run program snapshot_reserved counts reconciled = record {
      external_message_id = event.message_id;
      program_id = program.id;
      treasury_total_limit_minor = declared.total_limit_minor;
      treasury_reserved_amount_minor = snapshot_reserved;
      local_total_limit_minor_before = program.total_limit_minor;
      local_reserved_amount_minor_before = program.reserved_amount_minor;
      total_limit_difference_minor = declared.total_limit_minor -ℤ program.total_limit_minor;
      reserved_difference_minor = snapshot_reserved -ℤ program.reserved_amount_minor;
      status = RunStatus.applied;
      occurred_at = declared.occurred_at;
      metadata =
          ("currency", words event.payload.currency)
          ∷ ("activeReservationsCount", count (length event.payload.active_reservations))
          ∷ ("insertedCount", count counts.inserted)
          ∷ ("updatedCount", count counts.updated)
          ∷ ("reconciledCount", count reconciled)
          ∷ ("conflictCount", count counts.conflict)
          ∷ [];
    }

    -- The snapshot replaces the reservations and the aggregate of the program.
    unfoldable pub apply_snapshot : Program → ℤ → Tx (Unit {0})
    unfolding apply_items reconcile_missing Runs.insert record_difference
        Programs.apply_reconciliation Reservations.find_all_for_program_for_update
    apply_snapshot program snapshot_reserved = do
      existing ← Reservations.find_all_for_program_for_update program.id
      counts ←
          apply_items env event.message_id program declared.occurred_at existing
            event.payload.active_reservations (record { inserted = 0; updated = 0; conflict = 0 })
      reconciled ←
          reconcile_missing env event.message_id event.payload.active_reservations existing 0
      Runs.insert (applied_run program snapshot_reserved counts reconciled)
      record_difference program (declared.total_limit_minor -ℤ program.total_limit_minor)
          (snapshot_reserved -ℤ program.reserved_amount_minor)
      exponent ← lift (stored (platform.to_smallint event.payload.currency_exponent))
      Programs.apply_reconciliation env program.id (record {
        total_limit_minor = declared.total_limit_minor;
        reserved_amount_minor = snapshot_reserved;
        currency = event.payload.currency;
        currency_exponent = exponent;
        treasury_version = declared.treasury_version;
        occurred_at = declared.occurred_at;
      })
      pure tt

    -- A snapshot that contradicts itself is recorded, and not applied.
    unfoldable pub check_and_apply : Program → Tx TreasuryHandlerResultStatus
    unfolding currency_mismatch snapshot_sum Runs.insert apply_snapshot
    check_and_apply program = do
      snapshot_reserved ← lift (snapshot_sum (pos 0) event.payload.active_reservations)
      let mismatch = currency_mismatch event.payload.currency event.payload.active_reservations
      if mismatch || not (eqb_ℤ snapshot_reserved declared.reserved_amount_minor)
          then Runs.insert (
              unapplied_run program RunStatus.conflict
                (conflict_metadata mismatch snapshot_reserved))
            >> pure ignored
          else apply_snapshot program snapshot_reserved >> pure applied

    -- A snapshot that is not newer than the program is recorded, and not applied.
    unfoldable pub apply_event : Program → Bool → Tx TreasuryHandlerResultStatus
    unfolding Runs.insert check_and_apply
    apply_event program just_created =
        if not just_created && is_stale declared.treasury_version program.treasury_version
        then Runs.insert (
            unapplied_run program RunStatus.stale_skipped
              (("currency", words event.payload.currency) ∷ []))
          >> pure stale
        else check_and_apply program

  unfoldable pub process : TreasuryMessageMeta → Tx TreasuryHandlerResultStatus
  process meta = do
    declared ← read_declared
    found ← find_or_create declared
    status ← apply_event declared found.0 found.1
    mark_processed
        (processed_row event.message_id "PROGRAM_RECONCILIATION" event.program_external_ref meta)
    pure status

unfoldable pub handle :
    Platform
    → Env
    → TreasuryReconciliationEvent
    → TreasuryMessageMeta
    → Tx TreasuryHandlerResultStatus
handle platform env event meta = once event.message_id meta (process platform env event meta)
