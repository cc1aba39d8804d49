-- ===== src/Treasury/Snapshot.antt =====
-- treasury/treasury-reconciliation.handler.ts: how the reservations of a snapshot are applied.
use program_capacity_invoice.Base.{
  ℕ, ◌+◌, String, ◌==◌, Bool, true, false, ◌&&◌, ◌||◌, not, Option, none, some, List, [], ◌∷◌, Date,
  if◌then◌else◌,
}
use program_capacity_invoice.Base.Int.{ℤ, ◌+ℤ◌}
use program_capacity_invoice.Errors.{Result, ok, fail, big_int}
use program_capacity_invoice.Store.{
  Program, ReservationStatus, Reservation, Env, Tx, pure, lift, ◌>>=◌, ◌>>◌,
}
use program_capacity_invoice.Reservations.Repository as Reservations
use program_capacity_invoice.Treasury.Events.{TreasuryActiveReservation}

-- `activeReservations.some((item) => item.currency !== event.payload.currency)`
unfoldable pub currency_mismatch : String → List TreasuryActiveReservation → Bool
currency_mismatch currency [] = false
currency_mismatch currency (item ∷ items) =
    not (item.currency == currency) || currency_mismatch currency items

-- The `reduce` over `BigInt(item.reservedAmountMinor)`, from an initial sum.
unfoldable pub snapshot_sum : ℤ → List TreasuryActiveReservation → Result ℤ
snapshot_sum sum [] = ok sum
snapshot_sum sum (item ∷ items) = elim (big_int item.reserved_amount_minor) [
  | ok amount ↦ snapshot_sum (sum +ℤ amount) items
  | fail e ↦ fail e
]

-- `existingByInvoiceId.get(...)`: of two entries for one key a `Map` keeps the later.
unfoldable pub existing_by_invoice_id : String → List Reservation → Option Reservation
existing_by_invoice_id invoice_id [] = none
existing_by_invoice_id invoice_id (row ∷ rows) = elim (existing_by_invoice_id invoice_id rows) [
  | some later ↦ some later
  | none ↦ if row.invoice_id == invoice_id then some row else none
]

-- `snapshotInvoiceIds.has(...)`
unfoldable pub in_snapshot : String → List TreasuryActiveReservation → Bool
in_snapshot invoice_id [] = false
in_snapshot invoice_id (item ∷ items) =
    item.invoice_id == invoice_id || in_snapshot invoice_id items

pub record Counts : Type 0 where
  pub inserted : ℕ
  pub updated : ℕ
  pub conflict : ℕ

abbrev pub is_active : ReservationStatus → Bool
is_active ReservationStatus.active = true
is_active ReservationStatus.released = false
is_active ReservationStatus.reconciled = false

module _ (env : Env) (message_id : String) where
  module _ (program : Program) (occurred_at : Date) where
    -- The row that an item without a local reservation becomes.
    abbrev pub snapshot_input : TreasuryActiveReservation → ℤ → Reservations.InsertReservationInput
    snapshot_input item amount = record {
      program_id = program.id;
      invoice_id = item.invoice_id;
      invoice_currency = item.currency;
      invoice_currency_exponent = program.currency_exponent;
      invoice_amount_minor = amount;
      program_currency = program.currency;
      program_currency_exponent = program.currency_exponent;
      reserved_amount_minor = amount;
      fx_rate = "1.0000000000";
      fx_rate_source = "TREASURY_RECONCILIATION";
      fx_rate_valid_at = occurred_at;
      source = some "TREASURY_RECONCILIATION";
      reconciliation_message_id = some message_id;
    }

    abbrev pub snapshot_amounts : TreasuryActiveReservation → ℤ → Reservations.ReconciliationAmounts
    snapshot_amounts item amount = record {
      reserved_amount_minor = amount;
      invoice_amount_minor = amount;
      invoice_currency = item.currency;
      invoice_currency_exponent = program.currency_exponent;
    }

    -- An item whose reservation is RELEASED is a conflict, and changes nothing.
    unfoldable pub update_item :
        TreasuryActiveReservation → Reservation → Counts → ℤ → ReservationStatus → Tx Counts
    unfolding Reservations.update_from_reconciliation
    update_item item row counts amount ReservationStatus.released =
        pure (record counts { conflict = counts.conflict + 1 })
    update_item item row counts amount _ =
        Reservations.update_from_reconciliation row.id (snapshot_amounts item amount)
        >> pure (record counts { updated = counts.updated + 1 })

    -- One round of the loop over `activeReservations`, on the row found for the item.
    unfoldable pub apply_item : TreasuryActiveReservation → Option Reservation → Counts → Tx Counts
    unfolding Reservations.insert update_item
    apply_item item none counts = do
      amount ← lift (big_int item.reserved_amount_minor)
      Reservations.insert env (snapshot_input item amount)
      pure (record counts { inserted = counts.inserted + 1 })
    apply_item item (some row) counts = do
      amount ← lift (big_int item.reserved_amount_minor)
      update_item item row counts amount row.status

    unfoldable pub apply_items :
        List Reservation → List TreasuryActiveReservation → Counts → Tx Counts
    apply_items existing [] counts = pure counts
    apply_items existing (item ∷ items) counts = do
      next ← apply_item item (existing_by_invoice_id item.invoice_id existing) counts
      apply_items existing items next

  -- A missing row is RECONCILED; the result is what it adds to the count.
  unfoldable pub reconcile_row : Bool → Reservation → Tx ℕ
  unfolding Reservations.mark_reconciled
  reconcile_row true row = Reservations.mark_reconciled env row.id message_id >> pure 1
  reconcile_row false row = pure 0

  -- The loop over `existingReservations`: an ACTIVE one that the snapshot lacks is RECONCILED.
  unfoldable pub reconcile_missing : List TreasuryActiveReservation → List Reservation → ℕ → Tx ℕ
  unfolding reconcile_row
  reconcile_missing items [] reconciled = pure reconciled
  reconcile_missing items (row ∷ rows) reconciled = do
    added ← reconcile_row (is_active row.status && not (in_snapshot row.invoice_id items)) row
    reconcile_missing items rows (reconciled + added)
