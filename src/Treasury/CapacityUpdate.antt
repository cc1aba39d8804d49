-- ===== src/Treasury/CapacityUpdate.antt =====
-- treasury/treasury-capacity-update.handler.ts
use program_capacity_invoice.Base.{
  Bool, false, Option, none, some, [], ◌∷◌, Date, minor, if◌then◌else◌,
}
use program_capacity_invoice.Base.Int.{ℤ, ◌-ℤ◌, leb_ℤ, eqb_ℤ}
use program_capacity_invoice.Errors.{plain_error, big_int}
use program_capacity_invoice.Store.{
  Program, program_created, treasury_update_applied, Env, Tx, pure, or_throw, lift, ◌>>=◌, ◌>>◌,
}
use program_capacity_invoice.Programs.Repository as Programs
use program_capacity_invoice.Audit as Ledger
use program_capacity_invoice.Treasury.Events.{
  TreasuryCapacityUpdateEvent, TreasuryMessageMeta, TreasuryHandlerResultStatus, applied, stale,
  Platform, stored,
}
use program_capacity_invoice.Treasury.Messages.{processed_row, mark_processed, once}

-- `currentVersion !== null && treasuryVersion <= currentVersion`
abbrev pub is_stale : ℤ → Option ℤ → Bool
is_stale treasury_version none = false
is_stale treasury_version (some current_version) = leb_ℤ treasury_version current_version

module _ (platform : Platform) (env : Env) where
  -- The first event of a program creates it.
  unfoldable pub create_program : TreasuryCapacityUpdateEvent → ℤ → Date → Tx (Unit {0})
  unfolding Programs.create_from_treasury Ledger.insert
  create_program event treasury_version occurred_at = do
    exponent ← lift (stored (platform.to_smallint event.payload.currency_exponent))
    total_limit ← lift (big_int event.payload.total_limit_minor)
    created ← Programs.create_from_treasury env (record {
      external_ref = event.program_external_ref;
      currency = event.payload.currency;
      currency_exponent = exponent;
      total_limit_minor = total_limit;
      treasury_version = treasury_version;
      occurred_at = occurred_at;
    })
    Ledger.insert (record {
      program_id = created.id;
      reservation_id = none;
      event_type = program_created;
      amount_minor = total_limit;
      currency = created.currency;
      source = "treasury";
      external_message_id = some event.message_id;
      metadata = ("totalLimitMinor", minor total_limit) ∷ [];
    })

  -- The ledger records a limit that changed; without a row that is a TypeError.
  unfoldable pub record_change :
      TreasuryCapacityUpdateEvent → Program → ℤ → Option Program → Tx (Unit {0})
  unfolding Ledger.insert
  record_change event program new_limit row =
      if eqb_ℤ new_limit program.total_limit_minor then pure tt else do
        updated ← or_throw row plain_error
        Ledger.insert (record {
          program_id = updated.id;
          reservation_id = none;
          event_type = treasury_update_applied;
          amount_minor = new_limit -ℤ program.total_limit_minor;
          currency = updated.currency;
          source = "treasury";
          external_message_id = some event.message_id;
          metadata =
              ("oldTotalLimitMinor", minor program.total_limit_minor)
              ∷ ("newTotalLimitMinor", minor new_limit)
              ∷ [];
        })

  -- A newer event overwrites the limit.
  unfoldable pub update_program : TreasuryCapacityUpdateEvent → ℤ → Date → Program → Tx (Unit {0})
  unfolding Programs.apply_capacity_update record_change
  update_program event treasury_version occurred_at program = do
    new_limit ← lift (big_int event.payload.total_limit_minor)
    exponent ← lift (stored (platform.to_smallint event.payload.currency_exponent))
    row ← Programs.apply_capacity_update env program.id (record {
      total_limit_minor = new_limit;
      currency = event.payload.currency;
      currency_exponent = exponent;
      treasury_version = treasury_version;
      occurred_at = occurred_at;
    })
    record_change event program new_limit row

  -- What an event that was not seen before does to its program.
  unfoldable pub apply_event :
      TreasuryCapacityUpdateEvent → ℤ → Date → Option Program → Tx TreasuryHandlerResultStatus
  unfolding create_program update_program
  apply_event event treasury_version occurred_at none =
      create_program event treasury_version occurred_at >> pure applied
  apply_event event treasury_version occurred_at (some program) =
      if is_stale treasury_version program.treasury_version
      then pure stale
      else update_program event treasury_version occurred_at program >> pure applied

  -- A message that was not seen before is applied, and recorded.
  unfoldable pub process :
      TreasuryCapacityUpdateEvent → TreasuryMessageMeta → Tx TreasuryHandlerResultStatus
  process event meta = do
    treasury_version ← lift (big_int event.treasury_version)
    occurred_at ← lift (stored (platform.parse_date event.occurred_at))
    program ← Programs.find_by_external_ref_for_update event.program_external_ref
    status ← apply_event event treasury_version occurred_at program
    mark_processed
        (processed_row event.message_id "PROGRAM_CAPACITY_UPDATED" event.program_external_ref meta)
    pure status

  unfoldable pub handle :
      TreasuryCapacityUpdateEvent → TreasuryMessageMeta → Tx TreasuryHandlerResultStatus
  handle event meta = once event.message_id meta (process event meta)
