-- ===== src/Tests/Messages.antt =====
-- Treasury messages on the test data.
use program_capacity_invoice.Effects.Limits.{Takes, capacity_update-Takes}
use program_capacity_invoice.Effects.Replaced.{Reconciles, reconciliation-Reconciles}
use program_capacity_invoice.Tests.Requests.{db-IsSound}
use program_capacity_invoice.System.Reach.{env_at, here, next, create as create_step}
use program_capacity_invoice.Reservations.Creation.{create}
use program_capacity_invoice.Base.{some, integer, ◌≡◌, refl, none, [], ◌∷◌}
use program_capacity_invoice.Base.Int.{ℤ, pos, ◌+ℤ◌, ◌-ℤ◌}
use program_capacity_invoice.Base.Rows.{find, replace}
use program_capacity_invoice.Errors.{ok}
use program_capacity_invoice.Store.{Db, ◌>>=◌, run}
use program_capacity_invoice.Treasury.Events.{
  TreasuryEvent, capacity_updated, reconciliation, TreasuryMessageMeta, TreasuryCapacityUpdateEvent,
  TreasuryReconciliationEvent, TreasuryHandlerResultStatus, applied,
}
use program_capacity_invoice.Treasury.Schemas as Schemas
use program_capacity_invoice.Treasury.Schemas.{valid, parse_event_of, parse_treasury_event}
use program_capacity_invoice.Treasury.RoundTrip.{
  IsEvent, event_json, parse_treasury_event-event_json,
}
use program_capacity_invoice.Treasury.Accepted.{parse_treasury_event-IsEvent}
use program_capacity_invoice.Treasury.Consumer.{
  ConsumerState, Outcome as Ending, processed, handle_message, process_event, handle_read,
  read_event, finish, dispatch, commit_offset,
}
use program_capacity_invoice.Treasury.Messages as Messages
use program_capacity_invoice.Treasury.Runs as Runs
use program_capacity_invoice.Treasury.CapacityUpdate as CapacityUpdate
use program_capacity_invoice.Treasury.Reconciliation as Reconciliation
use program_capacity_invoice.Treasury.Snapshot as Snapshot
use program_capacity_invoice.Programs.Repository as Programs
use program_capacity_invoice.Reservations.Repository as Reservations
use program_capacity_invoice.Audit as Ledger
use program_capacity_invoice.Effects.Settling.{Settles, handle_message-Settles}
use program_capacity_invoice.Effects.Redelivery.{handle_message_again}
use program_capacity_invoice.Tests.Fixtures.{
  update_json, db, env, platform, codec, state, update_message, setting, request, fractions,
}

abbrev after_update : ConsumerState × Ending
after_update =
    handle_message platform codec env "treasury.program-capacity-updated.v1" (pos 0) update_message
      state

update_run : after_update.1 ≡ processed applied
unfolding parse_event_of Schemas.◌>>=◌ handle_message read_event handle_read process_event run
    finish dispatch CapacityUpdate.handle CapacityUpdate.process Messages.once Messages.seen_before
    Messages.mark_processed CapacityUpdate.apply_event CapacityUpdate.update_program
    CapacityUpdate.record_change Programs.find_by_external_ref_for_update
    Programs.apply_capacity_update find replace ◌>>=◌ ◌+ℤ◌ ◌-ℤ◌
update_run = refl

handle_message-Settles_example :
    Settles platform codec env "treasury.program-capacity-updated.v1"
      (pos 0)
      update_message
      state
      after_update
handle_message-Settles_example =
    handle_message-Settles platform codec env "treasury.program-capacity-updated.v1" (pos 0)
      update_message state

abbrev update : TreasuryCapacityUpdateEvent
update = record {
  message_id = "m1";
  program_external_ref = "PROGRAM-ABC";
  treasury_version = integer (pos 1);
  occurred_at = "2026-07-05T00:00:00Z";
  payload = record {
    currency = "USD";
    currency_exponent = integer (pos 2);
    total_limit_minor = integer (pos 2000);
  };
}

abbrev update_meta : TreasuryMessageMeta
update_meta = record {
  topic = "treasury.program-capacity-updated.v1";
  partition = pos 0;
  offset_value = pos 41;
  payload_hash = "update";
}

-- The second delivery comes after a request.
abbrev in_between : ConsumerState
in_between = record after_update.0 {
  db = (create fractions (env_at setting (pos 6000)) request after_update.0.db).1;
}

abbrev update_event : TreasuryEvent
update_event = capacity_updated update

abbrev after_event : Db
after_event = (run (dispatch platform env update_event update_meta) db).1

update_read : read_event platform codec env "update" ≡ some update_event
unfolding parse_event_of Schemas.◌>>=◌ read_event
update_read = refl

dispatch_run : dispatch platform env update_event update_meta db ≡ ok (applied, after_event)
unfolding run dispatch CapacityUpdate.handle CapacityUpdate.process Messages.once
    Messages.seen_before Messages.mark_processed CapacityUpdate.apply_event
    CapacityUpdate.update_program CapacityUpdate.record_change
    Programs.find_by_external_ref_for_update Programs.apply_capacity_update find replace ◌>>=◌ ◌+ℤ◌
    ◌-ℤ◌
dispatch_run = refl

handle_message_again_example :
    (again : TreasuryHandlerResultStatus) × (handle_message platform codec env
        "treasury.program-capacity-updated.v1"
        (pos 0)
        update_message
        in_between
      ≡ commit_offset env "treasury.program-capacity-updated.v1"
          (pos 0)
          (pos 41)
          (processed again)
          in_between)
handle_message_again_example =
    handle_message_again setting env env "treasury.program-capacity-updated.v1" (pos 0)
      update_message update_event state in_between applied after_event update_read dispatch_run
      (next here (create_step (pos 6000) request))

abbrev meta_at : ℤ → TreasuryMessageMeta
meta_at offset = record {
  topic = "t";
  partition = pos 0;
  offset_value = offset;
  payload_hash = "h";
}

abbrev updated : Db
updated = (run (CapacityUpdate.handle platform env update (meta_at (pos 1))) db).1

updated_run : CapacityUpdate.handle platform env update (meta_at (pos 1)) db ≡ ok (applied, updated)
unfolding run CapacityUpdate.handle CapacityUpdate.process Messages.once Messages.seen_before
    Messages.mark_processed CapacityUpdate.apply_event CapacityUpdate.update_program
    CapacityUpdate.record_change Programs.find_by_external_ref_for_update
    Programs.apply_capacity_update find replace ◌>>=◌ ◌+ℤ◌ ◌-ℤ◌
updated_run = refl

capacity_update-Takes_example : Takes platform env update (meta_at (pos 1)) db applied updated
capacity_update-Takes_example =
    capacity_update-Takes platform env update (meta_at (pos 1)) db applied updated
      db-IsSound.unique_programs updated_run

-- One reservation that the service lacks.
abbrev pub snapshot : TreasuryReconciliationEvent
snapshot = record {
  message_id = "m2";
  program_external_ref = "PROGRAM-ABC";
  treasury_version = integer (pos 1);
  occurred_at = "2026-07-05T00:00:00Z";
  payload = record {
    currency = "USD";
    currency_exponent = integer (pos 2);
    total_limit_minor = integer (pos 2000);
    reserved_amount_minor = integer (pos 300);
    active_reservations =
        record {
          invoice_id = "INV-7";
          reservation_id = none;
          reserved_amount_minor = integer (pos 300);
          currency = "USD";
        }
        ∷ [];
  };
}

abbrev reconciled : Db
reconciled = (run (Reconciliation.handle platform env snapshot (meta_at (pos 2))) db).1

reconciled_run :
    Reconciliation.handle platform env snapshot (meta_at (pos 2)) db ≡ ok (applied, reconciled)
unfolding run Reconciliation.handle Reconciliation.process Reconciliation.read_declared
    Reconciliation.find_or_create Reconciliation.found_or_created Reconciliation.apply_event
    Reconciliation.check_and_apply Reconciliation.apply_snapshot Reconciliation.record_difference
    Snapshot.currency_mismatch Snapshot.snapshot_sum Snapshot.apply_items Snapshot.apply_item
    Snapshot.reconcile_missing Snapshot.existing_by_invoice_id Messages.once Messages.seen_before
    Messages.mark_processed Programs.find_by_external_ref_for_update Programs.apply_reconciliation
    Reservations.find_all_for_program_for_update Reservations.of_program Reservations.insert
    Runs.insert Ledger.insert find replace ◌>>=◌ ◌+ℤ◌ ◌-ℤ◌
reconciled_run = refl

reconciliation-Reconciles_example :
    Reconciles platform env snapshot (meta_at (pos 2)) db applied reconciled
reconciliation-Reconciles_example =
    reconciliation-Reconciles platform env snapshot (meta_at (pos 2)) db applied reconciled
      db-IsSound.unique_programs reconciled_run

read_run : parse_treasury_event platform update_json ≡ valid (capacity_updated update)
unfolding parse_treasury_event parse_event_of Schemas.◌>>=◌
read_run = refl

parse_treasury_event-IsEvent_example : IsEvent platform (capacity_updated update)
parse_treasury_event-IsEvent_example =
    parse_treasury_event-IsEvent platform update_json (capacity_updated update) read_run

snapshot-IsEvent : IsEvent platform (reconciliation snapshot)
snapshot-IsEvent = (
  record {
    id_text = refl;
    ref_text = refl;
    version_finite = refl;
    at_text = refl;
    date = pos 7;
    at_date = refl;
  },
  record { currency_text = refl; exponent_finite = refl; total_finite = refl },
  refl,
  (refl, refl, refl, tt),
)

parse_treasury_event-event_json_example :
    parse_treasury_event platform (event_json (reconciliation snapshot))
    ≡ valid (reconciliation snapshot)
parse_treasury_event-event_json_example =
    parse_treasury_event-event_json platform (reconciliation snapshot) snapshot-IsEvent
