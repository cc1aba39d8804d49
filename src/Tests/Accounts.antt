-- ===== src/Tests/Accounts.antt =====
-- A reservation, and a snapshot that lacks it.
use program_capacity_invoice.Base.{Option, none, ◌≡◌, refl, arith}
use program_capacity_invoice.Base.Int.{pos, ◌+ℤ◌, ◌-ℤ◌}
use program_capacity_invoice.Base.Rows.{find, replace}
use program_capacity_invoice.Errors.{ok}
use program_capacity_invoice.Store.{Program, Db, ◌>>=◌, run}
use program_capacity_invoice.Programs.Repository as Programs
use program_capacity_invoice.Reservations.Repository as Reservations
use program_capacity_invoice.Audit as Ledger
use program_capacity_invoice.Treasury.Schemas as Schemas
use program_capacity_invoice.Treasury.Schemas.{parse_event_of}
use program_capacity_invoice.Treasury.Consumer.{ConsumerState, read_event, handle_message}
use program_capacity_invoice.Treasury.Runs as Runs
use program_capacity_invoice.Treasury.Reconciliation as Reconciliation
use program_capacity_invoice.Treasury.Snapshot as Snapshot
use program_capacity_invoice.System.Reach.{
  env_at, Reach, here, next, create as create_step, message as message_step,
}
use program_capacity_invoice.System.Bounds.{InRange, capacity_returns}
use program_capacity_invoice.Effects.Versions.{Advances}
use program_capacity_invoice.Effects.Ordering.{Reach-Advances}
use program_capacity_invoice.System.Safety.{IsSound, Reach-IsSound}
use program_capacity_invoice.Accounts.Totals.{total}
use program_capacity_invoice.Accounts.Held.{CoveredPrograms}
use program_capacity_invoice.Accounts.Coverage.{IsPlausibleReach, Reach-CoveredPrograms}
use program_capacity_invoice.Accounts.Snapshot.{Resets, apply_snapshot-Resets}
use program_capacity_invoice.Tests.Fixtures.{
  db, env, program, platform, codec, request, setting, state, snapshot_message,
}
use program_capacity_invoice.Tests.Requests.{db-IsSound, held}
use program_capacity_invoice.Tests.Messages.{snapshot}
use program_capacity_invoice.Treasury.Reconciliation.{Declared}
use program_capacity_invoice.Fx.Money.{convert_minor_units}
use program_capacity_invoice.Reservations.Creation.{
  create, run_reservation_transaction, require_active, require_new_invoice, price_and_reserve,
  quote, reserve_quote,
}

db-CoveredPrograms : CoveredPrograms db
unfolding total
db-CoveredPrograms id = ground arith

abbrev reserved : ConsumerState
reserved = record state { db = held }

abbrev settled : ConsumerState
settled =
    (handle_message platform codec (env_at setting (pos 6000)) "treasury.program-reconciliation.v1"
      (pos 0) snapshot_message reserved).0

abbrev history : Reach setting state settled
history =
    next (next here (create_step (pos 5000) request))
      (message_step (pos 6000) none "treasury.program-reconciliation.v1" (pos 0) snapshot_message)

history-IsPlausible : IsPlausibleReach setting history
unfolding parse_event_of Schemas.◌>>=◌ read_event Schemas.parse_active_reservations
    Schemas.parse_items Schemas.parse_active_reservation
history-IsPlausible = ((tt, tt), (refl, tt))

Reach-CoveredPrograms_example : CoveredPrograms settled.db
Reach-CoveredPrograms_example =
    Reach-CoveredPrograms setting state settled history history-IsPlausible db-IsSound
      db-CoveredPrograms

abbrev declared : Declared
declared = record {
  treasury_version = pos 1;
  occurred_at = pos 7;
  total_limit_minor = pos 2000;
  reserved_amount_minor = pos 300;
}

abbrev cleared : Db
cleared =
    (run (Reconciliation.apply_snapshot platform env snapshot declared program (pos 300)) held).1

cleared_run :
    Reconciliation.apply_snapshot platform env snapshot declared program (pos 300) held
    ≡ ok (tt, cleared)
unfolding create run run_reservation_transaction Programs.find_by_id_for_update require_active
    Reservations.find_by_program_and_invoice require_new_invoice price_and_reserve quote
    reserve_quote Reconciliation.apply_snapshot Reconciliation.record_difference
    Snapshot.apply_items Snapshot.apply_item Snapshot.reconcile_missing
    Snapshot.existing_by_invoice_id Programs.apply_reconciliation
    Reservations.find_all_for_program_for_update Reservations.of_program Reservations.insert
    Runs.insert Ledger.insert find replace convert_minor_units ◌>>=◌ ◌+ℤ◌ ◌-ℤ◌ Snapshot.in_snapshot
cleared_run = refl

held-IsSound : IsSound held
held-IsSound =
    Reach-IsSound setting state reserved (next here (create_step (pos 5000) request)) db-IsSound

apply_snapshot-Resets_example :
    Resets platform env snapshot declared program held.invoice_reservations
      cleared.invoice_reservations
apply_snapshot-Resets_example =
    apply_snapshot-Resets platform env snapshot declared program (pos 300) held tt cleared
      held-IsSound.unique_ids held-IsSound.unique cleared_run

db-InRange : InRange db
db-InRange = record {
  programs = (
    record {
      total_nonneg = omega arith;
      total_fits = omega arith;
      reserved_nonneg = omega arith;
      reserved_fits = omega arith;
      version_fits = refl;
      currency_fits = refl;
    },
    tt,
  );
  reservations = tt;
}

capacity_returns_example :
    ((r : Option Program) × (after : Db) × (Programs.reserve_capacity env "p0" (pos 10) settled.db
        ≡ ok (r, after)))
    × ((r : Option Program) × (after : Db) × (Programs.release_capacity env "p0" (pos 10) settled.db
          ≡ ok (r, after)))
capacity_returns_example =
    capacity_returns setting state settled env "p0" (pos 10) history db-InRange (omega arith)

Reach-Advances_example : Advances db.programs settled.db.programs
Reach-Advances_example = Reach-Advances setting state settled history db-IsSound
