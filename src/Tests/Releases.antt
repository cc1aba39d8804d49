-- ===== src/Tests/Releases.antt =====
-- A release at a database in range.
use program_capacity_invoice.Base.{◌≡◌, refl, none, [], ◌∷◌, arith}
use program_capacity_invoice.Base.Int.{pos}
use program_capacity_invoice.Base.Rows.{find}
use program_capacity_invoice.Errors.{ok}
use program_capacity_invoice.Store.{Program, ReservationStatus, Reservation, Db}
use program_capacity_invoice.Reservations.Release.{release}
use program_capacity_invoice.System.Bounds.{InRange}
use program_capacity_invoice.Effects.Release.{after_release}
use program_capacity_invoice.Effects.Returns.{answer, release_returns}
use program_capacity_invoice.Tests.Fixtures.{program, env, db}

abbrev pending : Reservation
pending = record {
  id = "r0";
  program_id = "p0";
  invoice_id = "INV-1";
  invoice_amount_minor = pos 100;
  invoice_currency = "EUR";
  invoice_currency_exponent = pos 2;
  reserved_amount_minor = pos 108;
  program_currency = "USD";
  program_currency_exponent = pos 2;
  fx_rate = "1.0800000000";
  fx_rate_source = "seed-script";
  fx_rate_valid_at = pos 1;
  status = ReservationStatus.active;
  source = "API";
  reconciled_at = none;
  reconciliation_message_id = none;
  released_at = none;
}

abbrev drawn : Program
drawn = record program { reserved_amount_minor = pos 108 }

abbrev stored : Db
stored = record db { programs = drawn ∷ []; invoice_reservations = pending ∷ [] }

stored-InRange : InRange stored
stored-InRange = record {
  programs = (
    record {
      total_nonneg = omega arith;
      total_fits = omega arith;
      reserved_nonneg = omega arith;
      reserved_fits = omega arith;
      version_fits = refl;
      currency_fits = refl;
    },
    tt,
  );
  reservations = (
    record {
      invoice_positive = omega arith;
      invoice_fits = omega arith;
      reserved_positive = omega arith;
      reserved_fits = omega arith;
      invoice_currency_fits = refl;
      program_currency_fits = refl;
    },
    tt,
  );
}

release_returns_example :
    release env "r0" stored
    ≡ (ok (answer env pending drawn), after_release env drawn pending stored)
unfolding find
release_returns_example =
    release_returns env pending drawn stored refl refl stored-InRange (omega arith) (omega arith)
      "r0" refl refl
