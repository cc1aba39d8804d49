-- ===== src/Tests/Fixtures.antt =====
-- The data of the tests: exact fractions for decimal.js, one program, and its currencies.
use program_capacity_invoice.Base.{
  zero, suc, ℕ, ◌+◌, ◌*◌, ◌/◌, ◌^◌, String, ◌==◌, Option, none, some, [], ◌∷◌, JsNumber, integer,
  fraction, infinite, nan, if◌then◌else◌,
}
use program_capacity_invoice.Base.Int.{ℤ, pos, pos_part}
use program_capacity_invoice.Store.{ProgramStatus, Program, Db, Env}
use program_capacity_invoice.Fx.Money.{DecimalJs}
use program_capacity_invoice.Reservations.Creation.{CreateReservationRequest}
use program_capacity_invoice.Treasury.Events.{Platform}
use program_capacity_invoice.Treasury.Consumer.{Codec, ConsumerState, KafkaMessage}
use program_capacity_invoice.Treasury.Schemas.{
  Json, Fields, string, number, object, array, field, end, cons, nil,
}
use program_capacity_invoice.System.Reach.{Setting}

abbrev Fraction : Type 0
Fraction = ℕ × ℕ

abbrev power : Fraction → ℤ → Fraction
power (a, b) e = (a ^ pos_part e, b ^ pos_part e)

abbrev divide : Fraction → Fraction → Fraction
divide (a, b) (c, d) = (a * d, b * c)

abbrev multiply : Fraction → Fraction → Fraction
multiply (a, b) (c, d) = (a * c, b * d)

abbrev half_up : Fraction → Fraction
half_up (a, b) = ((2 * a + b) / (2 * b), 1)

abbrev whole : Fraction → ℤ
whole (a, b) = pos (a / b)

abbrev pub fractions : DecimalJs
fractions = record {
  Decimal = Fraction;
  of_integer = λ n. (pos_part n, 1);
  of_text = λ t. if t == "1.08" then (108, 100) else (1, 1);
  divided_by = divide;
  times = multiply;
  pow = power;
  round_half_up = half_up;
  to_fixed = λ d places. "1.0800000000";
  to_big_int = whole;
}

-- The uuids of the tests: a few texts.
abbrev pub uuid : ℕ → String
uuid zero = "r0"
uuid (suc zero) = "r1"
uuid (suc (suc zero)) = "r2"
uuid _ = "r3"

abbrev pub env : Env
env = record { gen_random_uuid = uuid; now = pos 5000; commit_error = none }

abbrev pub program : Program
program = record {
  id = "p0";
  external_ref = "PROGRAM-ABC";
  currency = "USD";
  currency_exponent = pos 2;
  total_limit_minor = pos 1000;
  reserved_amount_minor = pos 0;
  status = ProgramStatus.active;
  version = pos 0;
  treasury_version = none;
  last_treasury_event_at = none;
  last_reconciled_at = none;
  updated_at = pos 0;
}

abbrev pub db : Db
db = record {
  programs = program ∷ [];
  invoice_reservations = [];
  capacity_ledger = [];
  reconciliation_runs = [];
  processed_kafka_messages = [];
  fx_rates =
      record {
        base_currency = "EUR";
        quote_currency = "USD";
        rate = "1.08";
        source = "seed-script";
        valid_at = pos 1;
      }
      ∷ [];
  currencies =
      record { code = "USD"; exponent = pos 2 } ∷ record { code = "EUR"; exponent = pos 2 } ∷ [];
  uuids = 0;
}

-- 100.00 EUR
abbrev pub request : CreateReservationRequest
request = record {
  program_id = "p0";
  invoice_id = "INV-1";
  invoice_amount_minor = integer (pos 100);
  invoice_currency = "EUR";
}

abbrev smallint : JsNumber → Option ℤ
smallint (integer n) = some n
smallint fraction = none
smallint infinite = none
smallint nan = none

abbrev pub platform : Platform
platform = record { parse_date = λ t. some (pos 7); to_smallint = smallint }

abbrev text_field : String → String → Fields → Fields
text_field key text rest = field key (string text) rest

abbrev integer_field : String → ℕ → Fields → Fields
integer_field key n rest = field key (number (integer (pos n))) rest

-- The envelope of an event of the program, with version 1.
abbrev envelope : String → String → Fields → Json
envelope id type payload = object (
    text_field "messageId" id (
      text_field "type" type (
        text_field "programExternalRef" "PROGRAM-ABC" (
          integer_field "treasuryVersion" 1 (
            text_field "occurredAt" "2026-07-05T00:00:00Z"
              (field "payload" (object payload) end))))))

-- A new limit of 2000.
abbrev pub update_json : Json
update_json = envelope "m1" "PROGRAM_CAPACITY_UPDATED" (
    text_field "currency" "USD"
      (integer_field "currencyExponent" 2 (integer_field "totalLimitMinor" 2000 end)))

abbrev item : String → ℕ → Json
item invoice_id amount = object (
    text_field "invoiceId" invoice_id
      (integer_field "reservedAmountMinor" amount (text_field "currency" "USD" end)))

-- A snapshot with one reservation of 300.
abbrev snapshot_json : Json
snapshot_json = envelope "m2" "PROGRAM_RECONCILIATION" (
    text_field "currency" "USD" (
      integer_field "currencyExponent" 2 (
        integer_field "totalLimitMinor" 2000 (
          integer_field "reservedAmountMinor" 300
            (field "activeReservations" (array (cons (item "INV-7" 300) nil)) end)))))

abbrev parse_text : String → Option Json
parse_text text =
    if text == "update"
    then some update_json
    else if text == "snapshot"
    then some snapshot_json
    else none

abbrev pub codec : Codec
codec = record { json_parse = parse_text; sha256 = λ t. t }

abbrev pub update_message : KafkaMessage
update_message = record { offset = pos 41; value = some "update" }

abbrev pub snapshot_message : KafkaMessage
snapshot_message = record { offset = pos 42; value = some "snapshot" }

abbrev pub setting : Setting
setting = record {
  decimals = fractions;
  platform = platform;
  codec = codec;
  gen_random_uuid = uuid;
}

abbrev pub state : ConsumerState
state = record { db = db; commits = [] }
