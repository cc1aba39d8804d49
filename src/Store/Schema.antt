-- ===== src/Store/Schema.antt =====
-- The rows of the tables. A row's columns are those that the code writes or reads; `created_at`,
-- and the surrogate keys of the ledger, of the runs and of the processed messages, are left out.
use program_capacity_invoice.Errors.{Exception}
use program_capacity_invoice.Base.{ℕ, String, Option, List, Date, Details}
use program_capacity_invoice.Base.Int.{ℤ}

-- `programs.status`: ACTIVE, OVER_LIMIT, or any other text.
pub data ProgramStatus : Type 0 where
  active over_limit inactive : ProgramStatus

-- ProgramRow and ProgramTreasuryRow
pub record Program : Type 0 where
  pub id : String
  pub external_ref : String
  pub currency : String
  pub currency_exponent : ℤ
  pub total_limit_minor : ℤ
  pub reserved_amount_minor : ℤ
  pub status : ProgramStatus
  pub version : ℤ
  pub treasury_version : Option ℤ
  pub last_treasury_event_at : Option Date
  pub last_reconciled_at : Option Date
  pub updated_at : Date

-- `invoice_reservations.status`
pub data ReservationStatus : Type 0 where
  active released reconciled : ReservationStatus

-- ReservationRow
pub record Reservation : Type 0 where
  pub id : String
  pub program_id : String
  pub invoice_id : String
  pub invoice_currency : String
  pub invoice_currency_exponent : ℤ
  pub invoice_amount_minor : ℤ
  pub program_currency : String
  pub program_currency_exponent : ℤ
  pub reserved_amount_minor : ℤ
  pub fx_rate : String
  pub fx_rate_source : String
  pub fx_rate_valid_at : Date
  pub status : ReservationStatus
  pub source : String
  pub reconciled_at : Option Date
  pub reconciliation_message_id : Option String
  pub released_at : Option Date

pub data LedgerEventType : Type 0 where
  program_created capacity_increased capacity_decreased : LedgerEventType
  reservation_created reservation_released : LedgerEventType
  treasury_reconciliation_applied treasury_update_applied : LedgerEventType

-- InsertLedgerEntryInput, as stored
pub record LedgerEntry : Type 0 where
  pub program_id : String
  pub reservation_id : Option String
  pub event_type : LedgerEventType
  pub amount_minor : ℤ
  pub currency : String
  pub source : String
  pub external_message_id : Option String
  pub metadata : Details

pub data RunStatus : Type 0 where
  applied stale_skipped conflict : RunStatus

-- InsertReconciliationRunInput, as stored
pub record ReconciliationRun : Type 0 where
  pub external_message_id : String
  pub program_id : String
  pub treasury_total_limit_minor : ℤ
  pub treasury_reserved_amount_minor : ℤ
  pub local_total_limit_minor_before : ℤ
  pub local_reserved_amount_minor_before : ℤ
  pub total_limit_difference_minor : ℤ
  pub reserved_difference_minor : ℤ
  pub status : RunStatus
  pub occurred_at : Date
  pub metadata : Details

-- MarkProcessedInput, as stored
pub record ProcessedMessage : Type 0 where
  pub message_id : String
  pub message_type : String
  pub program_external_ref : String
  pub topic : String
  pub partition : ℤ
  pub offset_value : ℤ
  pub payload_hash : String

pub record FxRate : Type 0 where
  pub base_currency : String
  pub quote_currency : String
  pub rate : String
  pub source : String
  pub valid_at : Date

pub record Currency : Type 0 where
  pub code : String
  pub exponent : ℤ

-- The tables, and how many times `gen_random_uuid()` has been called.
pub record Db : Type 0 where
  pub programs : List Program
  pub invoice_reservations : List Reservation
  pub capacity_ledger : List LedgerEntry
  pub reconciliation_runs : List ReconciliationRun
  pub processed_kafka_messages : List ProcessedMessage
  pub fx_rates : List FxRate
  pub currencies : List Currency
  pub uuids : ℕ

-- What a request or message takes from its surroundings: the uuids that the database generates, in
-- Postgres' own spelling, the clock, and the error with which Kafka refuses to commit an offset, if
-- it does. Every reading of the clock within one transaction is one value.
pub record Env : Type 0 where
  pub gen_random_uuid : ℕ → String
  pub now : Date
  pub commit_error : Option Exception
