-- ===== src/Treasury/Events.antt =====
-- treasury/treasury-message.schemas.ts: the events as their types declare them, and what handlers
-- get and give beside the event (treasury-capacity-update.handler.ts).
use program_capacity_invoice.Base.{String, Option, none, some, List, Date, JsNumber}
use program_capacity_invoice.Base.Int.{ℤ}
use program_capacity_invoice.Errors.{Result, ok, fail, plain_error}

pub record TreasuryActiveReservation : Type 0 where
  pub invoice_id : String
  pub reservation_id : Option String
  pub reserved_amount_minor : JsNumber
  pub currency : String

pub record TreasuryCapacityUpdatePayload : Type 0 where
  pub currency : String
  pub currency_exponent : JsNumber
  pub total_limit_minor : JsNumber

pub record TreasuryReconciliationPayload : Type 0 where
  pub currency : String
  pub currency_exponent : JsNumber
  pub total_limit_minor : JsNumber
  pub reserved_amount_minor : JsNumber
  pub active_reservations : List TreasuryActiveReservation

pub record TreasuryCapacityUpdateEvent : Type 0 where
  pub message_id : String
  pub program_external_ref : String
  pub treasury_version : JsNumber
  pub occurred_at : String
  pub payload : TreasuryCapacityUpdatePayload

pub record TreasuryReconciliationEvent : Type 0 where
  pub message_id : String
  pub program_external_ref : String
  pub treasury_version : JsNumber
  pub occurred_at : String
  pub payload : TreasuryReconciliationPayload

-- The `type` of an event is its constructor.
pub data TreasuryEvent : Type 0 where
  capacity_updated : TreasuryCapacityUpdateEvent → TreasuryEvent
  reconciliation : TreasuryReconciliationEvent → TreasuryEvent

pub record TreasuryMessageMeta : Type 0 where
  pub topic : String
  pub partition : ℤ
  pub offset_value : ℤ
  pub payload_hash : String

pub data TreasuryHandlerResultStatus : Type 0 where
  applied duplicate stale ignored : TreasuryHandlerResultStatus

-- What handlers take from JavaScript and from Prisma: `Date.parse` (`none` is NaN), and the integer
-- that a number is stored as in a `smallint` column (`none` where it is refused).
pub record Platform : Type 0 where
  pub parse_date : String → Option Date
  pub to_smallint : JsNumber → Option ℤ

-- Storing a value that there is not, an Invalid Date or a refused number, throws.
abbrev pub stored : {A : Type 0} → Option A → Result A
stored none = fail plain_error
stored (some a) = ok a
