-- ===== src/Treasury/Schemas.antt =====
-- treasury/treasury-message.schemas.ts: a JSON value becomes an event, or the validation error of
-- the first check that fails.
use program_capacity_invoice.Base.{
  ℕ, ◌+◌, String, ◌==◌, Bool, true, false, Option, none, some, List, [], ◌∷◌, JsNumber, integer,
  fraction, infinite, nan, if◌then◌else◌,
}
use program_capacity_invoice.Treasury.Events.{
  TreasuryActiveReservation, TreasuryCapacityUpdatePayload, TreasuryEvent, capacity_updated,
  reconciliation, Platform,
}

-- What `JSON.parse` returns.
mutual
  pub data Json : Type 0 where
    null : Json
    boolean : Bool → Json
    number : JsNumber → Json
    string : String → Json
    array : Items → Json
    object : Fields → Json

  pub data Items : Type 0 where
    nil : Items
    cons : Json → Items → Items

  pub data Fields : Type 0 where
    end : Fields
    field : String → Json → Fields → Fields

-- A TreasuryMessageValidationError, by the parts of its message: the field, the index where the
-- field is one of an item of `payload.activeReservations`, and the rest of the text.
pub record ValidationError : Type 0 where
  pub at_field : String
  pub at_item : Option ℕ
  pub problem : String

pub data Parsed {ℓ} (A : Type ℓ) : Type ℓ where
  valid : A → Parsed A
  invalid : ValidationError → Parsed A

infixl 5 ◌>>=◌
unfoldable pub ◌>>=◌ {ℓ κ} : {A : Type ℓ} {B : Type κ} → Parsed A → (A → Parsed B) → Parsed B
valid a >>= f = f a
invalid e >>= f = invalid e

-- An object's property; `none` is `undefined`.
unfoldable pub property : String → Fields → Option Json
property name end = none
property name (field key value fields) = if key == name then some value else property name fields

abbrev pub error : String → Option ℕ → String → ValidationError
error name item problem = record { at_field = name; at_item = item; problem = problem }

-- `typeof raw === 'object' && raw !== null`, as its properties; an array has none of the names read.
abbrev pub as_object : Option Json → ValidationError → Parsed Fields
as_object (some (object fields)) e = valid fields
as_object (some (array items)) e = valid end
as_object (some null) e = invalid e
as_object (some (boolean b)) e = invalid e
as_object (some (number n)) e = invalid e
as_object (some (string s)) e = invalid e
as_object none e = invalid e

unfoldable pub assert_non_empty_string : Option Json → String → Option ℕ → Parsed String
assert_non_empty_string (some (string s)) name item =
    if s == "" then invalid (error name item "must be a non-empty string.") else valid s
assert_non_empty_string _ name item = invalid (error name item "must be a non-empty string.")

abbrev pub is_finite : JsNumber → Bool
is_finite (integer n) = true
is_finite fraction = true
is_finite infinite = false
is_finite nan = false

unfoldable pub assert_finite_number : Option Json → String → Option ℕ → Parsed JsNumber
assert_finite_number (some (number n)) name item =
    if is_finite n then valid n else invalid (error name item "must be a finite number.")
assert_finite_number _ name item = invalid (error name item "must be a finite number.")

-- `item.reservationId`, a string when present.
unfoldable pub optional_string : Option Json → String → Option ℕ → Parsed (Option String)
optional_string none name item = valid none
optional_string (some (string s)) name item = valid (some s)
optional_string (some _) name item = invalid (error name item "must be a string when present.")

unfoldable pub parse_active_reservation : ℕ → Json → Parsed TreasuryActiveReservation
unfolding property assert_non_empty_string assert_finite_number optional_string
parse_active_reservation index raw = do
  fields ← as_object (some raw) (error "" (some index) "must be an object.")
  invoice_id ← assert_non_empty_string (property "invoiceId" fields) "invoiceId" (some index)
  amount ←
      assert_finite_number (property "reservedAmountMinor" fields) "reservedAmountMinor"
        (some index)
  currency ← assert_non_empty_string (property "currency" fields) "currency" (some index)
  reservation_id ← optional_string (property "reservationId" fields) "reservationId" (some index)
  valid (record {
    invoice_id = invoice_id;
    reservation_id = reservation_id;
    reserved_amount_minor = amount;
    currency = currency;
  })

-- `value.map(...)`, from the index of its first element.
unfoldable pub parse_items : ℕ → Items → Parsed (List TreasuryActiveReservation)
parse_items index nil = valid []
parse_items index (cons raw items) = do
  item ← parse_active_reservation index raw
  rest ← parse_items (index + 1) items
  valid (item ∷ rest)

unfoldable pub parse_active_reservations : Option Json → Parsed (List TreasuryActiveReservation)
parse_active_reservations (some (array items)) = parse_items 0 items
parse_active_reservations _ = invalid (error "payload.activeReservations" none "must be an array.")

-- The fields that every event has.
pub record Head : Type 0 where
  pub message_id : String
  pub program_external_ref : String
  pub treasury_version : JsNumber
  pub occurred_at : String

unfoldable pub parse_head : Platform → Fields → Parsed Head
unfolding property assert_non_empty_string assert_finite_number
parse_head platform obj = do
  message_id ← assert_non_empty_string (property "messageId" obj) "messageId" none
  ref ← assert_non_empty_string (property "programExternalRef" obj) "programExternalRef" none
  version ← assert_finite_number (property "treasuryVersion" obj) "treasuryVersion" none
  occurred_at ← assert_non_empty_string (property "occurredAt" obj) "occurredAt" none
  elim (platform.parse_date occurred_at) [
    | none ↦ invalid (error "occurredAt" none "must be a valid ISO 8601 timestamp.")
    | some _ ↦ valid (record {
      message_id = message_id;
      program_external_ref = ref;
      treasury_version = version;
      occurred_at = occurred_at;
    })
  ]

pub data EventType : Type 0 where
  program_capacity_updated program_reconciliation : EventType

unfoldable pub parse_type : Option Json → Parsed EventType
parse_type (some (string s)) =
    if s == "PROGRAM_CAPACITY_UPDATED"
    then valid program_capacity_updated
    else if s == "PROGRAM_RECONCILIATION"
    then valid program_reconciliation
    else invalid (error "type" none "Unsupported treasury message type.")
parse_type _ = invalid (error "type" none "Unsupported treasury message type.")

unfoldable pub parse_payload : Fields → Parsed TreasuryCapacityUpdatePayload
unfolding property assert_non_empty_string assert_finite_number
parse_payload payload = do
  currency ← assert_non_empty_string (property "currency" payload) "payload.currency" none
  exponent ←
      assert_finite_number (property "currencyExponent" payload) "payload.currencyExponent" none
  total ← assert_finite_number (property "totalLimitMinor" payload) "payload.totalLimitMinor" none
  valid (record { currency = currency; currency_exponent = exponent; total_limit_minor = total })

-- The event of a type, from its checked parts and the properties of its payload.
unfoldable pub parse_event_of :
    EventType → Head → TreasuryCapacityUpdatePayload → Fields → Parsed TreasuryEvent
unfolding property assert_finite_number
parse_event_of program_capacity_updated head common payload = valid (
    capacity_updated (record {
      message_id = head.message_id;
      program_external_ref = head.program_external_ref;
      treasury_version = head.treasury_version;
      occurred_at = head.occurred_at;
      payload = common;
    }))
parse_event_of program_reconciliation head common payload = do
  reserved ←
      assert_finite_number (property "reservedAmountMinor" payload) "payload.reservedAmountMinor"
        none
  items ← parse_active_reservations (property "activeReservations" payload)
  valid (
      reconciliation (record {
        message_id = head.message_id;
        program_external_ref = head.program_external_ref;
        treasury_version = head.treasury_version;
        occurred_at = head.occurred_at;
        payload = record {
          currency = common.currency;
          currency_exponent = common.currency_exponent;
          total_limit_minor = common.total_limit_minor;
          reserved_amount_minor = reserved;
          active_reservations = items;
        };
      }))

unfoldable pub parse_treasury_event : Platform → Json → Parsed TreasuryEvent
unfolding property parse_head parse_type parse_payload
parse_treasury_event platform raw = do
  obj ← as_object (some raw) (error "" none "Treasury message body must be a JSON object.")
  head ← parse_head platform obj
  type ← parse_type (property "type" obj)
  payload ← as_object (property "payload" obj) (error "payload" none "must be an object.")
  common ← parse_payload payload
  parse_event_of type head common payload
