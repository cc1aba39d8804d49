-- ===== src/Treasury/RoundTrip.antt =====
-- treasury/treasury-message.schemas.ts: an event written as the README documents it is read back.
use program_capacity_invoice.Base.{
  ℕ, ◌+◌, String, ◌==◌, true, false, ◌≡◌, refl, Option, none, some, List, [], ◌∷◌, Date, JsNumber,
  arith,
}
use program_capacity_invoice.Treasury.Events.{
  TreasuryActiveReservation, TreasuryEvent, capacity_updated, reconciliation, Platform,
}
use program_capacity_invoice.Treasury.Schemas.{
  ◌>>=◌, Json, Items, Fields, number, string, array, object, nil, cons, field, end, valid,
  is_finite, parse_active_reservation, parse_items, parse_active_reservations, parse_event_of,
  parse_treasury_event,
}

abbrev optional_field : Option String → Fields
optional_field none = end
optional_field (some id) = field "reservationId" (string id) end

-- The documented JSON of an event.
abbrev item_json : TreasuryActiveReservation → Json
item_json item = object (
    field "invoiceId" (string item.invoice_id) (
      field "reservedAmountMinor" (number item.reserved_amount_minor)
        (field "currency" (string item.currency) (optional_field item.reservation_id))))

abbrev items_json : List TreasuryActiveReservation → Items
items_json [] = nil
items_json (item ∷ items) = cons (item_json item) (items_json items)

abbrev envelope : String → String → String → JsNumber → String → Fields → Json
envelope id type ref version at payload = object (
    field "messageId" (string id) (
      field "type" (string type) (
        field "programExternalRef" (string ref) (
          field "treasuryVersion" (number version)
            (field "occurredAt" (string at) (field "payload" (object payload) end))))))

abbrev pub event_json : TreasuryEvent → Json
event_json (capacity_updated e) =
    envelope e.message_id "PROGRAM_CAPACITY_UPDATED" e.program_external_ref e.treasury_version
      e.occurred_at
      (field "currency" (string e.payload.currency) (
        field "currencyExponent" (number e.payload.currency_exponent)
          (field "totalLimitMinor" (number e.payload.total_limit_minor) end)))
event_json (reconciliation e) =
    envelope e.message_id "PROGRAM_RECONCILIATION" e.program_external_ref e.treasury_version
      e.occurred_at
      (field "currency" (string e.payload.currency) (
        field "currencyExponent" (number e.payload.currency_exponent) (
          field "totalLimitMinor" (number e.payload.total_limit_minor) (
            field "reservedAmountMinor" (number e.payload.reserved_amount_minor) (
              field "activeReservations" (array (items_json e.payload.active_reservations)) end)))))

-- The texts are not empty and the numbers finite.
abbrev pub IsText : String → Type 0
IsText s = (s == "") ≡ false

abbrev pub IsFinite : JsNumber → Type 0
IsFinite n = is_finite n ≡ true

abbrev pub AreItems : List TreasuryActiveReservation → Type 0
AreItems [] = Unit
AreItems (item ∷ items) =
    IsText item.invoice_id
    × IsFinite item.reserved_amount_minor
    × IsText item.currency
    × AreItems items

pub record IsHead (platform : Platform) (id ref : String) (version : JsNumber) (at : String)
    : Type 0 where
  pub id_text : IsText id
  pub ref_text : IsText ref
  pub version_finite : IsFinite version
  pub at_text : IsText at
  pub date : Date
  pub at_date : platform.parse_date at ≡ some date

pub record IsPayload (currency : String) (exponent total : JsNumber) : Type 0 where
  pub currency_text : IsText currency
  pub exponent_finite : IsFinite exponent
  pub total_finite : IsFinite total

abbrev pub IsEvent : Platform → TreasuryEvent → Type 0
IsEvent platform (capacity_updated e) =
    IsHead platform e.message_id e.program_external_ref e.treasury_version e.occurred_at
    × IsPayload e.payload.currency e.payload.currency_exponent e.payload.total_limit_minor
IsEvent platform (reconciliation e) =
    IsHead platform e.message_id e.program_external_ref e.treasury_version e.occurred_at
    × IsPayload e.payload.currency e.payload.currency_exponent e.payload.total_limit_minor
    × IsFinite e.payload.reserved_amount_minor
    × AreItems e.payload.active_reservations

item_again :
    (index : ℕ) (item : TreasuryActiveReservation)
    → IsText item.invoice_id
    → IsFinite item.reserved_amount_minor
    → IsText item.currency
    → parse_active_reservation index (item_json item) ≡ valid item
unfolding parse_active_reservation ◌>>=◌
item_again index item id amount currency = ground arith

items_again :
    (index : ℕ) (items : List TreasuryActiveReservation)
    → AreItems items
    → parse_items index (items_json items) ≡ valid items
unfolding parse_items ◌>>=◌
items_again index [] h = refl
items_again index (item ∷ items) (id, amount, currency, rest) =
    rw (item_again index item id amount currency, items_again (index + 1) items rest) refl

-- An event whose texts are not empty, whose numbers are finite and whose time is a date is read back
-- from its documented JSON unchanged, its list of reservations included.
pub parse_treasury_event-event_json :
    (platform : Platform) (event : TreasuryEvent)
    → IsEvent platform event
    → parse_treasury_event platform (event_json event) ≡ valid event
unfolding parse_treasury_event parse_event_of parse_active_reservations ◌>>=◌
parse_treasury_event-event_json platform (capacity_updated e) (h, p) =
    rw
      (
        h.id_text, h.ref_text, h.version_finite, h.at_text, h.at_date, p.currency_text,
        p.exponent_finite, p.total_finite,
      )
      refl
parse_treasury_event-event_json platform (reconciliation e) (h, p, reserved, items) =
    rw
      (
        h.id_text,
        h.ref_text,
        h.version_finite,
        h.at_text,
        h.at_date,
        p.currency_text,
        p.exponent_finite,
        p.total_finite,
        reserved,
        items_again 0 e.payload.active_reservations items,
      )
      refl
