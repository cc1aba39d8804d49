-- ===== src/Treasury/Accepted.antt =====
-- treasury/treasury-message.schemas.ts: what holds of an event that was accepted.
use program_capacity_invoice.Base.{
  ℕ, ◌+◌, String, ◌≡◌, refl, inl, inr, Option, some, List, ◌∷◌, JsNumber, arith, Option-cases,
}
use mathlib.Core.Path.{subst}
use program_capacity_invoice.Treasury.Events.{
  TreasuryActiveReservation, TreasuryCapacityUpdatePayload, TreasuryCapacityUpdateEvent,
  TreasuryReconciliationEvent, TreasuryEvent, capacity_updated, reconciliation, Platform,
}
use program_capacity_invoice.Treasury.Schemas.{
  ◌>>=◌, Json, Items, Fields, array, nil, cons, Parsed, valid, invalid, assert_non_empty_string,
  assert_finite_number, parse_active_reservation, parse_items, Head, parse_active_reservations,
  parse_head, parse_payload, parse_event_of, parse_treasury_event, EventType,
  program_capacity_updated, program_reconciliation,
}
use program_capacity_invoice.Treasury.RoundTrip.{
  IsText, IsFinite, AreItems, IsHead, IsPayload, IsEvent,
}

bind-eq-valid :
    {A B : Type 0} (m : Parsed A) (f : A → Parsed B) (b : B)
    → (m >>= f) ≡ valid b
    → (a : A) × (m ≡ valid a) × (f a ≡ valid b)
unfolding ◌>>=◌
bind-eq-valid (valid a) f b h = (a, refl, h)
bind-eq-valid (invalid e) f b h = absurd (cc h)

valid_injective : {A : Type 0} {a b : A} → ◌≡◌ {A = Parsed A} (valid a) (valid b) → a ≡ b
valid_injective h = cc h

IsText-eq-valid :
    (v : Option Json) (name : String) (item : Option ℕ) (s : String)
    → assert_non_empty_string v name item ≡ valid s
    → IsText s
unfolding assert_non_empty_string
IsText-eq-valid v name item s h = ground arith

IsFinite-eq-valid :
    (v : Option Json) (name : String) (item : Option ℕ) (n : JsNumber)
    → assert_finite_number v name item ≡ valid n
    → IsFinite n
unfolding assert_finite_number
IsFinite-eq-valid v name item n h = ground arith

item_lem :
    (index : ℕ) (raw : Json) (item : TreasuryActiveReservation)
    → parse_active_reservation index raw ≡ valid item
    → IsText item.invoice_id × IsFinite item.reserved_amount_minor × IsText item.currency
unfolding parse_active_reservation ◌>>=◌
item_lem index raw item h = ground arith

items_lem :
    (index : ℕ) (raw : Items) (items : List TreasuryActiveReservation)
    → parse_items index raw ≡ valid items
    → AreItems items
unfolding parse_items
items_lem index nil items h = subst AreItems (valid_injective h) tt
items_lem index (cons raw rest) items h =
    let (item, is_item, h1) = bind-eq-valid _ _ items h in
    let (others, are_items, h2) = bind-eq-valid _ _ items h1 in
    let (id, amount, currency) = item_lem index raw item is_item in
    let both : AreItems (item ∷ others) =
      (id, amount, currency, items_lem (index + 1) rest others are_items) in
    subst AreItems (valid_injective h2) both

head_lem :
    (platform : Platform) (fields : Fields) (head : Head)
    → parse_head platform fields ≡ valid head
    → IsHead platform head.message_id head.program_external_ref head.treasury_version
        head.occurred_at
unfolding parse_head ◌>>=◌
head_lem platform fields head h = elim (Option-cases (platform.parse_date head.occurred_at)) [
  | inl unread ↦ absurd (ground arith)
  | inr (date, is_date) ↦ record {
    id_text = ground arith;
    ref_text = ground arith;
    version_finite = ground arith;
    at_text = ground arith;
    date = date;
    at_date = is_date;
  }
]

payload_lem :
    (fields : Fields) (payload : TreasuryCapacityUpdatePayload)
    → parse_payload fields ≡ valid payload
    → IsPayload payload.currency payload.currency_exponent payload.total_limit_minor
unfolding parse_payload ◌>>=◌
payload_lem fields payload h = ground arith

reservations_lem :
    (raw : Option Json) (items : List TreasuryActiveReservation)
    → parse_active_reservations raw ≡ valid items
    → AreItems items
unfolding parse_active_reservations
reservations_lem (some (array raw)) items h = items_lem 0 raw items h
reservations_lem _ items h = absurd (cc h)

event_of_lem :
    (platform : Platform) (type : EventType) (head : Head) (common : TreasuryCapacityUpdatePayload)
    (payload : Fields) (event : TreasuryEvent)
    → IsHead platform head.message_id head.program_external_ref head.treasury_version
        head.occurred_at
    → IsPayload common.currency common.currency_exponent common.total_limit_minor
    → parse_event_of type head common payload ≡ valid event
    → IsEvent platform event
unfolding parse_event_of
event_of_lem platform program_capacity_updated head common payload event h p e =
    let update : TreasuryCapacityUpdateEvent = record {
      message_id = head.message_id;
      program_external_ref = head.program_external_ref;
      treasury_version = head.treasury_version;
      occurred_at = head.occurred_at;
      payload = common;
    } in
    let accepted : IsEvent platform (capacity_updated update) = (h, p) in
    subst (IsEvent platform) (valid_injective e) accepted
event_of_lem platform program_reconciliation head common payload event h p e =
    let (reserved, is_reserved, e1) = bind-eq-valid _ _ event e in
    let (items, are_items, e2) = bind-eq-valid _ _ event e1 in
    let snapshot : TreasuryReconciliationEvent = record {
      message_id = head.message_id;
      program_external_ref = head.program_external_ref;
      treasury_version = head.treasury_version;
      occurred_at = head.occurred_at;
      payload = record {
        currency = common.currency;
        currency_exponent = common.currency_exponent;
        total_limit_minor = common.total_limit_minor;
        reserved_amount_minor = reserved;
        active_reservations = items;
      };
    } in
    let accepted : IsEvent platform (reconciliation snapshot) =
      (h, p, IsFinite-eq-valid _ _ _ reserved is_reserved, reservations_lem _ items are_items) in
    subst (IsEvent platform) (valid_injective e2) accepted

-- Every event that is accepted has texts that are not empty, finite numbers, and a time that is a
-- date, in each of its reservations too; nothing is said of whether numbers are integers.
pub parse_treasury_event-IsEvent :
    (platform : Platform) (raw : Json) (event : TreasuryEvent)
    → parse_treasury_event platform raw ≡ valid event
    → IsEvent platform event
unfolding parse_treasury_event
parse_treasury_event-IsEvent platform raw event h =
    let (obj, _, h1) = bind-eq-valid _ _ event h in
    let (head, is_head, h2) = bind-eq-valid _ _ event h1 in
    let (type, _, h3) = bind-eq-valid _ _ event h2 in
    let (payload, _, h4) = bind-eq-valid _ _ event h3 in
    let (common, is_common, h5) = bind-eq-valid _ _ event h4 in
    event_of_lem platform type head common payload event (head_lem platform obj head is_head)
      (payload_lem payload common is_common) h5
