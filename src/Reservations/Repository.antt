-- ===== src/Reservations/Repository.antt =====
-- reservations/reservation.repository.ts: the statements on the `invoice_reservations` table.
use program_capacity_invoice.Base.Columns.{char_3, fits_char_3, max_bigint}
use program_capacity_invoice.Base.{
  is_some, ◌+◌, String, ◌==◌, Bool, ◌&&◌, not, Option, none, some, List, [], ◌∷◌, ◌++◌, Date,
  if◌then◌else◌,
}
use program_capacity_invoice.Base.Int.{ℤ, pos, leb_ℤ, ltb_ℤ}
use program_capacity_invoice.Base.Rows.{find, replace}
use program_capacity_invoice.Errors.{prisma_known, plain_error}
use program_capacity_invoice.Store.{
  Reservation, ReservationStatus, Db, Env, Tx, pure, throw, throw_if, gets, modify, ◌>>=◌, ◌>>◌,
}

-- Both sides are values of type UUID: a client's text is cast by `as_uuid` where it enters.
abbrev pub has_id : String → Reservation → Bool
has_id id r = r.id == id

-- The unique index on `(program_id, invoice_id)`.
abbrev pub has_invoice : String → String → Reservation → Bool
has_invoice program_id invoice_id r = r.program_id == program_id && r.invoice_id == invoice_id

-- The CHECK constraints of the table, and the range of its columns.
abbrev pub positive_column : ℤ → Bool
positive_column amount = ltb_ℤ (pos 0) amount && leb_ℤ amount max_bigint

abbrev pub admits : Reservation → Bool
admits r =
    positive_column r.invoice_amount_minor
    && positive_column r.reserved_amount_minor
    && fits_char_3 r.invoice_currency
    && fits_char_3 r.program_currency

unfoldable pub find_by_program_and_invoice : String → String → Tx (Option Reservation)
find_by_program_and_invoice program_id invoice_id =
    gets (λ db. find (has_invoice program_id invoice_id) db.invoice_reservations)

-- `source` and `reconciliationMessageId` have a default: `or_else` of an optional field.
pub record InsertReservationInput : Type 0 where
  pub program_id : String
  pub invoice_id : String
  pub invoice_currency : String
  pub invoice_currency_exponent : ℤ
  pub invoice_amount_minor : ℤ
  pub program_currency : String
  pub program_currency_exponent : ℤ
  pub reserved_amount_minor : ℤ
  pub fx_rate : String
  pub fx_rate_source : String
  pub fx_rate_valid_at : Date
  pub source : Option String
  pub reconciliation_message_id : Option String

abbrev pub inserted_from : String → InsertReservationInput → Reservation
inserted_from id input = record {
  id = id;
  program_id = input.program_id;
  invoice_id = input.invoice_id;
  invoice_currency = char_3 input.invoice_currency;
  invoice_currency_exponent = input.invoice_currency_exponent;
  invoice_amount_minor = input.invoice_amount_minor;
  program_currency = char_3 input.program_currency;
  program_currency_exponent = input.program_currency_exponent;
  reserved_amount_minor = input.reserved_amount_minor;
  fx_rate = input.fx_rate;
  fx_rate_source = input.fx_rate_source;
  fx_rate_valid_at = input.fx_rate_valid_at;
  status = ReservationStatus.active;
  source = elim input.source [ none ↦ "API" | some s ↦ s ];
  reconciled_at = none;
  reconciliation_message_id = input.reconciliation_message_id;
  released_at = none;
}

abbrev pub insert_row : Reservation → Db → Db
insert_row new db = record db {
  invoice_reservations = db.invoice_reservations ++ new ∷ [];
  uuids = db.uuids + 1;
}

unfoldable pub find_by_id : String → Tx (Option Reservation)
find_by_id id = gets (λ db. find (has_id id) db.invoice_reservations)

-- `tx.invoiceReservation.create`: the CHECK constraints, then the primary key and the unique index.
unfoldable pub insert : Env → InsertReservationInput → Tx Reservation
unfolding find_by_program_and_invoice find_by_id
insert env input = do
  draws ← gets (λ db. db.uuids)
  let new = inserted_from (env.gen_random_uuid draws) input
  throw_if (not (admits new)) plain_error
  same_id ← find_by_id new.id
  throw_if (is_some same_id) (prisma_known "P2002" (some ("id" ∷ [])))
  taken ← find_by_program_and_invoice input.program_id input.invoice_id
  throw_if (is_some taken) (prisma_known "P2002" (some ("program_id" ∷ "invoice_id" ∷ [])))
  modify (insert_row new)
  pure new

unfoldable pub find_by_id_for_update : String → Tx (Option Reservation)
find_by_id_for_update id = gets (λ db. find (has_id id) db.invoice_reservations)

unfoldable pub of_program : String → List Reservation → List Reservation
of_program program_id [] = []
of_program program_id (r ∷ rows) =
    let rest = of_program program_id rows in if r.program_id == program_id then r ∷ rest else rest

unfoldable pub find_all_for_program_for_update : String → Tx (List Reservation)
unfolding of_program
find_all_for_program_for_update program_id =
    gets (λ db. of_program program_id db.invoice_reservations)

-- `tx.invoiceReservation.update({ where: { id }, data })`: a missing row is P2025.
unfoldable pub update : String → (Reservation → Reservation) → Tx Reservation
update id set = do
  found ← gets (λ db. find (has_id id) db.invoice_reservations)
  elim found [
    | none ↦ throw (prisma_known "P2025" none)
    | some r ↦
        if admits (set r)
        then modify (λ db. record db {
          invoice_reservations = replace (has_id id) (set r) db.invoice_reservations;
        })
          >> pure (set r)
        else throw plain_error
  ]

abbrev pub released_at_now : Date → Reservation → Reservation
released_at_now now r = record r { status = ReservationStatus.released; released_at = some now }

unfoldable pub mark_released : Env → String → Tx Reservation
unfolding update
mark_released env id = update id (released_at_now env.now)

pub record ReconciliationAmounts : Type 0 where
  pub reserved_amount_minor : ℤ
  pub invoice_amount_minor : ℤ
  pub invoice_currency : String
  pub invoice_currency_exponent : ℤ

abbrev pub updated_from : ReconciliationAmounts → Reservation → Reservation
updated_from input r = record r {
  reserved_amount_minor = input.reserved_amount_minor;
  invoice_amount_minor = input.invoice_amount_minor;
  invoice_currency = char_3 input.invoice_currency;
  invoice_currency_exponent = input.invoice_currency_exponent;
  status = ReservationStatus.active;
  reconciled_at = none;
}

unfoldable pub update_from_reconciliation : String → ReconciliationAmounts → Tx Reservation
unfolding update
update_from_reconciliation id input = update id (updated_from input)

abbrev pub reconciled_at_now : String → Date → Reservation → Reservation
reconciled_at_now message_id now r = record r {
  status = ReservationStatus.reconciled;
  reconciled_at = some now;
  reconciliation_message_id = some message_id;
}

unfoldable pub mark_reconciled : Env → String → String → Tx Reservation
unfolding update
mark_reconciled env id message_id = update id (reconciled_at_now message_id env.now)
