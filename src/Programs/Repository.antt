-- ===== src/Programs/Repository.antt =====
-- programs/program.repository.ts: the statements on the `programs` table. A `FOR UPDATE` lock lasts
-- to the end of the transaction, and transactions run one after another.
use program_capacity_invoice.Base.Columns.{char_3, fits_char_3, max_bigint, in_nullable_bigint}
use program_capacity_invoice.Base.{
  is_some, ◌+◌, String, ◌==◌, Bool, true, false, ◌&&◌, not, Option, none, some, [], ◌∷◌, ◌++◌, Date,
  if◌then◌else◌,
}
use program_capacity_invoice.Base.Int.{ℤ, pos, ◌+ℤ◌, ◌-ℤ◌, leb_ℤ, ltb_ℤ}
use program_capacity_invoice.Base.Rows.{find, replace}
use program_capacity_invoice.Errors.{prisma_known, plain_error}
use program_capacity_invoice.Store.{
  ProgramStatus, Program, Db, Env, Tx, pure, throw, throw_if, gets, modify, ◌>>=◌, ◌>>◌,
}

-- `WHERE id = ...`: the primary key. Both sides are values of type UUID: a client's text is cast by
-- `as_uuid` where it enters a transaction.
abbrev pub has_id : String → Program → Bool
has_id id p = p.id == id

abbrev pub has_external_ref : String → Program → Bool
has_external_ref external_ref p = p.external_ref == external_ref

abbrev pub in_column : ℤ → Bool
in_column amount = leb_ℤ (pos 0) amount && leb_ℤ amount max_bigint

-- The CHECK constraints of the table, and the range of its columns, but for the row's own counter.
abbrev pub admits : Program → Bool
admits p =
    in_column p.total_limit_minor
    && in_column p.reserved_amount_minor
    && in_nullable_bigint p.treasury_version
    && fits_char_3 p.currency

-- `CASE WHEN reserved > total THEN 'OVER_LIMIT' ELSE 'ACTIVE' END`
abbrev pub status_for : ℤ → ℤ → ProgramStatus
status_for reserved total =
    if ltb_ℤ total reserved then ProgramStatus.over_limit else ProgramStatus.active

-- `GREATEST(amount, 0)`
abbrev pub greatest_zero : ℤ → ℤ
greatest_zero amount = if ltb_ℤ amount (pos 0) then pos 0 else amount

abbrev pub is_active : ProgramStatus → Bool
is_active ProgramStatus.active = true
is_active ProgramStatus.over_limit = false
is_active ProgramStatus.inactive = false

unfoldable pub find_by_id : String → Tx (Option Program)
find_by_id id = gets (λ db. find (has_id id) db.programs)

unfoldable pub find_by_id_for_update : String → Tx (Option Program)
find_by_id_for_update id = gets (λ db. find (has_id id) db.programs)

unfoldable pub find_by_external_ref_for_update : String → Tx (Option Program)
find_by_external_ref_for_update external_ref =
    gets (λ db. find (has_external_ref external_ref) db.programs)

-- An UPDATE of the row with the new row's id.
unfoldable pub write_row : Program → Tx (Option Program)
write_row new db =
    if admits new
    then (pure (some new)) (record db { programs = replace (has_id new.id) new db.programs })
    else throw plain_error db

-- `UPDATE programs SET ... WHERE id = ... AND cond RETURNING ...`, and `rows[0] ?? null`.
unfoldable pub update_where : String → (Program → Bool) → (Program → Program) → Tx (Option Program)
unfolding find_by_id write_row
update_where id cond set = do
  found ← find_by_id id
  elim found [ none ↦ pure none | some p ↦ if cond p then write_row (set p) else pure none ]

-- The guard of `reserveCapacity`.
abbrev pub can_reserve : ℤ → Program → Bool
can_reserve amount_minor p =
    is_active p.status && leb_ℤ amount_minor (p.total_limit_minor -ℤ p.reserved_amount_minor)

abbrev pub reserved_by : ℤ → Date → Program → Program
reserved_by amount_minor now p = record p {
  reserved_amount_minor = p.reserved_amount_minor +ℤ amount_minor;
  version = p.version +ℤ pos 1;
  updated_at = now;
}

unfoldable pub reserve_capacity : Env → String → ℤ → Tx (Option Program)
unfolding update_where
reserve_capacity env id amount_minor =
    update_where id (can_reserve amount_minor) (reserved_by amount_minor env.now)

abbrev pub released_by : ℤ → Date → Program → Program
released_by amount_minor now p = record p {
  reserved_amount_minor = greatest_zero (p.reserved_amount_minor -ℤ amount_minor);
  status = status_for (greatest_zero (p.reserved_amount_minor -ℤ amount_minor)) p.total_limit_minor;
  version = p.version +ℤ pos 1;
  updated_at = now;
}

unfoldable pub release_capacity : Env → String → ℤ → Tx (Option Program)
unfolding update_where
release_capacity env id amount_minor =
    update_where id (λ _. true) (released_by amount_minor env.now)

pub record CreateFromTreasuryInput : Type 0 where
  pub external_ref : String
  pub currency : String
  pub currency_exponent : ℤ
  pub total_limit_minor : ℤ
  pub treasury_version : ℤ
  pub occurred_at : Date

abbrev pub created_from : String → Date → CreateFromTreasuryInput → Program
created_from id now input = record {
  id = id;
  external_ref = input.external_ref;
  currency = char_3 input.currency;
  currency_exponent = input.currency_exponent;
  total_limit_minor = input.total_limit_minor;
  reserved_amount_minor = pos 0;
  status = ProgramStatus.active;
  version = pos 0;
  treasury_version = some input.treasury_version;
  last_treasury_event_at = some input.occurred_at;
  last_reconciled_at = none;
  updated_at = now;
}

abbrev pub insert_row : Program → Db → Db
insert_row new db = record db { programs = db.programs ++ new ∷ []; uuids = db.uuids + 1 }

-- `tx.program.create`: the CHECK constraints, then the primary key and the unique index.
unfoldable pub create_from_treasury : Env → CreateFromTreasuryInput → Tx Program
unfolding find_by_id find_by_external_ref_for_update
create_from_treasury env input = do
  draws ← gets (λ db. db.uuids)
  let new = created_from (env.gen_random_uuid draws) env.now input
  throw_if (not (admits new)) plain_error
  same_id ← find_by_id new.id
  throw_if (is_some same_id) (prisma_known "P2002" (some ("id" ∷ [])))
  taken ← find_by_external_ref_for_update input.external_ref
  throw_if (is_some taken) (prisma_known "P2002" (some ("external_ref" ∷ [])))
  modify (insert_row new)
  pure new

pub record ApplyCapacityUpdateInput : Type 0 where
  pub total_limit_minor : ℤ
  pub currency : String
  pub currency_exponent : ℤ
  pub treasury_version : ℤ
  pub occurred_at : Date

abbrev pub capacity_updated_by : ApplyCapacityUpdateInput → Date → Program → Program
capacity_updated_by input now p = record p {
  total_limit_minor = input.total_limit_minor;
  currency = char_3 input.currency;
  currency_exponent = input.currency_exponent;
  treasury_version = some input.treasury_version;
  last_treasury_event_at = some input.occurred_at;
  status = status_for p.reserved_amount_minor input.total_limit_minor;
  version = p.version +ℤ pos 1;
  updated_at = now;
}

unfoldable pub apply_capacity_update : Env → String → ApplyCapacityUpdateInput → Tx (Option Program)
unfolding update_where
apply_capacity_update env id input = update_where id (λ _. true) (capacity_updated_by input env.now)

pub record ApplyReconciliationInput : Type 0 where
  pub total_limit_minor : ℤ
  pub reserved_amount_minor : ℤ
  pub currency : String
  pub currency_exponent : ℤ
  pub treasury_version : ℤ
  pub occurred_at : Date

abbrev pub reconciled_by : ApplyReconciliationInput → Date → Program → Program
reconciled_by input now p = record p {
  total_limit_minor = input.total_limit_minor;
  reserved_amount_minor = input.reserved_amount_minor;
  currency = char_3 input.currency;
  currency_exponent = input.currency_exponent;
  treasury_version = some input.treasury_version;
  last_treasury_event_at = some input.occurred_at;
  last_reconciled_at = some now;
  status = status_for input.reserved_amount_minor input.total_limit_minor;
  version = p.version +ℤ pos 1;
  updated_at = now;
}

unfoldable pub apply_reconciliation : Env → String → ApplyReconciliationInput → Tx (Option Program)
unfolding update_where
apply_reconciliation env id input = update_where id (λ _. true) (reconciled_by input env.now)
