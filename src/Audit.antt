-- ===== src/Audit.antt =====
-- audit/ledger.repository.ts: the append-only ledger of capacity movements.
use program_capacity_invoice.Errors.{Exception, plain_error, ok, fail}
use program_capacity_invoice.Base.Columns.{in_bigint}
use program_capacity_invoice.Base.{◌≡◌, arith, inl, inr, Bool-cases, not, [], ◌∷◌, ◌++◌}
use program_capacity_invoice.Store.{LedgerEntry, Db, Tx, modify, throw_if, ◌>>=◌, ◌>>◌}

-- An amount out of the range of its BIGINT column is refused. The text of a currency is kept as
-- given.
unfoldable pub insert : LedgerEntry → Tx (Unit {0})
insert entry = do
  throw_if (not (in_bigint entry.amount_minor)) plain_error
  modify (λ db. record db { capacity_ledger = db.capacity_ledger ++ entry ∷ [] })

pub insert_lem :
    (entry : LedgerEntry) (db : Db) (u : Unit {0}) (after : Db)
    → insert entry db ≡ ok (u, after)
    → after ≡ record db { capacity_ledger = db.capacity_ledger ++ entry ∷ [] }
unfolding insert ◌>>=◌
insert_lem entry db u after h = elim (Bool-cases (in_bigint entry.amount_minor)) [
  | inl fits ↦ ground arith
  | inr out ↦ absurd (ground arith)
]

pub insert_refused :
    (entry : LedgerEntry) (db : Db) (e : Exception) → insert entry db ≡ fail e → e ≡ plain_error
unfolding insert ◌>>=◌
insert_refused entry db e h = elim (Bool-cases (in_bigint entry.amount_minor)) [
  | inl fits ↦ absurd (ground arith)
  | inr out ↦ ground arith
]
