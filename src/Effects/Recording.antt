-- ===== src/Effects/Recording.antt =====
-- What the handlers of the treasury have in common: a message is skipped, or its work is done
-- and it is recorded.
use mathlib.Core.Path.{subst}
use program_capacity_invoice.Base.{
  String, true, ◌≡◌, refl, sym, ◌⊎◌, Option, none, some, arith, inl, inr, Option-cases,
}
use program_capacity_invoice.Base.Int.{ℤ, ◌≤ℤ◌, leb_ℤ→≤ℤ}
use program_capacity_invoice.Base.Rows.{find}
use program_capacity_invoice.Errors.{ok}
use program_capacity_invoice.Store.{ProcessedMessage, Db, Tx, pure, ◌>>=◌, ◌>>◌, >>=-eq-ok}
use program_capacity_invoice.Store.Inversion.{pure-eq-ok}
use program_capacity_invoice.Treasury.Events.{TreasuryMessageMeta, TreasuryHandlerResultStatus}
use program_capacity_invoice.Treasury.Messages.{
  at_offset, has_message_id, mark_processed, seen_before, unless_seen, once,
}
use program_capacity_invoice.Effects.Recorded.{seen_before-reads}
use program_capacity_invoice.Treasury.CapacityUpdate.{is_stale}

-- Only the record of processed messages may differ.
pub record SameBooks (db after : Db) : Type 0 where
  pub programs : after.programs ≡ db.programs
  pub reservations : after.invoice_reservations ≡ db.invoice_reservations
  pub ledger : after.capacity_ledger ≡ db.capacity_ledger
  pub runs : after.reconciliation_runs ≡ db.reconciliation_runs

pub mark_processed-SameBooks :
    (row : ProcessedMessage) (db : Db) (u : Unit {0}) (after : Db)
    → mark_processed row db ≡ ok (u, after)
    → SameBooks db after
unfolding mark_processed ◌>>=◌
mark_processed-SameBooks row db u after h =
    elim (Option-cases
      (find (at_offset row.topic row.partition row.offset_value) db.processed_kafka_messages)) [
        | inr (old, found) ↦ ground arith
        | inl free ↦
            elim (Option-cases (find (has_message_id row.message_id) db.processed_kafka_messages)) [
              | inr (other, taken) ↦ absurd (ground arith)
              | inl new ↦ ground arith
            ]
      ]

-- The handlers' end: the message is recorded and the result returned.
pub ends-SameBooks :
    (row : ProcessedMessage) (db : Db) (status last : TreasuryHandlerResultStatus) (after : Db)
    → (mark_processed row >> pure status) db ≡ ok (last, after)
    → (last ≡ status) × SameBooks db after
ends-SameBooks row db status last after h =
    let (u, mid, marked, rest) = >>=-eq-ok _ _ db last after h in
    let (is, at) = pure-eq-ok status mid last after rest in
    (sym is, subst (SameBooks db) (sym at) (mark_processed-SameBooks row db u mid marked))

-- A message is skipped, with the database as it was, or its work is done.
pub once_lem :
    (id : String) (meta : TreasuryMessageMeta) (work : Tx TreasuryHandlerResultStatus) (db : Db)
    (status : TreasuryHandlerResultStatus) (after : Db)
    → once id meta work db ≡ ok (status, after)
    → ((seen_before id meta db ≡ ok (some status, db)) × (after ≡ db))
      ⊎ ((seen_before id meta db ≡ ok (none, db)) × (work db ≡ ok (status, after)))
unfolding once
once_lem id meta work db status after h =
    let (seen, mid, found, rest) = >>=-eq-ok _ _ db status after h in
    let same : mid ≡ db = seen_before-reads id meta db seen mid found in
    by_seen seen (subst (λ d. seen_before id meta db ≡ ok (seen, d)) same found)
      (subst (λ d. unless_seen work seen d ≡ ok (status, after)) same rest)
  where
    by_seen :
        (seen : Option TreasuryHandlerResultStatus)
        → seen_before id meta db ≡ ok (seen, db)
        → unless_seen work seen db ≡ ok (status, after)
        → ((seen_before id meta db ≡ ok (some status, db)) × (after ≡ db))
          ⊎ ((seen_before id meta db ≡ ok (none, db)) × (work db ≡ ok (status, after)))
    by_seen (some s) found rest =
        let (is, at) = pure-eq-ok s db status after rest in
        inl (subst (λ x. seen_before id meta db ≡ ok (some x, db)) is found, at)
    by_seen none found rest = inr (found, rest)

pub is_stale-current :
    (version : ℤ) (current : Option ℤ)
    → is_stale version current ≡ true
    → (c : ℤ) × (current ≡ some c) × (version ≤ℤ c)
is_stale-current version none h = absurd (cc h)
is_stale-current version (some c) h = (c, refl, leb_ℤ→≤ℤ version c h)
