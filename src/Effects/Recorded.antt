-- ===== src/Effects/Recorded.antt =====
-- treasury/processed-kafka-message.repository.ts: a message that was recorded is skipped.
use mathlib.Core.Path.{subst}
use program_capacity_invoice.Base.{
  String, true, eq_iff, ◌≡◌, refl, sym, ◌∙◌, ap, Option, none, some, [], ◌∷◌, ◌++◌, arith, inl, inr,
  Option-cases, if◌then◌else◌,
}
use program_capacity_invoice.Base.Rows.{find, find-append_none}
use program_capacity_invoice.Errors.{ok}
use program_capacity_invoice.Store.{ProcessedMessage, Db, Tx, pure, ◌>>=◌, ◌>>◌, >>=-eq-ok}
use program_capacity_invoice.Store.Keeps.{ok_state}
use program_capacity_invoice.Store.Inversion.{pure-eq-ok}
use program_capacity_invoice.Treasury.Events.{
  TreasuryMessageMeta, TreasuryHandlerResultStatus, duplicate,
}
use program_capacity_invoice.Treasury.Messages.{
  at_offset, has_message_id, processed_row, mark_processed, seen_before, unless_seen, once,
}

-- The message was recorded at its offset.
abbrev pub IsRecorded : TreasuryMessageMeta → Db → Type 0
IsRecorded meta db =
    (row : ProcessedMessage) × (find (at_offset meta.topic meta.partition meta.offset_value)
        db.processed_kafka_messages
      ≡ some row)

at_own_offset :
    (row : ProcessedMessage) → at_offset row.topic row.partition row.offset_value row ≡ true
at_own_offset row = ground (arith, eq_iff row.topic row.topic)

module _ (id kind ref : String) (meta : TreasuryMessageMeta) (db : Db) where
  abbrev row : ProcessedMessage
  row = processed_row id kind ref meta

  mark_processed-IsRecorded :
      (u : Unit {0}) (after : Db) → mark_processed row db ≡ ok (u, after) → IsRecorded meta after
  unfolding mark_processed ◌>>=◌
  mark_processed-IsRecorded u after h =
      elim (Option-cases (
        find (at_offset meta.topic meta.partition meta.offset_value) db.processed_kafka_messages)) [
          | inr (old, found) ↦
              let same : after ≡ db = ground arith in
              (
                old,
                subst
                    (λ (d : Db).
                      find (at_offset meta.topic meta.partition meta.offset_value)
                        d.processed_kafka_messages
                      ≡ some old)
                    (sym same) found,
              )
          | inl free ↦ elim (Option-cases (find (has_message_id id) db.processed_kafka_messages)) [
            | inr (other, taken) ↦ absurd (ground arith)
            | inl new ↦
                let same : after ≡ record db {
                  processed_kafka_messages = db.processed_kafka_messages ++ row ∷ [];
                } =
                  ground arith in
                (
                  row,
                  subst
                      (λ (d : Db).
                        find (at_offset meta.topic meta.partition meta.offset_value)
                          d.processed_kafka_messages
                        ≡ some row)
                      (sym same)
                      (find-append_none (at_offset meta.topic meta.partition meta.offset_value)
                          db.processed_kafka_messages row free
                        ∙ ap (λ b. if b then some row else none) (at_own_offset row)),
                )
          ]
        ]

-- The handlers would skip the message, and how.
abbrev pub Skips : String → TreasuryMessageMeta → Db → TreasuryHandlerResultStatus → Type 0
Skips id meta db status = seen_before id meta db ≡ ok (some status, db)

module _ (id : String) (meta : TreasuryMessageMeta) where
  pub recorded-Skips : (db : Db) → IsRecorded meta db → Skips id meta db duplicate
  unfolding seen_before ◌>>=◌
  recorded-Skips db (row, found) = rw found refl

  pub seen_before-reads :
      (db : Db) (r : Option TreasuryHandlerResultStatus) (after : Db)
      → seen_before id meta db ≡ ok (r, after)
      → after ≡ db
  unfolding seen_before ◌>>=◌
  seen_before-reads db r after h = sym (ok_state h)

  seen-Skips :
      (db : Db) (status : TreasuryHandlerResultStatus) (mid : Db)
      (last : TreasuryHandlerResultStatus) (after : Db)
      → seen_before id meta db ≡ ok (some status, mid)
      → pure status mid ≡ ok (last, after)
      → Skips id meta after status
  seen-Skips db status mid last after h e =
      let at_mid : mid ≡ db = seen_before-reads db (some status) mid h in
      let at_end : after ≡ mid = (pure-eq-ok status mid last after e).1 in
      subst (λ d. Skips id meta d status) (sym at_end)
        (subst (λ d. Skips id meta d status) (sym at_mid)
          (subst (λ d. seen_before id meta db ≡ ok (some status, d)) at_mid h))

  -- The last steps of a handler: the message is recorded, and the result returned.
  pub ends-Skips :
      (kind ref : String) (db : Db) (status last : TreasuryHandlerResultStatus) (after : Db)
      → (mark_processed (processed_row id kind ref meta) >> pure status) db ≡ ok (last, after)
      → Skips id meta after duplicate
  ends-Skips kind ref db status last after h =
      let (u, mid, marked, rest) = >>=-eq-ok _ _ db last after h in
      recorded-Skips after (
        subst (IsRecorded meta) (sym (pure-eq-ok status mid last after rest).1)
          (mark_processed-IsRecorded id kind ref meta db u mid marked))

  pub once-Skips :
      (work : Tx TreasuryHandlerResultStatus)
      → ((db : Db) (status : TreasuryHandlerResultStatus) (after : Db)
          → work db ≡ ok (status, after)
          → Skips id meta after duplicate)
      → (db : Db) (status : TreasuryHandlerResultStatus) (after : Db)
      → once id meta work db ≡ ok (status, after)
      → (again : TreasuryHandlerResultStatus) × Skips id meta after again
  unfolding once
  once-Skips work records db status after h =
      let (seen, mid, found, rest) = >>=-eq-ok _ _ db status after h in by_seen seen mid found rest
    where
      by_seen :
          (seen : Option TreasuryHandlerResultStatus) (mid : Db)
          → seen_before id meta db ≡ ok (seen, mid)
          → unless_seen work seen mid ≡ ok (status, after)
          → (again : TreasuryHandlerResultStatus) × Skips id meta after again
      by_seen (some s) mid found rest = (s, seen-Skips db s mid status after found rest)
      by_seen none mid found rest = (duplicate, records mid status after rest)

  pub once_again :
      (work : Tx TreasuryHandlerResultStatus) (db : Db) (again : TreasuryHandlerResultStatus)
      → Skips id meta db again
      → once id meta work db ≡ ok (again, db)
  unfolding once ◌>>=◌
  once_again work db again h = rw h refl
