-- ===== src/Effects/Known.antt =====
-- treasury/processed-kafka-message.repository.ts: what was recorded stays, whatever follows.
use mathlib.Core.Path.{subst}
use program_capacity_invoice.Base.{
  String, ◌==◌, true, ◌≡◌, refl, sym, ◌⊎◌, inl, inr, none, some, [], ◌∷◌, ◌++◌, arith, Bool-cases,
  Option-cases,
}
use program_capacity_invoice.Base.Rows.{find, find-append_some}
use program_capacity_invoice.Store.{ProcessedMessage, Db, ◌>>=◌}
use program_capacity_invoice.Store.Keeps.{Keeps}
use program_capacity_invoice.Programs.Repository as Programs
use program_capacity_invoice.Reservations.Repository as Reservations
use program_capacity_invoice.Treasury.Events.{
  TreasuryMessageMeta, TreasuryHandlerResultStatus, duplicate, ignored,
}
use program_capacity_invoice.Treasury.Messages.{
  at_offset, has_message_id, mark_processed, seen_before,
}
use program_capacity_invoice.System.Statements.{KeptByStatements}
use program_capacity_invoice.System.Frames.{
  update_where-frame, create_from_treasury-frame, insert_ledger-frame, insert_run-frame,
  insert_reservation-frame, update_reservation-frame,
}
use program_capacity_invoice.Effects.Recorded.{IsRecorded, Skips, recorded-Skips}

-- A recorded message has its offset or its id.
abbrev pub IsKnown : String → TreasuryMessageMeta → Db → Type 0
IsKnown id meta db =
    IsRecorded meta db
    ⊎ ((row : ProcessedMessage) × (find (has_message_id id) db.processed_kafka_messages ≡ some row))

abbrev with_message : ProcessedMessage → Db → Db
with_message row db = record db {
  processed_kafka_messages = db.processed_kafka_messages ++ row ∷ [];
}

module _ (id : String) (meta : TreasuryMessageMeta) where
  with_message-IsKnown :
      (new : ProcessedMessage) (db : Db)
      → IsKnown id meta db
      → IsKnown id meta (with_message new db)
  with_message-IsKnown new db (inl (row, found)) = inl (
    row,
    find-append_some (at_offset meta.topic meta.partition meta.offset_value)
        db.processed_kafka_messages new row found,
  )
  with_message-IsKnown new db (inr (row, taken)) =
      inr (row, find-append_some (has_message_id id) db.processed_kafka_messages new row taken)

  pub Skips-IsKnown :
      (db : Db) (again : TreasuryHandlerResultStatus) → Skips id meta db again → IsKnown id meta db
  unfolding seen_before ◌>>=◌
  Skips-IsKnown db again h =
      elim (Option-cases (
        find (at_offset meta.topic meta.partition meta.offset_value) db.processed_kafka_messages)) [
          | inr found ↦ inl found
          | inl free ↦ elim (Option-cases (find (has_message_id id) db.processed_kafka_messages)) [
            | inr taken ↦ inr taken
            | inl new ↦ absurd (ground arith)
          ]
        ]

  by_id-Skips :
      (db : Db) (row : ProcessedMessage)
      → find (has_message_id id) db.processed_kafka_messages ≡ some row
      → find (at_offset meta.topic meta.partition meta.offset_value) db.processed_kafka_messages
        ≡ none
      → (again : TreasuryHandlerResultStatus) × Skips id meta db again
  unfolding seen_before ◌>>=◌
  by_id-Skips db row taken free = elim (Bool-cases (row.payload_hash == meta.payload_hash)) [
    | inl same ↦ (duplicate, rw free (rw taken (rw same refl)))
    | inr other ↦ (ignored, rw free (rw taken (rw other refl)))
  ]

  pub IsKnown-Skips :
      (db : Db)
      → IsKnown id meta db
      → (again : TreasuryHandlerResultStatus) × Skips id meta db again
  IsKnown-Skips db (inl at) = (duplicate, recorded-Skips id meta db at)
  IsKnown-Skips db (inr (row, taken)) =
      elim (Option-cases (
        find (at_offset meta.topic meta.partition meta.offset_value) db.processed_kafka_messages)) [
          | inr found ↦ (duplicate, recorded-Skips id meta db found)
          | inl free ↦ by_id-Skips db row taken free
        ]

  -- The table of processed messages only grows.
  mark_processed-Keeps : (row : ProcessedMessage) → Keeps (IsKnown id meta) (mark_processed row)
  unfolding mark_processed ◌>>=◌
  mark_processed-Keeps row = record {
    at = λ db u after h known.
        elim (Option-cases
          (find (at_offset row.topic row.partition row.offset_value) db.processed_kafka_messages)) [
            | inr (old, found) ↦
                let same : after ≡ db = ground arith in subst (IsKnown id meta) (sym same) known
            | inl free ↦
                elim (Option-cases
                  (find (has_message_id row.message_id) db.processed_kafka_messages)) [
                    | inr (other, taken) ↦ absurd (ground arith)
                    | inl new ↦
                        let same : after ≡ with_message row db = ground arith in
                        subst (IsKnown id meta) (sym same) (with_message-IsKnown row db known)
                  ]
          ];
  }

  pub IsKnown-kept : KeptByStatements (IsKnown id meta)
  unfolding Reservations.mark_released Reservations.update_from_reconciliation
      Reservations.mark_reconciled Programs.reserve_capacity Programs.release_capacity
      Programs.apply_capacity_update Programs.apply_reconciliation
  IsKnown-kept = record {
    reserve_capacity = λ env key amount.
        update_where-frame (IsKnown id meta) key (Programs.can_reserve amount)
          (Programs.reserved_by amount env.now);
    release_capacity = λ env key amount.
        update_where-frame (IsKnown id meta) key (λ _. true) (Programs.released_by amount env.now);
    create_from_treasury = create_from_treasury-frame (IsKnown id meta);
    apply_capacity_update = λ env key input.
        update_where-frame (IsKnown id meta) key (λ _. true)
          (Programs.capacity_updated_by input env.now);
    apply_reconciliation = λ env key input.
        update_where-frame (IsKnown id meta) key (λ _. true) (Programs.reconciled_by input env.now);
    insert_reservation = insert_reservation-frame (IsKnown id meta);
    mark_released = λ env key.
        update_reservation-frame (IsKnown id meta) key (Reservations.released_at_now env.now);
    update_from_reconciliation = λ key input.
        update_reservation-frame (IsKnown id meta) key (Reservations.updated_from input);
    mark_reconciled = λ env key message.
        update_reservation-frame (IsKnown id meta) key
          (Reservations.reconciled_at_now message env.now);
    insert_ledger = insert_ledger-frame (IsKnown id meta);
    insert_run = insert_run-frame (IsKnown id meta);
    mark_processed = mark_processed-Keeps;
  }
