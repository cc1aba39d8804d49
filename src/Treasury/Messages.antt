-- ===== src/Treasury/Messages.antt =====
-- treasury/processed-kafka-message.repository.ts, and the check for duplicates that both handlers
-- begin with.
use program_capacity_invoice.Base.{
  String, ◌==◌, Bool, ◌&&◌, Option, none, some, [], ◌∷◌, ◌++◌, if◌then◌else◌,
}
use program_capacity_invoice.Base.Int.{ℤ, eqb_ℤ}
use program_capacity_invoice.Base.Rows.{find}
use program_capacity_invoice.Errors.{plain_error}
use program_capacity_invoice.Store.{ProcessedMessage, Tx, pure, throw, gets, modify, ◌>>=◌}
use program_capacity_invoice.Treasury.Events.{
  TreasuryMessageMeta, TreasuryHandlerResultStatus, duplicate, ignored,
}

abbrev pub at_offset : String → ℤ → ℤ → ProcessedMessage → Bool
at_offset topic partition offset_value m =
    m.topic == topic && eqb_ℤ m.partition partition && eqb_ℤ m.offset_value offset_value

abbrev pub has_message_id : String → ProcessedMessage → Bool
has_message_id message_id m = m.message_id == message_id

unfoldable pub find_by_topic_partition_offset : String → ℤ → ℤ → Tx (Option ProcessedMessage)
find_by_topic_partition_offset topic partition offset_value =
    gets (λ db. find (at_offset topic partition offset_value) db.processed_kafka_messages)

unfoldable pub find_by_external_message_id : String → Tx (Option ProcessedMessage)
find_by_external_message_id message_id =
    gets (λ db. find (has_message_id message_id) db.processed_kafka_messages)

-- The row that `markProcessed` inserts.
abbrev pub processed_row : String → String → String → TreasuryMessageMeta → ProcessedMessage
processed_row message_id message_type program_external_ref meta = record {
  message_id = message_id;
  message_type = message_type;
  program_external_ref = program_external_ref;
  topic = meta.topic;
  partition = meta.partition;
  offset_value = meta.offset_value;
  payload_hash = meta.payload_hash;
}

-- ON CONFLICT (topic, partition, offset_value) DO NOTHING; a repeated message id is refused by the
-- other unique index.
unfoldable pub mark_processed : ProcessedMessage → Tx (Unit {0})
unfolding find_by_topic_partition_offset find_by_external_message_id
mark_processed row = do
  at_same_offset ← find_by_topic_partition_offset row.topic row.partition row.offset_value
  same_id ← find_by_external_message_id row.message_id
  elim at_same_offset [
    | some _ ↦ pure tt
    | none ↦ elim same_id [
      | some _ ↦ throw plain_error
      | none ↦
          modify
            (λ db. record db { processed_kafka_messages = db.processed_kafka_messages ++ row ∷ [] })
    ]
  ]

-- The result with which a message that was seen before is skipped.
unfoldable pub seen_before : String → TreasuryMessageMeta → Tx (Option TreasuryHandlerResultStatus)
unfolding find_by_topic_partition_offset find_by_external_message_id
seen_before message_id meta = do
  by_offset ← find_by_topic_partition_offset meta.topic meta.partition meta.offset_value
  by_message_id ← find_by_external_message_id message_id
  pure (elim by_offset [
    | some _ ↦ some duplicate
    | none ↦ elim by_message_id [
      | some m ↦ if m.payload_hash == meta.payload_hash then some duplicate else some ignored
      | none ↦ none
    ]
  ])

-- The handlers' early return on a message that was seen before.
abbrev pub unless_seen :
    Tx TreasuryHandlerResultStatus
    → Option TreasuryHandlerResultStatus
    → Tx TreasuryHandlerResultStatus
unless_seen work (some status) = pure status
unless_seen work none = work

unfoldable pub once :
    String → TreasuryMessageMeta → Tx TreasuryHandlerResultStatus → Tx TreasuryHandlerResultStatus
once message_id meta work = do seen ← seen_before message_id meta; unless_seen work seen
