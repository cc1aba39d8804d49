-- ===== src/Treasury/Consumer.antt =====
-- treasury/treasury.consumer.ts: one Kafka message. Its state is the database, and the offsets that
-- were committed, the latest first.
use program_capacity_invoice.Base.{
  String, ◌≡◌, refl, inl, inr, Option-cases, Option, none, some, List, ◌∷◌,
}
use program_capacity_invoice.Base.Int.{ℤ, pos, ◌+ℤ◌}
use program_capacity_invoice.Errors.{Exception, Result, ok, fail}
use program_capacity_invoice.Store.{Db, Env, Tx, run}
use program_capacity_invoice.Treasury.Events.{
  TreasuryEvent, capacity_updated, reconciliation, TreasuryMessageMeta, TreasuryHandlerResultStatus,
  Platform,
}
use program_capacity_invoice.Treasury.Schemas.{Json, valid, invalid, parse_treasury_event}
use program_capacity_invoice.Treasury.CapacityUpdate as CapacityUpdate
use program_capacity_invoice.Treasury.Reconciliation as Reconciliation

-- JavaScript's `JSON.parse` (`none` is a SyntaxError) and `crypto`'s SHA-256 in hexadecimal.
pub record Codec : Type 0 where
  pub json_parse : String → Option Json
  pub sha256 : String → String

pub record Commit : Type 0 where
  pub topic : String
  pub partition : ℤ
  pub offset : ℤ

pub record ConsumerState : Type 0 where
  pub db : Db
  pub commits : List Commit

-- A `KafkaMessage`, as the code reads it.
pub record KafkaMessage : Type 0 where
  pub offset : ℤ
  pub value : Option String

-- How `handleMessage` ends: it logs the message as invalid or as processed, or it throws.
pub data Outcome : Type 0 where
  validation_failed : Outcome
  processed : TreasuryHandlerResultStatus → Outcome
  failed : Exception → Outcome

abbrev pub with_commit : String → ℤ → ℤ → ConsumerState → ConsumerState
with_commit topic partition offset s = record s {
  commits = record { topic = topic; partition = partition; offset = offset +ℤ pos 1 } ∷ s.commits;
}

-- `consumer.commitOffsets`, and how the message then ends. Where Kafka refuses, `handleMessage`
-- throws, and the database stays as it is.
unfoldable pub commit_offset :
    Env → String → ℤ → ℤ → Outcome → ConsumerState → ConsumerState × Outcome
commit_offset env topic partition offset outcome s = elim env.commit_error [
  | none ↦ (with_commit topic partition offset s, outcome)
  | some e ↦ (s, failed e)
]

-- The handler for the event's type.
unfoldable pub dispatch :
    Platform → Env → TreasuryEvent → TreasuryMessageMeta → Tx TreasuryHandlerResultStatus
unfolding CapacityUpdate.handle Reconciliation.handle
dispatch platform env (capacity_updated event) meta = CapacityUpdate.handle platform env event meta
dispatch platform env (reconciliation event) meta = Reconciliation.handle platform env event meta

module _ (platform : Platform) (codec : Codec) (env : Env) where
  abbrev pub raw_value : KafkaMessage → String
  raw_value message = elim message.value [ none ↦ "null" | some text ↦ text ]

  unfoldable pub read_event : String → Option TreasuryEvent
  unfolding parse_treasury_event
  read_event text = elim (codec.json_parse text) [
    | none ↦ none
    | some raw ↦ elim (parse_treasury_event platform raw) [
      | valid event ↦ some event
      | invalid e ↦ none
    ]
  ]

  -- The offset is committed only after the transaction.
  unfoldable pub finish :
      String
      → ℤ
      → ℤ
      → Result TreasuryHandlerResultStatus × Db
      → ConsumerState
      → ConsumerState × Outcome
  unfolding commit_offset
  finish topic partition offset (ok status, after) s =
      commit_offset env topic partition offset (processed status) (record s { db = after })
  finish topic partition offset (fail e, after) s = (record s { db = after }, failed e)

  unfoldable pub process_event :
      String → ℤ → KafkaMessage → TreasuryEvent → ConsumerState → ConsumerState × Outcome
  unfolding run dispatch finish
  process_event topic partition message event s =
      finish topic partition message.offset
        (run
          (dispatch platform env event (record {
            topic = topic;
            partition = partition;
            offset_value = message.offset;
            payload_hash = codec.sha256 (raw_value message);
          }))
          s.db)
        s

  -- A message that is no event is skipped, and its offset committed.
  unfoldable pub handle_read :
      String → ℤ → KafkaMessage → Option TreasuryEvent → ConsumerState → ConsumerState × Outcome
  unfolding process_event commit_offset
  handle_read topic partition message none s =
      commit_offset env topic partition message.offset validation_failed s
  handle_read topic partition message (some event) s = process_event topic partition message event s

  unfoldable pub handle_message :
      String → ℤ → KafkaMessage → ConsumerState → ConsumerState × Outcome
  unfolding read_event handle_read
  handle_message topic partition message s =
      handle_read topic partition message (read_event (raw_value message)) s

-- Committing an offset leaves the database alone.
pub commit_offset_db :
    (env : Env) (topic : String) (partition offset : ℤ) (outcome : Outcome) (s : ConsumerState)
    → (commit_offset env topic partition offset outcome s).0.db ≡ s.db
unfolding commit_offset
commit_offset_db env topic partition offset outcome s = elim (Option-cases env.commit_error) [
  | inl fine ↦ rw fine refl
  | inr (e, refused) ↦ rw refused refl
]
