-- ===== src/Effects/Settling.antt =====
-- treasury/treasury.consumer.ts: when the offset of a message is committed.
use program_capacity_invoice.Base.{String, Option, none, some, ◌≡◌, refl, ◌∷◌}
use program_capacity_invoice.Base.Int.{ℤ, pos, ◌+ℤ◌}
use program_capacity_invoice.Errors.{Exception, Result, ok, fail}
use program_capacity_invoice.Store.{Db, Env, run, settle}
use program_capacity_invoice.Treasury.Events.{
  Platform, TreasuryEvent, TreasuryMessageMeta, TreasuryHandlerResultStatus,
}
use program_capacity_invoice.Treasury.Consumer.{
  Codec, ConsumerState, KafkaMessage, Outcome, validation_failed, processed, failed, with_commit,
  commit_offset, dispatch, finish, process_event, handle_read, read_event, raw_value,
  handle_message,
}

-- What the handlers are told of a message.
abbrev pub meta : Platform → Codec → Env → String → ℤ → KafkaMessage → TreasuryMessageMeta
meta platform codec env topic partition m = record {
  topic = topic;
  partition = partition;
  offset_value = m.offset;
  payload_hash = codec.sha256 (raw_value platform codec env m);
}

module _ (platform : Platform) (codec : Codec) (env : Env) (topic : String) (partition : ℤ)
    (m : KafkaMessage) where
  -- The state in which Kafka has the offset behind the message, and how the message then ends; or the
  -- state without it, where Kafka refuses.
  pub data Acknowledges (s : ConsumerState) (outcome : Outcome)
      : ConsumerState × Outcome → Type 0 where
    accepted :
        env.commit_error ≡ none
        → Acknowledges s outcome (
          record s {
            commits =
                record { topic = topic; partition = partition; offset = m.offset +ℤ pos 1 }
                ∷ s.commits;
          },
          outcome,
        )
    rejected : (e : Exception) → env.commit_error ≡ some e → Acknowledges s outcome (s, failed e)

  -- The three ways in which a message is settled.
  pub data Settles (s : ConsumerState) (r : ConsumerState × Outcome) : Type 0 where
    skipped :
        read_event platform codec env (raw_value platform codec env m) ≡ none
        → Acknowledges s validation_failed r
        → Settles s r
    committed :
        (event : TreasuryEvent) (status : TreasuryHandlerResultStatus) (after : Db)
        → read_event platform codec env (raw_value platform codec env m) ≡ some event
        → dispatch platform env event (meta platform codec env topic partition m) s.db
          ≡ ok (status, after)
        → Acknowledges (record s { db = after }) (processed status) r
        → Settles s r
    undone :
        (event : TreasuryEvent) (e : Exception)
        → read_event platform codec env (raw_value platform codec env m) ≡ some event
        → dispatch platform env event (meta platform codec env topic partition m) s.db ≡ fail e
        → r ≡ (s, failed e)
        → Settles s r

  commit_offset-Acknowledges :
      (s : ConsumerState) (outcome : Outcome)
      → Acknowledges s outcome (commit_offset env topic partition m.offset outcome s)
  unfolding commit_offset
  commit_offset-Acknowledges s outcome = by_answer env.commit_error refl
    where
      by_answer :
          (answer : Option Exception)
          → env.commit_error ≡ answer
          → Acknowledges s outcome (elim answer [
            | none ↦ (with_commit topic partition m.offset s, outcome)
            | some e ↦ (s, failed e)
          ])
      by_answer none fine = accepted fine
      by_answer (some e) refused = rejected e refused

  process_event-Settles :
      (event : TreasuryEvent) (s : ConsumerState)
      → read_event platform codec env (raw_value platform codec env m) ≡ some event
      → Settles s (process_event platform codec env topic partition m event s)
  unfolding process_event run finish
  process_event-Settles event s read =
      by_result (dispatch platform env event (meta platform codec env topic partition m) s.db) refl
    where
      by_result :
          (r : Result (TreasuryHandlerResultStatus × Db))
          → dispatch platform env event (meta platform codec env topic partition m) s.db ≡ r
          → Settles s (finish platform codec env topic partition m.offset (settle s.db r) s)
      by_result (ok (status, after)) is =
          committed event status after read is
            (commit_offset-Acknowledges (record s { db = after }) (processed status))
      by_result (fail e) is = undone event e read is refl

  -- A message is settled in one of three ways. It is no event: the database stays as it was, and its
  -- offset is committed. Or its transaction returned: the database is the one that it left, and the
  -- offset is committed. Or its transaction failed: neither the database nor the offsets have changed,
  -- and the message fails with its exception. Where Kafka refuses a commit, the offsets stay as they
  -- were, and the message fails with Kafka's error.
  pub handle_message-Settles :
      (s : ConsumerState) → Settles s (handle_message platform codec env topic partition m s)
  unfolding handle_message handle_read
  handle_message-Settles s = by_event _ refl
    where
      by_event :
          (found : Option TreasuryEvent)
          → read_event platform codec env (raw_value platform codec env m) ≡ found
          → Settles s (handle_read platform codec env topic partition m found s)
      by_event none read = skipped read (commit_offset-Acknowledges s validation_failed)
      by_event (some event) read = process_event-Settles event s read
