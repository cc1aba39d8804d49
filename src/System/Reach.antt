-- ===== src/System/Reach.antt =====
-- The states that the service can reach: API requests and Kafka messages in any order, each with
-- its own clock.
use mathlib.Core.Path.{subst}
use program_capacity_invoice.Base.{sym, ℕ, String, Date, Option, none, some}
use program_capacity_invoice.Base.Int.{ℤ}
use program_capacity_invoice.Store.{Db, Env}
use program_capacity_invoice.Store.Keeps.{Keeps, Keeps-run}
use program_capacity_invoice.Fx.Money.{DecimalJs}
use program_capacity_invoice.Reservations.Creation.{CreateReservationRequest}
use program_capacity_invoice.Reservations.Creation as Creation
use program_capacity_invoice.Reservations.Release as Release
use program_capacity_invoice.Errors.{Exception, Result, ok, fail}
use program_capacity_invoice.Treasury.Events.{
  Platform, TreasuryEvent, capacity_updated, reconciliation, TreasuryMessageMeta,
  TreasuryHandlerResultStatus,
}
use program_capacity_invoice.Treasury.Consumer.{
  Codec, ConsumerState, KafkaMessage, dispatch, finish, process_event, handle_read, read_event,
  raw_value, handle_message, processed, validation_failed, commit_offset_db,
}
use program_capacity_invoice.System.Messages.{capacity_update-Keeps, reconciliation-Keeps}
use program_capacity_invoice.System.Statements.{KeptByStatements}
use program_capacity_invoice.System.Requests.{create-Keeps, release-Keeps}

-- What the service runs on.
pub record Setting : Type 1 where
  pub decimals : DecimalJs
  pub platform : Platform
  pub codec : Codec
  pub gen_random_uuid : ℕ → String

abbrev pub env_at : Setting → Date → Env
env_at setting now = record {
  gen_random_uuid = setting.gen_random_uuid;
  now = now;
  commit_error = none;
}

-- The surroundings of a message: Kafka may refuse to commit its offset.
abbrev pub env_for : Setting → Date → Option Exception → Env
env_for setting now refused = record (env_at setting now) { commit_error = refused }

module _ (setting : Setting) where
  pub data Step (s : ConsumerState) : ConsumerState → Type 0 where
    create :
        (now : Date) (dto : CreateReservationRequest)
        → Step s
            (record s { db = (Creation.create setting.decimals (env_at setting now) dto s.db).1 })
    release :
        (now : Date) (reservation_id : String)
        → Step s (record s { db = (Release.release (env_at setting now) reservation_id s.db).1 })
    message :
        (now : Date) (refused : Option Exception) (topic : String) (partition : ℤ)
        (m : KafkaMessage)
        → Step s
            (handle_message setting.platform setting.codec
              (env_for setting now refused)
              topic
              partition
              m
              s).0

  pub data Reach (s : ConsumerState) : ConsumerState → Type 0 where
    here : Reach s s
    next : {t u : ConsumerState} → Reach s t → Step t u → Reach s u

module _ {ℓ} {P : Db → Type ℓ} (kept : KeptByStatements P) (setting : Setting) where
  dispatch-Keeps :
      (env : Env) (event : TreasuryEvent) (meta : TreasuryMessageMeta)
      → Keeps P (dispatch setting.platform env event meta)
  unfolding dispatch
  dispatch-Keeps env (capacity_updated event) meta =
      capacity_update-Keeps kept setting.platform env event meta
  dispatch-Keeps env (reconciliation event) meta =
      reconciliation-Keeps kept setting.platform env event meta

  finish_keeps :
      (env : Env) (topic : String) (partition offset : ℤ)
      (r : Result TreasuryHandlerResultStatus × Db) (s : ConsumerState)
      → P r.1
      → P (finish setting.platform setting.codec env topic partition offset r s).0.db
  unfolding finish
  finish_keeps env topic partition offset (ok status, after) s h =
      subst P
        (sym (
          commit_offset_db env topic partition offset (processed status) (record s { db = after })))
        h
  finish_keeps env topic partition offset (fail e, after) s h = h

  handle_message_keeps :
      (env : Env) (topic : String) (partition : ℤ) (m : KafkaMessage) (s : ConsumerState)
      → P s.db
      → P (handle_message setting.platform setting.codec env topic partition m s).0.db
  unfolding handle_message process_event
  handle_message_keeps env topic partition m s h = by_event (
      read_event setting.platform setting.codec env
        (raw_value setting.platform setting.codec env m))
    where
      by_event :
          (found : Option TreasuryEvent)
          → P (handle_read setting.platform setting.codec env topic partition m found s).0.db
      by_event none =
          subst P (sym (commit_offset_db env topic partition m.offset validation_failed s)) h
      by_event (some event) =
          finish_keeps env topic partition m.offset _ s
            (Keeps-run _ s.db (dispatch-Keeps env event _) h)

  pub Step_keeps : {s t : ConsumerState} → Step setting s t → P s.db → P t.db
  unfolding Creation.create Release.release
  Step_keeps {s} (create now dto) h =
      Keeps-run _ s.db (create-Keeps kept setting.decimals (env_at setting now) dto) h
  Step_keeps {s} (release now id) h =
      Keeps-run _ s.db (release-Keeps kept (env_at setting now) id) h
  Step_keeps {s} (message now refused topic partition m) h =
      handle_message_keeps (env_for setting now refused) topic partition m s h

  pub Reach_keeps : {s t : ConsumerState} → Reach setting s t → P s.db → P t.db
  Reach_keeps here h = h
  Reach_keeps (next r step) h = Step_keeps step (Reach_keeps r h)
