-- ===== src/Effects/Redelivery.antt =====
-- treasury/treasury.consumer.ts: a message that is delivered again.
use mathlib.Core.Path.{subst}
use program_capacity_invoice.Base.{String, sym, ◌≡◌, refl, some}
use program_capacity_invoice.Base.Int.{ℤ}
use program_capacity_invoice.Errors.{ok}
use program_capacity_invoice.Store.{Db, Env, run, >>=-eq-ok}
use program_capacity_invoice.Treasury.Events.{
  Platform, TreasuryCapacityUpdateEvent, TreasuryReconciliationEvent, TreasuryEvent,
  capacity_updated, reconciliation, TreasuryMessageMeta, TreasuryHandlerResultStatus, duplicate,
}
use program_capacity_invoice.Treasury.CapacityUpdate as CapacityUpdate
use program_capacity_invoice.Treasury.Reconciliation as Reconciliation
use program_capacity_invoice.Treasury.Consumer.{
  ConsumerState, KafkaMessage, processed, commit_offset, commit_offset_db, dispatch, finish,
  process_event, handle_read, read_event, raw_value, handle_message,
}
use program_capacity_invoice.Effects.Settling.{meta}
use program_capacity_invoice.System.Reach.{Setting, Reach, Reach_keeps}
use program_capacity_invoice.Effects.Known.{IsKnown, Skips-IsKnown, IsKnown-Skips, IsKnown-kept}
use program_capacity_invoice.Effects.Recorded.{Skips, ends-Skips, once-Skips, once_again}

module _ (platform : Platform) (env : Env) (meta : TreasuryMessageMeta) where
  module _ (event : TreasuryCapacityUpdateEvent) where
    capacity_process-Skips :
        (db : Db) (status : TreasuryHandlerResultStatus) (after : Db)
        → CapacityUpdate.process platform env event meta db ≡ ok (status, after)
        → Skips event.message_id meta after duplicate
    unfolding CapacityUpdate.process
    capacity_process-Skips db status after h =
        let (version, db1, _, h1) = >>=-eq-ok _ _ db status after h in
        let (at, db2, _, h2) = >>=-eq-ok _ _ db1 status after h1 in
        let (program, db3, _, h3) = >>=-eq-ok _ _ db2 status after h2 in
        let (result, db4, _, h4) = >>=-eq-ok _ _ db3 status after h3 in
        ends-Skips event.message_id meta "PROGRAM_CAPACITY_UPDATED" event.program_external_ref db4
          result status after h4

  module _ (event : TreasuryReconciliationEvent) where
    reconciliation_process-Skips :
        (db : Db) (status : TreasuryHandlerResultStatus) (after : Db)
        → Reconciliation.process platform env event meta db ≡ ok (status, after)
        → Skips event.message_id meta after duplicate
    unfolding Reconciliation.process
    reconciliation_process-Skips db status after h =
        let (declared, db1, _, h1) = >>=-eq-ok _ _ db status after h in
        let (found, db2, _, h2) = >>=-eq-ok _ _ db1 status after h1 in
        let (result, db3, _, h3) = >>=-eq-ok _ _ db2 status after h2 in
        ends-Skips event.message_id meta "PROGRAM_RECONCILIATION" event.program_external_ref db3
          result status after h3

  abbrev message_id_of : TreasuryEvent → String
  message_id_of (capacity_updated event) = event.message_id
  message_id_of (reconciliation event) = event.message_id

  dispatch-Skips :
      (event : TreasuryEvent) (db : Db) (status : TreasuryHandlerResultStatus) (after : Db)
      → dispatch platform env event meta db ≡ ok (status, after)
      → (again : TreasuryHandlerResultStatus) × Skips (message_id_of event) meta after again
  unfolding dispatch CapacityUpdate.handle Reconciliation.handle
  dispatch-Skips (capacity_updated event) db status after h =
      once-Skips event.message_id meta _ (capacity_process-Skips event) db status after h
  dispatch-Skips (reconciliation event) db status after h =
      once-Skips event.message_id meta _ (reconciliation_process-Skips event) db status after h

  skipped_lem :
      (event : TreasuryEvent) (db : Db) (again : TreasuryHandlerResultStatus)
      → Skips (message_id_of event) meta db again
      → dispatch platform env event meta db ≡ ok (again, db)
  unfolding dispatch CapacityUpdate.handle Reconciliation.handle
  skipped_lem (capacity_updated event) db again h = once_again event.message_id meta _ db again h
  skipped_lem (reconciliation event) db again h = once_again event.message_id meta _ db again h

module _ (setting : Setting) (env later : Env) (topic : String) (partition : ℤ)
    (m : KafkaMessage) where
  abbrev told : TreasuryMessageMeta
  told = meta setting.platform setting.codec env topic partition m

  -- A message that is known is skipped.
  skips_again :
      (event : TreasuryEvent) (s : ConsumerState)
      → IsKnown (message_id_of setting.platform env told event) told s.db
      → (again : TreasuryHandlerResultStatus) × (process_event setting.platform setting.codec later
            topic partition m event s
          ≡ commit_offset later topic partition m.offset (processed again) s)
  unfolding process_event run finish
  skips_again event s known =
      let (again, skips) = IsKnown-Skips _ told s.db known in
      (again, rw (skipped_lem setting.platform later told event s.db again skips) refl)

  first_db :
      (event : TreasuryEvent) (s : ConsumerState) (status : TreasuryHandlerResultStatus)
      (after : Db)
      → dispatch setting.platform env event told s.db ≡ ok (status, after)
      → (process_event setting.platform setting.codec env topic partition m event s).0.db ≡ after
  unfolding process_event run finish
  first_db event s status after h =
      rw h
        (commit_offset_db env topic partition m.offset (processed status) (record s { db = after }))

  -- Delivering a message is idempotent. Once its transaction has returned, and even if Kafka refused
  -- to commit its offset, every later delivery of it, whatever requests and messages came in between,
  -- is skipped: it leaves the database as it is, and commits the offset again, or fails with Kafka's
  -- error.
  pub handle_message_again :
      (event : TreasuryEvent) (s u : ConsumerState) (status : TreasuryHandlerResultStatus)
      (after : Db)
      → read_event setting.platform setting.codec env
          (raw_value setting.platform setting.codec env m)
        ≡ some event
      → dispatch setting.platform env event told s.db ≡ ok (status, after)
      → Reach setting (handle_message setting.platform setting.codec env topic partition m s).0 u
      → (again : TreasuryHandlerResultStatus) × (handle_message setting.platform setting.codec later
            topic partition m u
          ≡ commit_offset later topic partition m.offset (processed again) u)
  unfolding handle_message handle_read
  handle_message_again event s u status after read h reach =
      let (first, skips) = dispatch-Skips setting.platform env told event s.db status after h in
      let known = Skips-IsKnown _ told after first skips in
      let start = subst (IsKnown _ told) (sym (first_db event s status after h)) known in
      let (again, same) = skips_again event u (
        Reach_keeps (IsKnown-kept (message_id_of setting.platform env told event) told) setting
          (rw read at reach) start) in
      (again, rw read same)
