-- ===== src/Effects/Ordering.antt =====
-- The treasury's versions of the programs only grow, whatever the order of the messages.
use mathlib.Core.Path.{subst}
use program_capacity_invoice.Base.{sym, String, ◌≡◌, refl, ap, Option, none, some}
use program_capacity_invoice.Base.Int.{ℤ}
use program_capacity_invoice.Errors.{Result, ok, fail}
use program_capacity_invoice.Store.{Db, Env, run}
use program_capacity_invoice.Store.Inversion.{run-eq-ok, run-eq-fail}
use program_capacity_invoice.Programs.Uniqueness.{UniquePrograms}
use program_capacity_invoice.Treasury.Events.{
  TreasuryEvent, capacity_updated, reconciliation, TreasuryMessageMeta, TreasuryHandlerResultStatus,
}
use program_capacity_invoice.Treasury.Consumer.{
  ConsumerState, dispatch, process_event, finish, handle_read, handle_message, commit_offset_db,
  processed, validation_failed,
}
use program_capacity_invoice.Effects.Versions.{Advances, Advances-refl, Advances-trans}
use program_capacity_invoice.System.Reach.{
  Setting, env_at, env_for, Step, create, release, message, Reach, here, next,
}
use program_capacity_invoice.System.Safety.{IsSound, Reach-IsSound}
use program_capacity_invoice.Effects.RequestVersions.{
  create-Advances, release-Advances, capacity_update-Advances, same_programs,
}
use program_capacity_invoice.Effects.SnapshotVersions.{reconciliation-Advances}

module _ (setting : Setting) where
  dispatch-Advances :
      (env : Env) (event : TreasuryEvent) (meta : TreasuryMessageMeta) (db : Db)
      → UniquePrograms db
      → Advances db.programs (run (dispatch setting.platform env event meta) db).1.programs
  unfolding dispatch
  dispatch-Advances env event meta db unique = by_result _ refl
    where
      by_event :
          (event : TreasuryEvent) (status : TreasuryHandlerResultStatus) (after : Db)
          → dispatch setting.platform env event meta db ≡ ok (status, after)
          → Advances db.programs after.programs
      by_event (capacity_updated event) status after e =
          capacity_update-Advances setting.platform env event meta db status after unique e
      by_event (reconciliation event) status after e =
          reconciliation-Advances setting.platform env event meta db status after unique e

      by_result :
          (r : Result TreasuryHandlerResultStatus × Db)
          → run (dispatch setting.platform env event meta) db ≡ r
          → Advances db.programs r.1.programs
      by_result (ok status, after) e =
          by_event event status after
            (run-eq-ok (dispatch setting.platform env event meta) db status after e)
      by_result (fail x, after) e = same_programs db after (
          ap (λ (d : Db). d.programs)
            (run-eq-fail (dispatch setting.platform env event meta) db x after e).0)

  finish-Advances :
      (env : Env) (topic : String) (partition offset : ℤ)
      (r : Result TreasuryHandlerResultStatus × Db) (s : ConsumerState)
      → Advances s.db.programs r.1.programs
      → Advances s.db.programs
          (finish setting.platform setting.codec env topic partition offset r s).0.db.programs
  unfolding finish
  finish-Advances env topic partition offset (ok status, after) s h =
      subst (λ (d : Db). Advances s.db.programs d.programs)
        (sym (
          commit_offset_db env topic partition offset (processed status) (record s { db = after })))
        h
  finish-Advances env topic partition offset (fail e, after) s h = h

  Step-Advances :
      {s t : ConsumerState} → Step setting s t → IsSound s.db → Advances s.db.programs t.db.programs
  unfolding handle_message process_event
  Step-Advances {s} (create now dto) sound =
      create-Advances setting.decimals (env_at setting now) dto s.db
  Step-Advances {s} (release now id) sound = release-Advances (env_at setting now) id s.db
  Step-Advances {s} (message now refused topic partition m) sound = by_event _
    where
      by_event :
          (found : Option TreasuryEvent)
          → Advances s.db.programs
              (handle_read setting.platform setting.codec
                (env_for setting now refused)
                topic
                partition
                m
                found
                s).0.db.programs
      by_event none =
          subst (λ (d : Db). Advances s.db.programs d.programs)
            (sym (
              commit_offset_db (env_for setting now refused) topic partition m.offset
                validation_failed s))
            (Advances-refl s.db.programs)
      by_event (some event) =
          finish-Advances (env_for setting now refused) topic partition m.offset _ s
            (dispatch-Advances (env_for setting now refused) event _ s.db sound.unique_programs)

  -- From a sound database, whatever requests and messages follow, in whatever order the messages
  -- arrive: every program is still there under its id, and the treasury's version of it is at least
  -- what it was.
  pub Reach-Advances :
      (s t : ConsumerState)
      → Reach setting s t
      → IsSound s.db
      → Advances s.db.programs t.db.programs
  Reach-Advances s t here sound = Advances-refl s.db.programs
  Reach-Advances s t (next {t = mid} r step) sound =
      Advances-trans s.db.programs mid.db.programs t.db.programs (Reach-Advances s mid r sound)
        (Step-Advances step (Reach-IsSound setting s mid r sound))
