-- ===== src/Accounts/Coverage.antt =====
-- What the reservations of a program hold is reserved, in every state that the service reaches.
use mathlib.Core.Path.{subst}
use program_capacity_invoice.Base.{String, ◌≡◌, refl, sym, Option, none, some, Date}
use program_capacity_invoice.Base.Int.{ℤ}
use program_capacity_invoice.Errors.{Result, ok, fail}
use program_capacity_invoice.Store.{Db, Env, run}
use program_capacity_invoice.Store.Inversion.{run-eq-ok, run-eq-fail}
use program_capacity_invoice.Treasury.Events.{
  TreasuryEvent, capacity_updated, reconciliation, TreasuryMessageMeta, TreasuryHandlerResultStatus,
}
use program_capacity_invoice.Treasury.Consumer.{
  ConsumerState, KafkaMessage, read_event, raw_value, dispatch, process_event, finish, handle_read,
  handle_message, commit_offset_db, processed, validation_failed,
}
use program_capacity_invoice.System.Reach.{
  Setting, env_at, env_for, Step, create, release, message, Reach, here, next,
}
use program_capacity_invoice.System.Safety.{IsSound, Reach-IsSound}
use program_capacity_invoice.Accounts.Held.{CoveredPrograms}
use program_capacity_invoice.Accounts.Requests.{create-CoveredPrograms, release-CoveredPrograms}
use program_capacity_invoice.Accounts.Amounts.{HasAmounts}
use program_capacity_invoice.Accounts.Updates.{capacity_update-CoveredPrograms}
use program_capacity_invoice.Accounts.Messages.{reconciliation-CoveredPrograms}

-- No amount of the event's snapshot is negative, if it has one.
abbrev pub IsPlausible : TreasuryEvent → Type 0
IsPlausible (capacity_updated event) = Unit
IsPlausible (reconciliation event) = HasAmounts event.payload.active_reservations

abbrev pub ReadsPlausible : Option TreasuryEvent → Type 0
ReadsPlausible none = Unit
ReadsPlausible (some event) = IsPlausible event

-- A message is no event, or one with plausible amounts.
abbrev pub IsPlausibleMessage : Setting → Date → KafkaMessage → Type 0
IsPlausibleMessage setting now m = ReadsPlausible (
    read_event setting.platform setting.codec (env_at setting now)
      (raw_value setting.platform setting.codec (env_at setting now) m))

module _ (setting : Setting) where
  abbrev pub IsPlausibleStep : {s t : ConsumerState} → Step setting s t → Type 0
  IsPlausibleStep (create now dto) = Unit
  IsPlausibleStep (release now id) = Unit
  IsPlausibleStep (message now refused topic partition m) = IsPlausibleMessage setting now m

  abbrev pub IsPlausibleReach : {s t : ConsumerState} → Reach setting s t → Type 0
  IsPlausibleReach here = Unit
  IsPlausibleReach (next r step) = IsPlausibleReach r × IsPlausibleStep step

  module _ (env : Env) where
    dispatch-Covered :
        (event : TreasuryEvent) (meta : TreasuryMessageMeta) (db : Db)
        (status : TreasuryHandlerResultStatus) (after : Db)
        → IsPlausible event
        → IsSound db
        → dispatch setting.platform env event meta db ≡ ok (status, after)
        → CoveredPrograms db
        → CoveredPrograms after
    unfolding dispatch
    dispatch-Covered (capacity_updated event) meta db status after plausible sound e h =
        capacity_update-CoveredPrograms setting.platform env event meta db status after e h
    dispatch-Covered (reconciliation event) meta db status after plausible sound e h =
        reconciliation-CoveredPrograms setting.platform env event meta db status after plausible
          sound.unique_ids sound.unique e h

    run_covered :
        (event : TreasuryEvent) (meta : TreasuryMessageMeta) (db : Db)
        → IsPlausible event
        → IsSound db
        → CoveredPrograms db
        → CoveredPrograms (run (dispatch setting.platform env event meta) db).1
    run_covered event meta db plausible sound h = by_result _ refl
      where
        by_result :
            (r : Result TreasuryHandlerResultStatus × Db)
            → run (dispatch setting.platform env event meta) db ≡ r
            → CoveredPrograms r.1
        by_result (ok status, after) e =
            dispatch-Covered event meta db status after plausible sound
              (run-eq-ok (dispatch setting.platform env event meta) db status after e) h
        by_result (fail x, after) e =
            subst CoveredPrograms
              (sym (run-eq-fail (dispatch setting.platform env event meta) db x after e).0) h

    finish_covered :
        (topic : String) (partition offset : ℤ) (r : Result TreasuryHandlerResultStatus × Db)
        (s : ConsumerState)
        → CoveredPrograms r.1
        → CoveredPrograms
            (finish setting.platform setting.codec env topic partition offset r s).0.db
    unfolding finish
    finish_covered topic partition offset (ok status, after) s h =
        subst CoveredPrograms
          (sym (
            commit_offset_db env topic partition offset (processed status)
              (record s { db = after })))
          h
    finish_covered topic partition offset (fail e, after) s h = h

  step_covers :
      {s t : ConsumerState} (step : Step setting s t)
      → IsPlausibleStep step
      → IsSound s.db
      → CoveredPrograms s.db
      → CoveredPrograms t.db
  unfolding handle_message process_event
  step_covers {s} (create now dto) plausible sound h =
      create-CoveredPrograms setting.decimals (env_at setting now) dto s.db sound.consistent h
  step_covers {s} (release now id) plausible sound h =
      release-CoveredPrograms (env_at setting now) id s.db sound.consistent sound.admitted h
  step_covers {s} (message now refused topic partition m) plausible sound h = by_event _ plausible
    where
      by_event :
          (found : Option TreasuryEvent)
          → ReadsPlausible found
          → CoveredPrograms
              (handle_read setting.platform setting.codec
                (env_for setting now refused)
                topic
                partition
                m
                found
                s).0.db
      by_event none plausible =
          subst CoveredPrograms
            (sym (
              commit_offset_db (env_for setting now refused) topic partition m.offset
                validation_failed s))
            h
      by_event (some event) plausible =
          finish_covered (env_for setting now refused) topic partition m.offset _ s
            (run_covered (env_for setting now refused) event _ s.db plausible sound h)

  -- From a sound database whose programs are covered, every sequence of API requests and Kafka
  -- messages in which no amount of a snapshot is negative leads to one: the ACTIVE reservations of
  -- every program add up to at most its reserved amount, and none is of a program without a row.
  pub Reach-CoveredPrograms :
      (s t : ConsumerState) (r : Reach setting s t)
      → IsPlausibleReach r
      → IsSound s.db
      → CoveredPrograms s.db
      → CoveredPrograms t.db
  Reach-CoveredPrograms s t here plausible sound h = h
  Reach-CoveredPrograms s t (next {t = mid} r step) plausible sound h =
      step_covers step plausible.1 (Reach-IsSound setting s mid r sound)
        (Reach-CoveredPrograms s mid r plausible.0 sound h)
