-- ===== src/Effects/Replaced.antt =====
-- What a reconciliation leaves, in figures: treasury/treasury-reconciliation.handler.ts.
use program_capacity_invoice.Base.{
  Bool, true, false, ◌≡◌, refl, ◌∙◌, ap, ◌⊎◌, inl, inr, none, some, not, ◌||◌,
}
use program_capacity_invoice.Base.{eq_refl, if◌then◌else◌}
use program_capacity_invoice.Base.Int.{ℤ, pos, ◌≤ℤ◌, eqb_ℤ}
use program_capacity_invoice.Base.Rows.{find, replace, find-append_none}
use program_capacity_invoice.Errors.{ok}
use program_capacity_invoice.Store.{Program, Db, Env}
use program_capacity_invoice.Programs.Repository as Programs
use program_capacity_invoice.Programs.Uniqueness.{UniquePrograms}
use program_capacity_invoice.Treasury.Events.{
  Platform, TreasuryReconciliationEvent, TreasuryMessageMeta, TreasuryHandlerResultStatus, applied,
  stale, ignored,
}
use program_capacity_invoice.Treasury.Messages.{seen_before}
use program_capacity_invoice.Treasury.CapacityUpdate.{is_stale}
use program_capacity_invoice.Treasury.Snapshot.{currency_mismatch, snapshot_sum}
use program_capacity_invoice.Treasury.Reconciliation.{Declared, read_declared, handle}
use program_capacity_invoice.Effects.Snapshot.{SameAccounts, accounts_trans, Replaces, input}
use program_capacity_invoice.Effects.Reconciliation as Reconciled
use program_capacity_invoice.Effects.Reconciliation.{
  Opens, existing, fresh, Handled, reconciliation-Outcome,
}
use program_capacity_invoice.Effects.Versions.{find_by_reference}
use program_capacity_invoice.Effects.Declared.{
  Declares, IsNewer, fresh-IsNewer, reconciled-Declares, Updates-row,
}

module _ (platform : Platform) (env : Env) (event : TreasuryReconciliationEvent)
    (declared : Declared) where
  -- The row that the program's id finds once the message has found or created it.
  opened :
      (db : Db) (p : Program) (created : Bool) (base : Db)
      → UniquePrograms db
      → Opens platform env event declared db p created base
      → find (Programs.has_id p.id) base.programs ≡ some p
  opened db p created base unique (existing found _ at) =
      ap (λ (d : Db). find (Programs.has_id p.id) d.programs) at
      ∙ find_by_reference db event.program_external_ref p unique found
  opened db p created base unique (fresh _ _ free _ at _) =
      ap (λ (d : Db). find (Programs.has_id p.id) d.programs) at
      ∙ find-append_none (Programs.has_id p.id) db.programs p free
      ∙ ap (λ b. if b then some p else none) (eq_refl p.id)

  replaced_row :
      (p : Program) (reserved : ℤ) (before after : Db)
      → find (Programs.has_id p.id) before.programs ≡ some p
      → Replaces platform env event declared p reserved before after
      → (q : Program) × Declares p declared.total_limit_minor reserved event.payload.currency
          declared.treasury_version q
        × (after.programs ≡ replace (Programs.has_id p.id) q before.programs)
  replaced_row p reserved before after here r =
      let values = input platform env event declared reserved r.exponent in
      let set = Programs.reconciled_by values env.now in
      (
        set p,
        reconciled-Declares values env.now p,
        Updates-row p set r.mid r.row after (λ x. refl)
              (ap (find (Programs.has_id p.id)) r.same ∙ here) r.updates
            ∙ ap (replace (Programs.has_id p.id) (set p)) r.same,
      )

  -- What has become of a message that was not seen before.
  pub data Ruled (db : Db) (status : TreasuryHandlerResultStatus) (after : Db) : Type 0 where
    outdated :
        (p : Program) (current : ℤ)
        → find (Programs.has_external_ref event.program_external_ref) db.programs ≡ some p
        → p.treasury_version ≡ some current
        → declared.treasury_version ≤ℤ current
        → status ≡ stale
        → SameAccounts db after
        → Ruled db status after
    contradictory :
        (p : Program) (created : Bool) (base : Db) (sum : ℤ)
        → Opens platform env event declared db p created base
        → snapshot_sum (pos 0) event.payload.active_reservations ≡ ok sum
        → (currency_mismatch event.payload.currency event.payload.active_reservations
            || not (eqb_ℤ sum declared.reserved_amount_minor))
          ≡ true
        → status ≡ ignored
        → SameAccounts base after
        → Ruled db status after
    coherent :
        (p : Program) (created : Bool) (base : Db) (q : Program)
        → Opens platform env event declared db p created base
        → (created ≡ true) ⊎ IsNewer declared.treasury_version p
        → snapshot_sum (pos 0) event.payload.active_reservations ≡ ok declared.reserved_amount_minor
        → currency_mismatch event.payload.currency event.payload.active_reservations ≡ false
        → status ≡ applied
        → Declares p declared.total_limit_minor declared.reserved_amount_minor
            event.payload.currency declared.treasury_version q
        → after.programs ≡ replace (Programs.has_id p.id) q base.programs
        → Ruled db status after

  Handled-Ruled :
      (db : Db) (status : TreasuryHandlerResultStatus) (after : Db)
      → UniquePrograms db
      → Handled platform env event declared db status after
      → Ruled db status after
  Handled-Ruled db status after unique (Reconciled.outdated p current found has older is same) =
      outdated p current found has older is same
  Handled-Ruled db status after unique
        (Reconciled.judged p created base mid opens newer
          (Reconciled.contradictory sum is_sum bad is kept)
          same) =
      contradictory p created base sum opens is_sum bad is (accounts_trans base mid after kept same)
  Handled-Ruled db status after unique
        (Reconciled.judged p created base mid opens newer
          (Reconciled.coherent is_sum same_currency is r)
          same) =
      let (q, declares, rows) =
        replaced_row p declared.reserved_amount_minor base mid
          (opened db p created base unique opens) r in
      coherent p created base q opens (by_age newer) is_sum same_currency is declares
        (same.programs ∙ rows)
    where
      by_age :
          {created : Bool}
          → (created ≡ true) ⊎ (is_stale declared.treasury_version p.treasury_version ≡ false)
          → (created ≡ true) ⊎ IsNewer declared.treasury_version p
      by_age (inl new) = inl new
      by_age (inr newer) = inr (fresh-IsNewer declared.treasury_version p newer)

module _ (platform : Platform) (env : Env) (event : TreasuryReconciliationEvent) where
  -- What a reconciliation has done, by the result that it returns.
  pub data Reconciles (meta : TreasuryMessageMeta) (db : Db) (status : TreasuryHandlerResultStatus)
      (after : Db) : Type 0 where
    seen :
        seen_before event.message_id meta db ≡ ok (some status, db)
        → after ≡ db
        → Reconciles meta db status after
    ruled :
        (declared : Declared)
        → read_declared platform env event db ≡ ok (declared, db)
        → Ruled platform env event declared db status after
        → Reconciles meta db status after

  -- Where no two programs share an id, a reconciliation that returns was seen before, or is not
  -- newer than its program, or was ruled on. In the first case the database is as it was; in the
  -- second the accounts are. A snapshot whose sum is not the declared amount, or with an item in
  -- another currency than its own, is `ignored`, and changes no account but that of a program it
  -- has just created, ACTIVE, with the declared limit and nothing reserved. One that agrees with
  -- itself is `applied`, whatever the currency of the program was: the program's row gets the
  -- declared limit and version, the sum of the snapshot as reserved amount, the snapshot's
  -- currency, and the status that limit and amount imply, and no other program's row changes.
  pub reconciliation-Reconciles :
      (meta : TreasuryMessageMeta) (db : Db) (status : TreasuryHandlerResultStatus) (after : Db)
      → UniquePrograms db
      → handle platform env event meta db ≡ ok (status, after)
      → Reconciles meta db status after
  reconciliation-Reconciles meta db status after unique h =
      elim (reconciliation-Outcome platform env event meta db status after h) [
        | Reconciled.seen found same ↦ seen found same
        | Reconciled.handled declared reads done ↦
            ruled declared reads
              (Handled-Ruled platform env event declared db status after unique done)
      ]
