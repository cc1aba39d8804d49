-- ===== src/Effects/SnapshotVersions.antt =====
-- A snapshot leaves no program with an older version.
use mathlib.Core.Path.{subst}
use program_capacity_invoice.Base.{
  String, eq_iff, Bool, true, false, ◌≡◌, refl, sym, ◌∙◌, ap, ◌⊎◌, inl, inr, Option, none, some,
  List, [], ◌∷◌, ◌++◌,
}
use program_capacity_invoice.Base.Int.{ℤ}
use program_capacity_invoice.Base.Rows.{find, replace, find_passes, find-append_some}
use program_capacity_invoice.Errors.{ok}
use program_capacity_invoice.Store.{Program, Db, Env}
use program_capacity_invoice.Programs.Repository as Programs
use program_capacity_invoice.Programs.Updates.{Updates, untouched, written}
use program_capacity_invoice.Programs.Uniqueness.{UniquePrograms}
use program_capacity_invoice.Programs.Lookup.{Lookup, at, away, with_program-Lookup}
use program_capacity_invoice.Treasury.Events.{
  Platform, TreasuryMessageMeta, TreasuryHandlerResultStatus, TreasuryReconciliationEvent,
}
use program_capacity_invoice.Treasury.CapacityUpdate as CapacityUpdate
use program_capacity_invoice.Treasury.Reconciliation as Reconciliation
use program_capacity_invoice.Treasury.Reconciliation.{Declared}
use program_capacity_invoice.Effects.Snapshot.{Replaces, input}
use program_capacity_invoice.Effects.Reconciliation as Reconciled
use program_capacity_invoice.Effects.Reconciliation.{reconciliation-Outcome}
use program_capacity_invoice.Effects.Versions.{
  NotOlder, Advances, NotOlder-same, NotOlder-fresh, Advances-append, Updates-Advances,
  find_by_reference,
}
use program_capacity_invoice.Effects.RequestVersions.{same_programs}

module _ (platform : Platform) (env : Env) (event : TreasuryReconciliationEvent)
    (declared : Declared) where
  replaced_at :
      (p : Program) (reserved : ℤ) (base after : Db)
      → ((x : Program)
          → find (Programs.has_id p.id) base.programs ≡ some x
          → CapacityUpdate.is_stale declared.treasury_version x.treasury_version ≡ false)
      → Replaces platform env event declared p reserved base after
      → Advances base.programs after.programs
  replaced_at p reserved base after fresh r =
      subst (λ rows. Advances rows after.programs) r.same
        (Updates-Advances p.id
          (Programs.reconciled_by (input platform env event declared reserved r.exponent) env.now)
          r.mid r.row after (λ x. refl)
          (λ x there.
            NotOlder-fresh x _ declared.treasury_version
              (fresh x (ap (find (Programs.has_id p.id)) (sym r.same) ∙ there)) refl)
          r.updates)

  -- A program that the message has just created is no program that was there.
  replaced_new :
      (p : Program) (reserved : ℤ) (db after : Db)
      → find (Programs.has_id p.id) db.programs ≡ none
      → Replaces platform env event declared p reserved (Programs.insert_row p db) after
      → Advances db.programs after.programs
  replaced_new p reserved db after free r = by_update r.updates
    where
      new : Program → Program
      new = Programs.reconciled_by (input platform env event declared reserved r.exponent) env.now

      appended : List Program
      appended = db.programs ++ p ∷ []

      by_id :
          (x : Program) (id : String) (q : Program) {found : Option Program}
          → x.id ≡ p.id
          → find (Programs.has_id id) db.programs ≡ some q
          → Lookup (new x) id (find (Programs.has_id id) appended) found
          → (y : Program) × (found ≡ some y) × NotOlder q y
      by_id x id q key h (away _ same) = (
        q,
        same ∙ find-append_some (Programs.has_id id) db.programs p q h,
        NotOlder-same q q refl,
      )
      by_id x id q key h (at is _) =
          let there = subst (λ y. find (Programs.has_id y) db.programs ≡ some q) (is ∙ key) h in
          absurd (cc (there, free))

      by_update :
          {row : Option Program}
          → Updates p.id (λ _. true) new r.mid row after
          → Advances db.programs after.programs
      by_update (untouched _ _ same) =
          subst (Advances db.programs) (sym (ap (λ (d : Db). d.programs) same ∙ r.same))
            (Advances-append db.programs p)
      by_update (written x there _ _ _ same) =
          let key : x.id ≡ p.id =
            (eq_iff x.id p.id).0 (find_passes (Programs.has_id p.id) r.mid.programs x there) in
          let at_x : find (Programs.has_id x.id) appended ≡ some x =
            subst (λ y. find (Programs.has_id y) appended ≡ some x) (sym key)
              (ap (find (Programs.has_id p.id)) (sym r.same) ∙ there) in
          subst (Advances db.programs)
            (sym (
              ap (λ (d : Db). d.programs) same
              ∙ ap (replace (Programs.has_id x.id) (new x)) r.same))
            (λ id q h. by_id x id q key h (with_program-Lookup (new x) x id appended at_x))

module _ (platform : Platform) (env : Env) (event : TreasuryReconciliationEvent) where
  judged-Advances :
      (declared : Declared) (db : Db) (p : Program) (created : Bool) (base : Db)
      (status : TreasuryHandlerResultStatus) (mid : Db)
      → UniquePrograms db
      → Reconciled.Opens platform env event declared db p created base
      → (created ≡ true)
        ⊎ (CapacityUpdate.is_stale declared.treasury_version p.treasury_version ≡ false)
      → Reconciled.Judgement platform env event declared p base status mid
      → Advances db.programs mid.programs
  judged-Advances declared db p created base status mid unique (Reconciled.existing found is same)
        fresh (Reconciled.contradictory _ _ _ _ kept) =
      same_programs db mid (kept.programs ∙ ap (λ (d : Db). d.programs) same)
  judged-Advances declared db p created base status mid unique (Reconciled.fresh _ _ _ _ same _)
        fresh (Reconciled.contradictory _ _ _ _ kept) =
      subst (Advances db.programs) (sym (kept.programs ∙ ap (λ (d : Db). d.programs) same))
        (Advances-append db.programs p)
  judged-Advances declared db p created base status mid unique (Reconciled.existing found is same)
        (inl new) (Reconciled.coherent _ _ _ r) =
      absurd (cc (is, new))
  judged-Advances declared db p created base status mid unique (Reconciled.existing found is same)
        (inr newer) (Reconciled.coherent _ _ _ r) =
      replaced_at platform env event declared p declared.reserved_amount_minor db mid
        (λ x there.
          let is_p : p ≡ x =
            cc (find_by_reference db event.program_external_ref p unique found, there) in
          subst
            (λ (y : Program).
              CapacityUpdate.is_stale declared.treasury_version y.treasury_version ≡ false)
            is_p newer)
        (subst (λ d. Replaces platform env event declared p declared.reserved_amount_minor d mid)
          same r)
  judged-Advances declared db p created base status mid unique (Reconciled.fresh _ _ free _ same _)
        _ (Reconciled.coherent _ _ _ r) =
      replaced_new platform env event declared p declared.reserved_amount_minor db mid free (
        subst (λ d. Replaces platform env event declared p declared.reserved_amount_minor d mid)
          same r)

  pub reconciliation-Advances :
      (meta : TreasuryMessageMeta) (db : Db) (status : TreasuryHandlerResultStatus) (after : Db)
      → UniquePrograms db
      → Reconciliation.handle platform env event meta db ≡ ok (status, after)
      → Advances db.programs after.programs
  reconciliation-Advances meta db status after unique e =
      elim (reconciliation-Outcome platform env event meta db status after e) [
        | Reconciled.seen _ same ↦ same_programs db after (ap (λ (d : Db). d.programs) same)
        | Reconciled.handled declared _ (Reconciled.outdated _ _ _ _ _ _ same) ↦
            same_programs db after same.programs
        | Reconciled.handled declared _
              (Reconciled.judged p created base mid opens fresh judgement same) ↦
            subst (Advances db.programs) (sym same.programs)
              (judged-Advances declared db p created base status mid unique opens fresh judgement)
      ]
