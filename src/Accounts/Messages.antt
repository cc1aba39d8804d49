-- ===== src/Accounts/Messages.antt =====
-- A reconciliation leaves every program covered, if no amount of its snapshot is negative.
use mathlib.Core.Path.{subst}
use program_capacity_invoice.Base.{
  ◌≤◌, String, ◌==◌, eq_iff, eq_refl, Bool, true, false, ◌≡◌, refl, sym, ◌∙◌, ap, Option, some,
  arith,
}
use program_capacity_invoice.Base.Int.{pos}
use program_capacity_invoice.Base.Rows.{find, replace, find_passes}
use program_capacity_invoice.Errors.{ok}
use program_capacity_invoice.Store.{Program, Db, Env}
use program_capacity_invoice.Programs.Repository as Programs
use program_capacity_invoice.Programs.Updates.{Updates, untouched, written}
use program_capacity_invoice.Reservations.Uniqueness.{UniqueIds, UniqueInvoices}
use program_capacity_invoice.Treasury.Events.{
  Platform, TreasuryReconciliationEvent, TreasuryMessageMeta, TreasuryHandlerResultStatus,
}
use program_capacity_invoice.Treasury.Snapshot.{snapshot_sum}
use program_capacity_invoice.Treasury.Reconciliation.{Declared}
use program_capacity_invoice.Treasury.Reconciliation as Reconciliation
use program_capacity_invoice.Effects.Reconciliation as Reconciled
use program_capacity_invoice.Effects.Reconciliation.{reconciliation-Outcome}
use program_capacity_invoice.Effects.Snapshot.{Replaces, input}
use program_capacity_invoice.Accounts.Held.{held, reserved_of, CoveredPrograms}
use program_capacity_invoice.Accounts.Snapshot.{Resets, apply_snapshot-Resets}
use program_capacity_invoice.Programs.Lookup.{Lookup, at, away, with_program-Lookup}
use program_capacity_invoice.Accounts.Amounts.{HasAmounts, sum-spending, find_other, find_last}
use program_capacity_invoice.Accounts.Updates.{covered_alike, created_covered}

module _ (platform : Platform) (env : Env) (event : TreasuryReconciliationEvent)
    (declared : Declared) where
  -- The program's row takes the sum of the snapshot, which its reservations do not exceed.
  Replaces-Covered :
      (p q : Program) (db after : Db)
      → HasAmounts event.payload.active_reservations
      → UniqueIds db
      → UniqueInvoices db
      → find (Programs.has_id p.id) db.programs ≡ some q
      → snapshot_sum (pos 0) event.payload.active_reservations ≡ ok declared.reserved_amount_minor
      → Replaces platform env event declared p declared.reserved_amount_minor db after
      → CoveredPrograms db
      → CoveredPrograms after
  Replaces-Covered p q db after amounts ids invoices found sum r h = by_update r.updates
    where
      reset :
          Resets platform env event declared p db.invoice_reservations after.invoice_reservations
      reset =
          apply_snapshot-Resets platform env event declared p declared.reserved_amount_minor db tt
            after ids invoices r.ran

      new : Program → Program
      new =
          Programs.reconciled_by
            (input platform env event declared declared.reserved_amount_minor r.exponent) env.now

      by_id :
          (x : Program) (id : String) {found_after : Option Program}
          → x.id ≡ p.id
          → Lookup (new x) id (find (Programs.has_id id) db.programs) found_after
          → held id after.invoice_reservations ≤ reserved_of found_after
      by_id x id key (at is there) =
          let bound = reset.bounded in
          let spent =
            sum-spending 0 event.payload.active_reservations declared.reserved_amount_minor amounts
              sum in
          rw (there, is, key) (ground arith)
      by_id x id key (away other is) =
          let apart : (id == p.id) ≡ false = ground (arith, eq_iff x.id id, eq_iff id p.id) in
          rw (is, reset.others id apart) (h id)

      by_update :
          {row : Option Program}
          → Updates p.id (λ _. true) new r.mid row after
          → CoveredPrograms after
      by_update (untouched none_found _ _) =
          absurd (cc (none_found q (ap (find (Programs.has_id p.id)) r.same ∙ found)))
      by_update (written x there _ _ _ same) = λ id.
          let at_x : find (Programs.has_id p.id) db.programs ≡ some x =
            ap (find (Programs.has_id p.id)) (sym r.same) ∙ there in
          let key : x.id ≡ p.id =
            (eq_iff x.id p.id).0 (find_passes (Programs.has_id p.id) db.programs x at_x) in
          let programs : after.programs ≡ replace (Programs.has_id x.id) (new x) db.programs =
            ap (λ (d : Db). d.programs) same ∙ ap (replace (Programs.has_id x.id) (new x)) r.same in
          let looked =
            with_program-Lookup (new x) x id db.programs
              (subst (λ y. find (Programs.has_id y) db.programs ≡ some x) (sym key) at_x) in
          by_id x id key (
            subst
              (λ rows.
                Lookup (new x) id (find (Programs.has_id id) db.programs)
                  (find (Programs.has_id id) rows))
              (sym programs) looked)

module _ (platform : Platform) (env : Env) (event : TreasuryReconciliationEvent) where
  -- The state from which a snapshot is judged, and the program that it is for.
  record IsOpen (p : Program) (base : Db) : Type 0 where
    pub found : (q : Program) × (find (Programs.has_id p.id) base.programs ≡ some q)
    pub covered : CoveredPrograms base
    pub ids : UniqueIds base
    pub invoices : UniqueInvoices base

  Opens-IsOpen :
      (declared : Declared) (db : Db) (p : Program) (created : Bool) (base : Db)
      → Reconciled.Opens platform env event declared db p created base
      → UniqueIds db
      → UniqueInvoices db
      → CoveredPrograms db
      → IsOpen p base
  Opens-IsOpen declared db p created base (Reconciled.existing found _ same) ids invoices h =
      rw same (record {
        found =
            find_other (Programs.has_external_ref event.program_external_ref) (Programs.has_id p.id)
              db.programs p found (eq_refl p.id);
        covered = h;
        ids = ids;
        invoices = invoices;
      })
  Opens-IsOpen declared db p created base (Reconciled.fresh _ _ _ _ same _) ids invoices h =
      rw same (record {
        found = find_last (Programs.has_id p.id) db.programs p (eq_refl p.id);
        covered = created_covered db (Programs.insert_row p db) p refl refl h;
        ids = ids;
        invoices = invoices;
      })

  Judgement-Covered :
      (declared : Declared) (p : Program) (base : Db) (status : TreasuryHandlerResultStatus)
      (mid : Db)
      → HasAmounts event.payload.active_reservations
      → IsOpen p base
      → Reconciled.Judgement platform env event declared p base status mid
      → CoveredPrograms mid
  Judgement-Covered declared p base status mid amounts o (Reconciled.contradictory _ _ _ _ same) =
      covered_alike base mid same.programs same.reservations o.covered
  Judgement-Covered declared p base status mid amounts o (Reconciled.coherent sum _ _ replaced) =
      Replaces-Covered platform env event declared p o.found.0 base mid amounts o.ids o.invoices
        o.found.1 sum replaced o.covered

  Handled-Covered :
      (declared : Declared) (db : Db) (status : TreasuryHandlerResultStatus) (after : Db)
      → HasAmounts event.payload.active_reservations
      → UniqueIds db
      → UniqueInvoices db
      → Reconciled.Handled platform env event declared db status after
      → CoveredPrograms db
      → CoveredPrograms after
  Handled-Covered declared db status after amounts ids invoices
        (Reconciled.outdated _ _ _ _ _ _ same) h =
      covered_alike db after same.programs same.reservations h
  Handled-Covered declared db status after amounts ids invoices
        (Reconciled.judged p created base mid opens _ judgement same) h =
      covered_alike mid after same.programs same.reservations (
        Judgement-Covered declared p base status mid amounts
          (Opens-IsOpen declared db p created base opens ids invoices h) judgement)

  pub reconciliation-CoveredPrograms :
      (meta : TreasuryMessageMeta) (db : Db) (status : TreasuryHandlerResultStatus) (after : Db)
      → HasAmounts event.payload.active_reservations
      → UniqueIds db
      → UniqueInvoices db
      → Reconciliation.handle platform env event meta db ≡ ok (status, after)
      → CoveredPrograms db
      → CoveredPrograms after
  reconciliation-CoveredPrograms meta db status after amounts ids invoices e h =
      elim (reconciliation-Outcome platform env event meta db status after e) [
        | Reconciled.seen _ same ↦ subst CoveredPrograms (sym same) h
        | Reconciled.handled declared _ done ↦
            Handled-Covered declared db status after amounts ids invoices done h
      ]
