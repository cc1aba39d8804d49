-- ===== src/Accounts/Updates.antt =====
-- An update of a limit leaves every program covered.
use mathlib.Core.Path.{subst}
use program_capacity_invoice.Base.{
  ◌≤◌, String, eq_iff, true, ◌≡◌, sym, Option, some, inl, inr, List, [], ◌∷◌, ◌++◌, arith,
  Option-cases,
}
use program_capacity_invoice.Base.Int.{pos_part}
use program_capacity_invoice.Base.Rows.{find, find_passes, find-append_some}
use program_capacity_invoice.Errors.{ok}
use program_capacity_invoice.Store.{Program, Db, Env}
use program_capacity_invoice.Programs.Repository as Programs
use program_capacity_invoice.Programs.Updates.{Updates, untouched, written}
use program_capacity_invoice.Treasury.Events.{
  Platform, TreasuryCapacityUpdateEvent, TreasuryMessageMeta, TreasuryHandlerResultStatus,
}
use program_capacity_invoice.Treasury.CapacityUpdate as CapacityUpdate
use program_capacity_invoice.Effects.CapacityUpdate as Capacity
use program_capacity_invoice.Effects.CapacityUpdate.{capacity_update-Outcome, update_input}
use program_capacity_invoice.Effects.Snapshot.{input}
use program_capacity_invoice.Accounts.Held.{held, reserved_of, CoveredPrograms}
use program_capacity_invoice.Programs.Lookup.{Lookup, at, away, with_program-Lookup}

-- What says the same of programs and reservations covers the same.
pub covered_alike :
    (a b : Db)
    → b.programs ≡ a.programs
    → b.invoice_reservations ≡ a.invoice_reservations
    → CoveredPrograms a
    → CoveredPrograms b
covered_alike a b programs reservations h id = rw (programs, reservations) (h id)

-- A new program covers what none did.
append_more :
    (id : String) (rows : List Program) (new : Program)
    → reserved_of (find (Programs.has_id id) rows)
      ≤ reserved_of (find (Programs.has_id id) (rows ++ new ∷ []))
append_more id rows new = elim (Option-cases (find (Programs.has_id id) rows)) [
  | inl absent ↦ rw absent (ground arith)
  | inr (p, found) ↦
      rw (found, find-append_some (Programs.has_id id) rows new p found) (ground arith)
]

pub created_covered :
    (db after : Db) (new : Program)
    → after.programs ≡ db.programs ++ new ∷ []
    → after.invoice_reservations ≡ db.invoice_reservations
    → CoveredPrograms db
    → CoveredPrograms after
created_covered db after new programs reservations h id =
    let more = append_more id db.programs new in
    let before = h id in rw (programs, reservations) (ground arith)

module _ (platform : Platform) (env : Env) (event : TreasuryCapacityUpdateEvent) where
  Updates-Covered :
      (id : String) (input : Programs.ApplyCapacityUpdateInput) (db : Db) (row : Option Program)
      (mid : Db)
      → Updates id (λ _. true) (Programs.capacity_updated_by input env.now) db row mid
      → CoveredPrograms db
      → CoveredPrograms mid
  Updates-Covered id input db row mid (untouched _ _ same) h = subst CoveredPrograms (sym same) h
  Updates-Covered id input db row mid (written p found _ _ _ same) h = rw same (λ other.
      by_id other (
        with_program-Lookup (Programs.capacity_updated_by input env.now p) p other db.programs
          here))
    where
      here : find (Programs.has_id p.id) db.programs ≡ some p
      here =
          subst (λ x. find (Programs.has_id x) db.programs ≡ some p)
            (sym ((eq_iff p.id id).0 (find_passes (Programs.has_id id) db.programs p found))) found

      by_id :
          (other : String) {found_after : Option Program}
          → Lookup
              (Programs.capacity_updated_by input env.now p)
              other
              (find (Programs.has_id other) db.programs)
              found_after
          → held other db.invoice_reservations ≤ reserved_of found_after
      by_id other (away _ is) = rw is (h other)
      by_id other (at is there) =
          let before : held other db.invoice_reservations ≤ pos_part p.reserved_amount_minor =
            subst (λ o. held other db.invoice_reservations ≤ reserved_of o)
              (subst (λ x. find (Programs.has_id x) db.programs ≡ some p) (sym is) here)
              (h other) in
          rw there before

  pub capacity_update-CoveredPrograms :
      (meta : TreasuryMessageMeta) (db : Db) (status : TreasuryHandlerResultStatus) (after : Db)
      → CapacityUpdate.handle platform env event meta db ≡ ok (status, after)
      → CoveredPrograms db
      → CoveredPrograms after
  capacity_update-CoveredPrograms meta db status after e h =
      elim (capacity_update-Outcome platform env event meta db status after e) [
        | Capacity.seen _ same ↦ subst CoveredPrograms (sym same) h
        | Capacity.outdated _ _ _ _ _ _ _ _ same ↦
            covered_alike db after same.programs same.reservations h
        | Capacity.created _ _ _ _ _ _ _ _ programs reservations ↦
            created_covered db after _ programs reservations h
        | Capacity.updated p limit exponent version date row mid _ _ _ _ _ done programs
              reservations ↦
            covered_alike mid after programs reservations (
              Updates-Covered p.id (update_input platform env event limit exponent version date) db
                row mid done h)
      ]
