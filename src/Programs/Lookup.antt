-- ===== src/Programs/Lookup.antt =====
-- Programs found by their id after an UPDATE.
use program_capacity_invoice.Base.{
  String, ◌==◌, eq_iff, eq_refl, false, ◌≡◌, sym, Option, some, inl, inr, List, arith, Bool-cases,
}
use mathlib.Core.Path.{subst}
use program_capacity_invoice.Base.Rows.{find, replace, find-replace_self}
use program_capacity_invoice.Base.Lookup.{find-replace_away}
use program_capacity_invoice.Store.{Program}
use program_capacity_invoice.Programs.Repository as Programs

-- What is found by an id, before and after the row of a program was overwritten.
pub data Lookup (new : Program) (id : String) (before after : Option Program) : Type 0 where
  at : id ≡ new.id → after ≡ some new → Lookup new id before after
  away : (new.id == id) ≡ false → after ≡ before → Lookup new id before after

pub with_program-Lookup :
    (new old : Program) (id : String) (rows : List Program)
    → find (Programs.has_id new.id) rows ≡ some old
    → Lookup new id
        (find (Programs.has_id id) rows)
        (find (Programs.has_id id) (replace (Programs.has_id new.id) new rows))
with_program-Lookup new old id rows found = elim (Bool-cases (new.id == id)) [
  | inl same ↦
      let is : new.id ≡ id = (eq_iff new.id id).0 same in
      at (sym is) (
        subst (λ x. find (Programs.has_id x) (replace (Programs.has_id new.id) new rows) ≡ some new)
          is (find-replace_self (Programs.has_id new.id) new rows old found (eq_refl new.id)))
  | inr other ↦ away other (
      find-replace_away (Programs.has_id new.id) (Programs.has_id id) new rows
        (λ row is. ground (arith, eq_iff row.id new.id, eq_iff row.id id, eq_iff new.id id)) other)
]
