-- ===== src/Accounts/Held.antt =====
-- What a program's ACTIVE reservations add up to.
use program_capacity_invoice.Base.{
  ℕ, ◌≤◌, String, ◌==◌, ◌&&◌, Option, none, some, List, if◌then◌else◌,
}
use program_capacity_invoice.Base.Int.{pos_part}
use program_capacity_invoice.Base.Rows.{find}
use program_capacity_invoice.Store.{Program, Reservation, Db}
use program_capacity_invoice.Programs.Repository as Programs
use program_capacity_invoice.Treasury.Snapshot.{is_active}
use program_capacity_invoice.Accounts.Totals.{total}

-- The amount that a row holds of a program's capacity; amounts are positive.
abbrev pub held_by : String → Reservation → ℕ
held_by program_id r =
    if r.program_id == program_id && is_active r.status then pos_part r.reserved_amount_minor else 0

abbrev pub held : String → List Reservation → ℕ
held program_id = total (held_by program_id)

-- The reserved amount of a program, 0 where there is none.
abbrev pub reserved_of : Option Program → ℕ
reserved_of none = 0
reserved_of (some p) = pos_part p.reserved_amount_minor

-- The ACTIVE reservations of every program add up to at most its reserved amount, and there is none
-- of a program that does not exist.
abbrev pub CoveredPrograms : Db → Type 0
CoveredPrograms db =
    (id : String)
    → held id db.invoice_reservations ≤ reserved_of (find (Programs.has_id id) db.programs)
