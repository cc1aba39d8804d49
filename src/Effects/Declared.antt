-- ===== src/Effects/Declared.antt =====
-- What an event of the treasury writes to the row of its program, in figures.
use mathlib.Core.Path.{subst}
use program_capacity_invoice.Base.{
  String, false, true, ◌≡◌, refl, ◌∙◌, ap, Option, some, Date, arith,
}
use program_capacity_invoice.Base.Columns.{char_3}
use program_capacity_invoice.Base.Int.{ℤ, pos, ◌≤ℤ◌, ◌<ℤ◌}
use program_capacity_invoice.Base.Rows.{find, replace}
use program_capacity_invoice.Store.{ProgramStatus, Program, Db}
use program_capacity_invoice.Programs.Repository as Programs
use program_capacity_invoice.Programs.Updates.{Updates, untouched, written}
use program_capacity_invoice.Treasury.CapacityUpdate.{is_stale}

-- The row is of the program p, and has a limit, a reserved amount, a currency and a version, with the
-- status that they imply.
pub record Declares (p : Program) (limit reserved : ℤ) (currency : String) (version : ℤ)
    (q : Program) : Type 0 where
  pub id : q.id ≡ p.id
  pub external_ref : q.external_ref ≡ p.external_ref
  pub total : q.total_limit_minor ≡ limit
  pub reserved_amount : q.reserved_amount_minor ≡ reserved
  pub stored_currency : q.currency ≡ char_3 currency
  pub treasury_version : q.treasury_version ≡ some version
  pub within : reserved ≤ℤ limit → q.status ≡ ProgramStatus.active
  pub beyond : limit <ℤ reserved → q.status ≡ ProgramStatus.over_limit

-- The row of a program that an event creates.
pub record Starts (external_ref currency : String) (limit version : ℤ) (q : Program) : Type 0 where
  pub reference : q.external_ref ≡ external_ref
  pub total : q.total_limit_minor ≡ limit
  pub reserved : q.reserved_amount_minor ≡ pos 0
  pub status : q.status ≡ ProgramStatus.active
  pub stored_currency : q.currency ≡ char_3 currency
  pub treasury_version : q.treasury_version ≡ some version

pub created_from-Starts :
    (id : String) (now : Date) (input : Programs.CreateFromTreasuryInput)
    → Starts input.external_ref input.currency input.total_limit_minor input.treasury_version
        (Programs.created_from id now input)
created_from-Starts id now input = record {
  reference = refl;
  total = refl;
  reserved = refl;
  status = refl;
  stored_currency = refl;
  treasury_version = refl;
}

-- The event is newer than the program, if the program has had one.
abbrev pub IsNewer : ℤ → Program → Type 0
IsNewer version p = (current : ℤ) → p.treasury_version ≡ some current → current <ℤ version

pub fresh-IsNewer :
    (version : ℤ) (p : Program) → is_stale version p.treasury_version ≡ false → IsNewer version p
fresh-IsNewer version p fresh current has =
    let at : is_stale version (some current) ≡ false =
      subst (λ v. is_stale version v ≡ false) has fresh in
    ground arith

pub updated-Declares :
    (input : Programs.ApplyCapacityUpdateInput) (now : Date) (p : Program)
    → Declares p input.total_limit_minor p.reserved_amount_minor input.currency
        input.treasury_version
        (Programs.capacity_updated_by input now p)
updated-Declares input now p = record {
  id = refl;
  external_ref = refl;
  total = refl;
  reserved_amount = refl;
  stored_currency = refl;
  treasury_version = refl;
  within = λ h. ground arith;
  beyond = λ h. ground arith;
}

pub reconciled-Declares :
    (input : Programs.ApplyReconciliationInput) (now : Date) (p : Program)
    → Declares p input.total_limit_minor input.reserved_amount_minor input.currency
        input.treasury_version
        (Programs.reconciled_by input now p)
reconciled-Declares input now p = record {
  id = refl;
  external_ref = refl;
  total = refl;
  reserved_amount = refl;
  stored_currency = refl;
  treasury_version = refl;
  within = λ h. ground arith;
  beyond = λ h. ground arith;
}

-- An UPDATE of a row that is there replaces it.
pub Updates-row :
    (p : Program) (set : Program → Program) (db : Db) (row : Option Program) (after : Db)
    → ((x : Program) → (set x).id ≡ x.id)
    → find (Programs.has_id p.id) db.programs ≡ some p
    → Updates p.id (λ _. true) set db row after
    → after.programs ≡ replace (Programs.has_id p.id) (set p) db.programs
Updates-row p set db row after keeps here (untouched never _ _) = absurd (cc (never p here))
Updates-row p set db row after keeps here (written x found _ _ _ same) =
    let is : x ≡ p = cc (found, here) in
    ap (λ (d : Db). d.programs) same
    ∙ ap (λ y. replace (Programs.has_id (set y).id) (set y) db.programs) is
    ∙ ap (λ id. replace (Programs.has_id id) (set p) db.programs) (keeps p)

-- It leaves the reservations alone.
pub Updates-reservations :
    (id : String) (set : Program → Program) (db : Db) (row : Option Program) (after : Db)
    → Updates id (λ _. true) set db row after
    → after.invoice_reservations ≡ db.invoice_reservations
Updates-reservations id set db row after (untouched _ _ same) =
    ap (λ (d : Db). d.invoice_reservations) same
Updates-reservations id set db row after (written _ _ _ _ _ same) =
    ap (λ (d : Db). d.invoice_reservations) same
