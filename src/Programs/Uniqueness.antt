-- ===== src/Programs/Uniqueness.antt =====
-- The primary key of `programs`, and the unique index on its external reference.
use program_capacity_invoice.Base.{
  String, ◌==◌, eq_iff, Bool, false, ◌≡◌, sym, ◌∙◌, ap, none, some, arith,
}
use mathlib.Core.Path.{subst}
use program_capacity_invoice.Base.Rows.{find, find_passes}
use program_capacity_invoice.Base.Unique.{AreUnique, AreUnique-append_one, AreUnique-replace}
use program_capacity_invoice.Store.{Program, Db, Env}
use program_capacity_invoice.Store.Keeps.{Keeps}
use program_capacity_invoice.Programs.Repository.{
  has_id, has_external_ref, CreateFromTreasuryInput, create_from_treasury, update_where,
}
use program_capacity_invoice.Programs.Updates.{
  Creates, create_from_treasury-Creates, untouched, written, update_where-Updates,
}

abbrev pub has_id_of : Program → Program → Bool
has_id_of a = has_id a.id

abbrev pub has_reference_of : Program → Program → Bool
has_reference_of a = has_external_ref a.external_ref

abbrev pub UniquePrograms : Db → Type 0
UniquePrograms db = AreUnique has_id_of db.programs

abbrev pub UniqueReferences : Db → Type 0
UniqueReferences db = AreUnique has_reference_of db.programs

-- What no UPDATE of the table changes.
pub record SameProgram (a b : Program) : Type 0 where
  pub id : a.id ≡ b.id
  pub external_ref : a.external_ref ≡ b.external_ref

has_id_sym : (a b : Program) → has_id_of a b ≡ false → has_id_of b a ≡ false
has_id_sym a b h = ground (arith, eq_iff a.id b.id, eq_iff b.id a.id)

has_reference_sym : (a b : Program) → has_reference_of a b ≡ false → has_reference_of b a ≡ false
has_reference_sym a b h =
    ground (arith, eq_iff a.external_ref b.external_ref, eq_iff b.external_ref a.external_ref)

module _ (has_key : Program → Program → Bool) where
  create_unique :
      ((a b : Program) → has_key a b ≡ false → has_key b a ≡ false)
      → (env : Env) (input : CreateFromTreasuryInput)
      → ((db : Db) (p : Program) (after : Db)
          → Creates env input db p after
          → find (has_key p) db.programs ≡ none)
      → Keeps (λ db. AreUnique has_key db.programs) (create_from_treasury env input)
  create_unique symmetric env input free = record {
    at = λ db p after e h.
        let made = create_from_treasury-Creates env input db p after e in
        subst (λ d. AreUnique has_key d.programs) (sym made.state)
          (AreUnique-append_one has_key symmetric db.programs p (free db p after made) h);
  }

  update_unique :
      (id : String) (cond : Program → Bool) (set : Program → Program)
      → ((p row : Program)
          → ((set p).id ≡ p.id)
            × ((has_key row (set p) ≡ has_key row p) × (has_key (set p) row ≡ has_key p row)))
      → Keeps (λ db. AreUnique has_key db.programs) (update_where id cond set)
  update_unique id cond set same = record {
    at = λ db r after e h. elim (update_where-Updates id cond set db r after e) [
      | untouched _ _ at ↦ subst (λ d. AreUnique has_key d.programs) (sym at) h
      | written p found _ _ _ at ↦
          subst (λ d. AreUnique has_key d.programs) (sym at)
            (AreUnique-replace has_key (has_id (set p).id) (set p) db.programs
              (λ old row here.
                let key : (set p).id ≡ id =
                  (same p p).0 ∙ (eq_iff p.id id).0 (find_passes (has_id id) db.programs p found) in
                let there = subst (λ x. find (has_id x) db.programs ≡ some old) key here in
                let at_old : old ≡ p = cc (there, found) in rw at_old (same p row).1)
              h)
    ];
  }

pub create-UniquePrograms :
    (env : Env) (input : CreateFromTreasuryInput)
    → Keeps UniquePrograms (create_from_treasury env input)
create-UniquePrograms env input =
    create_unique has_id_of has_id_sym env input (λ db p after made. rw made.row made.new_id)

pub create-UniqueReferences :
    (env : Env) (input : CreateFromTreasuryInput)
    → Keeps UniqueReferences (create_from_treasury env input)
create-UniqueReferences env input =
    create_unique has_reference_of has_reference_sym env input
      (λ db p after made. rw made.row made.new_reference)

pub update-UniquePrograms :
    (id : String) (cond : Program → Bool) (set : Program → Program)
    → ((p : Program) → SameProgram (set p) p)
    → Keeps UniquePrograms (update_where id cond set)
update-UniquePrograms id cond set same =
    update_unique has_id_of id cond set (λ p row.
      ((same p).id, (ap (λ x. x == row.id) (same p).id, ap (λ x. row.id == x) (same p).id)))

pub update-UniqueReferences :
    (id : String) (cond : Program → Bool) (set : Program → Program)
    → ((p : Program) → SameProgram (set p) p)
    → Keeps UniqueReferences (update_where id cond set)
update-UniqueReferences id cond set same = update_unique has_reference_of id cond set (λ p row. (
  (same p).id,
  (
    ap (λ x. x == row.external_ref) (same p).external_ref,
    ap (λ x. row.external_ref == x) (same p).external_ref,
  ),
))
