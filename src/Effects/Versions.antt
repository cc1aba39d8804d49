-- ===== src/Effects/Versions.antt =====
-- The treasury's version of a program: which messages may set it.
use mathlib.Core.Path.{subst}
use program_capacity_invoice.Base.{
  String, eq_iff, eq_refl, true, false, ◌≡◌, refl, sym, ◌∙◌, Option, some, List, [], ◌∷◌, ◌++◌,
  arith,
}
use program_capacity_invoice.Base.Int.{ℤ, ◌≤ℤ◌}
use program_capacity_invoice.Base.Rows.{find, replace, find_passes, find-append_some}
use program_capacity_invoice.Base.Lookup.{find_unique}
use program_capacity_invoice.Store.{Program, Db}
use program_capacity_invoice.Programs.Repository as Programs
use program_capacity_invoice.Programs.Updates.{Updates, untouched, written}
use program_capacity_invoice.Programs.Uniqueness.{has_id_of, UniquePrograms}
use program_capacity_invoice.Programs.Lookup.{Lookup, at, away, with_program-Lookup}
use program_capacity_invoice.Treasury.CapacityUpdate.{is_stale}

-- The later row has a version that is at least that of the earlier.
pub record NotOlder (p q : Program) : Type 0 where
  pub version :
      (v : ℤ) → p.treasury_version ≡ some v → (w : ℤ) × (q.treasury_version ≡ some w) × (v ≤ℤ w)

-- Every program is still there, with a version that is at least what it was.
abbrev pub Advances : List Program → List Program → Type 0
Advances before after =
    (id : String) (p : Program)
    → find (Programs.has_id id) before ≡ some p
    → (q : Program) × (find (Programs.has_id id) after ≡ some q) × NotOlder p q

pub NotOlder-same : (p q : Program) → q.treasury_version ≡ p.treasury_version → NotOlder p q
NotOlder-same p q same = record { version = λ v is. (v, same ∙ is, ground arith) }

-- A version that is not stale is newer than the program's.
pub NotOlder-fresh :
    (p q : Program) (version : ℤ)
    → is_stale version p.treasury_version ≡ false
    → q.treasury_version ≡ some version
    → NotOlder p q
NotOlder-fresh p q version fresh is = record {
  version = λ v has.
      let newer : is_stale version (some v) ≡ false =
        subst (λ o. is_stale version o ≡ false) has fresh in
      (version, is, ground arith);
}

pub Advances-refl : (rows : List Program) → Advances rows rows
Advances-refl rows id p h = (p, h, NotOlder-same p p refl)

pub Advances-trans : (a b c : List Program) → Advances a b → Advances b c → Advances a c
Advances-trans a b c h k id p found =
    let (q, there, first) = h id p found in
    let (r, here, second) = k id q there in
    (
      r,
      here,
      record {
        version = λ v is.
            let (w, at_q, le) = first.version v is in
            let (x, at_r, le') = second.version w at_q in (x, at_r, ground arith);
      },
    )

pub Advances-append : (rows : List Program) (new : Program) → Advances rows (rows ++ new ∷ [])
Advances-append rows new id p h =
    (p, find-append_some (Programs.has_id id) rows new p h, NotOlder-same p p refl)

pub Advances-replace :
    (new old : Program) (rows : List Program)
    → find (Programs.has_id new.id) rows ≡ some old
    → NotOlder old new
    → Advances rows (replace (Programs.has_id new.id) new rows)
Advances-replace new old rows found newer id p h = by_id (with_program-Lookup new old id rows found)
  where
    by_id :
        {after : Option Program}
        → Lookup new id (find (Programs.has_id id) rows) after
        → (q : Program) × (after ≡ some q) × NotOlder p q
    by_id (away _ same) = (p, same ∙ h, NotOlder-same p p refl)
    by_id (at is here) =
        let there = subst (λ x. find (Programs.has_id x) rows ≡ some p) is h in
        let same : old ≡ p = cc (found, there) in
        (new, here, subst (λ x. NotOlder x new) same newer)

-- An UPDATE that gives its row a version that is not older.
pub Updates-Advances :
    (id : String) (set : Program → Program) (db : Db) (row : Option Program) (after : Db)
    → ((p : Program) → (set p).id ≡ p.id)
    → ((p : Program) → find (Programs.has_id id) db.programs ≡ some p → NotOlder p (set p))
    → Updates id (λ _. true) set db row after
    → Advances db.programs after.programs
Updates-Advances id set db row after keeps newer (untouched _ _ same) =
    subst (λ (d : Db). Advances db.programs d.programs) (sym same) (Advances-refl db.programs)
Updates-Advances id set db row after keeps newer (written p found _ _ _ same) =
    let key = keeps p ∙ (eq_iff p.id id).0 (find_passes (Programs.has_id id) db.programs p found) in
    subst (λ (d : Db). Advances db.programs d.programs) (sym same)
      (Advances-replace (set p) p db.programs
        (subst (λ x. find (Programs.has_id x) db.programs ≡ some p) (sym key) found)
        (newer p found))

-- The row that an external reference finds is the one that its id finds.
pub find_by_reference :
    (db : Db) (reference : String) (p : Program)
    → UniquePrograms db
    → find (Programs.has_external_ref reference) db.programs ≡ some p
    → find (Programs.has_id p.id) db.programs ≡ some p
find_by_reference db reference p unique found =
    find_unique has_id_of (Programs.has_external_ref reference) (Programs.has_id p.id) db.programs p
      (λ a b is. rw ((eq_iff a.id p.id).0 is) refl) unique found (eq_refl p.id)
