-- ===== src/Programs/Consistency.antt =====
-- The status of a program agrees with its amounts: every statement on the table keeps that.
use program_capacity_invoice.Base.{String, Bool, true, ◌≡◌, sym, arith}
use mathlib.Core.Path.{subst}
use program_capacity_invoice.Base.Int.{ℤ, pos, ◌≤ℤ◌, ◌<ℤ◌, +ℤ_parts, -ℤ_parts}
use program_capacity_invoice.Base.Rows.{All, All-replace, All-append_one}
use program_capacity_invoice.Store.{ProgramStatus, Program, Db, Env}
use program_capacity_invoice.Store.Keeps.{Keeps}
use program_capacity_invoice.Programs.Repository.{
  has_id, admits, can_reserve, reserved_by, released_by, capacity_updated_by, reconciled_by,
  created_from, update_where, reserve_capacity, release_capacity, apply_capacity_update,
  apply_reconciliation, create_from_treasury, ApplyCapacityUpdateInput, ApplyReconciliationInput,
  CreateFromTreasuryInput,
}
use program_capacity_invoice.Programs.Updates.{
  untouched, written, update_where-Updates, create_from_treasury-Creates,
}

-- No amount is negative; an ACTIVE program is within its limit, an OVER_LIMIT one is beyond it.
pub record IsConsistent (p : Program) : Type 0 where
  pub total_nonneg : pos 0 ≤ℤ p.total_limit_minor
  pub reserved_nonneg : pos 0 ≤ℤ p.reserved_amount_minor
  pub within_limit :
      p.status ≡ ProgramStatus.active → p.reserved_amount_minor ≤ℤ p.total_limit_minor
  pub beyond_limit :
      p.status ≡ ProgramStatus.over_limit → p.total_limit_minor <ℤ p.reserved_amount_minor

abbrev pub ConsistentPrograms : Db → Type 0
ConsistentPrograms db = All IsConsistent db.programs

module _ (env : Env) (p : Program) where
  reserved_by-IsConsistent :
      (amount : ℤ)
      → can_reserve amount p ≡ true
      → admits (reserved_by amount env.now p) ≡ true
      → IsConsistent (reserved_by amount env.now p)
  reserved_by-IsConsistent amount can fits = record {
    total_nonneg = ground arith;
    reserved_nonneg = ground arith;
    within_limit = λ _. ground (
      arith,
      +ℤ_parts p.reserved_amount_minor amount,
      -ℤ_parts p.total_limit_minor p.reserved_amount_minor,
    );
    beyond_limit = λ e. absurd (ground arith);
  }

  released_by-IsConsistent :
      (amount : ℤ)
      → admits (released_by amount env.now p) ≡ true
      → IsConsistent (released_by amount env.now p)
  released_by-IsConsistent amount fits = ground arith

  capacity_updated_by-IsConsistent :
      (input : ApplyCapacityUpdateInput)
      → admits (capacity_updated_by input env.now p) ≡ true
      → IsConsistent (capacity_updated_by input env.now p)
  capacity_updated_by-IsConsistent input fits = ground arith

  reconciled_by-IsConsistent :
      (input : ApplyReconciliationInput)
      → admits (reconciled_by input env.now p) ≡ true
      → IsConsistent (reconciled_by input env.now p)
  reconciled_by-IsConsistent input fits = ground arith

created_from-IsConsistent :
    (env : Env) (id : String) (input : CreateFromTreasuryInput)
    → admits (created_from id env.now input) ≡ true
    → IsConsistent (created_from id env.now input)
created_from-IsConsistent env id input fits = ground arith

update_where-Keeps :
    (id : String) (cond : Program → Bool) (set : Program → Program)
    → ((p : Program) → cond p ≡ true → admits (set p) ≡ true → IsConsistent (set p))
    → Keeps ConsistentPrograms (update_where id cond set)
update_where-Keeps id cond set sound = record {
  at = λ db r after e h. elim (update_where-Updates id cond set db r after e) [
    | untouched _ _ same ↦ subst ConsistentPrograms (sym same) h
    | written p _ holds fits _ same ↦
        subst ConsistentPrograms (sym same)
          (All-replace IsConsistent (has_id (set p).id) (set p) db.programs h (sound p holds fits))
  ];
}

module _ (env : Env) (id : String) where
  pub reserve_capacity-Keeps :
      (amount : ℤ) → Keeps ConsistentPrograms (reserve_capacity env id amount)
  unfolding reserve_capacity
  reserve_capacity-Keeps amount =
      update_where-Keeps id (can_reserve amount) (reserved_by amount env.now)
        (λ p. reserved_by-IsConsistent env p amount)

  pub release_capacity-Keeps :
      (amount : ℤ) → Keeps ConsistentPrograms (release_capacity env id amount)
  unfolding release_capacity
  release_capacity-Keeps amount =
      update_where-Keeps id (λ _. true) (released_by amount env.now)
        (λ p _. released_by-IsConsistent env p amount)

  pub apply_capacity_update-Keeps :
      (input : ApplyCapacityUpdateInput)
      → Keeps ConsistentPrograms (apply_capacity_update env id input)
  unfolding apply_capacity_update
  apply_capacity_update-Keeps input =
      update_where-Keeps id (λ _. true) (capacity_updated_by input env.now)
        (λ p _. capacity_updated_by-IsConsistent env p input)

  pub apply_reconciliation-Keeps :
      (input : ApplyReconciliationInput)
      → Keeps ConsistentPrograms (apply_reconciliation env id input)
  unfolding apply_reconciliation
  apply_reconciliation-Keeps input =
      update_where-Keeps id (λ _. true) (reconciled_by input env.now)
        (λ p _. reconciled_by-IsConsistent env p input)

pub create_from_treasury-Keeps :
    (env : Env) (input : CreateFromTreasuryInput)
    → Keeps ConsistentPrograms (create_from_treasury env input)
create_from_treasury-Keeps env input = record {
  at = λ db p after e h.
      let made = create_from_treasury-Creates env input db p after e in
      subst ConsistentPrograms (sym made.state) (
        All-append_one IsConsistent db.programs p h (
          subst IsConsistent (sym made.row)
            (created_from-IsConsistent env (env.gen_random_uuid db.uuids) input made.fits)));
}
