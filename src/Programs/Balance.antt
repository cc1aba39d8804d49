-- ===== src/Programs/Balance.antt =====
-- programs/programs.service.ts: how the amounts of an availability fit together.
use program_capacity_invoice.Base.Columns.{as_uuid}
use program_capacity_invoice.Base.{
  String, ◌≡◌, ◌⊎◌, inl, inr, refl, sym, ◌∙◌, ap, some, arith, Option-cases,
}
use program_capacity_invoice.Base.Int.{ℤ, pos, ◌+ℤ◌, ◌-ℤ◌, ◌≤ℤ◌}
use program_capacity_invoice.Base.Rows.{find}
use program_capacity_invoice.Errors.{ok}
use program_capacity_invoice.Store.{Program, Db, ◌>>=◌, >>=-eq-ok}
use program_capacity_invoice.Store.Inversion.{lift-eq-ok, pure-eq-ok}
use program_capacity_invoice.Fx.Money.{big_int_to_safe_number}
use program_capacity_invoice.Programs.Repository.{find_by_id, has_id}
use program_capacity_invoice.Programs.Service.{
  ProgramAvailabilityResponse, available_amount, over_reserved_amount, availability_of,
  get_availability,
}
use program_capacity_invoice.Reservations.Service.{compute_available}

-- What is available and what is reserved beyond the limit account for the limit exactly.
pub record Balances (total reserved available over : ℤ) : Type 0 where
  pub account : total +ℤ over ≡ reserved +ℤ available
  pub available_nonneg : pos 0 ≤ℤ available
  pub over_nonneg : pos 0 ≤ℤ over
  pub exclusive : (available ≡ pos 0) ⊎ (over ≡ pos 0)

amounts-Balances :
    (p : Program)
    → Balances p.total_limit_minor p.reserved_amount_minor
        (available_amount p)
        (over_reserved_amount p)
unfolding available_amount over_reserved_amount ◌+ℤ◌ ◌-ℤ◌
amounts-Balances p = record {
  account = ground arith;
  available_nonneg = ground arith;
  over_nonneg = ground arith;
  exclusive = ground arith;
}

-- The service for reservations computes the same.
compute_available-available_amount : (p : Program) → compute_available p ≡ available_amount p
unfolding compute_available available_amount
compute_available-available_amount p = refl

-- An availability that is answered is that of the stored program.
pub record Describes (p : Program) (response : ProgramAvailabilityResponse) : Type 0 where
  pub id : response.program_id ≡ p.id
  pub status : response.status ≡ p.status
  pub total : response.total_limit_minor ≡ p.total_limit_minor
  pub reserved : response.reserved_amount_minor ≡ p.reserved_amount_minor
  pub available : response.available_amount_minor ≡ compute_available p
  pub balanced :
      Balances response.total_limit_minor response.reserved_amount_minor
        response.available_amount_minor response.over_reserved_amount_minor

safe-eq-ok : (n m : ℤ) → big_int_to_safe_number n ≡ ok m → m ≡ n
unfolding big_int_to_safe_number
safe-eq-ok n m h = ground arith

availability_of-Describes :
    (p : Program) (db : Db) (response : ProgramAvailabilityResponse) (after : Db)
    → availability_of p db ≡ ok (response, after)
    → Describes p response × (after ≡ db)
unfolding availability_of
availability_of-Describes p db response after h =
    let (total, db1, h1, rest1) = >>=-eq-ok _ _ db response after h in
    let (reserved, db2, h2, rest2) = >>=-eq-ok _ _ db1 response after rest1 in
    let (available, db3, h3, rest3) = >>=-eq-ok _ _ db2 response after rest2 in
    let (over, db4, h4, rest4) = >>=-eq-ok _ _ db3 response after rest3 in
    let (version, db5, h5, rest5) = >>=-eq-ok _ _ db4 response after rest4 in
    let (e1, at1) = lift-eq-ok _ db total db1 h1 in
    let (e2, at2) = lift-eq-ok _ db1 reserved db2 h2 in
    let (e3, at3) = lift-eq-ok _ db2 available db3 h3 in
    let (e4, at4) = lift-eq-ok _ db3 over db4 h4 in
    let (e5, at5) = lift-eq-ok _ db4 version db5 h5 in
    let (is, at6) = pure-eq-ok _ db5 response after rest5 in
    let has_total =
      ap (λ (r : ProgramAvailabilityResponse). r.total_limit_minor) (sym is)
      ∙ safe-eq-ok _ total e1 in
    let has_reserved =
      ap (λ (r : ProgramAvailabilityResponse). r.reserved_amount_minor) (sym is)
      ∙ safe-eq-ok _ reserved e2 in
    let has_available =
      ap (λ (r : ProgramAvailabilityResponse). r.available_amount_minor) (sym is)
      ∙ safe-eq-ok _ available e3 in
    let has_over =
      ap (λ (r : ProgramAvailabilityResponse). r.over_reserved_amount_minor) (sym is)
      ∙ safe-eq-ok _ over e4 in
    (
      record {
        id = ap (λ (r : ProgramAvailabilityResponse). r.program_id) (sym is);
        status = ap (λ (r : ProgramAvailabilityResponse). r.status) (sym is);
        total = has_total;
        reserved = has_reserved;
        available = has_available ∙ sym (compute_available-available_amount p);
        balanced = rw (has_total, has_reserved, has_available, has_over) (amounts-Balances p);
      },
      at6 ∙ at5 ∙ at4 ∙ at3 ∙ at2 ∙ at1,
    )

-- An availability that is answered is that of the stored program, and nothing is written: the limit
-- and the amount beyond it equal the reserved amount and what is available, of which at least one
-- is 0 and none negative; it is the amount that the reservations' service computes.
pub get_availability-Describes :
    (id : String) (db : Db) (response : ProgramAvailabilityResponse) (after : Db)
    → get_availability id db ≡ ok (response, after)
    → (p : Program) × (find (has_id (as_uuid id)) db.programs ≡ some p)
      × Describes p response
      × (after ≡ db)
unfolding get_availability find_by_id ◌>>=◌
get_availability-Describes id db response after h =
    elim (Option-cases (find (has_id (as_uuid id)) db.programs)) [
      | inl absent ↦ absurd (ground arith)
      | inr (p, found) ↦
          let (described, same) = availability_of-Describes p db response after (ground arith) in
          (p, found, described, same)
    ]
