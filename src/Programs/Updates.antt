-- ===== src/Programs/Updates.antt =====
-- What an UPDATE of one program has done, when it returns.
use program_capacity_invoice.Base.{
  String, Bool, true, false, ◌≡◌, sym, ap, ◌∙◌, inl, inr, Option, none, some, Bool-cases,
  Option-cases, arith,
}
use program_capacity_invoice.Base.Rows.{find, replace}
use program_capacity_invoice.Errors.{ok}
use program_capacity_invoice.Store.{Program, Db, Env, ◌>>=◌}
use program_capacity_invoice.Programs.Repository.{
  has_id, has_external_ref, admits, update_where, insert_row, created_from, CreateFromTreasuryInput,
  create_from_treasury,
}

-- The state after a new row has taken the place of the one with its id.
abbrev pub with_program : Program → Db → Db
with_program new db = record db { programs = replace (has_id new.id) new db.programs }

pub data Updates (id : String) (cond : Program → Bool) (set : Program → Program) (db : Db)
    (r : Option Program) (after : Db) : Type 0 where
  untouched :
      ((p : Program) → find (has_id id) db.programs ≡ some p → cond p ≡ false)
      → r ≡ none
      → after ≡ db
      → Updates id cond set db r after
  written :
      (p : Program)
      → find (has_id id) db.programs ≡ some p
      → cond p ≡ true
      → admits (set p) ≡ true
      → r ≡ some (set p)
      → after ≡ with_program (set p) db
      → Updates id cond set db r after

module _ (id : String) (cond : Program → Bool) (set : Program → Program) (db : Db) where
  pub update_where-Updates :
      (r : Option Program) (after : Db)
      → update_where id cond set db ≡ ok (r, after)
      → Updates id cond set db r after
  unfolding update_where ◌>>=◌
  update_where-Updates r after e = elim (Option-cases (find (has_id id) db.programs)) [
    | inl absent ↦ untouched (λ q found. absurd (cc (absent, found))) (ground arith) (ground arith)
    | inr (p, found) ↦ elim (Bool-cases (cond p)) [
      | inl holds ↦ elim (Bool-cases (admits (set p))) [
        | inl fits ↦ written p found holds fits (ground arith) (ground arith)
        | inr refused ↦ absurd (ground arith)
      ]
      | inr fails ↦
          untouched
            (λ q found'. let same : p ≡ q = cc (found, found') in ap cond (sym same) ∙ fails)
            (ground arith) (ground arith)
    ]
  ]

-- A program that was created: no program had its reference, and its row is the last.
pub record Creates (env : Env) (input : CreateFromTreasuryInput) (db : Db) (p : Program)
    (after : Db) : Type 0 where
  pub new_id : find (has_id (env.gen_random_uuid db.uuids)) db.programs ≡ none
  pub new_reference : find (has_external_ref input.external_ref) db.programs ≡ none
  pub row : p ≡ created_from (env.gen_random_uuid db.uuids) env.now input
  pub fits : admits (created_from (env.gen_random_uuid db.uuids) env.now input) ≡ true
  pub state : after ≡ insert_row p db

module _ (env : Env) (input : CreateFromTreasuryInput) (db : Db) where
  pub create_from_treasury-Creates :
      (p : Program) (after : Db)
      → create_from_treasury env input db ≡ ok (p, after)
      → Creates env input db p after
  unfolding create_from_treasury ◌>>=◌
  create_from_treasury-Creates p after e =
      elim (Option-cases (find (has_external_ref input.external_ref) db.programs)) [
        | inr (q, found) ↦ absurd (ground arith)
        | inl free ↦
            elim (Option-cases (find (has_id (env.gen_random_uuid db.uuids)) db.programs)) [
              | inr (q, found) ↦ absurd (ground arith)
              | inl new_id ↦
                  elim (Bool-cases
                    (admits (created_from (env.gen_random_uuid db.uuids) env.now input))) [
                      | inr refused ↦ absurd (ground arith)
                      | inl fits ↦ record {
                        new_id = new_id;
                        new_reference = free;
                        row = ground arith;
                        fits = fits;
                        state = ground arith;
                      }
                    ]
            ]
      ]
