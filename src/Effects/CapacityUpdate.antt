-- ===== src/Effects/CapacityUpdate.antt =====
-- What a capacity update does: treasury/treasury-capacity-update.handler.ts.
use mathlib.Core.Path.{subst}
use program_capacity_invoice.Base.{
  Bool, true, false, ◌≡◌, refl, sym, ◌∙◌, ap, Option, none, some, [], ◌∷◌, ◌++◌, Date, arith, inl,
  inr, Bool-cases, if◌then◌else◌,
}
use program_capacity_invoice.Base.Int.{ℤ, ◌≤ℤ◌, eqb_ℤ}
use program_capacity_invoice.Base.Rows.{find}
use program_capacity_invoice.Errors.{ok, big_int}
use program_capacity_invoice.Store.{Program, Db, Env, pure, ◌>>=◌, ◌>>◌, >>=-eq-ok}
use program_capacity_invoice.Store.Inversion.{pure-eq-ok, gets-eq-ok, lift-eq-ok}
use program_capacity_invoice.Programs.Repository as Programs
use program_capacity_invoice.Programs.Updates.{
  Updates, update_where-Updates, create_from_treasury-Creates,
}
use program_capacity_invoice.Audit as Ledger
use program_capacity_invoice.Treasury.Events.{
  Platform, TreasuryCapacityUpdateEvent, TreasuryMessageMeta, TreasuryHandlerResultStatus, applied,
  stale,
}
use program_capacity_invoice.Treasury.Messages.{processed_row, seen_before}
use program_capacity_invoice.Treasury.CapacityUpdate.{
  is_stale, record_change, create_program, update_program, apply_event, process, handle,
}
use program_capacity_invoice.Effects.Recording.{
  SameBooks, ends-SameBooks, once_lem, is_stale-current,
}

module _ (platform : Platform) (env : Env) (event : TreasuryCapacityUpdateEvent) where
  -- The event's figures as the program's columns take them.
  abbrev pub update_input : ℤ → ℤ → ℤ → Date → Programs.ApplyCapacityUpdateInput
  update_input limit exponent version at = record {
    total_limit_minor = limit;
    currency = event.payload.currency;
    currency_exponent = exponent;
    treasury_version = version;
    occurred_at = at;
  }

  abbrev pub creation_input : ℤ → ℤ → ℤ → Date → Programs.CreateFromTreasuryInput
  creation_input limit exponent version at = record {
    external_ref = event.program_external_ref;
    currency = event.payload.currency;
    currency_exponent = exponent;
    total_limit_minor = limit;
    treasury_version = version;
    occurred_at = at;
  }

  create_program_lem :
      (version : ℤ) (at : Date) (db : Db) (u : Unit {0}) (after : Db)
      → create_program platform env event version at db ≡ ok (u, after)
      → (limit exponent : ℤ) × (p : Program) × (big_int event.payload.total_limit_minor ≡ ok limit)
        × (p
            ≡ Programs.created_from
                (env.gen_random_uuid db.uuids)
                env.now
                (creation_input limit exponent version at))
        × (after.programs ≡ db.programs ++ p ∷ [])
        × (after.invoice_reservations ≡ db.invoice_reservations)
  unfolding create_program
  create_program_lem version at db u after h =
      let (exponent, db1, h1, rest1) = >>=-eq-ok _ _ db u after h in
      let (limit, db2, h2, rest2) = >>=-eq-ok _ _ db1 u after rest1 in
      let (p, db3, h3, rest3) = >>=-eq-ok _ _ db2 u after rest2 in
      let (_, at1) = lift-eq-ok _ db exponent db1 h1 in
      let (is_limit, at2) = lift-eq-ok _ db1 limit db2 h2 in
      let made =
        create_from_treasury-Creates env (creation_input limit exponent version at) db p db3 (
          subst
            (λ d.
              Programs.create_from_treasury env (creation_input limit exponent version at) d
              ≡ ok (p, db3))
            (at2 ∙ at1) h3) in
      let at4 = Ledger.insert_lem _ db3 u after rest3 in
      (
        limit,
        exponent,
        p,
        is_limit,
        made.row,
        ap (λ (d : Db). d.programs) at4 ∙ ap (λ (d : Db). d.programs) made.state,
        ap (λ (d : Db). d.invoice_reservations) at4
            ∙ ap (λ (d : Db). d.invoice_reservations) made.state,
      )

  record_change_lem :
      (p : Program) (limit : ℤ) (row : Option Program) (db : Db) (u : Unit {0}) (after : Db)
      → record_change platform env event p limit row db ≡ ok (u, after)
      → (after.programs ≡ db.programs) × (after.invoice_reservations ≡ db.invoice_reservations)
  unfolding record_change Ledger.insert ◌>>=◌
  record_change_lem p limit row db u after h = elim (Bool-cases (eqb_ℤ limit p.total_limit_minor)) [
    | inl same ↦ ground arith
    | inr differs ↦ ground arith
  ]

  update_program_lem :
      (version : ℤ) (at : Date) (p : Program) (db : Db) (u : Unit {0}) (after : Db)
      → update_program platform env event version at p db ≡ ok (u, after)
      → (limit exponent : ℤ) × (row : Option Program) × (mid : Db) × (big_int
            event.payload.total_limit_minor
          ≡ ok limit)
        × Updates p.id
            (λ _. true)
            (Programs.capacity_updated_by (update_input limit exponent version at) env.now)
            db
            row
            mid
        × (after.programs ≡ mid.programs)
        × (after.invoice_reservations ≡ mid.invoice_reservations)
  unfolding update_program Programs.apply_capacity_update
  update_program_lem version at p db u after h =
      let (limit, db1, h1, rest1) = >>=-eq-ok _ _ db u after h in
      let (exponent, db2, h2, rest2) = >>=-eq-ok _ _ db1 u after rest1 in
      let (row, db3, h3, rest3) = >>=-eq-ok _ _ db2 u after rest2 in
      let (is_limit, at1) = lift-eq-ok _ db limit db1 h1 in
      let (_, at2) = lift-eq-ok _ db1 exponent db2 h2 in
      let set = Programs.capacity_updated_by (update_input limit exponent version at) env.now in
      let updated : Updates p.id (λ _. true) set db row db3 =
        subst (λ d. Updates p.id (λ _. true) set d row db3) (at2 ∙ at1)
          (update_where-Updates p.id (λ _. true) set db2 row db3 h3) in
      let (same_programs, same_reservations) = record_change_lem p limit row db3 u after rest3 in
      (limit, exponent, row, db3, is_limit, updated, same_programs, same_reservations)

  -- What a capacity update has done, by the result that it returns.
  pub data Outcome (meta : TreasuryMessageMeta) (db : Db) (status : TreasuryHandlerResultStatus)
      (after : Db) : Type 0 where
    seen :
        seen_before event.message_id meta db ≡ ok (some status, db)
        → after ≡ db
        → Outcome meta db status after
    outdated :
        (p : Program) (version current : ℤ)
        → find (Programs.has_external_ref event.program_external_ref) db.programs ≡ some p
        → big_int event.treasury_version ≡ ok version
        → p.treasury_version ≡ some current
        → version ≤ℤ current
        → status ≡ stale
        → SameBooks db after
        → Outcome meta db status after
    created :
        (limit exponent version : ℤ) (at : Date)
        → find (Programs.has_external_ref event.program_external_ref) db.programs ≡ none
        → big_int event.payload.total_limit_minor ≡ ok limit
        → big_int event.treasury_version ≡ ok version
        → status ≡ applied
        → after.programs
          ≡ db.programs
            ++ Programs.created_from
                (env.gen_random_uuid db.uuids)
                env.now
                (creation_input limit exponent version at)
              ∷ []
        → after.invoice_reservations ≡ db.invoice_reservations
        → Outcome meta db status after
    updated :
        (p : Program) (limit exponent version : ℤ) (at : Date) (row : Option Program) (mid : Db)
        → find (Programs.has_external_ref event.program_external_ref) db.programs ≡ some p
        → big_int event.payload.total_limit_minor ≡ ok limit
        → big_int event.treasury_version ≡ ok version
        → is_stale version p.treasury_version ≡ false
        → status ≡ applied
        → Updates p.id
            (λ _. true)
            (Programs.capacity_updated_by (update_input limit exponent version at) env.now)
            db
            row
            mid
        → after.programs ≡ mid.programs
        → after.invoice_reservations ≡ mid.invoice_reservations
        → Outcome meta db status after

  apply_event-Outcome :
      (meta : TreasuryMessageMeta) (version : ℤ) (at : Date) (found : Option Program) (db : Db)
      (status : TreasuryHandlerResultStatus) (mid : Db) (after : Db)
      → find (Programs.has_external_ref event.program_external_ref) db.programs ≡ found
      → big_int event.treasury_version ≡ ok version
      → apply_event platform env event version at found db ≡ ok (status, mid)
      → SameBooks mid after
      → Outcome meta db status after
  unfolding apply_event
  apply_event-Outcome meta version at none db status mid after found is_version h same =
      let (u, mid', created', rest) = >>=-eq-ok _ _ db status mid h in
      let (is, at_mid) = pure-eq-ok applied mid' status mid rest in
      let (limit, exponent, p, is_limit, row, programs, reservations) =
        create_program_lem version at db u mid' created' in
      created limit exponent version at found is_limit is_version (sym is)
        (same.programs
          ∙ ap (λ (d : Db). d.programs) at_mid
          ∙ programs
          ∙ ap (λ x. db.programs ++ x ∷ []) row)
        (same.reservations ∙ ap (λ (d : Db). d.invoice_reservations) at_mid ∙ reservations)
  apply_event-Outcome meta version at (some p) db status mid after found is_version h same =
      by_age (is_stale version p.treasury_version) refl h
    where
      by_age :
          (old : Bool)
          → is_stale version p.treasury_version ≡ old
          → (if old
                then pure stale
                else update_program platform env event version at p >> pure applied)
              db
            ≡ ok (status, mid)
          → Outcome meta db status after
      by_age true is_old h =
          let (current, has, older) = is_stale-current version p.treasury_version is_old in
          let (is, at_mid) = pure-eq-ok stale db status mid h in
          outdated p version current found is_version has older (sym is)
            (subst (λ d. SameBooks d after) at_mid same)
      by_age false is_new h =
          let (u, mid', done, rest) = >>=-eq-ok _ _ db status mid h in
          let (is, at_mid) = pure-eq-ok applied mid' status mid rest in
          let (limit, exponent, row, mid'', is_limit, updates, programs, reservations) =
            update_program_lem version at p db u mid' done in
          updated p limit exponent version at row mid'' found is_limit is_version is_new (sym is)
            updates (same.programs ∙ ap (λ (d : Db). d.programs) at_mid ∙ programs)
            (same.reservations ∙ ap (λ (d : Db). d.invoice_reservations) at_mid ∙ reservations)

  -- A capacity update that returns was seen before, and leaves the database as it was; or is not
  -- newer than its program, and leaves all but the record of messages; or creates a program that had
  -- no row with the event's limit and version; or is newer, and gives the program's row the event's
  -- limit, currency and version, with the status that they imply. No reservation changes.
  pub capacity_update-Outcome :
      (meta : TreasuryMessageMeta) (db : Db) (status : TreasuryHandlerResultStatus) (after : Db)
      → handle platform env event meta db ≡ ok (status, after)
      → Outcome meta db status after
  unfolding handle process Programs.find_by_external_ref_for_update
  capacity_update-Outcome meta db status after h =
      elim (once_lem event.message_id meta (process platform env event meta) db status after h) [
        | inl (found, same) ↦ seen found same
        | inr (new, work) ↦
            let (version, db1, h1, rest1) = >>=-eq-ok _ _ db status after work in
            let (at, db2, h2, rest2) = >>=-eq-ok _ _ db1 status after rest1 in
            let (found, db3, h3, rest3) = >>=-eq-ok _ _ db2 status after rest2 in
            let (result, mid, h4, rest4) = >>=-eq-ok _ _ db3 status after rest3 in
            let (is_version, at1) = lift-eq-ok _ db version db1 h1 in
            let (_, at2) = lift-eq-ok _ db1 at db2 h2 in
            let (is_found, at3) = gets-eq-ok _ db2 found db3 h3 in
            let (is, same) =
              ends-SameBooks
                (processed_row event.message_id "PROGRAM_CAPACITY_UPDATED"
                  event.program_external_ref meta)
                mid result status after rest4 in
            subst (λ x. Outcome meta db x after) (sym is)
              (apply_event-Outcome meta version at found db result mid after
                (sym (
                  is_found
                  ∙ ap
                      (λ (d : Db).
                        find (Programs.has_external_ref event.program_external_ref) d.programs)
                      (at2 ∙ at1)))
                is_version
                (subst (λ d. apply_event platform env event version at found d ≡ ok (result, mid))
                  (at3 ∙ at2 ∙ at1) h4)
                same)
      ]
