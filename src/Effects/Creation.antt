-- ===== src/Effects/Creation.antt =====
-- What a request for a reservation does.
use mathlib.Core.Path.{subst, subst₂}
use program_capacity_invoice.Base.Columns.{as_uuid}
use program_capacity_invoice.Base.{
  eq_iff, String, true, ◌≡◌, refl, sym, ◌∙◌, ap, Option, none, some, [], ◌∷◌, ◌++◌, arith, inl, inr,
  Option-cases,
}
use program_capacity_invoice.Base.Int.{ℤ}
use program_capacity_invoice.Base.Rows.{find, find_passes}
use program_capacity_invoice.Errors.{ok}
use program_capacity_invoice.Store.{
  ProgramStatus, Program, Reservation, LedgerEntry, Db, Env, ◌>>=◌, >>=-eq-ok,
}
use program_capacity_invoice.Store.Inversion.{run-eq-ok}
use program_capacity_invoice.Fx.Money.{DecimalJs}
use program_capacity_invoice.Programs.Repository as Programs
use program_capacity_invoice.Programs.Updates.{
  Updates, untouched, written, update_where-Updates, with_program,
}
use program_capacity_invoice.Reservations.Repository as Reservations
use program_capacity_invoice.Reservations.Updates.{insert-Inserts}
use program_capacity_invoice.Audit as Ledger
use program_capacity_invoice.Reservations.Creation.{
  CreateReservationRequest, ReservationResponse, Quote, quote, reservation_input, creation_entry,
  creation_response, record_reservation, finish_reservation, reserve_quote,
  handle_reservation_conflict, require_active, require_new_invoice, price_and_reserve,
  run_reservation_transaction, create,
}
use program_capacity_invoice.Reservations.Service.{compute_available}
use program_capacity_invoice.System.Requests.{creation_response-Keeps, quote-Keeps}

module _ (dec : DecimalJs) (env : Env) (dto : CreateReservationRequest) where
  -- The reservation's row.
  abbrev pub new_reservation : Program → Quote dec → Db → Reservation
  new_reservation p q db =
      Reservations.inserted_from (env.gen_random_uuid db.uuids) (reservation_input dec dto p q)

  -- A database with the row and its ledger entry added.
  abbrev pub with_row : Program → Quote dec → Db → Db
  with_row p q db = record (Reservations.insert_row (new_reservation p q db) db) {
    capacity_ledger = db.capacity_ledger ++ creation_entry dec p q (new_reservation p q db) ∷ [];
  }

  -- The database after the reservation: the program, the row and the entry, and nothing else.
  abbrev pub after_creation : Program → Quote dec → Db → Db
  after_creation p q db =
      with_row p q (with_program (Programs.reserved_by q.reserved_amount_minor env.now p) db)

  abbrev with_entry : LedgerEntry → Db → Db
  with_entry entry db = record db { capacity_ledger = db.capacity_ledger ++ entry ∷ [] }

  -- What the client is told: the reservation's id and amount, and what is left of the limit.
  pub record Tells (p : Program) (q : Quote dec) (updated : Program) (id : String)
      (response : ReservationResponse) : Type 0 where
    pub reservation_id : response.reservation_id ≡ id
    pub program_id : response.program_id ≡ p.id
    pub reserved : response.reserved_amount_minor ≡ q.reserved_amount_minor
    pub available : response.available_amount_minor ≡ compute_available updated

  creation_response-Tells :
      (p : Program) (q : Quote dec) (updated : Program) (r : Reservation) (db : Db)
      (response : ReservationResponse) (after : Db)
      → creation_response dec dto p q updated r db ≡ ok (response, after)
      → Tells p q updated r.id response
  unfolding creation_response ◌>>=◌
  creation_response-Tells p q updated r db response after h = ground arith

  record_reservation_lem :
      (p : Program) (q : Quote dec) (updated : Program) (db : Db) (response : ReservationResponse)
      (after : Db)
      → record_reservation dec env dto p q updated db ≡ ok (response, after)
      → (after ≡ with_row p q db)
        × Tells p q updated (env.gen_random_uuid db.uuids) response
        × (find (Reservations.has_id (env.gen_random_uuid db.uuids)) db.invoice_reservations ≡ none)
        × (Reservations.admits (new_reservation p q db) ≡ true)
  unfolding record_reservation
  record_reservation_lem p q updated db response after h =
      let (r, mid, inserted, rest) = >>=-eq-ok _ _ db response after h in
      let made = insert-Inserts env (reservation_input dec dto p q) db r mid inserted in
      let (u, mid', logged, responded) = >>=-eq-ok _ _ mid response after rest in
      let same =
        (creation_response-Keeps {P = λ d. mid' ≡ d} dec dto p q updated r).at mid' response after
          responded refl in
      let state = Ledger.insert_lem _ mid u mid' logged in
      (
        sym same
            ∙ state
            ∙ ap (with_entry (creation_entry dec p q r)) made.state
            ∙ ap (λ x. with_entry (creation_entry dec p q x) (Reservations.insert_row x db))
                made.row,
        subst (λ id. Tells p q updated id response) (ap (λ (x : Reservation). x.id) made.row)
            (creation_response-Tells p q updated r mid' response after responded),
        made.new_id,
        made.fits,
      )

  -- A refused reservation never returns.
  conflict_never_returns :
      {A : Type 0} (id : String) (amount : ℤ) (db : Db) (a : A) (after : Db)
      → ¬ (handle_reservation_conflict id amount db ≡ ok (a, after))
  unfolding handle_reservation_conflict require_active ◌>>=◌ Programs.find_by_id
  conflict_never_returns id amount db a after h = ground arith

  abbrev reserving : Quote dec → Program → Program
  reserving q = Programs.reserved_by q.reserved_amount_minor env.now

  -- What a reservation that was granted has done to the program's row found at first.
  pub record Grants (p : Program) (q : Quote dec) (db : Db) (response : ReservationResponse)
      (after : Db) : Type 0 where
    pub affordable : Programs.can_reserve q.reserved_amount_minor p ≡ true
    pub state : after ≡ after_creation p q db
    pub told : Tells p q (reserving q p) (env.gen_random_uuid db.uuids) response
    pub new_id :
        find (Reservations.has_id (env.gen_random_uuid db.uuids)) db.invoice_reservations ≡ none
    pub fits : Reservations.admits (new_reservation p q db) ≡ true

  finish_reservation-Grants :
      (p : Program) (q : Quote dec) (db : Db) (response : ReservationResponse) (after : Db)
      → find (Programs.has_id p.id) db.programs ≡ some p
      → (r : Option Program) (mid : Db)
      → Updates p.id (Programs.can_reserve q.reserved_amount_minor) (reserving q) db r mid
      → finish_reservation dec env dto p q r mid ≡ ok (response, after)
      → Grants p q db response after
  unfolding finish_reservation
  finish_reservation-Grants p q db response after here none mid refused e =
      absurd (conflict_never_returns p.id q.reserved_amount_minor mid response after e)
  finish_reservation-Grants p q db response after here (some u) mid (untouched _ absent same) e =
      absurd (cc absent)
  finish_reservation-Grants p q db response after here (some u) mid
        (written p' found can _ row same) e =
      let old : p' ≡ p = cc (found, here) in
      let updated : u ≡ reserving q p' = cc row in
      let (state, tells, new_id, fits) = record_reservation_lem p q u mid response after e in
      record {
        affordable = subst (λ x. Programs.can_reserve q.reserved_amount_minor x ≡ true) old can;
        state = state ∙ ap (with_row p q) (same ∙ ap (λ x. with_program (reserving q x) db) old);
        told =
            subst₂ (λ x n. Tells p q x (env.gen_random_uuid n) response)
              (updated ∙ ap (reserving q) old) (ap (λ (d : Db). d.uuids) same) tells;
        new_id =
            subst
              (λ (d : Db).
                find (Reservations.has_id (env.gen_random_uuid d.uuids)) d.invoice_reservations
                ≡ none)
              same new_id;
        fits = subst (λ d. Reservations.admits (new_reservation p q d) ≡ true) same fits;
      }

  reserve_quote-Grants :
      (p : Program) (q : Quote dec) (db : Db) (response : ReservationResponse) (after : Db)
      → find (Programs.has_id p.id) db.programs ≡ some p
      → reserve_quote dec env dto p q db ≡ ok (response, after)
      → Grants p q db response after
  unfolding reserve_quote Programs.reserve_capacity
  reserve_quote-Grants p q db response after here h =
      let (r, mid, updated, rest) = >>=-eq-ok _ _ db response after h in
      finish_reservation-Grants p q db response after here r mid
        (update_where-Updates p.id (Programs.can_reserve q.reserved_amount_minor) (reserving q) db r
          mid updated)
        rest

  -- A reservation that was made: the program and the price that it was made at.
  pub record Reserves (db : Db) (response : ReservationResponse) (after : Db) : Type 0 where
    pub program : Program
    pub price : Quote dec
    pub found : find (Programs.has_id (as_uuid dto.program_id)) db.programs ≡ some program
    pub was_active : program.status ≡ ProgramStatus.active
    pub new_invoice :
        find (Reservations.has_invoice program.id dto.invoice_id) db.invoice_reservations ≡ none
    pub priced : quote dec env dto program db ≡ ok (price, db)
    pub granted : Grants program price db response after

  -- The row found by an id has it.
  pub find_again :
      (p : Program) (db : Db)
      → find (Programs.has_id (as_uuid dto.program_id)) db.programs ≡ some p
      → find (Programs.has_id p.id) db.programs ≡ some p
  find_again p db found =
      let same =
        (eq_iff p.id (as_uuid dto.program_id)).0
          (find_passes (Programs.has_id (as_uuid dto.program_id)) db.programs p found) in
      subst (λ id. find (Programs.has_id id) db.programs ≡ some p) (sym same) found

  price_and_reserve_lem :
      (p : Program) (db : Db) (response : ReservationResponse) (after : Db)
      → find (Programs.has_id p.id) db.programs ≡ some p
      → price_and_reserve dec env dto p db ≡ ok (response, after)
      → (q : Quote dec) × (quote dec env dto p db ≡ ok (q, db)) × Grants p q db response after
  unfolding price_and_reserve
  price_and_reserve_lem p db response after here h =
      let (q, mid, priced, rest) = >>=-eq-ok _ _ db response after h in
      let same : mid ≡ db =
        sym ((quote-Keeps {P = λ d. db ≡ d} dec env dto p).at db q mid priced refl) in
      (
        q,
        subst (λ d. quote dec env dto p db ≡ ok (q, d)) same priced,
        reserve_quote-Grants p q db response after here
            (subst (λ d. reserve_quote dec env dto p q d ≡ ok (response, after)) same rest),
      )

  -- The way to the price: the program, its status, and the invoice.
  checks_lem :
      (db : Db) (response : ReservationResponse) (after : Db)
      → run_reservation_transaction dec env dto db ≡ ok (response, after)
      → (p : Program) × (find (Programs.has_id (as_uuid dto.program_id)) db.programs ≡ some p)
        × (p.status ≡ ProgramStatus.active)
        × (find (Reservations.has_invoice p.id dto.invoice_id) db.invoice_reservations ≡ none)
        × (price_and_reserve dec env dto p db ≡ ok (response, after))
  unfolding run_reservation_transaction Programs.find_by_id_for_update require_active
      Reservations.find_by_program_and_invoice require_new_invoice ◌>>=◌
  checks_lem db response after h =
      elim (Option-cases (find (Programs.has_id (as_uuid dto.program_id)) db.programs)) [
        | inl absent ↦ absurd (ground arith)
        | inr (p, found) ↦
            elim (Option-cases
              (find (Reservations.has_invoice p.id dto.invoice_id) db.invoice_reservations)) [
                | inl free ↦ (p, found, ground arith, free, ground arith)
                | inr (r, taken) ↦ absurd (ground arith)
              ]
      ]

  -- A request that returns has found an ACTIVE program with room for the price and without this
  -- invoice, and has added exactly the price to its reserved amount, one ACTIVE reservation and one
  -- ledger entry; the answer gives the amount, the reservation's id and the capacity that is left.
  pub create-Reserves :
      (db : Db) (response : ReservationResponse) (after : Db)
      → create dec env dto db ≡ (ok response, after)
      → Reserves db response after
  unfolding create
  create-Reserves db response after h =
      let (p, found, active, free, rest) =
        checks_lem db response after
          (run-eq-ok (run_reservation_transaction dec env dto) db response after h) in
      let here = find_again p db found in
      let (q, priced, granted) = price_and_reserve_lem p db response after here rest in
      record {
        program = p;
        price = q;
        found = found;
        was_active = active;
        new_invoice = free;
        priced = priced;
        granted = granted;
      }
