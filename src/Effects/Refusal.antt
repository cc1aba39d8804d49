-- ===== src/Effects/Refusal.antt =====
-- Why a request for a reservation is refused: reservations/reservations.service.ts, `create`.
use mathlib.Core.Path.{subst}
use program_capacity_invoice.Base.Columns.{as_uuid}
use program_capacity_invoice.Base.{
  true, false, ◌≡◌, refl, sym, ◌⊎◌, none, some, [], ◌∷◌, words, minor, arith, inl, inr,
  Option-cases, Bool-cases,
}
use program_capacity_invoice.Base.Int.{ℤ, ◌-ℤ◌, ◌<ℤ◌}
use program_capacity_invoice.Base.Rows.{find}
use program_capacity_invoice.Errors.{
  Exception, ok, fail, app, app_error, plain_error, program_not_found, insufficient_capacity,
}
use program_capacity_invoice.Store.{Program, Reservation, Db, Env, ◌>>=◌, >>=-eq-fail}
use program_capacity_invoice.Fx.Money.{DecimalJs}
use program_capacity_invoice.Programs.Repository as Programs
use program_capacity_invoice.Reservations.Repository as Reservations
use program_capacity_invoice.Reservations.Creation.{
  CreateReservationRequest, ReservationResponse, Quote, quote, not_active_code, taken_code,
  finish_reservation, reserve_quote, handle_reservation_conflict, require_active,
  require_new_invoice, price_and_reserve, run_reservation_transaction, create,
}
use program_capacity_invoice.Reservations.Service.{compute_available}
use program_capacity_invoice.Effects.Creation.{find_again}
use program_capacity_invoice.Store.Inversion.{run-eq-fail}
use program_capacity_invoice.Effects.Unstored.{safe-cases, IsUnstored, reserve_fails}
use program_capacity_invoice.System.Requests.{quote-Keeps}

-- The client's error for a program without room: how much it has left and how much was asked.
abbrev pub no_capacity : Program → ℤ → Exception
no_capacity p requested = app (
    app_error insufficient_capacity
      "Program does not have enough available capacity for this reservation."
      (some (
        ("programId", words p.id)
        ∷ ("availableAmountMinor", minor (compute_available p))
        ∷ ("requestedAmountMinor", minor requested)
        ∷ ("currency", words p.currency)
        ∷ [])))

module _ (dec : DecimalJs) (env : Env) (dto : CreateReservationRequest) where
  -- The code of a refused request, by what it finds in the database.
  pub data Refusal (db : Db) (e : Exception) : Type 0 where
    unknown_program :
        find (Programs.has_id (as_uuid dto.program_id)) db.programs ≡ none
        → e
          ≡ app (
              app_error program_not_found "Program not found."
                (some (("programId", words dto.program_id) ∷ [])))
        → Refusal db e
    not_active :
        (p : Program)
        → find (Programs.has_id (as_uuid dto.program_id)) db.programs ≡ some p
        → Programs.is_active p.status ≡ false
        → e
          ≡ app (
              app_error
                (not_active_code p.status)
                "Program not active."
                (some (("programId", words dto.program_id) ∷ [])))
        → Refusal db e
    invoice_taken :
        (p : Program) (r : Reservation)
        → find (Programs.has_id (as_uuid dto.program_id)) db.programs ≡ some p
        → find (Reservations.has_invoice p.id dto.invoice_id) db.invoice_reservations ≡ some r
        → e
          ≡ app (
              app_error
                (taken_code r.status)
                "This invoice already has a reservation on this program."
                (some
                  (("invoiceId", words dto.invoice_id) ∷ ("programId", words dto.program_id) ∷ [])))
        → Refusal db e
    not_priced :
        (p : Program)
        → find (Programs.has_id (as_uuid dto.program_id)) db.programs ≡ some p
        → quote dec env dto p db ≡ fail e
        → Refusal db e
    no_room :
        (p : Program) (q : Quote dec)
        → find (Programs.has_id (as_uuid dto.program_id)) db.programs ≡ some p
        → quote dec env dto p db ≡ ok (q, db)
        → p.total_limit_minor -ℤ p.reserved_amount_minor <ℤ q.reserved_amount_minor
        → (e ≡ no_capacity p q.reserved_amount_minor) ⊎ (e ≡ plain_error)
        → Refusal db e
    not_stored :
        (p : Program) (q : Quote dec)
        → find (Programs.has_id (as_uuid dto.program_id)) db.programs ≡ some p
        → quote dec env dto p db ≡ ok (q, db)
        → Programs.can_reserve q.reserved_amount_minor p ≡ true
        → IsUnstored e
        → Refusal db e

  conflict_lem :
      (p : Program) (amount : ℤ) (db : Db) (e : Exception)
      → find (Programs.has_id p.id) db.programs ≡ some p
      → Programs.is_active p.status ≡ true
      → handle_reservation_conflict {A = ReservationResponse} p.id amount db ≡ fail e
      → (e ≡ no_capacity p amount) ⊎ (e ≡ plain_error)
  unfolding handle_reservation_conflict require_active ◌>>=◌ Programs.find_by_id
  conflict_lem p amount db e found active h = elim (safe-cases (compute_available p)) [
    | inr unsafe ↦ inr (ground arith)
    | inl safe ↦ elim (safe-cases amount) [
      | inr unsafe ↦ inr (ground arith)
      | inl safe' ↦ inl (ground arith)
    ]
  ]

  refused_update :
      (p : Program) (amount : ℤ) (db : Db)
      → find (Programs.has_id p.id) db.programs ≡ some p
      → Programs.can_reserve amount p ≡ false
      → Programs.reserve_capacity env p.id amount db ≡ ok (none, db)
  unfolding Programs.reserve_capacity Programs.update_where ◌>>=◌
  refused_update p amount db here cannot = ground arith

  reserve_quote-Refusal :
      (p : Program) (q : Quote dec) (db : Db) (e : Exception)
      → find (Programs.has_id (as_uuid dto.program_id)) db.programs ≡ some p
      → Programs.is_active p.status ≡ true
      → find (Reservations.has_invoice p.id dto.invoice_id) db.invoice_reservations ≡ none
      → quote dec env dto p db ≡ ok (q, db)
      → reserve_quote dec env dto p q db ≡ fail e
      → Refusal db e
  unfolding reserve_quote finish_reservation ◌>>=◌
  reserve_quote-Refusal p q db e found active free priced h =
      let here = find_again dec env dto p db found in
      elim (Bool-cases (Programs.can_reserve q.reserved_amount_minor p)) [
        | inl can ↦
            not_stored p q found priced can (reserve_fails dec env dto p q db e free here can h)
        | inr cannot ↦
            let refused = refused_update p q.reserved_amount_minor db here cannot in
            no_room p q found priced (ground arith)
              (conflict_lem p q.reserved_amount_minor db e here active (ground arith))
      ]

  price_and_reserve-Refusal :
      (p : Program) (db : Db) (e : Exception)
      → find (Programs.has_id (as_uuid dto.program_id)) db.programs ≡ some p
      → Programs.is_active p.status ≡ true
      → find (Reservations.has_invoice p.id dto.invoice_id) db.invoice_reservations ≡ none
      → price_and_reserve dec env dto p db ≡ fail e
      → Refusal db e
  unfolding price_and_reserve
  price_and_reserve-Refusal p db e found active free h = elim (>>=-eq-fail _ _ db e h) [
    | inl unpriced ↦ not_priced p found unpriced
    | inr (q, mid, priced, rest) ↦
        let same : mid ≡ db =
          sym ((quote-Keeps {P = λ d. db ≡ d} dec env dto p).at db q mid priced refl) in
        reserve_quote-Refusal p q db e found active free
          (subst (λ d. quote dec env dto p db ≡ ok (q, d)) same priced)
          (subst (λ d. reserve_quote dec env dto p q d ≡ fail e) same rest)
  ]

  checked-Refusal :
      (db : Db) (e : Exception) → run_reservation_transaction dec env dto db ≡ fail e → Refusal db e
  unfolding run_reservation_transaction Programs.find_by_id_for_update require_active
      Reservations.find_by_program_and_invoice require_new_invoice ◌>>=◌
  checked-Refusal db e h =
      elim (Option-cases (find (Programs.has_id (as_uuid dto.program_id)) db.programs)) [
        | inl absent ↦ unknown_program absent (ground arith)
        | inr (p, found) ↦ elim (Bool-cases (Programs.is_active p.status)) [
          | inr inactive ↦ not_active p found inactive (ground arith)
          | inl active ↦
              elim (Option-cases
                (find (Reservations.has_invoice p.id dto.invoice_id) db.invoice_reservations)) [
                  | inr (r, taken) ↦ invoice_taken p r found taken (ground arith)
                  | inl free ↦ price_and_reserve-Refusal p db e found active free (ground arith)
                ]
        ]
      ]

  -- A request that fails leaves the database as it was, and fails for one of these reasons: the
  -- program is unknown, is not ACTIVE, or has the invoice already; the price cannot be found; less
  -- than the price is left of the limit; or the program could pay the price, but the
  -- table refuses the new row or the answer does not fit.
  pub create-Refusal :
      (db : Db) (e : Exception) (after : Db)
      → create dec env dto db ≡ (fail e, after)
      → (after ≡ db) × Refusal db e
  unfolding create
  create-Refusal db e after h =
      let (same, failed) = run-eq-fail (run_reservation_transaction dec env dto) db e after h in
      (same, checked-Refusal db e failed)
