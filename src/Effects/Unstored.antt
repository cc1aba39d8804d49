-- ===== src/Effects/Unstored.antt =====
-- Why a request for a reservation that the program could pay fails: reservations/reservations.service.ts.
use program_capacity_invoice.Base.{
  true, ◌≡◌, refl, ◌⊎◌, ◌||◌, Option, none, some, [], ◌∷◌, arith, inl, inr, Option-cases,
  Bool-cases,
}
use program_capacity_invoice.Base.Int.{ℤ, ltb_ℤ}
use program_capacity_invoice.Base.Rows.{find}
use program_capacity_invoice.Errors.{Exception, prisma_known, ok, fail, plain_error}
use program_capacity_invoice.Store.{Program, Reservation, Db, Env, modify, ◌>>=◌, >>=-eq-fail}
use program_capacity_invoice.Fx.Money.{
  DecimalJs, big_int_to_safe_number, max_safe_integer, min_safe_integer,
}
use program_capacity_invoice.Programs.Repository as Programs
use program_capacity_invoice.Programs.Updates.{untouched, written, update_where-Updates}
use program_capacity_invoice.Reservations.Repository as Reservations
use program_capacity_invoice.Audit as Ledger
use program_capacity_invoice.Reservations.Creation.{
  CreateReservationRequest, Quote, creation_response, reservation_input, record_reservation,
  finish_reservation, reserve_quote,
}
use program_capacity_invoice.Reservations.Service.{compute_available}

-- An amount that is a safe number is itself; for another there is an exception.
pub safe-cases :
    (n : ℤ) → (big_int_to_safe_number n ≡ ok n) ⊎ (big_int_to_safe_number n ≡ fail plain_error)
unfolding big_int_to_safe_number
safe-cases n = elim (Bool-cases (ltb_ℤ max_safe_integer n || ltb_ℤ n min_safe_integer)) [
  | inl out ↦ inr (rw out refl)
  | inr in_range ↦ inl (rw in_range refl)
]

modify_returns : (f : Db → Db) (db : Db) (e : Exception) → ¬ (modify f db ≡ fail e)
unfolding ◌>>=◌
modify_returns f db e h = cc h

-- The database refuses a row, or an amount of the answer is not a safe number.
abbrev pub IsUnstored : Exception → Type 0
IsUnstored e = (e ≡ plain_error) ⊎ (e ≡ prisma_known "P2002" (some ("id" ∷ [])))

module _ (dec : DecimalJs) (env : Env) (dto : CreateReservationRequest) where
  response_fails :
      (p : Program) (q : Quote dec) (updated : Program) (r : Reservation) (db : Db) (e : Exception)
      → creation_response dec dto p q updated r db ≡ fail e
      → e ≡ plain_error
  unfolding creation_response ◌>>=◌
  response_fails p q updated r db e h = elim (safe-cases q.invoice_amount_minor) [
    | inr unsafe ↦ ground arith
    | inl safe ↦ elim (safe-cases q.reserved_amount_minor) [
      | inr unsafe ↦ ground arith
      | inl safe' ↦ elim (safe-cases (compute_available updated)) [
        | inr unsafe ↦ ground arith
        | inl safe'' ↦ ground arith
      ]
    ]
  ]

  insert_fails :
      (input : Reservations.InsertReservationInput) (db : Db) (e : Exception)
      → find (Reservations.has_invoice input.program_id input.invoice_id) db.invoice_reservations
        ≡ none
      → Reservations.insert env input db ≡ fail e
      → IsUnstored e
  unfolding Reservations.insert Reservations.find_by_program_and_invoice Reservations.find_by_id
      ◌>>=◌
  insert_fails input db e free h =
      elim (Option-cases
        (find (Reservations.has_id (env.gen_random_uuid db.uuids)) db.invoice_reservations)) [
          | inl new_id ↦ inl (ground arith)
          | inr (r, taken) ↦
              elim (Bool-cases (
                Reservations.admits
                  (Reservations.inserted_from (env.gen_random_uuid db.uuids) input))) [
                    | inl fits ↦ inr (ground arith)
                    | inr refused ↦ inl (ground arith)
                  ]
        ]

  record_fails :
      (p : Program) (q : Quote dec) (updated : Program) (db : Db) (e : Exception)
      → find (Reservations.has_invoice p.id dto.invoice_id) db.invoice_reservations ≡ none
      → record_reservation dec env dto p q updated db ≡ fail e
      → IsUnstored e
  unfolding record_reservation
  record_fails p q updated db e free h = elim (>>=-eq-fail _ _ db e h) [
    | inl refused ↦ insert_fails (reservation_input dec dto p q) db e free refused
    | inr (r, mid, _, rest) ↦ elim (>>=-eq-fail _ _ mid e rest) [
      | inl unlogged ↦ inl (Ledger.insert_refused _ mid e unlogged)
      | inr (u, mid', _, answer) ↦ inl (response_fails p q updated r mid' e answer)
    ]
  ]

  update_fails :
      (p : Program) (amount : ℤ) (db : Db) (e : Exception)
      → Programs.reserve_capacity env p.id amount db ≡ fail e
      → e ≡ plain_error
  unfolding Programs.reserve_capacity Programs.update_where Programs.find_by_id Programs.write_row
      ◌>>=◌
  update_fails p amount db e h = elim (Option-cases (find (Programs.has_id p.id) db.programs)) [
    | inl absent ↦ absurd (ground arith)
    | inr (old, found) ↦ ground arith
  ]

  -- Reserving leaves the reservations as they are.
  still_free :
      (p : Program) (amount : ℤ) (db : Db) (r : Option Program) (mid : Db)
      → find (Reservations.has_invoice p.id dto.invoice_id) db.invoice_reservations ≡ none
      → Programs.reserve_capacity env p.id amount db ≡ ok (r, mid)
      → find (Reservations.has_invoice p.id dto.invoice_id) mid.invoice_reservations ≡ none
  unfolding Programs.reserve_capacity
  still_free p amount db r mid free h =
      elim (update_where-Updates p.id (Programs.can_reserve amount)
        (Programs.reserved_by amount env.now) db r mid h) [
          | untouched _ _ same ↦ rw same free
          | written _ _ _ _ _ same ↦ rw same free
        ]

  returns_row :
      (p : Program) (amount : ℤ) (db mid : Db)
      → find (Programs.has_id p.id) db.programs ≡ some p
      → Programs.can_reserve amount p ≡ true
      → ¬ (Programs.reserve_capacity env p.id amount db ≡ ok (none, mid))
  unfolding Programs.reserve_capacity Programs.update_where Programs.find_by_id Programs.write_row
      ◌>>=◌
  returns_row p amount db mid here can h = ground arith

  finish_fails :
      (p : Program) (q : Quote dec) (db mid : Db) (r : Option Program) (e : Exception)
      → find (Reservations.has_invoice p.id dto.invoice_id) db.invoice_reservations ≡ none
      → find (Programs.has_id p.id) db.programs ≡ some p
      → Programs.can_reserve q.reserved_amount_minor p ≡ true
      → Programs.reserve_capacity env p.id q.reserved_amount_minor db ≡ ok (r, mid)
      → finish_reservation dec env dto p q r mid ≡ fail e
      → IsUnstored e
  unfolding finish_reservation Programs.reserve_capacity
  finish_fails p q db mid (some updated) e free here can h rest =
      record_fails p q updated mid e
        (still_free p q.reserved_amount_minor db (some updated) mid free h) rest
  finish_fails p q db mid none e free here can h rest =
      absurd (returns_row p q.reserved_amount_minor db mid here can h)

  pub reserve_fails :
      (p : Program) (q : Quote dec) (db : Db) (e : Exception)
      → find (Reservations.has_invoice p.id dto.invoice_id) db.invoice_reservations ≡ none
      → find (Programs.has_id p.id) db.programs ≡ some p
      → Programs.can_reserve q.reserved_amount_minor p ≡ true
      → reserve_quote dec env dto p q db ≡ fail e
      → IsUnstored e
  unfolding reserve_quote
  reserve_fails p q db e free here can h = elim (>>=-eq-fail _ _ db e h) [
    | inl refused ↦ inl (update_fails p q.reserved_amount_minor db e refused)
    | inr (r, mid, updated, rest) ↦ finish_fails p q db mid r e free here can updated rest
  ]
