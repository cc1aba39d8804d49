-- ===== src/Effects/Release.antt =====
-- What a release does: reservations/reservations.service.ts, `release`.
use mathlib.Core.Path.{subst, subst₂}
use program_capacity_invoice.Base.Columns.{as_uuid}
use program_capacity_invoice.Base.{
  eq_iff, String, true, ◌≡◌, refl, sym, ◌∙◌, ap, Option, none, some, [], ◌∷◌, ◌++◌, arith,
}
use program_capacity_invoice.Base.Int.{ℤ, pos, ◌-ℤ◌}
use program_capacity_invoice.Base.Rows.{find, find_passes}
use program_capacity_invoice.Errors.{Exception, ok}
use program_capacity_invoice.Store.{
  Program, ReservationStatus, Reservation, LedgerEntry, reservation_released, Db, Env, throw, ◌>>=◌,
  >>=-eq-ok,
}
use program_capacity_invoice.Store.Keeps.{ok_state}
use program_capacity_invoice.Store.Inversion.{run-eq-ok, gets-eq-ok, or_throw-eq-ok}
use program_capacity_invoice.Programs.Repository as Programs
use program_capacity_invoice.Programs.Updates.{
  Updates, untouched, written, update_where-Updates, with_program,
}
use program_capacity_invoice.Reservations.Repository as Reservations
use program_capacity_invoice.Reservations.Updates.{Rewrites, update-Rewrites, with_reservation}
use program_capacity_invoice.Audit as Ledger
use program_capacity_invoice.Reservations.Service.{compute_available}
use program_capacity_invoice.Reservations.Release.{
  ReleaseReservationResponse, build_release_response, available_for_program, release_held,
  release_by_status, run_release_transaction, release,
}

-- The ledger's entry for a release.
abbrev pub release_entry : Reservation → LedgerEntry
release_entry r = record {
  program_id = r.program_id;
  reservation_id = some r.id;
  event_type = reservation_released;
  amount_minor = pos 0 -ℤ r.reserved_amount_minor;
  currency = r.program_currency;
  source = "api";
  external_message_id = none;
  metadata = [];
}

abbrev with_entry : Reservation → Db → Db
with_entry r db = record db { capacity_ledger = db.capacity_ledger ++ release_entry r ∷ [] }

module _ (env : Env) where
  -- The database after the release: the program, the row and the entry, and nothing else.
  abbrev pub after_release : Program → Reservation → Db → Db
  after_release p r db =
      let paid = with_program (Programs.released_by r.reserved_amount_minor env.now p) db in
      let closed = with_reservation r.id (Reservations.released_at_now env.now r) paid in
      record closed { capacity_ledger = db.capacity_ledger ++ release_entry r ∷ [] }

  -- A release of an ACTIVE reservation.
  pub record Frees (r : Reservation) (db : Db) (response : ReleaseReservationResponse) (after : Db)
      : Type 0 where
    pub program : Program
    pub found : find (Programs.has_id r.program_id) db.programs ≡ some program
    pub state : after ≡ after_release program r db
    pub told :
        build_release_response
          (Reservations.released_at_now env.now r)
          (compute_available (Programs.released_by r.reserved_amount_minor env.now program))
          after
        ≡ ok (response, after)
    pub released : response.released_amount_minor ≡ r.reserved_amount_minor
    pub status : response.status ≡ ReservationStatus.released
    pub available :
        response.available_amount_minor
        ≡ compute_available (Programs.released_by r.reserved_amount_minor env.now program)

  build_response_lem :
      (r : Reservation) (available : ℤ) (db : Db) (response : ReleaseReservationResponse)
      (after : Db)
      → build_release_response r available db ≡ ok (response, after)
      → (after ≡ db)
        × (response.released_amount_minor ≡ r.reserved_amount_minor)
        × (response.status ≡ r.status)
        × (response.available_amount_minor ≡ available)
  unfolding build_release_response ◌>>=◌
  build_response_lem r available db response after h = ground arith

  -- The rest of a release, from the state in which the program has been paid back.
  finish_release-Frees :
      (p : Program) (r : Reservation) (db mid : Db) (response : ReleaseReservationResponse)
      (after : Db)
      → find (Programs.has_id r.program_id) db.programs ≡ some p
      → find (Reservations.has_id r.id) db.invoice_reservations ≡ some r
      → mid ≡ with_program (Programs.released_by r.reserved_amount_minor env.now p) db
      → (row : Reservation) (db2 db3 : Db)
      → Rewrites r.id (Reservations.released_at_now env.now) mid row db2
      → db3 ≡ record db2 { capacity_ledger = db2.capacity_ledger ++ release_entry r ∷ [] }
      → (updated : Program) → updated ≡ Programs.released_by r.reserved_amount_minor env.now p
      → build_release_response row (compute_available updated) db3 ≡ ok (response, after)
      → Frees r db response after
  finish_release-Frees p r db mid response after found here paid row db2 db3 w logged updated
        is_updated h =
      let (same, released, status, available) =
        build_response_lem row (compute_available updated) db3 response after h in
      let there : find (Reservations.has_id r.id) mid.invoice_reservations ≡ some r =
        rw paid here in
      let old : w.old ≡ r = cc (w.found, there) in
      let is_row : row ≡ Reservations.released_at_now env.now r =
        w.row ∙ ap (Reservations.released_at_now env.now) old in
      record {
        program = p;
        found = found;
        state =
            same
            ∙ logged
            ∙ ap (with_entry r) w.state
            ∙ ap (λ d. with_entry r (with_reservation r.id row d)) paid
            ∙ ap
                (λ x. with_entry r (
                  with_reservation r.id x
                    (with_program (Programs.released_by r.reserved_amount_minor env.now p) db)))
                is_row;
        told =
            subst₂
              (λ x p'. build_release_response x (compute_available p') after ≡ ok (response, after))
              is_row is_updated
              (subst
                (λ d.
                  build_release_response row (compute_available updated) d ≡ ok (response, after))
                (sym same) h);
        released = released ∙ ap (λ (x : Reservation). x.reserved_amount_minor) is_row;
        status = status ∙ ap (λ (x : Reservation). x.status) is_row;
        available = available ∙ ap compute_available is_updated;
      }

  release_held-Frees :
      (r : Reservation) (db : Db) (response : ReleaseReservationResponse) (after : Db)
      → find (Reservations.has_id r.id) db.invoice_reservations ≡ some r
      → release_held env r.id r db ≡ ok (response, after)
      → Frees r db response after
  unfolding release_held Programs.release_capacity Programs.find_by_id_for_update
      Reservations.mark_released
  release_held-Frees r db response after here h =
      let (first, db0, locked, rest0) = >>=-eq-ok _ _ db response after h in
      let (paid, db1, paying, rest1) = >>=-eq-ok _ _ db0 response after rest0 in
      let (row, db2, marked, rest2) = >>=-eq-ok _ _ db1 response after rest1 in
      let (u, db3, logged, rest3) = >>=-eq-ok _ _ db2 response after rest2 in
      let (updated, db4, checked, rest4) = >>=-eq-ok _ _ db3 response after rest3 in
      let same : db0 ≡ db = (gets-eq-ok _ db first db0 locked).1 in
      let (is_updated, last) = or_throw-eq-ok paid _ db3 updated db4 checked in
      by_paid
        (subst (λ d. Updates r.program_id (λ _. true) set d paid db1) same
          (update_where-Updates r.program_id (λ _. true) set db0 paid db1 paying))
        row db2 db3 (update-Rewrites r.id (Reservations.released_at_now env.now) db1 row db2 marked)
        (Ledger.insert_lem _ db2 u db3 logged) updated is_updated
        (subst
          (λ d. build_release_response row (compute_available updated) d ≡ ok (response, after))
          last rest4)
    where
      set : Program → Program
      set = Programs.released_by r.reserved_amount_minor env.now

      by_paid :
          {paid : Option Program} {mid : Db}
          → Updates r.program_id (λ _. true) set db paid mid
          → (row : Reservation) (db2 db3 : Db)
          → Rewrites r.id (Reservations.released_at_now env.now) mid row db2
          → db3 ≡ with_entry r db2
          → (updated : Program) → paid ≡ some updated
          → build_release_response row (compute_available updated) db3 ≡ ok (response, after)
          → Frees r db response after
      by_paid (untouched _ absent _) row db2 db3 w logged updated is e = absurd (cc (absent, is))
      by_paid {mid = mid} (written p found _ _ is_paid state) row db2 db3 w logged updated is e =
          finish_release-Frees p r db mid response after found here state row db2 db3 w logged
            updated (cc (is_paid, is)) e

  -- What a release that returns has done.
  pub data Releases (id : String) (db : Db) (response : ReleaseReservationResponse) (after : Db)
      : Type 0 where
    freed :
        (r : Reservation)
        → find (Reservations.has_id (as_uuid id)) db.invoice_reservations ≡ some r
        → r.status ≡ ReservationStatus.active
        → Frees r db response after
        → Releases id db response after
    repeated :
        (r : Reservation)
        → find (Reservations.has_id (as_uuid id)) db.invoice_reservations ≡ some r
        → r.status ≡ ReservationStatus.released
        → response.released_amount_minor ≡ r.reserved_amount_minor
        → after ≡ db
        → Releases id db response after

  available-reads :
      (id : String) (db : Db) (available : ℤ) (after : Db)
      → available_for_program id db ≡ ok (available, after)
      → after ≡ db
  unfolding available_for_program Programs.find_by_id ◌>>=◌
  available-reads id db available after h = sym (ok_state h)

  throw_never_returns :
      {A : Type 0} (x : Exception) (db : Db) (a : A) (after : Db) → ¬ (throw x db ≡ ok (a, after))
  unfolding ◌>>=◌
  throw_never_returns x db a after h = cc h

  by_status-Releases :
      (id : String) (r : Reservation) (status : ReservationStatus) (db : Db)
      (response : ReleaseReservationResponse) (after : Db)
      → find (Reservations.has_id (as_uuid id)) db.invoice_reservations ≡ some r
      → r.status ≡ status
      → release_by_status env id r status db ≡ ok (response, after)
      → Releases id db response after
  unfolding release_by_status
  by_status-Releases id r ReservationStatus.active db response after found is h =
      let same : as_uuid id ≡ r.id = sym (
        (eq_iff r.id (as_uuid id)).0
          (find_passes (Reservations.has_id (as_uuid id)) db.invoice_reservations r found)) in
      freed r found is (
        release_held-Frees r db response after
          (subst (λ x. find (Reservations.has_id x) db.invoice_reservations ≡ some r) same found)
          (subst (λ x. release_held env x r db ≡ ok (response, after)) same h))
  by_status-Releases id r ReservationStatus.released db response after found is h =
      let (available, mid, read, rest) = >>=-eq-ok _ _ db response after h in
      let (same, released, _, _) = build_response_lem r available mid response after rest in
      repeated r found is released (same ∙ available-reads r.program_id db available mid read)
  by_status-Releases id r ReservationStatus.reconciled db response after found is h =
      absurd (throw_never_returns _ db response after h)

  -- A release that returns has found the reservation. An ACTIVE one became RELEASED, its amount went
  -- back to the program (at least 0 stays reserved) and into the ledger with its sign reversed; a
  -- RELEASED one was left as it is, with the whole database; no other status returns.
  pub release-Releases :
      (id : String) (db : Db) (response : ReleaseReservationResponse) (after : Db)
      → release env id db ≡ (ok response, after)
      → Releases id db response after
  unfolding release run_release_transaction Reservations.find_by_id_for_update
  release-Releases id db response after h =
      let (found, db0, h0, rest0) =
        >>=-eq-ok _ _ db response after
          (run-eq-ok (run_release_transaction env id) db response after h) in
      let (r, db1, h1, rest1) = >>=-eq-ok _ _ db0 response after rest0 in
      let (is_found, at0) = gets-eq-ok _ db found db0 h0 in
      let (is, at1) = or_throw-eq-ok found _ db0 r db1 h1 in
      by_status-Releases id r r.status db response after (sym is_found ∙ is) refl (
        subst (λ d. release_by_status env id r r.status d ≡ ok (response, after)) (at1 ∙ at0) rest1)
