-- ===== src/Accounts/Walk.antt =====
-- The loop over the items of a snapshot, as what it keeps of the table that it began with.
use program_capacity_invoice.Base.{
  ℕ, ◌+◌, ◌≤◌, String, ◌==◌, eq_iff, Bool, true, false, ◌&&◌, ◌≡◌, refl, none, some, List, [], ◌∷◌,
  ◌++◌, arith, if◌then◌else◌,
}
use program_capacity_invoice.Base.Int.{ℤ, pos_part}
use program_capacity_invoice.Base.Rows.{find, replace}
use program_capacity_invoice.Base.Unique.{AreUnique}
use program_capacity_invoice.Store.{Reservation, ReservationStatus}
use program_capacity_invoice.Reservations.Repository.{has_id, has_invoice}
use program_capacity_invoice.Reservations.Uniqueness.{SameKeys, has_invoice_of}
use program_capacity_invoice.Treasury.Events.{TreasuryActiveReservation}
use program_capacity_invoice.Treasury.Snapshot.{in_snapshot, is_active}
use program_capacity_invoice.Accounts.Totals.{
  total, total-append_one, total-replace, total_none, total_one,
}
use program_capacity_invoice.Accounts.Held.{held}

-- The row that was there at first is there with its keys, and is RELEASED if it was it has not changed.
pub record Linked (id : String) (first : Reservation) (rows : List Reservation) : Type 0 where
  pub row : Reservation
  pub here : find (has_id id) rows ≡ some row
  pub keys : SameKeys row first
  pub released : first.status ≡ ReservationStatus.released → row ≡ first

module _ (pid : String) where
  -- The amount that a row holds for the items that were processed.
  abbrev pub counted : List TreasuryActiveReservation → Reservation → ℕ
  counted items r =
      if r.program_id == pid && (is_active r.status && in_snapshot r.invoice_id items)
      then pos_part r.reserved_amount_minor
      else 0

  module _ (first : List Reservation) (listed : String → Bool) where
    pub record Walk (items : List TreasuryActiveReservation) (spent : ℕ) (rows : List Reservation)
        : Type 0 where
      pub linked :
          (id : String) (r : Reservation) → find (has_id id) first ≡ some r → Linked id r rows
      pub others : (id : String) → (id == pid) ≡ false → held id rows ≡ held id first
      pub unlisted :
          (id : String) (r : Reservation)
          → find (has_id id) rows ≡ some r
          → r.program_id ≡ pid
          → listed r.invoice_id ≡ false
          → find (has_id id) first ≡ some r
      pub bounded : total (counted items) rows ≤ spent

  module _ (item : TreasuryActiveReservation) (items : List TreasuryActiveReservation) where
    -- Rows of other invoices count as before.
    counted_alike :
        (r : Reservation)
        → has_invoice pid item.invoice_id r ≡ false
        → counted (item ∷ items) r ≡ counted items r
    unfolding in_snapshot
    counted_alike r h =
        ground (arith, eq_iff item.invoice_id r.invoice_id, eq_iff r.invoice_id item.invoice_id)

    pub invoice_key :
        (a b : Reservation)
        → has_invoice pid item.invoice_id a ≡ true
        → has_invoice_of a b ≡ has_invoice pid item.invoice_id b
    invoice_key a b h =
        let program : a.program_id ≡ pid = (eq_iff a.program_id pid).0 (ground arith) in
        let invoice : a.invoice_id ≡ item.invoice_id =
          (eq_iff a.invoice_id item.invoice_id).0 (ground arith) in
        rw (program, invoice) refl

    counted_le :
        (r : Reservation) (amount : ℤ)
        → r.reserved_amount_minor ≡ amount
        → counted (item ∷ items) r ≤ pos_part amount
    counted_le r amount is = ground arith

    module _ (spent : ℕ) (rows : List Reservation) (amount : ℤ) where
      pub skip-bounded :
          (row : Reservation)
          → AreUnique has_invoice_of rows
          → find (has_invoice pid item.invoice_id) rows ≡ some row
          → row.status ≡ ReservationStatus.released
          → total (counted items) rows ≤ spent
          → total (counted (item ∷ items)) rows ≤ spent
      skip-bounded row unique here is h =
          let same =
            total_one (counted (item ∷ items)) (counted items) (has_invoice pid item.invoice_id)
              has_invoice_of rows row invoice_key unique here counted_alike in
          let none_now : counted (item ∷ items) row ≡ 0 = rw is (ground arith) in ground arith

      pub add-bounded :
          (new : Reservation)
          → find (has_invoice pid item.invoice_id) rows ≡ none
          → new.reserved_amount_minor ≡ amount
          → total (counted items) rows ≤ spent
          → total (counted (item ∷ items)) (rows ++ new ∷ []) ≤ spent + pos_part amount
      add-bounded new absent is h =
          let same =
            total_none (counted (item ∷ items)) (counted items) (has_invoice pid item.invoice_id)
              rows absent counted_alike in
          let sum = total-append_one (counted (item ∷ items)) rows new in
          let new_counts : counted (item ∷ items) new ≤ pos_part amount =
            counted_le new amount is in
          ground arith

      pub rewrite-bounded :
          (id : String) (old new : Reservation)
          → AreUnique has_invoice_of rows
          → find (has_id id) rows ≡ some old
          → find (has_invoice pid item.invoice_id) rows ≡ some old
          → new.reserved_amount_minor ≡ amount
          → total (counted items) rows ≤ spent
          → total (counted (item ∷ items)) (replace (has_id id) new rows) ≤ spent + pos_part amount
      rewrite-bounded id old new unique by_id by_invoice is h =
          let moved =
            total_one (counted (item ∷ items)) (counted items) (has_invoice pid item.invoice_id)
              has_invoice_of rows old invoice_key unique by_invoice counted_alike in
          let sum = total-replace (counted (item ∷ items)) (has_id id) new rows old by_id in
          let new_counts : counted (item ∷ items) new ≤ pos_part amount =
            counted_le new amount is in
          ground arith
