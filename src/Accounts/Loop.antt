-- ===== src/Accounts/Loop.antt =====
-- The whole loop over the items of a snapshot.
use mathlib.Core.Path.{subst}
use program_capacity_invoice.Base.{
  ℕ, ◌+◌, String, ◌==◌, eq_iff, eq_refl, Bool, true, ◌≡◌, refl, sym, ◌∙◌, ap, Option, some, inl,
  inr, List, [], ◌∷◌, Date, arith, Bool-cases, Option-cases,
}
use program_capacity_invoice.Base.Int.{ℤ, pos_part}
use program_capacity_invoice.Base.Rows.{find, All}
use program_capacity_invoice.Base.Unique.{AreUnique}
use program_capacity_invoice.Base.Lookup.{find_unique, All-found}
use program_capacity_invoice.Errors.{ok, big_int}
use program_capacity_invoice.Store.{Program, Reservation, Db, Env, >>=-eq-ok}
use program_capacity_invoice.Store.Inversion.{pure-eq-ok}
use program_capacity_invoice.Reservations.Repository.{has_id, has_invoice, of_program}
use program_capacity_invoice.Reservations.Uniqueness.{
  SameKeys, has_id_of, has_id_sym, has_invoice_of, UniqueInvoices,
}
use program_capacity_invoice.Treasury.Events.{Platform, TreasuryActiveReservation}
use program_capacity_invoice.Treasury.Snapshot.{Counts, existing_by_invoice_id, apply_items}
use program_capacity_invoice.System.Invariants.{UniqueInvoices-kept}
use program_capacity_invoice.System.Messages.{apply_item-Keeps}
use program_capacity_invoice.Accounts.Items.{
  ItemEffect, added, skipped, rewritten, apply_item-ItemEffect,
}
use program_capacity_invoice.Accounts.Walk.{Linked, Walk, invoice_key}
use program_capacity_invoice.Accounts.Steps.{Walk-skip, Walk-add, Walk-rewrite}

-- A row of the table as it was locked: one of the program, found by its id.
pub record IsLocked (first : List Reservation) (pid : String) (r : Reservation) : Type 0 where
  pub there : find (has_id r.id) first ≡ some r
  pub program : r.program_id ≡ pid

of_program-All :
    (first : List Reservation) (pid : String) (rows : List Reservation)
    → All (λ r. find (has_id r.id) first ≡ some r) rows
    → All (IsLocked first pid) (of_program pid rows)
unfolding of_program
of_program-All first pid [] h = tt
of_program-All first pid (r ∷ rows) h = elim (Bool-cases (r.program_id == pid)) [
  | inl is ↦ rw is (
    record { there = h.0; program = (eq_iff r.program_id pid).0 is },
    of_program-All first pid rows h.1,
  )
  | inr other ↦ rw other (of_program-All first pid rows h.1)
]

-- The rows that the reconciliation locks.
pub locked_lem :
    (first : List Reservation) (pid : String)
    → AreUnique has_id_of first
    → All (IsLocked first pid) (of_program pid first)
locked_lem first pid unique =
    of_program-All first pid first (All-found has_id_of (λ r. eq_refl r.id) has_id_sym first unique)

existing_lem :
    (P : Reservation → Type 0) (invoice : String) (rows : List Reservation) (row : Reservation)
    → All P rows
    → existing_by_invoice_id invoice rows ≡ some row
    → P row × (row.invoice_id ≡ invoice)
unfolding existing_by_invoice_id
existing_lem P invoice [] row h is = absurd (cc is)
existing_lem P invoice (r ∷ rows) row h is =
    elim (Option-cases (existing_by_invoice_id invoice rows)) [
      | inr (later, found) ↦
          let same : later ≡ row = ground arith in
          existing_lem P invoice rows row h.1 (found ∙ ap some same)
      | inl absent ↦ elim (Bool-cases (r.invoice_id == invoice)) [
        | inl at ↦
            let same : r ≡ row = ground arith in
            (
              subst P same h.0,
              ap (λ (x : Reservation). x.invoice_id) (sym same)
                  ∙ (eq_iff r.invoice_id invoice).0 at,
            )
        | inr away ↦ absurd (ground arith)
      ]
    ]

abbrev pub onto :
    List TreasuryActiveReservation → List TreasuryActiveReservation → List TreasuryActiveReservation
onto [] items = items
onto (item ∷ rest) items = onto rest (item ∷ items)

-- The amounts of a snapshot, as far as they are not negative.
abbrev pub amount_of : TreasuryActiveReservation → ℕ
amount_of item = elim (big_int item.reserved_amount_minor) [ ok n ↦ pos_part n | _ ↦ 0 ]

abbrev pub spending : ℕ → List TreasuryActiveReservation → ℕ
spending spent [] = spent
spending spent (item ∷ rest) = spending (spent + amount_of item) rest

module _ (platform : Platform) (env : Env) (message_id : String) (program : Program)
    (occurred : Date) (first : List Reservation) (unique_first : AreUnique has_id_of first)
    (listed : String → Bool) where
  module _ (item : TreasuryActiveReservation) (is_listed : listed item.invoice_id ≡ true)
      (items : List TreasuryActiveReservation) (spent : ℕ) (db mid : Db) (amount : ℤ)
      (unique : UniqueInvoices db)
      (walk : Walk program.id first listed items spent db.invoice_reservations) where
    -- The row that was found for the item, as it is now.
    current :
        (row : Reservation)
        → existing_by_invoice_id item.invoice_id (of_program program.id first) ≡ some row
        → (l : Linked row.id row db.invoice_reservations) × (find (has_id row.id) first ≡ some row)
          × (l.row.program_id ≡ program.id)
          × (l.row.invoice_id ≡ item.invoice_id)
          × (find (has_invoice program.id item.invoice_id) db.invoice_reservations ≡ some l.row)
    current row found =
        let (locked, invoice) =
          existing_lem (IsLocked first program.id) item.invoice_id (of_program program.id first) row
            (locked_lem first program.id unique_first) found in
        let l = walk.linked row.id row locked.there in
        let is_program = l.keys.program_id ∙ locked.program in
        let is_invoice = l.keys.invoice_id ∙ invoice in
        (
          l,
          locked.there,
          is_program,
          is_invoice,
          find_unique has_invoice_of (has_id row.id) (has_invoice program.id item.invoice_id)
              db.invoice_reservations l.row (invoice_key program.id item items) unique l.here
              (rw (is_program, is_invoice, eq_refl program.id, eq_refl item.invoice_id) refl),
        )

    item-Walk :
        (found : Option Reservation)
        → existing_by_invoice_id item.invoice_id (of_program program.id first) ≡ found
        → ItemEffect env message_id program occurred item found amount db mid
        → Walk program.id first listed
            (item ∷ items)
            (spent + pos_part amount)
            mid.invoice_reservations
    item-Walk found is (added r _ made) =
        subst
          (λ (d : Db).
            Walk program.id first listed (item ∷ items) (spent + pos_part amount)
              d.invoice_reservations)
          (sym made.state)
          (Walk-add program.id first listed item items spent db.invoice_reservations amount
            is_listed walk r (ap (λ (x : Reservation). x.program_id) made.row)
            (ap (λ (x : Reservation). x.invoice_id) made.row)
            (ap (λ (x : Reservation). x.reserved_amount_minor) made.row) made.new_invoice)
    item-Walk found is (skipped row at released same) =
        let (l, there, is_program, is_invoice, here) = current row (is ∙ at) in
        subst
          (λ (d : Db).
            Walk program.id first listed (item ∷ items) (spent + pos_part amount)
              d.invoice_reservations)
          (sym same)
          (Walk-skip program.id first listed item items spent db.invoice_reservations amount
            is_listed walk l.row unique here
            (ap (λ (x : Reservation). x.status) (l.released released) ∙ released))
    item-Walk found is (rewritten row r at closed made) =
        let (l, there, is_program, is_invoice, here) = current row (is ∙ at) in
        let same : made.old ≡ l.row = cc (made.found, l.here) in
        let keys : SameKeys r l.row = record {
          id = ap (λ (x : Reservation). x.id) made.row ∙ ap (λ (x : Reservation). x.id) same;
          program_id =
              ap (λ (x : Reservation). x.program_id) made.row
              ∙ ap (λ (x : Reservation). x.program_id) same;
          invoice_id =
              ap (λ (x : Reservation). x.invoice_id) made.row
              ∙ ap (λ (x : Reservation). x.invoice_id) same;
        } in
        subst
          (λ (d : Db).
            Walk program.id first listed (item ∷ items) (spent + pos_part amount)
              d.invoice_reservations)
          (sym made.state)
          (Walk-rewrite program.id first listed item items spent db.invoice_reservations amount
            is_listed walk r (keys.program_id ∙ is_program) (keys.invoice_id ∙ is_invoice)
            (ap (λ (x : Reservation). x.reserved_amount_minor) made.row) row.id l.row l.here
            is_program keys (keys.id ∙ l.keys.id) row there closed unique here)

  -- The whole loop.
  pub apply_items-Walk :
      (rest items : List TreasuryActiveReservation) (spent : ℕ) (counts : Counts) (db : Db)
      (last : Counts) (after : Db)
      → All (λ item. listed item.invoice_id ≡ true) rest
      → UniqueInvoices db
      → Walk program.id first listed items spent db.invoice_reservations
      → apply_items env message_id program occurred (of_program program.id first) rest counts db
        ≡ ok (last, after)
      → Walk program.id first listed
          (onto rest items)
          (spending spent rest)
          after.invoice_reservations
  unfolding apply_items
  apply_items-Walk [] items spent counts db last after all unique walk h =
      subst (λ (d : Db). Walk program.id first listed items spent d.invoice_reservations)
        (sym (pure-eq-ok counts db last after h).1) walk
  apply_items-Walk (item ∷ rest) items spent counts db last after all unique walk h =
      let found = existing_by_invoice_id item.invoice_id (of_program program.id first) in
      let (next, mid, h1, rest1) = >>=-eq-ok _ _ db last after h in
      let (amount, is, did) =
        apply_item-ItemEffect env message_id program occurred item found counts db next mid h1 in
      let one = item-Walk item all.0 items spent db mid amount unique walk found refl did in
      let still =
        (apply_item-Keeps UniqueInvoices-kept platform env message_id program occurred item found
            counts).at
          db next mid h1 unique in
      apply_items-Walk rest (item ∷ items) (spent + amount_of item) next mid last after all.1 still
        (subst
          (λ n. Walk program.id first listed (item ∷ items) (spent + n) mid.invoice_reservations)
          (sym (ap (elim [ ok n ↦ pos_part n | _ ↦ 0 ]) is)) one)
        rest1
