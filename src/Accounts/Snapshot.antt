-- ===== src/Accounts/Snapshot.antt =====
-- What applying a snapshot makes of the reservations.
use mathlib.Core.Path.{subst}
use program_capacity_invoice.Base.{
  ◌≤◌, String, ◌==◌, eq_refl, Bool, true, false, ◌||◌, ◌≡◌, refl, sym, ◌∙◌, ap, some, inl, inr,
  List, [], ◌∷◌, arith, Bool-cases,
}
use program_capacity_invoice.Base.Int.{ℤ, ◌-ℤ◌}
use program_capacity_invoice.Base.Rows.{find, All}
use program_capacity_invoice.Base.Lookup.{All-map}
use program_capacity_invoice.Errors.{ok}
use program_capacity_invoice.Store.{Program, Reservation, Db, Env, >>=-eq-ok}
use program_capacity_invoice.Store.Keeps.{Keeps, keeps_rules}
use program_capacity_invoice.Store.Inversion.{pure-eq-ok, lift-eq-ok, gets-eq-ok}
use program_capacity_invoice.Programs.Repository as Programs
use program_capacity_invoice.Reservations.Repository as Reservations
use program_capacity_invoice.Reservations.Repository.{has_id, of_program}
use program_capacity_invoice.Reservations.Uniqueness.{UniqueIds, UniqueInvoices}
use program_capacity_invoice.Treasury.Events.{
  Platform, TreasuryActiveReservation, TreasuryReconciliationEvent,
}
use program_capacity_invoice.Treasury.Snapshot.{
  in_snapshot, is_active, apply_items, reconcile_missing,
}
use program_capacity_invoice.Treasury.Reconciliation.{Declared, record_difference, apply_snapshot}
use program_capacity_invoice.System.Frames.{
  insert_ledger-frame, insert_run-frame, update_where-frame,
}
use program_capacity_invoice.System.Invariants.{UniqueIds-kept}
use program_capacity_invoice.System.Messages.{apply_items-Keeps, reconcile_missing-Keeps}
use program_capacity_invoice.Effects.Snapshot.{input}
use program_capacity_invoice.Accounts.Totals.{total}
use program_capacity_invoice.Accounts.Held.{held}
use program_capacity_invoice.Accounts.Walk.{Linked, Walk, counted}
use program_capacity_invoice.Accounts.Loop.{locked_lem, onto, spending, apply_items-Walk}
use program_capacity_invoice.Accounts.Missing.{
  Closing, reconcile_missing-Closing, Walk-Closing, Closing-held,
}

counted_none : (pid : String) (rows : List Reservation) → total (counted pid []) rows ≡ 0
unfolding total in_snapshot
counted_none pid [] = refl
counted_none pid (r ∷ rows) = let rest = counted_none pid rows in ground arith

onto_lem :
    (i : String) (rest items : List TreasuryActiveReservation)
    → (in_snapshot i rest || in_snapshot i items) ≡ true
    → in_snapshot i (onto rest items) ≡ true
unfolding in_snapshot
onto_lem i [] items h = h
onto_lem i (item ∷ rest) items h = onto_lem i rest (item ∷ items) (ground arith)

self_listed :
    (items : List TreasuryActiveReservation)
    → All (λ item. in_snapshot item.invoice_id items ≡ true) items
unfolding in_snapshot
self_listed [] = tt
self_listed (item ∷ items) = (
  rw (eq_refl item.invoice_id) refl,
  All-map (λ x. in_snapshot x.invoice_id items ≡ true)
      (λ x. in_snapshot x.invoice_id (item ∷ items) ≡ true) items (λ x h. ground arith)
      (self_listed items),
)

first_Walk :
    (pid : String) (rows : List Reservation) (listed : String → Bool)
    → Walk pid rows listed [] 0 rows
first_Walk pid rows listed = record {
  linked = λ id r h. record {
    row = r;
    here = h;
    keys = record { id = refl; program_id = refl; invoice_id = refl };
    released = λ _. refl;
  };
  others = λ id _. refl;
  unlisted = λ id r h _ _. h;
  bounded = let zero_sum = counted_none pid rows in ground arith;
}

module _ (platform : Platform) (env : Env) (event : TreasuryReconciliationEvent)
    (declared : Declared) where
  -- What an applied snapshot has made of the reservations of its program and of the others.
  pub record Resets (p : Program) (first rows : List Reservation) : Type 0 where
    pub linked :
        (id : String) (r : Reservation) → find (has_id id) first ≡ some r → Linked id r rows
    pub others : (id : String) → (id == p.id) ≡ false → held id rows ≡ held id first
    pub unlisted :
        (id : String) (r : Reservation)
        → find (has_id id) rows ≡ some r
        → r.program_id ≡ p.id
        → in_snapshot r.invoice_id event.payload.active_reservations ≡ false
        → is_active r.status ≡ false
    pub bounded : held p.id rows ≤ spending 0 event.payload.active_reservations

  abbrev HasReservations : List Reservation → Db → Type 0
  HasReservations rows db = db.invoice_reservations ≡ rows

  difference_frame :
      (rows : List Reservation) (p : Program) (total reserved : ℤ)
      → Keeps
          (HasReservations rows)
          (record_difference platform env event declared p total reserved)
  unfolding record_difference
  difference_frame rows p total reserved =
      search (keeps_rules, insert_ledger-frame (HasReservations rows)) depth 8

  closed_Resets :
      (p : Program) (first : List Reservation) (db : Db)
      → UniqueIds db
      → Closing env event.message_id p.id first event.payload.active_reservations
          (onto event.payload.active_reservations [])
          (spending 0 event.payload.active_reservations)
          []
          db.invoice_reservations
      → Resets p first db.invoice_reservations
  unfolding find
  closed_Resets p first db unique c = record {
    linked = c.linked;
    others = c.others;
    unlisted = λ id r h is lacks. elim (Bool-cases (is_active r.status)) [
      | inl active ↦ absurd (cc (c.remaining id r h is active lacks))
      | inr closed ↦ closed
    ];
    bounded =
        Closing-held env event.message_id p.id first event.payload.active_reservations
          (onto event.payload.active_reservations []) (spending 0 event.payload.active_reservations)
          db.invoice_reservations
          (λ i h. onto_lem i event.payload.active_reservations [] (ground arith)) unique c;
  }

  -- Applying a snapshot keeps every reservation with its id, program and invoice, and a RELEASED one
  -- as it is. It leaves no reservation of the program ACTIVE whose invoice the snapshot lacks. What
  -- the ACTIVE ones of the program add up to is at most the sum of the snapshot's amounts, negative
  -- ones left out; what those of any other program add up to has not changed. All this if ids and
  -- invoices are unique.
  pub apply_snapshot-Resets :
      (p : Program) (reserved : ℤ) (db : Db) (u : Unit {0}) (after : Db)
      → UniqueIds db
      → UniqueInvoices db
      → apply_snapshot platform env event declared p reserved db ≡ ok (u, after)
      → Resets p db.invoice_reservations after.invoice_reservations
  unfolding apply_snapshot Programs.apply_reconciliation
      Reservations.find_all_for_program_for_update
  apply_snapshot-Resets p reserved db u after unique_ids unique_invoices h =
      let first = db.invoice_reservations in
      let items = event.payload.active_reservations in
      let (existing, db1, h1, rest1) = >>=-eq-ok _ _ db u after h in
      let (counts, db2, h2, rest2) = >>=-eq-ok _ _ db1 u after rest1 in
      let (count, db3, h3, rest3) = >>=-eq-ok _ _ db2 u after rest2 in
      let (u4, db4, h4, rest4) = >>=-eq-ok _ _ db3 u after rest3 in
      let (u5, db5, h5, rest5) = >>=-eq-ok _ _ db4 u after rest4 in
      let (exponent, db6, h6, rest6) = >>=-eq-ok _ _ db5 u after rest5 in
      let (row, db7, h7, rest7) = >>=-eq-ok _ _ db6 u after rest6 in
      let (is_existing, at1) = gets-eq-ok _ db existing db1 h1 in
      let h2_first =
        subst
          (λ e.
            apply_items env event.message_id p declared.occurred_at e items
              (record { inserted = 0; updated = 0; conflict = 0 }) db1
            ≡ ok (counts, db2))
          is_existing h2 in
      let h2_start =
        subst
          (λ d.
            apply_items env event.message_id p declared.occurred_at (of_program p.id first) items
              (record { inserted = 0; updated = 0; conflict = 0 }) d
            ≡ ok (counts, db2))
          at1 h2_first in
      let h3_first =
        subst (λ e. reconcile_missing env event.message_id items e 0 db2 ≡ ok (count, db3))
          is_existing h3 in
      let walked =
        apply_items-Walk platform env event.message_id p declared.occurred_at first unique_ids
          (λ i. in_snapshot i items) items [] 0 (record { inserted = 0; updated = 0; conflict = 0 })
          db counts db2 (self_listed items) unique_invoices
          (first_Walk p.id first (λ i. in_snapshot i items)) h2_start in
      let closed =
        reconcile_missing-Closing env event.message_id p.id first items (onto items [])
          (spending 0 items) (of_program p.id first) 0 db2 count db3
          (locked_lem first p.id unique_ids)
          (Walk-Closing env event.message_id p.id first items (onto items []) (spending 0 items)
            db2.invoice_reservations walked)
          h3_first in
      let ids2 =
        (apply_items-Keeps UniqueIds-kept platform env event.message_id p declared.occurred_at
            (of_program p.id first) items (record { inserted = 0; updated = 0; conflict = 0 })).at
          db counts db2 h2_start unique_ids in
      let ids3 =
        (reconcile_missing-Keeps UniqueIds-kept platform env event.message_id items
            (of_program p.id first) 0).at
          db2 count db3 h3_first ids2 in
      let rows = db3.invoice_reservations in
      let k4 = (insert_run-frame (HasReservations rows) _).at db3 u4 db4 h4 refl in
      let k5 =
        (difference_frame rows p (declared.total_limit_minor -ℤ p.total_limit_minor)
            (reserved -ℤ p.reserved_amount_minor)).at
          db4 u5 db5 h5 k4 in
      let (_, at6) = lift-eq-ok _ db5 exponent db6 h6 in
      let k6 = ap (λ (d : Db). d.invoice_reservations) at6 ∙ k5 in
      let k7 =
        (update_where-frame (HasReservations rows) p.id (λ _. true)
            (Programs.reconciled_by (input platform env event declared reserved exponent)
              env.now)).at
          db6 row db7 h7 k6 in
      let k8 = ap (λ (d : Db). d.invoice_reservations) (pure-eq-ok tt db7 u after rest7).1 ∙ k7 in
      subst (Resets p first) (sym k8) (closed_Resets p first db3 ids3 closed)
