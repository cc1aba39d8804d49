-- ===== src/Accounts/Missing.antt =====
-- The loop over the reservations that the snapshot lacks.
use mathlib.Core.Path.{subst}
use program_capacity_invoice.Base.{
  ℕ, ◌+◌, ◌≤◌, String, ◌==◌, eq_iff, eq_refl, Bool, true, false, ◌&&◌, not, ◌≡◌, refl, sym, ◌∙◌, ap,
  some, inl, inr, List, [], ◌∷◌, arith, Bool-cases,
}
use program_capacity_invoice.Base.Rows.{find, replace, All, find-replace_self}
use program_capacity_invoice.Base.Unique.{AreUnique}
use program_capacity_invoice.Base.Lookup.{All-found, All-map}
use program_capacity_invoice.Errors.{ok}
use program_capacity_invoice.Store.{Reservation, Db, Env, >>=-eq-ok}
use program_capacity_invoice.Store.Inversion.{pure-eq-ok}
use program_capacity_invoice.Reservations.Repository as Reservations
use program_capacity_invoice.Reservations.Repository.{has_id, of_program}
use program_capacity_invoice.Reservations.Uniqueness.{SameKeys, has_id_of, has_id_sym}
use program_capacity_invoice.Reservations.Updates.{Rewrites, update-Rewrites}
use program_capacity_invoice.Treasury.Events.{TreasuryActiveReservation}
use program_capacity_invoice.Treasury.Snapshot.{
  in_snapshot, is_active, reconcile_row, reconcile_missing,
}
use program_capacity_invoice.Accounts.Totals.{total, total-replace, total_alike}
use program_capacity_invoice.Accounts.Held.{held_by, held}
use program_capacity_invoice.Accounts.Walk.{Linked, Walk, counted}
use program_capacity_invoice.Accounts.Steps.{replace_other, relink, held_by_other}
use program_capacity_invoice.Accounts.Loop.{IsLocked}

module _ (env : Env) (message_id pid : String) (first : List Reservation)
    (items processed : List TreasuryActiveReservation) (spent : ℕ) where
  -- An ACTIVE row of the program that the snapshot lacks is among those still to come.
  pub record Closing (rest rows : List Reservation) : Type 0 where
    pub linked :
        (id : String) (r : Reservation) → find (has_id id) first ≡ some r → Linked id r rows
    pub others : (id : String) → (id == pid) ≡ false → held id rows ≡ held id first
    pub remaining :
        (id : String) (r : Reservation)
        → find (has_id id) rows ≡ some r
        → r.program_id ≡ pid
        → is_active r.status ≡ true
        → in_snapshot r.invoice_id items ≡ false
        → find (has_id id) rest ≡ some r
    pub bounded : total (counted pid processed) rows ≤ spent

  abbrev missing : Reservation → Bool
  missing row = is_active row.status && not (in_snapshot row.invoice_id items)

  keep_row :
      (row : Reservation) (rest rows : List Reservation)
      → missing row ≡ false
      → Closing (row ∷ rest) rows
      → Closing rest rows
  unfolding find
  keep_row row rest rows kept c = record {
    linked = c.linked;
    others = c.others;
    bounded = c.bounded;
    remaining = λ id r h is active lacks.
        let there = c.remaining id r h is active lacks in
        elim (Bool-cases (row.id == id)) [
          | inr other ↦ rw other at there
          | inl same ↦
              let is_row : row ≡ r = ground arith in
              let is_missing : missing r ≡ true = rw (active, lacks) refl in
              absurd (cc (kept, ap missing is_row, is_missing))
        ];
  }

  next_row :
      (row : Reservation) (rest : List Reservation) (id : String) (r : Reservation)
      → (id == row.id) ≡ false
      → find (has_id id) (row ∷ rest) ≡ some r
      → find (has_id id) rest ≡ some r
  unfolding find
  next_row row rest id r other h = ground (arith, eq_iff id row.id, eq_iff row.id id)

  close_row :
      (row : Reservation) (rest : List Reservation) (db : Db) (r : Reservation) (after : Db)
      → missing row ≡ true
      → IsLocked first pid row
      → Closing (row ∷ rest) db.invoice_reservations
      → Rewrites row.id (Reservations.reconciled_at_now message_id env.now) db r after
      → Closing rest after.invoice_reservations
  close_row row rest db r after is locked c made = rw made.state (record {
    linked =
        relink first rows row.id made.old r made.found row_keys row_id row locked.there
          (λ e. absurd (cc (ap is_active e, row_active))) c.linked;
    others = λ id other.
        let sum = total-replace (held_by id) (has_id row.id) r rows made.old made.found in
        let before = c.others id other in
        let nothing = held_by_other pid id r row_program other in
        let nothing_before = held_by_other pid id made.old old_program other in ground arith;
    remaining = λ id x h is_program active lacks. elim (Bool-cases (id == row.id)) [
      | inl same ↦
          let at_row : id ≡ row.id = (eq_iff id row.id).0 same in
          let there =
            subst (λ y. find (has_id y) (replace (has_id row.id) r rows) ≡ some x) at_row h in
          let is_new : r ≡ x = cc (at_id, there) in
          absurd (
            cc (
              ap (λ (y : Reservation). is_active y.status) is_new,
              active,
              ap (λ (y : Reservation). is_active y.status) made.row,
            ))
      | inr other ↦ next_row row rest id x other (
          c.remaining id x (sym (replace_other row.id id r rows row_id other) ∙ h) is_program active
            lacks)
    ];
    bounded =
        let sum =
          total-replace (counted pid processed) (has_id row.id) r rows made.old made.found in
        let nothing : counted pid processed r ≡ 0 = rw made.row (ground arith) in
        let before = c.bounded in ground arith;
  })
    where
      rows : List Reservation
      rows = db.invoice_reservations

      link : Linked row.id row rows
      link = c.linked row.id row locked.there

      same_old : made.old ≡ link.row
      same_old = cc (made.found, link.here)

      old_program : made.old.program_id ≡ pid
      old_program =
          ap (λ (x : Reservation). x.program_id) same_old ∙ link.keys.program_id ∙ locked.program

      row_program : r.program_id ≡ pid
      row_program = ap (λ (x : Reservation). x.program_id) made.row ∙ old_program

      row_id : r.id ≡ row.id
      row_id =
          ap (λ (x : Reservation). x.id) made.row
          ∙ ap (λ (x : Reservation). x.id) same_old
          ∙ link.keys.id

      at_id : find (has_id row.id) (replace (has_id row.id) r rows) ≡ some r
      at_id =
          find-replace_self (has_id row.id) r rows made.old made.found
            ((eq_iff r.id row.id).1 row_id)

      row_keys : SameKeys r made.old
      row_keys = record {
        id = ap (λ (x : Reservation). x.id) made.row;
        program_id = ap (λ (x : Reservation). x.program_id) made.row;
        invoice_id = ap (λ (x : Reservation). x.invoice_id) made.row;
      }

      row_active : is_active row.status ≡ true
      row_active = ground arith

  reconcile_row-Closing :
      (row : Reservation) (rest : List Reservation) (db : Db) (n : ℕ) (after : Db) (verdict : Bool)
      → missing row ≡ verdict
      → IsLocked first pid row
      → Closing (row ∷ rest) db.invoice_reservations
      → reconcile_row env message_id verdict row db ≡ ok (n, after)
      → Closing rest after.invoice_reservations
  unfolding reconcile_row Reservations.mark_reconciled
  reconcile_row-Closing row rest db n after true is locked c h =
      let (r, mid, did, done) = >>=-eq-ok _ _ db n after h in
      subst (λ (d : Db). Closing rest d.invoice_reservations)
        (sym (pure-eq-ok 1 mid n after done).1)
        (close_row row rest db r mid is locked c
          (update-Rewrites row.id (Reservations.reconciled_at_now message_id env.now) db r mid did))
  reconcile_row-Closing row rest db n after false is locked c h =
      subst (λ (d : Db). Closing rest d.invoice_reservations) (sym (pure-eq-ok 0 db n after h).1)
        (keep_row row rest db.invoice_reservations is c)

  pub reconcile_missing-Closing :
      (rest : List Reservation) (count : ℕ) (db : Db) (n : ℕ) (after : Db)
      → All (IsLocked first pid) rest
      → Closing rest db.invoice_reservations
      → reconcile_missing env message_id items rest count db ≡ ok (n, after)
      → Closing [] after.invoice_reservations
  unfolding reconcile_missing
  reconcile_missing-Closing [] count db n after all c h =
      subst (λ (d : Db). Closing [] d.invoice_reservations) (sym (pure-eq-ok count db n after h).1)
        c
  reconcile_missing-Closing (row ∷ rest) count db n after all c h =
      let (added, mid, h1, rest1) = >>=-eq-ok _ _ db n after h in
      reconcile_missing-Closing rest (count + added) mid n after all.1
        (reconcile_row-Closing row rest db added mid (missing row) refl all.0 c h1) rest1

  find-of_program :
      (rows : List Reservation) (id : String) (r : Reservation)
      → find (has_id id) rows ≡ some r
      → r.program_id ≡ pid
      → find (has_id id) (of_program pid rows) ≡ some r
  unfolding find of_program
  find-of_program [] id r h is = absurd (cc h)
  find-of_program (x ∷ rows) id r h is = elim (Bool-cases (x.id == id)) [
    | inl here ↦
        let same : x ≡ r = ground arith in
        let kept : (x.program_id == pid) ≡ true =
          (eq_iff x.program_id pid).1 (ap (λ (y : Reservation). y.program_id) same ∙ is) in
        rw (kept, here, same) refl
    | inr other ↦
        let rest = find-of_program rows id r (rw other at h) is in
        elim (Bool-cases (x.program_id == pid)) [
          | inl kept ↦ rw (kept, other) rest
          | inr dropped ↦ rw dropped rest
        ]
  ]

  -- When the items are done, the rows still to come are those that were locked.
  pub Walk-Closing :
      (rows : List Reservation)
      → Walk pid first (λ i. in_snapshot i items) processed spent rows
      → Closing (of_program pid first) rows
  Walk-Closing rows w = record {
    linked = w.linked;
    others = w.others;
    bounded = w.bounded;
    remaining = λ id r h is _ lacks. find-of_program first id r (w.unlisted id r h is lacks) is;
  }

  -- When no row is to come, what the program holds is what the snapshot has counted.
  held-counted :
      (rows : List Reservation)
      → ((i : String) → in_snapshot i items ≡ true → in_snapshot i processed ≡ true)
      → AreUnique has_id_of rows
      → Closing [] rows
      → held pid rows ≡ total (counted pid processed) rows
  unfolding find
  held-counted rows covers unique c = total_alike (held_by pid) (counted pid processed) rows (
      All-map (λ r. find (has_id r.id) rows ≡ some r) (λ r. held_by pid r ≡ counted pid processed r)
        rows (λ r here. by_kind r here (r.program_id == pid && is_active r.status) refl)
        (All-found has_id_of (λ r. eq_refl r.id) has_id_sym rows unique))
    where
      by_kind :
          (r : Reservation)
          → find (has_id r.id) rows ≡ some r
          → (kind : Bool) → (r.program_id == pid && is_active r.status) ≡ kind
          → held_by pid r ≡ counted pid processed r
      by_kind r here false is = ground arith
      by_kind r here true is = elim (Bool-cases (in_snapshot r.invoice_id items)) [
        | inl listed ↦ let in_all = covers r.invoice_id listed in ground arith
        | inr lacks ↦
            let left =
              c.remaining r.id r here ((eq_iff r.program_id pid).0 (ground arith)) (ground arith)
                lacks in
            absurd (cc left)
      ]

  pub Closing-held :
      (rows : List Reservation)
      → ((i : String) → in_snapshot i items ≡ true → in_snapshot i processed ≡ true)
      → AreUnique has_id_of rows
      → Closing [] rows
      → held pid rows ≤ spent
  Closing-held rows covers unique c =
      let same = held-counted rows covers unique c in let bound = c.bounded in ground arith
