-- ===== src/Accounts/Steps.antt =====
-- One item after the other: what a walk over the items keeps, each item keeps.
use mathlib.Core.Path.{subst}
use program_capacity_invoice.Base.{
  ℕ, ◌+◌, String, ◌==◌, eq_iff, Bool, true, false, ◌≡◌, ◌≢◌, sym, ◌∙◌, ap, none, some, inl, inr,
  List, [], ◌∷◌, ◌++◌, arith, Bool-cases, Option-cases,
}
use program_capacity_invoice.Base.Int.{ℤ, pos_part}
use program_capacity_invoice.Base.Rows.{
  find, replace, find-append_some, find-append_none, find-replace_self,
}
use program_capacity_invoice.Base.Unique.{AreUnique}
use program_capacity_invoice.Base.Lookup.{find-replace_away}
use program_capacity_invoice.Store.{Reservation, ReservationStatus}
use program_capacity_invoice.Reservations.Repository.{has_id, has_invoice}
use program_capacity_invoice.Reservations.Uniqueness.{SameKeys, has_invoice_of}
use program_capacity_invoice.Treasury.Events.{TreasuryActiveReservation}
use program_capacity_invoice.Accounts.Totals.{total-append_one, total-replace}
use program_capacity_invoice.Accounts.Held.{held_by, held}
use program_capacity_invoice.Accounts.Walk.{
  Linked, Walk, skip-bounded, add-bounded, rewrite-bounded,
}

-- A row that is not the one overwritten is found as before.
pub replace_other :
    (id other : String) (new : Reservation) (rows : List Reservation)
    → new.id ≡ id
    → (other == id) ≡ false
    → find (has_id other) (replace (has_id id) new rows) ≡ find (has_id other) rows
replace_other id other new rows new_id apart =
    find-replace_away (has_id id) (has_id other) new rows
      (λ row is. ground (arith, eq_iff row.id id, eq_iff row.id other, eq_iff other id))
      (ground (arith, eq_iff new.id other, eq_iff other id))

pub same_keys : (a b c : Reservation) → SameKeys a b → SameKeys b c → SameKeys a c
same_keys a b c h k = record {
  id = h.id ∙ k.id;
  program_id = h.program_id ∙ k.program_id;
  invoice_id = h.invoice_id ∙ k.invoice_id;
}

-- A row that was not RELEASED is overwritten by one with its keys.
pub relink :
    (first rows : List Reservation) (id : String) (old new : Reservation)
    → find (has_id id) rows ≡ some old
    → SameKeys new old
    → new.id ≡ id
    → (first_row : Reservation) → find (has_id id) first ≡ some first_row
    → first_row.status ≢ ReservationStatus.released
    → ((other : String) (r : Reservation)
        → find (has_id other) first ≡ some r
        → Linked other r rows)
    → (other : String) (r : Reservation) → find (has_id other) first ≡ some r
    → Linked other r (replace (has_id id) new rows)
relink first rows id old new by_id keys new_id first_row there closed linked other r h =
    elim (Bool-cases (other == id)) [
      | inr apart ↦
          let l = linked other r h in
          record {
            row = l.row;
            here = replace_other id other new rows new_id apart ∙ l.here;
            keys = l.keys;
            released = l.released;
          }
      | inl is ↦
          let same : other ≡ id = (eq_iff other id).0 is in
          let l = linked other r h in
          let now = subst (λ x. find (has_id x) rows ≡ some l.row) same l.here in
          let then_row = subst (λ x. find (has_id x) first ≡ some r) same h in
          let at_old : old ≡ l.row = cc (by_id, now) in
          let at_first : first_row ≡ r = cc (there, then_row) in
          record {
            row = new;
            here =
                subst (λ x. find (has_id x) (replace (has_id id) new rows) ≡ some new) (sym same)
                  (find-replace_self (has_id id) new rows old by_id ((eq_iff new.id id).1 new_id));
            keys = same_keys new old r keys (subst (λ x. SameKeys x r) (sym at_old) l.keys);
            released = λ e. absurd (closed (ap (λ (x : Reservation). x.status) at_first ∙ e));
          }
    ]

-- A row of a program holds nothing of another.
pub held_by_other :
    (pid id : String) (r : Reservation)
    → r.program_id ≡ pid
    → (id == pid) ≡ false
    → held_by id r ≡ 0
held_by_other pid id r is other = ground (arith, eq_iff r.program_id id, eq_iff id pid)

module _ (pid : String) (first : List Reservation) (listed : String → Bool)
    (item : TreasuryActiveReservation) (items : List TreasuryActiveReservation) (spent : ℕ)
    (rows : List Reservation) (amount : ℤ) (is_listed : listed item.invoice_id ≡ true)
    (walk : Walk pid first listed items spent rows) where
  pub Walk-skip :
      (row : Reservation)
      → AreUnique has_invoice_of rows
      → find (has_invoice pid item.invoice_id) rows ≡ some row
      → row.status ≡ ReservationStatus.released
      → Walk pid first listed (item ∷ items) (spent + pos_part amount) rows
  Walk-skip row unique here is = record {
    linked = walk.linked;
    others = walk.others;
    unlisted = walk.unlisted;
    bounded =
        let h = skip-bounded pid item items spent rows amount row unique here is walk.bounded in
        ground arith;
  }

  module _ (new : Reservation) (new_program : new.program_id ≡ pid)
      (new_invoice : new.invoice_id ≡ item.invoice_id)
      (new_amount : new.reserved_amount_minor ≡ amount) where
    new_listed : listed new.invoice_id ≡ true
    new_listed = subst (λ i. listed i ≡ true) (sym new_invoice) is_listed

    add-unlisted :
        (id : String) (r : Reservation)
        → find (has_id id) (rows ++ new ∷ []) ≡ some r
        → r.program_id ≡ pid
        → listed r.invoice_id ≡ false
        → find (has_id id) first ≡ some r
    add-unlisted id r h is unlisted = elim (Option-cases (find (has_id id) rows)) [
      | inr (q, found) ↦
          let there = find-append_some (has_id id) rows new q found in
          let same : q ≡ r = cc (there, h) in walk.unlisted id r (found ∙ ap some same) is unlisted
      | inl absent ↦
          let there = find-append_none (has_id id) rows new absent in
          let same : new ≡ r = ground arith in
          absurd (cc (ap (λ (x : Reservation). listed x.invoice_id) same, new_listed, unlisted))
    ]

    pub Walk-add :
        find (has_invoice pid item.invoice_id) rows ≡ none
        → Walk pid first listed (item ∷ items) (spent + pos_part amount) (rows ++ new ∷ [])
    Walk-add absent = record {
      linked = λ id r h.
          let l = walk.linked id r h in
          record {
            row = l.row;
            here = find-append_some (has_id id) rows new l.row l.here;
            keys = l.keys;
            released = l.released;
          };
      others = λ id other.
          let sum = total-append_one (held_by id) rows new in
          let before = walk.others id other in
          let nothing = held_by_other pid id new new_program other in ground arith;
      unlisted = add-unlisted;
      bounded = add-bounded pid item items spent rows amount new absent new_amount walk.bounded;
    }

    module _ (id : String) (old : Reservation) (by_id : find (has_id id) rows ≡ some old)
        (old_program : old.program_id ≡ pid) (keys : SameKeys new old) (new_id : new.id ≡ id) where
      at_id : find (has_id id) (replace (has_id id) new rows) ≡ some new
      at_id = find-replace_self (has_id id) new rows old by_id ((eq_iff new.id id).1 new_id)

      rewrite-others :
          (other : String)
          → (other == pid) ≡ false
          → held other (replace (has_id id) new rows) ≡ held other first
      rewrite-others other apart =
          let sum = total-replace (held_by other) (has_id id) new rows old by_id in
          let before = walk.others other apart in
          let nothing = held_by_other pid other new new_program apart in
          let nothing_before = held_by_other pid other old old_program apart in ground arith

      rewrite-unlisted :
          (other : String) (r : Reservation)
          → find (has_id other) (replace (has_id id) new rows) ≡ some r
          → r.program_id ≡ pid
          → listed r.invoice_id ≡ false
          → find (has_id other) first ≡ some r
      rewrite-unlisted other r h is unlisted = elim (Bool-cases (other == id)) [
        | inr apart ↦
            walk.unlisted other r (sym (replace_other id other new rows new_id apart) ∙ h) is
              unlisted
        | inl same ↦
            let at_other : other ≡ id = (eq_iff other id).0 same in
            let there =
              subst (λ x. find (has_id x) (replace (has_id id) new rows) ≡ some r) at_other h in
            let is_new : new ≡ r = cc (at_id, there) in
            absurd (cc (ap (λ (x : Reservation). listed x.invoice_id) is_new, new_listed, unlisted))
      ]

      pub Walk-rewrite :
          (first_row : Reservation)
          → find (has_id id) first ≡ some first_row
          → first_row.status ≢ ReservationStatus.released
          → AreUnique has_invoice_of rows
          → find (has_invoice pid item.invoice_id) rows ≡ some old
          → Walk pid first listed
              (item ∷ items)
              (spent + pos_part amount)
              (replace (has_id id) new rows)
      Walk-rewrite first_row there closed unique by_invoice = record {
        linked = relink first rows id old new by_id keys new_id first_row there closed walk.linked;
        others = rewrite-others;
        unlisted = rewrite-unlisted;
        bounded =
            rewrite-bounded pid item items spent rows amount id old new unique by_id by_invoice
              new_amount walk.bounded;
      }
