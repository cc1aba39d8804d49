-- ===== src/Effects/Reconciliation.antt =====
-- What a reconciliation does: treasury/treasury-reconciliation.handler.ts.
use mathlib.Core.Path.{subst}
use program_capacity_invoice.Effects.Declared.{Starts, created_from-Starts}
use program_capacity_invoice.Base.{
  Bool, true, false, ◌||◌, not, ◌≡◌, refl, sym, ◌∙◌, ap, Option, none, some, [], ◌∷◌, words, arith,
  ◌⊎◌, inl, inr, if◌then◌else◌,
}
use program_capacity_invoice.Base.Int.{ℤ, pos, ◌≤ℤ◌, eqb_ℤ, eqb_ℤ→eq}
use program_capacity_invoice.Base.Rows.{find}
use program_capacity_invoice.Errors.{ok}
use program_capacity_invoice.Store.{Program, RunStatus, Db, Env, pure, ◌>>◌, >>=-eq-ok}
use program_capacity_invoice.Store.Keeps.{Keeps, keeps_rules}
use program_capacity_invoice.Store.Inversion.{pure-eq-ok, gets-eq-ok, lift-eq-ok}
use program_capacity_invoice.Programs.Repository as Programs
use program_capacity_invoice.Programs.Updates.{create_from_treasury-Creates}
use program_capacity_invoice.Treasury.Events.{
  Platform, TreasuryReconciliationEvent, TreasuryMessageMeta, TreasuryHandlerResultStatus, applied,
  stale, ignored,
}
use program_capacity_invoice.Treasury.Messages.{processed_row, seen_before}
use program_capacity_invoice.Treasury.Runs as Runs
use program_capacity_invoice.Treasury.Snapshot.{currency_mismatch, snapshot_sum}
use program_capacity_invoice.Treasury.CapacityUpdate.{is_stale}
use program_capacity_invoice.Treasury.Reconciliation.{
  Declared, unapplied_run, conflict_metadata, read_declared, find_or_create, found_or_created,
  apply_snapshot, check_and_apply, apply_event, process, handle,
}
use program_capacity_invoice.Effects.Recording.{ends-SameBooks, once_lem, is_stale-current}
use program_capacity_invoice.Effects.Snapshot.{
  SameAccounts, accounts_of_eq, accounts_trans, insert_run-SameAccounts, Replaces,
  apply_snapshot-Replaces,
}

module _ (platform : Platform) (env : Env) (event : TreasuryReconciliationEvent)
    (declared : Declared) where
  -- What a snapshot that is not stale has done to its program, by the result.
  pub data Judgement (p : Program) (db : Db) (status : TreasuryHandlerResultStatus) (after : Db)
      : Type 0 where
    contradictory :
        (sum : ℤ)
        → snapshot_sum (pos 0) event.payload.active_reservations ≡ ok sum
        → (currency_mismatch event.payload.currency event.payload.active_reservations
            || not (eqb_ℤ sum declared.reserved_amount_minor))
          ≡ true
        → status ≡ ignored
        → SameAccounts db after
        → Judgement p db status after
    coherent :
        snapshot_sum (pos 0) event.payload.active_reservations ≡ ok declared.reserved_amount_minor
        → currency_mismatch event.payload.currency event.payload.active_reservations ≡ false
        → status ≡ applied
        → Replaces platform env event declared p declared.reserved_amount_minor db after
        → Judgement p db status after

  coherent_sum :
      (mismatch : Bool) (sum : ℤ)
      → (mismatch || not (eqb_ℤ sum declared.reserved_amount_minor)) ≡ false
      → (mismatch ≡ false) × (sum ≡ declared.reserved_amount_minor)
  coherent_sum true sum h = absurd (cc h)
  coherent_sum false sum h = (refl, eqb_ℤ→eq sum declared.reserved_amount_minor (ground arith))

  check_and_apply-Judgement :
      (p : Program) (db : Db) (status : TreasuryHandlerResultStatus) (after : Db)
      → check_and_apply platform env event declared p db ≡ ok (status, after)
      → Judgement p db status after
  unfolding check_and_apply
  check_and_apply-Judgement p db status after h =
      let (sum, mid, h1, rest) = >>=-eq-ok _ _ db status after h in
      let (is_sum, at) = lift-eq-ok _ db sum mid h1 in
      subst (λ d. Judgement p d status after) at
        (by_verdict mid sum is_sum (mismatch || not (eqb_ℤ sum declared.reserved_amount_minor)) refl
          rest)
    where
      mismatch : Bool
      mismatch = currency_mismatch event.payload.currency event.payload.active_reservations

      by_verdict :
          (base : Db) (sum : ℤ)
          → snapshot_sum (pos 0) event.payload.active_reservations ≡ ok sum
          → (verdict : Bool)
          → (mismatch || not (eqb_ℤ sum declared.reserved_amount_minor)) ≡ verdict
          → (if verdict
                then Runs.insert (
                    unapplied_run platform env event declared p RunStatus.conflict
                      (conflict_metadata platform env event declared mismatch sum))
                  >> pure ignored
                else apply_snapshot platform env event declared p sum >> pure applied)
              base
            ≡ ok (status, after)
          → Judgement p base status after
      by_verdict base sum is_sum true is h =
          let (u, mid, inserted, rest) = >>=-eq-ok _ _ base status after h in
          let (is_status, at) = pure-eq-ok ignored mid status after rest in
          contradictory sum is_sum is (sym is_status)
            (subst (SameAccounts base) (sym at) (insert_run-SameAccounts _ base u mid inserted))
      by_verdict base sum is_sum false is h =
          let (u, mid, did, rest) = >>=-eq-ok _ _ base status after h in
          let (is_status, at) = pure-eq-ok applied mid status after rest in
          let (same_currency, same_sum) = coherent_sum mismatch sum is in
          coherent (is_sum ∙ ap ok same_sum) same_currency (sym is_status) (
            subst (λ n. Replaces platform env event declared p n base after) same_sum
              (subst (Replaces platform env event declared p sum base) (sym at)
                (apply_snapshot-Replaces platform env event declared p sum base u mid did)))

  -- The program that a reconciliation is for.
  pub data Opens (db : Db) (p : Program) (created : Bool) (base : Db) : Type 0 where
    existing :
        find (Programs.has_external_ref event.program_external_ref) db.programs ≡ some p
        → created ≡ false
        → base ≡ db
        → Opens db p created base
    fresh :
        (exponent : ℤ)
        → find (Programs.has_external_ref event.program_external_ref) db.programs ≡ none
        → find (Programs.has_id p.id) db.programs ≡ none
        → created ≡ true
        → base ≡ Programs.insert_row p db
        → Starts event.program_external_ref event.payload.currency declared.total_limit_minor
            declared.treasury_version p
        → Opens db p created base

  found_or_created-Opens :
      (found : Option Program) (db : Db) (p : Program) (created : Bool) (base : Db)
      → find (Programs.has_external_ref event.program_external_ref) db.programs ≡ found
      → found_or_created platform env event declared found db ≡ ok ((p, created), base)
      → Opens db p created base
  unfolding found_or_created
  found_or_created-Opens (some q) db p created base is h =
      let (same, at) = pure-eq-ok (q, false) db (p, created) base h in
      existing (is ∙ ap (λ (x : Program × Bool). some x.0) same)
        (sym (ap (λ (x : Program × Bool). x.1) same)) at
  found_or_created-Opens none db p created base is h =
      let (exponent, db1, h1, rest1) = >>=-eq-ok _ _ db (p, created) base h in
      let (q, db2, h2, rest2) = >>=-eq-ok _ _ db1 (p, created) base rest1 in
      let (_, at1) = lift-eq-ok _ db exponent db1 h1 in
      let (same, at) = pure-eq-ok (q, true) db2 (p, created) base rest2 in
      let values : Programs.CreateFromTreasuryInput = record {
        external_ref = event.program_external_ref;
        currency = event.payload.currency;
        currency_exponent = exponent;
        total_limit_minor = declared.total_limit_minor;
        treasury_version = declared.treasury_version;
        occurred_at = declared.occurred_at;
      } in
      let made = create_from_treasury-Creates env values db1 q db2 h2 in
      let at_row : q ≡ p = ap (λ (x : Program × Bool). x.0) same in
      let free : find (Programs.has_id q.id) db1.programs ≡ none = rw made.row made.new_id in
      fresh exponent is
        (subst (λ (x : Program). find (Programs.has_id x.id) db.programs ≡ none) at_row
          (subst (λ (d : Db). find (Programs.has_id q.id) d.programs ≡ none) at1 free))
        (sym (ap (λ (x : Program × Bool). x.1) same))
        (at
          ∙ made.state
          ∙ ap (Programs.insert_row q) at1
          ∙ ap (λ x. Programs.insert_row x db) (ap (λ (x : Program × Bool). x.0) same))
        (subst
          (Starts event.program_external_ref event.payload.currency declared.total_limit_minor
            declared.treasury_version)
          (sym made.row ∙ at_row)
          (created_from-Starts (env.gen_random_uuid db1.uuids) env.now values))

  -- What the handler has done with a message that it has not seen before.
  pub data Handled (db : Db) (status : TreasuryHandlerResultStatus) (after : Db) : Type 0 where
    outdated :
        (p : Program) (current : ℤ)
        → find (Programs.has_external_ref event.program_external_ref) db.programs ≡ some p
        → p.treasury_version ≡ some current
        → declared.treasury_version ≤ℤ current
        → status ≡ stale
        → SameAccounts db after
        → Handled db status after
    judged :
        (p : Program) (created : Bool) (base mid : Db)
        → Opens db p created base
        → (created ≡ true) ⊎ (is_stale declared.treasury_version p.treasury_version ≡ false)
        → Judgement p base status mid
        → SameAccounts mid after
        → Handled db status after

  apply_event-Handled :
      (p : Program) (created : Bool) (db base mid after : Db) (status : TreasuryHandlerResultStatus)
      → Opens db p created base
      → apply_event platform env event declared p created base ≡ ok (status, mid)
      → SameAccounts mid after
      → Handled db status after
  unfolding apply_event
  apply_event-Handled p true db base mid after status opens h same =
      judged p true base mid opens (inl refl) (check_and_apply-Judgement p base status mid h) same
  apply_event-Handled p false db base mid after status (fresh _ _ _ is _ _) h same = absurd (cc is)
  apply_event-Handled p false db base mid after status (existing found is at) h same =
      by_age (is_stale declared.treasury_version p.treasury_version) refl h
    where
      by_age :
          (old : Bool)
          → is_stale declared.treasury_version p.treasury_version ≡ old
          → (if old
                then Runs.insert (
                    unapplied_run platform env event declared p RunStatus.stale_skipped
                      (("currency", words event.payload.currency) ∷ []))
                  >> pure stale
                else check_and_apply platform env event declared p)
              base
            ≡ ok (status, mid)
          → Handled db status after
      by_age true is_old h =
          let (u, mid', inserted, rest) = >>=-eq-ok _ _ base status mid h in
          let (is_status, at_mid) = pure-eq-ok stale mid' status mid rest in
          let (current, has, older) =
            is_stale-current declared.treasury_version p.treasury_version is_old in
          let kept = insert_run-SameAccounts _ base u mid' inserted in
          outdated p current found has older (sym is_status) (
            accounts_trans db base after (accounts_of_eq at) (
              accounts_trans base mid' after kept
                (accounts_trans mid' mid after (accounts_of_eq at_mid) same)))
      by_age false is_new h =
          judged p false base mid (existing found is at) (inr is_new)
            (check_and_apply-Judgement p base status mid h) same

module _ (platform : Platform) (env : Env) (event : TreasuryReconciliationEvent) where
  -- What a reconciliation has done, by the result that it returns.
  pub data Outcome (meta : TreasuryMessageMeta) (db : Db) (status : TreasuryHandlerResultStatus)
      (after : Db) : Type 0 where
    seen :
        seen_before event.message_id meta db ≡ ok (some status, db)
        → after ≡ db
        → Outcome meta db status after
    handled :
        (declared : Declared)
        → read_declared platform env event db ≡ ok (declared, db)
        → Handled platform env event declared db status after
        → Outcome meta db status after

  read_declared-reads :
      (db : Db) (declared : Declared) (after : Db)
      → read_declared platform env event db ≡ ok (declared, after)
      → after ≡ db
  unfolding read_declared
  read_declared-reads db declared after h =
      let reads : Keeps (λ d. db ≡ d) (read_declared platform env event) =
        search keeps_rules depth 12 in
      sym (reads.at db declared after h refl)

  -- A reconciliation that returns was seen before, or is not newer than its program, or was judged.
  -- In the first case the database is as it was; in the second the accounts are. A snapshot whose sum
  -- is not the declared amount, or with another currency than its own, is `ignored`, and changes no
  -- account but that of a program it has just created. One that agrees with itself is `applied`: the
  -- row of its program gets the declared limit, and the sum of the snapshot as reserved amount.
  pub reconciliation-Outcome :
      (meta : TreasuryMessageMeta) (db : Db) (status : TreasuryHandlerResultStatus) (after : Db)
      → handle platform env event meta db ≡ ok (status, after)
      → Outcome meta db status after
  unfolding handle process find_or_create Programs.find_by_external_ref_for_update
  reconciliation-Outcome meta db status after h =
      elim (once_lem event.message_id meta (process platform env event meta) db status after h) [
        | inl (found, same) ↦ seen found same
        | inr (new, work) ↦
            let (declared, db1, h1, rest1) = >>=-eq-ok _ _ db status after work in
            let ((p, created), base, h2, rest2) = >>=-eq-ok _ _ db1 status after rest1 in
            let (result, mid, h3, rest3) = >>=-eq-ok _ _ base status after rest2 in
            let at1 = read_declared-reads db declared db1 h1 in
            let (found, db2, h4, rest4) = >>=-eq-ok _ _ db1 (p, created) base h2 in
            let (is_found, at2) = gets-eq-ok _ db1 found db2 h4 in
            let (is, books) =
              ends-SameBooks
                (processed_row event.message_id "PROGRAM_RECONCILIATION" event.program_external_ref
                  meta)
                mid result status after rest3 in
            let opens =
              found_or_created-Opens platform env event declared found db p created base
                (sym (
                  is_found
                  ∙ ap
                      (λ (d : Db).
                        find (Programs.has_external_ref event.program_external_ref) d.programs)
                      at1))
                (subst
                  (λ d.
                    found_or_created platform env event declared found d ≡ ok ((p, created), base))
                  (at2 ∙ at1) rest4) in
            handled declared
              (subst (λ d. read_declared platform env event db ≡ ok (declared, d)) at1 h1)
              (subst (λ x. Handled platform env event declared db x after) (sym is)
                (apply_event-Handled platform env event declared p created db base mid after result
                  opens h3
                  (record {
                    programs = books.programs;
                    reservations = books.reservations;
                    ledger = books.ledger;
                  })))
      ]
