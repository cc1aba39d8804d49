-- ===== src/Store/Inversion.antt =====
-- Reading back what the steps of a transaction that returned have done.
use program_capacity_invoice.Base.{◌≡◌, refl, Option, none, some, arith}
use program_capacity_invoice.Errors.{Exception, Result, ok, fail}
use program_capacity_invoice.Store.Schema.{Db}
use program_capacity_invoice.Store.Transaction.{
  Tx, gets, lift, or_throw, pure, modify, run, settle, ◌>>=◌,
}

module _ {A : Type 0} where
  -- A transaction that returned has committed what its work wrote.
  pub run-eq-ok :
      (m : Tx A) (db : Db) (a : A) (after : Db) → run m db ≡ (ok a, after) → m db ≡ ok (a, after)
  unfolding run
  run-eq-ok m db a after h = split (m db) refl h
    where
      split : (r : Result (A × Db)) → m db ≡ r → settle db r ≡ (ok a, after) → m db ≡ ok (a, after)
      split (ok (b, mid)) e h = ground arith
      split (fail x) e h = absurd (cc h)

  -- One that failed has left the database as it was.
  pub run-eq-fail :
      (m : Tx A) (db : Db) (x : Exception) (after : Db)
      → run m db ≡ (fail x, after)
      → (after ≡ db) × (m db ≡ fail x)
  unfolding run
  run-eq-fail m db x after h = split (m db) refl h
    where
      split :
          (r : Result (A × Db))
          → m db ≡ r
          → settle db r ≡ (fail x, after)
          → (after ≡ db) × (m db ≡ fail x)
      split (ok (b, mid)) e h = absurd (cc h)
      split (fail y) e h = (ground arith, ground arith)

  pub gets-eq-ok :
      (f : Db → A) (db : Db) (a : A) (after : Db)
      → gets f db ≡ ok (a, after)
      → (a ≡ f db) × (after ≡ db)
  unfolding ◌>>=◌
  gets-eq-ok f db a after h = (cc h, cc h)

  pub or_throw-eq-ok :
      (o : Option A) (x : Exception) (db : Db) (a : A) (after : Db)
      → or_throw o x db ≡ ok (a, after)
      → (o ≡ some a) × (after ≡ db)
  unfolding ◌>>=◌
  or_throw-eq-ok none x db a after h = absurd (cc h)
  or_throw-eq-ok (some b) x db a after h = (cc h, cc h)

  pub lift-eq-ok :
      (r : Result A) (db : Db) (a : A) (after : Db)
      → lift r db ≡ ok (a, after)
      → (r ≡ ok a) × (after ≡ db)
  unfolding ◌>>=◌
  lift-eq-ok (ok b) db a after h = (cc h, cc h)
  lift-eq-ok (fail x) db a after h = absurd (cc h)

  pub pure-eq-ok :
      (b : A) (db : Db) (a : A) (after : Db) → pure b db ≡ ok (a, after) → (b ≡ a) × (after ≡ db)
  unfolding ◌>>=◌
  pure-eq-ok b db a after h = (cc h, cc h)

pub modify-eq-ok :
    (f : Db → Db) (db : Db) (a : Unit {0}) (after : Db) → modify f db ≡ ok (a, after) → after ≡ f db
unfolding ◌>>=◌
modify-eq-ok f db a after h = cc h
