-- ===== src/Store/Transaction.antt =====
-- Work in a database transaction (`PrismaTx`), and `TransactionManager.run`: an exception undoes
-- all that the work wrote. Transactions run one after another.
use program_capacity_invoice.Base.{
  ◌≡◌, refl, Bool, true, false, Option, none, some, ◌⊎◌, inl, inr, arith,
}
use program_capacity_invoice.Errors.{Exception, Result, ok, fail}
use program_capacity_invoice.Store.Schema.{Db}

abbrev pub Tx : Type 0 → Type 0
Tx A = Db → Result (A × Db)

module _ {A : Type 0} where
  pub pure : A → Tx A
  pure a db = ok (a, db)

  pub throw : Exception → Tx A
  throw e db = fail e

  pub gets : (Db → A) → Tx A
  gets f db = ok (f db, db)

  pub lift : Result A → Tx A
  lift (ok a) db = ok (a, db)
  lift (fail e) db = fail e

  pub or_throw : Option A → Exception → Tx A
  or_throw none e db = fail e
  or_throw (some a) e db = ok (a, db)

pub modify : (Db → Db) → Tx (Unit {0})
modify f db = ok (tt, f db)

pub throw_if : Bool → Exception → Tx (Unit {0})
throw_if true e db = fail e
throw_if false e db = ok (tt, db)

module _ {A : Type 0} where
  -- Commit what the work wrote, or roll back to the state before it.
  abbrev pub settle : Db → Result (A × Db) → Result A × Db
  settle db (ok (a, after)) = (ok a, after)
  settle db (fail e) = (fail e, db)

  -- `TransactionManager.run`
  unfoldable pub run : Tx A → Db → Result A × Db
  run work db = settle db (work db)

abbrev continue : {A B : Type 0} → Result (A × Db) → (A → Tx B) → Result (B × Db)
continue (ok (a, after)) f = f a after
continue (fail e) f = fail e

infixl 5 ◌>>=◌ ◌>>◌
-- Opening this opens every step above.
unfoldable pub ◌>>=◌ : {A B : Type 0} → Tx A → (A → Tx B) → Tx B
unfolding pure throw gets lift or_throw modify throw_if
◌>>=◌ m f db = continue (m db) f

abbrev pub ◌>>◌ : {A B : Type 0} → Tx A → Tx B → Tx B
m >> k = m >>= λ _. k

-- What a sequence of two steps returned, step by step.
pub >>=-eq-ok :
    {A B : Type 0} (m : Tx A) (f : A → Tx B) (db : Db) (b : B) (after : Db)
    → (m >>= f) db ≡ ok (b, after)
    → (a : A) × (mid : Db) × (m db ≡ ok (a, mid)) × (f a mid ≡ ok (b, after))
unfolding ◌>>=◌
>>=-eq-ok m f db b after h = split (m db) refl h
  where
    split :
        (r : _)
        → m db ≡ r
        → continue r f ≡ ok (b, after)
        → (a : _) × (mid : Db) × (m db ≡ ok (a, mid)) × (f a mid ≡ ok (b, after))
    split (ok (a, mid)) e h = (a, mid, e, h)
    split (fail x) e h = cc

-- Where a sequence of two steps failed.
pub >>=-eq-fail :
    {A B : Type 0} (m : Tx A) (f : A → Tx B) (db : Db) (x : Exception)
    → (m >>= f) db ≡ fail x
    → (m db ≡ fail x) ⊎ ((a : A) × (mid : Db) × (m db ≡ ok (a, mid)) × (f a mid ≡ fail x))
unfolding ◌>>=◌
>>=-eq-fail m f db x h = split (m db) refl h
  where
    split :
        (r : _)
        → m db ≡ r
        → continue r f ≡ fail x
        → (m db ≡ fail x) ⊎ ((a : _) × (mid : Db) × (m db ≡ ok (a, mid)) × (f a mid ≡ fail x))
    split (ok (a, mid)) e h = inr (a, mid, e, h)
    split (fail y) e h = inl (ground arith)
