-- ===== src/Store/Keeps.antt =====
-- Invariants of a transaction: what held before a step that returns holds after it. One rule for
-- each way to build a step.
use program_capacity_invoice.Base.{◌≡◌, refl, Bool, true, false, Option, none, some, if◌then◌else◌}
use mathlib.Core.Path.{subst}
use program_capacity_invoice.Errors.{Exception, Result, ok, fail}
use program_capacity_invoice.Store.Schema.{Db}
use program_capacity_invoice.Store.Transaction.{
  Tx, pure, throw, gets, lift, or_throw, throw_if, modify, run, settle, ◌>>=◌, >>=-eq-ok,
}

pub record Keeps {ℓ} {A : Type 0} (P : Db → Type ℓ) (m : Tx A) : Type ℓ where
  pub at : (db : Db) (a : A) (after : Db) → m db ≡ ok (a, after) → P db → P after

-- A step that returned in one state returned that state.
pub ok_state :
    {A : Type 0} {a b : A} {s t : Db} → ◌≡◌ {A = Result (A × Db)} (ok (a, s)) (ok (b, t)) → s ≡ t
ok_state e = cc e

pub ok_value :
    {A : Type 0} {a b : A} {s t : Db} → ◌≡◌ {A = Result (A × Db)} (ok (a, s)) (ok (b, t)) → a ≡ b
ok_value e = cc e

module _ {ℓ} {P : Db → Type ℓ} where
  module _ {A : Type 0} where
    pub Keeps-pure : (a : A) → Keeps P (pure a)
    unfolding ◌>>=◌
    Keeps-pure a = record { at = λ db b after e h. subst P (ok_state e) h }

    pub Keeps-gets : (f : Db → A) → Keeps P (gets f)
    unfolding ◌>>=◌
    Keeps-gets f = record { at = λ db b after e h. subst P (ok_state e) h }

    pub Keeps-throw : (x : Exception) → Keeps P (throw {A = A} x)
    unfolding ◌>>=◌
    Keeps-throw x = record { at = λ db b after e h. absurd (cc e) }

    pub Keeps-lift : (r : Result A) → Keeps P (lift r)
    unfolding ◌>>=◌
    Keeps-lift (ok a) = Keeps-pure a
    Keeps-lift (fail x) = Keeps-throw x

    pub Keeps-or_throw : (o : Option A) (x : Exception) → Keeps P (or_throw o x)
    unfolding ◌>>=◌
    Keeps-or_throw none x = Keeps-throw x
    Keeps-or_throw (some a) x = Keeps-pure a

    pub Keeps-branch :
        (test : Bool) (first second : Tx A) (kept : test ≡ true → Keeps P first)
        (also_kept : test ≡ false → Keeps P second)
        → Keeps P (if test then first else second)
    Keeps-branch false first second kept also_kept = also_kept refl
    Keeps-branch true first second kept also_kept = kept refl

    -- A failed transaction is undone, so running one keeps what its work keeps.
    pub Keeps-run : (m : Tx A) (db : Db) → Keeps P m → P db → P (run m db).1
    unfolding run
    Keeps-run m db k h = split (m db) refl
      where
        split : (r : Result (A × Db)) → m db ≡ r → P (settle db r).1
        split (ok (a, after)) e = k.at db a after e h
        split (fail x) e = h

  pub Keeps-modify : (f : Db → Db) → ((db : Db) → P db → P (f db)) → Keeps P (modify f)
  unfolding ◌>>=◌
  Keeps-modify f k = record { at = λ db b after e h. subst P (ok_state e) (k db h) }

  pub Keeps-throw_if : (b : Bool) (x : Exception) → Keeps P (throw_if b x)
  unfolding ◌>>=◌
  Keeps-throw_if true x = Keeps-throw x
  Keeps-throw_if false x = Keeps-pure tt

  pub Keeps-bind :
      {A B : Type 0} (m : Tx A) (f : A → Tx B)
      → Keeps P m
      → ((a : A) → Keeps P (f a))
      → Keeps P (m >>= f)
  Keeps-bind m f km kf = record {
    at = λ db b after e h.
        let (a, mid, em, ef) = >>=-eq-ok m f db b after e in
        (kf a).at mid b after ef (km.at db a mid em h);
  }

pub ruleset keeps_rules = (
  Keeps-pure, Keeps-gets, Keeps-throw, Keeps-lift, Keeps-or_throw, Keeps-throw_if, Keeps-branch,
  Keeps-bind,
)
