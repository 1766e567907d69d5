-- ===== src/Db/Action/Effects.antt =====
-- What actions may do to the database: one rule for each way to build an action.
use tax_professional_managem.Common.{
  Bool, true, false, ◌≡◌, refl, ap, Option, none, some, if◌then◌else◌,
}
use tax_professional_managem.Db.{Db}
use tax_professional_managem.Db.Action.{
  Action, AppError, Result, ok, err, pure, throw, gets, or_throw, throw_if, proceed, roll_back,
  transaction, ◌>>=◌,
}

-- Changes that an action may make: none at all, and one after another.
pub record IsEffect (R : Db → Db → Type 0) : Type 0 where
  pub unchanged : (db : Db) → R db db
  pub after : (a b c : Db) → R a b → R b c → R a c

-- The database that `m` leaves behind is `R`-related to the one that it began in, also if it throws.
pub record Effect {A : Type 0} (R : Db → Db → Type 0) (m : Action A) : Type 0 where
  pub at : (db : Db) → R db (m db).1

module _ {R : Db → Db → Type 0} where
  module _ {A : Type 0} where
    pub Effect-pure : IsEffect R → (a : A) → Effect R (pure a)
    unfolding pure
    Effect-pure q a = record { at = λ db. q.unchanged db }

    pub Effect-throw : IsEffect R → (e : AppError) → Effect R (throw {A = A} e)
    unfolding throw
    Effect-throw q e = record { at = λ db. q.unchanged db }

    pub Effect-gets : IsEffect R → (f : Db → A) → Effect R (gets f)
    unfolding gets
    Effect-gets q f = record { at = λ db. q.unchanged db }

    pub Effect-or_throw : IsEffect R → (o : Option A) (e : AppError) → Effect R (or_throw o e)
    unfolding or_throw
    Effect-or_throw q none e = record { at = λ db. q.unchanged db }
    Effect-or_throw q (some a) e = record { at = λ db. q.unchanged db }

    pub Effect-if :
        (b : Bool) (m n : Action A) → Effect R m → Effect R n → Effect R (if b then m else n)
    Effect-if true m n em en = em
    Effect-if false m n em en = en

  pub Effect-throw_if : IsEffect R → (b : Bool) (e : AppError) → Effect R (throw_if b e)
  unfolding throw_if
  Effect-throw_if q true e = record { at = λ db. q.unchanged db }
  Effect-throw_if q false e = record { at = λ db. q.unchanged db }

  roll_back_effect :
      {A : Type 0} (q : IsEffect R) (db : Db) (p : Result A × Db)
      → R db p.1
      → R db (roll_back db p).1
  roll_back_effect q db (ok a, db') h = h
  roll_back_effect q db (err e, db') h = q.unchanged db

  pub Effect-transaction :
      {A : Type 0} → IsEffect R → (m : Action A) → Effect R m → Effect R (transaction m)
  unfolding transaction
  Effect-transaction q m em = record { at = λ db. roll_back_effect q db (m db) (em.at db) }

  proceed_effect :
      {A B : Type 0} (q : IsEffect R) (r : Result A) (f : A → Action B) (start db : Db)
      → R start db
      → ((a : A) → Effect R (f a))
      → R start (proceed r f db).1
  proceed_effect q (ok a) f start db h ef = q.after start db _ h ((ef a).at db)
  proceed_effect q (err e) f start db h ef = h

  pub Effect-bind :
      {A B : Type 0}
      → IsEffect R
      → (m : Action A) (f : A → Action B) → Effect R m
      → ((a : A) → Effect R (f a))
      → Effect R (m >>= f)
  unfolding ◌>>=◌
  Effect-bind q m f em ef = record {
    at = λ db. let (r, db') = m db in proceed_effect q r f db db' (em.at db) ef;
  }

pub ruleset effect_rules = (
  Effect-pure, Effect-throw, Effect-gets, Effect-or_throw, Effect-if, Effect-throw_if,
  Effect-transaction, Effect-bind,
)

-- How a sequence that returns has got there.
proceed_ok :
    {A B : Type 0} (r : Result A) (f : A → Action B) (db1 db' : Db) {b : B}
    → proceed r f db1 ≡ (ok b, db')
    → (a : A) × (r ≡ ok a) × (f a db1 ≡ (ok b, db'))
proceed_ok (ok a) f db1 db' e = (a, refl, e)
proceed_ok (err x) f db1 db' e = cc

pub bind_ok :
    {A B : Type 0} (m : Action A) (f : A → Action B) (db db' : Db) {b : B}
    → (m >>= f) db ≡ (ok b, db')
    → (a : A) × (db1 : Db) × (m db ≡ (ok a, db1)) × (f a db1 ≡ (ok b, db'))
unfolding ◌>>=◌
bind_ok m f db db' e =
    let (a, returned, rest) = proceed_ok (m db).0 f (m db).1 db' e in
    (a, (m db).1, ap (λ r. (r, (m db).1)) returned, rest)

pub pure_ok : {A : Type 0} {a b : A} {db db' : Db} → pure a db ≡ (ok b, db') → (a ≡ b) × (db' ≡ db)
unfolding pure
pure_ok e = (cc, cc)

pub gets_ok :
    {A : Type 0} (f : Db → A) {a : A} {db db' : Db}
    → gets f db ≡ (ok a, db')
    → (f db ≡ a) × (db' ≡ db)
unfolding gets
gets_ok f e = (cc, cc)

pub or_throw_ok :
    {A : Type 0} (o : Option A) (e : AppError) {a : A} {db db' : Db}
    → or_throw o e db ≡ (ok a, db')
    → (o ≡ some a) × (db' ≡ db)
unfolding or_throw
or_throw_ok none e h = cc
or_throw_ok (some a) e h = (cc, cc)

pub throw_if_ok :
    (b : Bool) (e : AppError) {db db' : Db}
    → throw_if b e db ≡ (ok tt, db')
    → (b ≡ false) × (db' ≡ db)
unfolding throw_if
throw_if_ok true e h = cc
throw_if_ok false e h = (refl, cc)
