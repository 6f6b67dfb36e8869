-- ===== src/Store/Ensures.antt =====
-- What a transaction that commits has done to the database: a reflexive, transitive relation between
-- the database before and after, proved along the way the transaction is built.
use deckhand.Base.{◌≡◌, refl, Bool, true, false, Option, none, some, if◌then◌else◌}
use mathlib.Core.Path.{subst}
use deckhand.Result.{Error, Result, ok, err}
use deckhand.Store.Rows.{Db}
use deckhand.Store.Tx.{
  Tx, ◌>>=◌, pure, raise, lift, select, or_raise, write, require, settle, transact,
}

pub record Ensures (R : Db → Db → Type 0) {A : Type 0} (m : Tx A) : Type 0 where
  pub at : (db : Db) (a : A) (db' : Db) → m db ≡ ok (a, db') → R db db'

pub record IsPreorder (R : Db → Db → Type 0) : Type 0 where
  pub refl' : (db : Db) → R db db
  pub trans : (a b c : Db) → R a b → R b c → R a c

-- Inversion of a bind that commits.
pub bind-ok :
    {A B : Type 0} (m : Tx A) (f : A → Tx B) (db : Db) {b : B} {db' : Db}
    → (m >>= f) db ≡ ok (b, db')
    → (a : A) × (mid : Db) × (m db ≡ ok (a, mid)) × (f a mid ≡ ok (b, db'))
bind-ok {A} {B} m f db {b} {db'} h = go (m db) refl h
  where
    go :
        (r : Result (A × Db))
        → m db ≡ r
        → elim r [ err e ↦ err e | ok (a, mid) ↦ f a mid ] ≡ ok (b, db')
        → (a : A) × (mid : Db) × (m db ≡ ok (a, mid)) × (f a mid ≡ ok (b, db'))
    go (ok (a, mid)) e k = (a, mid, e, k)
    go (err e) _ k = cc

abbrev pub returned : {A : Type 0} → A → Db → Result (A × Db)
returned a db = ok (a, db)

same_db : {A : Type 0} (a b : A) (db db' : Db) → returned a db ≡ returned b db' → db ≡ db'
same_db a b db db' h = cc

pub never-returned : {A : Type 0} (e : Error) (b : A) (db : Db) → ¬ (err e ≡ returned b db)
never-returned e b db h = cc

module _ {R : Db → Db → Type 0} (order : IsPreorder R) where
  stays : {A : Type 0} (a b : A) (db db' : Db) → returned a db ≡ returned b db' → R db db'
  stays a b db db' h = subst (R db) (same_db a b db db' h) (order.refl' db)

  pub Ensures-pure : {A : Type 0} (a : A) → Ensures R (pure a)
  Ensures-pure a = record { at = λ db b db' h. stays a b db db' h }

  pub Ensures-raise : {A : Type 0} (e : Error) → Ensures R (raise {A = A} e)
  Ensures-raise e = record { at = λ db b db' h. absurd (never-returned e b db' h) }

  pub Ensures-lift : {A : Type 0} (r : Result A) → Ensures R (lift r)
  Ensures-lift (ok a) = Ensures-pure a
  Ensures-lift (err e) = Ensures-raise e

  pub Ensures-select : {A : Type 0} (f : Db → A) → Ensures R (select f)
  Ensures-select f = record { at = λ db b db' h. stays (f db) b db db' h }

  pub Ensures-or_raise : {A : Type 0} (o : Option A) (e : Error) → Ensures R (or_raise o e)
  Ensures-or_raise none e = Ensures-raise e
  Ensures-or_raise (some a) e = Ensures-pure a

  pub Ensures-require : (b : Bool) (e : Error) → Ensures R (require b e)
  Ensures-require true e = Ensures-pure tt
  Ensures-require false e = Ensures-raise e

  pub Ensures-if :
      {A : Type 0} (b : Bool) (m n : Tx A)
      → Ensures R m
      → Ensures R n
      → Ensures R (if b then m else n)
  Ensures-if true m n h k = h
  Ensures-if false m n h k = k

  pub Ensures-write : (f : Db → Db) → ((db : Db) → R db (f db)) → Ensures R (write f)
  Ensures-write f h = record { at = λ db a db' e. subst (R db) (same_db tt a (f db) db' e) (h db) }

  pub Ensures-bind :
      {A B : Type 0} (m : Tx A) (f : A → Tx B)
      → Ensures R m
      → ((a : A) → Ensures R (f a))
      → Ensures R (m >>= f)
  Ensures-bind m f hm hf = record {
    at = λ db b db' h.
        let (a, mid, e, k) = bind-ok m f db h in
        order.trans db mid db' (hm.at db a mid e) ((hf a).at mid b db' k);
  }

  settle-R :
      {A : Type 0} (db : Db) (r : Result (A × Db))
      → ((a : A) (db' : Db) → r ≡ returned a db' → R db db')
      → R db (settle db r).1
  settle-R db (ok (a, db')) h = h a db' refl
  settle-R db (err e) h = order.refl' db

  -- A transaction that fails leaves the database as it was.
  pub Ensures-transact : {A : Type 0} (m : Tx A) (db : Db) → Ensures R m → R db (transact m db).1
  unfolding transact
  Ensures-transact m db h = settle-R db (m db) (h.at db)
