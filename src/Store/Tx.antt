-- ===== src/Store/Tx.antt =====
-- One `with self.connect()` block of apps/broker/src/deckhand/store.py: a transaction. What it wrote
-- is committed if the block returns; an exception ends it with nothing written.
use deckhand.Base.{Option, none, some, Bool, true, false}
use deckhand.Result.{Error, Result, ok, err}
use deckhand.Store.Rows.{Db}

abbrev pub Tx : Type 0 → Type 0
Tx A = Db → Result (A × Db)

infixl 5 ◌>>=◌ ◌>>◌
abbrev pub ◌>>=◌ : {A B : Type 0} → Tx A → (A → Tx B) → Tx B
◌>>=◌ m f db = elim (m db) [ err e ↦ err e | ok (a, db') ↦ f a db' ]

abbrev pub ◌>>◌ : {A B : Type 0} → Tx A → Tx B → Tx B
m >> k = m >>= λ _. k

module _ {A : Type 0} where
  abbrev pub pure : A → Tx A
  pure a db = ok (a, db)

  abbrev pub raise : Error → Tx A
  raise e db = err e

  abbrev pub lift : Result A → Tx A
  lift r db = elim r [ ok a ↦ ok (a, db) | err e ↦ err e ]

  -- a `SELECT`
  abbrev pub select : (Db → A) → Tx A
  select f db = ok (f db, db)

  abbrev pub or_raise : Option A → Error → Tx A
  or_raise none e = raise e
  or_raise (some a) e = pure a

-- an `UPDATE` or an `INSERT`
abbrev pub write : (Db → Db) → Tx (Unit {0})
write f db = ok (tt, f db)

abbrev pub require : Bool → Error → Tx (Unit {0})
require true e = pure tt
require false e = raise e

-- `connect`: the result of the block, and the database that is left.
abbrev pub settle : {A : Type 0} → Db → Result (A × Db) → Result A × Db
settle db (ok (a, db')) = (ok a, db')
settle db (err e) = (err e, db)

unfoldable pub transact : {A : Type 0} → Tx A → Db → Result A × Db
transact m db = settle db (m db)
