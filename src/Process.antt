-- ===== src/Process.antt =====
-- Processes that share the database: the worker, the scheduler's reconciler, and the broker where it
-- cancels a job. A process makes its transactions one after another; before each of them, and while it
-- waits for an adapter, the other processes may commit any operations.
pub mod History
pub mod Permits
pub mod Returns
use deckhand.Base.{ℕ, suc, Bool, true, false, List, Option, none, some, if◌then◌else◌}
use deckhand.Result.{Error, Result, ok, err}
use deckhand.Store.Rows.{Db}
use deckhand.Store.Tx.{Tx, transact}
use deckhand.Store.Audit.{Store, Moment}
use deckhand.Store.Operation.{Operation, run}

-- What others commit before the process's step with a given number, and the moment of that step.
pub record Schedule : Type 0 where
  pub others : ℕ → List (Moment × Operation)
  pub at : ℕ → Moment

-- The database, and the number of steps that the process has made.
pub record World : Type 0 where
  pub db : Db
  pub turn : ℕ

-- A step ends with a value or an exception; what was committed stays committed.
abbrev pub Process : Type 0 → Type 0
Process A = World → Result A × World

abbrev pub pure : {A : Type 0} → A → Process A
pure a w = (ok a, w)

abbrev pub raise : {A : Type 0} → Error → Process A
raise e w = (err e, w)

abbrev pub lift : {A : Type 0} → Result A → Process A
lift r w = (r, w)

-- What follows a step that has ended, and what handles its exception.
abbrev pub continue : {A B : Type 0} → Result A × World → (A → Process B) → Result B × World
continue (ok a, w) f = f a w
continue (err e, w) f = (err e, w)

infixl 5 ◌>>=◌ ◌>>◌
abbrev pub ◌>>=◌ : {A B : Type 0} → Process A → (A → Process B) → Process B
◌>>=◌ m f w = continue (m w) f

abbrev pub ◌>>◌ : {A B : Type 0} → Process A → Process B → Process B
m >> k = m >>= λ _. k

abbrev pub rescue : {A : Type 0} → Result A × World → (Error → Process A) → Result A × World
rescue (ok a, w) f = (ok a, w)
rescue (err e, w) f = f e w

-- `try: m  except: f`, where `f` raises again what it does not handle
abbrev pub handle : {A : Type 0} → Process A → (Error → Process A) → Process A
handle m f w = rescue (m w) f

module _ (store : Store) (schedule : Schedule) where
  -- A transaction of the process's own.
  unfoldable pub commit : {A : Type 0} → (Moment → Tx A) → Process A
  unfolding transact
  commit tx w =
      let (r, db) = transact (tx (schedule.at w.turn)) (run store (schedule.others w.turn) w.db) in
      (r, record { db = db; turn = suc w.turn })

-- A call of an adapter.
unfoldable pub ask : {A : Type 0} → (ℕ → Result A) → Process A
ask call w = (call w.turn, record w { turn = suc w.turn })
