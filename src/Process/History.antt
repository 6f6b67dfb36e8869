-- ===== src/Process/History.antt =====
-- What a process does to the database, together with the others, is a list of operations: one rule for
-- each way to build a process.
use deckhand.Base.{
  ◌≡◌, refl, sym, ap, ◌∙◌, Bool, true, false, List, [], ◌∷◌, ◌++◌, All, All-append, ℕ, suc,
}
use deckhand.Result.{Error, Result, ok, err}
use deckhand.Store.Rows.{Db}
use deckhand.Store.Tx.{Tx, transact}
use deckhand.Store.Audit.{Store, Moment}
use deckhand.Store.Operation.{Operation, apply, run}
use deckhand.Process.{
  Schedule, World, Process, pure, raise, lift, ◌>>=◌, handle, continue, rescue, commit, ask,
}

pub run-append :
    (store : Store) (a b : List (Moment × Operation)) (db : Db)
    → run store (a ++ b) db ≡ run store b (run store a db)
unfolding run
run-append store [] b db = refl
run-append store ((m, op) ∷ a) b db = run-append store a b (apply store m op db)

-- A database reached from another by operations that all satisfy `P`.
pub record IsReached (store : Store) (P : Moment × Operation → Type 0) (db db' : Db) : Type 0 where
  pub operations : List (Moment × Operation)
  pub each : All P operations
  pub reached : db' ≡ run store operations db

module _ (store : Store) (P : Moment × Operation → Type 0) where
  IsReached-refl : (db : Db) → IsReached store P db db
  unfolding run
  IsReached-refl db = record { operations = []; each = tt; reached = refl }

  IsReached-trans :
      (a b c : Db) → IsReached store P a b → IsReached store P b c → IsReached store P a c
  IsReached-trans a b c h k = record {
    operations = h.operations ++ k.operations;
    each = All-append P h.operations k.operations h.each k.each;
    reached =
        k.reached
        ∙ ap (run store k.operations) h.reached
        ∙ sym (run-append store h.operations k.operations a);
  }

  pub record Performs {A : Type 0} (m : Process A) : Type 0 where
    pub at : (w : World) → IsReached store P w.db (m w).1.db

  pub Performs-pure : {A : Type 0} (a : A) → Performs (pure a)
  Performs-pure a = record { at = λ w. IsReached-refl w.db }

  pub Performs-raise : {A : Type 0} (e : Error) → Performs (raise {A = A} e)
  Performs-raise e = record { at = λ w. IsReached-refl w.db }

  pub Performs-lift : {A : Type 0} (r : Result A) → Performs (lift r)
  Performs-lift r = record { at = λ w. IsReached-refl w.db }

  continues :
      {A B : Type 0} (r : Result A × World) (f : A → Process B) (db : Db)
      → IsReached store P db r.1.db
      → ((a : A) → r.0 ≡ ok a → Performs (f a))
      → IsReached store P db (continue r f).1.db
  continues (ok a, w) f db h k = IsReached-trans db w.db _ h ((k a refl).at w)
  continues (err e, w) f db h k = h

  pub Performs-bind :
      {A B : Type 0} (m : Process A) (f : A → Process B)
      → Performs m
      → ((a : A) → Performs (f a))
      → Performs (m >>= f)
  Performs-bind m f h k = record { at = λ w. continues (m w) f w.db (h.at w) (λ a e. k a) }

  rescues :
      {A : Type 0} (r : Result A × World) (f : Error → Process A) (db : Db)
      → IsReached store P db r.1.db
      → ((e : Error) → Performs (f e))
      → IsReached store P db (rescue r f).1.db
  rescues (ok a, w) f db h k = h
  rescues (err e, w) f db h k = IsReached-trans db w.db _ h ((k e).at w)

  pub Performs-handle :
      {A : Type 0} (m : Process A) (f : Error → Process A)
      → Performs m
      → ((e : Error) → Performs (f e))
      → Performs (handle m f)
  Performs-handle m f h k = record { at = λ w. rescues (m w) f w.db (h.at w) k }

  module _ (schedule : Schedule) (others : (n : ℕ) → All P (schedule.others n)) where
    waits : (n : ℕ) (db : Db) → IsReached store P db (run store (schedule.others n) db)
    waits n db = record { operations = schedule.others n; each = others n; reached = refl }

    -- A transaction that is an operation.
    pub Performs-commit :
        {A : Type 0} (tx : Moment → Tx A) (op : Operation)
        → ((m : Moment) (db : Db) → apply store m op db ≡ (transact (tx m) db).1)
        → ((m : Moment) → P (m, op))
        → Performs (commit store schedule tx)
    unfolding commit run
    Performs-commit tx op same_op holds = record {
      at = λ w.
          let m = schedule.at w.turn in
          let mid = run store (schedule.others w.turn) w.db in
          IsReached-trans w.db mid _ (waits w.turn w.db) (record {
            operations = (m, op) ∷ [];
            each = (holds m, tt);
            reached = sym (same_op m mid);
          });
    }

    -- A transaction that only reads.
    pub Performs-read :
        {A : Type 0} (tx : Moment → Tx A)
        → ((m : Moment) (db : Db) → (transact (tx m) db).1 ≡ db)
        → Performs (commit store schedule tx)
    unfolding commit
    Performs-read tx same_db = record {
      at = λ w.
          let mid = run store (schedule.others w.turn) w.db in
          IsReached-trans w.db mid _ (waits w.turn w.db) (record {
            operations = [];
            each = tt;
            reached = unfold run in same_db (schedule.at w.turn) mid;
          });
    }

  -- A call of an adapter: what follows may use what it answered.
  pub Performs-ask :
      {A B : Type 0} (call : ℕ → Result A) (f : A → Process B)
      → ((n : ℕ) (a : A) → call n ≡ ok a → Performs (f a))
      → Performs (ask call >>= f)
  unfolding ask
  Performs-ask call f k = record {
    at = λ w.
        continues (call w.turn, record w { turn = suc w.turn }) f w.db (IsReached-refl w.db)
          (λ a e. k w.turn a e);
  }

  pub Performs-lift_bind :
      {A B : Type 0} (r : Result A) (f : A → Process B)
      → ((a : A) → r ≡ ok a → Performs (f a))
      → Performs (lift r >>= f)
  Performs-lift_bind r f k = record { at = λ w. continues (r, w) f w.db (IsReached-refl w.db) k }

  pub Performs-elim :
      {A : Type 0} (b : Bool) (m n : Process A)
      → (b ≡ true → Performs m)
      → (b ≡ false → Performs n)
      → Performs {A = A} (elim b as (λ _. Process A) [ true ↦ m | false ↦ n ])
  Performs-elim true m n h k = h refl
  Performs-elim false m n h k = k refl
