-- ===== src/Store/Growth/Rules.antt =====
-- A relation between the database before and after that every write keeps but the insertion of a
-- confirmation, along each way to build a transaction.
use mathlib.Core.Path.{subst}
use deckhand.Base.{ℕ, String, ◌≡◌, sym, Bool, Option, List, [], ◌∷◌, ◌++◌, arith, if◌then◌else◌}
use deckhand.Json.{Object}
use deckhand.Result.{Error, Result, ok}
use deckhand.Store.Rows.{Db, JobRow, ConfirmationRow, set_used}
use deckhand.Store.Tx.{Tx, ◌>>=◌, pure, raise, lift, select, or_raise, require}
use deckhand.Store.Audit.{Store, Moment, append_audit}
use deckhand.Store.Updates.{for_each, collect, cons_if, update, change}
use deckhand.Store.Jobs.{insert_job}
use deckhand.Store.Confirmations.{insert_confirmation, use_up}
use deckhand.Models.Request.{JobView}
use deckhand.Store.Ensures.{
  Ensures, IsPreorder, Ensures-pure, Ensures-raise, Ensures-lift, Ensures-select, Ensures-or_raise,
  Ensures-require, Ensures-if, Ensures-write, Ensures-bind,
}

insert_job-db :
    (row : JobRow) (db db' : Db)
    → insert_job row db ≡ ok (tt, db')
    → db' ≡ record db { jobs = db.jobs ++ row ∷ [] }
unfolding insert_job
insert_job-db row db db' e = ground arith

insert_confirmation-db :
    (row : ConfirmationRow) (db db' : Db)
    → insert_confirmation row db ≡ ok (tt, db')
    → db' ≡ record db { confirmations = db.confirmations ++ row ∷ [] }
unfolding insert_confirmation
insert_confirmation-db row db db' e = ground arith

-- What the writes have to keep: the audit log's, the job table's, and the mark of a used confirmation.
pub record IsClosed (store : Store) (R : Db → Db → Type 0) : Type 0 where
  pub order : IsPreorder R
  pub audit :
      (m : Moment) (event_type : String) (payload : Object)
      → Ensures R (append_audit store m event_type payload)
  pub jobs : (db : Db) (jobs : List JobRow) → R db (record db { jobs = jobs })
  pub used :
      (now : ℕ) (id : String) (db : Db)
      → R db (record db { confirmations = set_used now id db.confirmations })

module _ (store : Store) {R : Db → Db → Type 0} (closed : IsClosed store R) where
  abbrev pub Grown : {A : Type 0} → Tx A → Type 0
  Grown m = Ensures R m

  pub Grown-pure : {A : Type 0} (a : A) → Grown (pure a)
  Grown-pure a = Ensures-pure closed.order a

  pub Grown-raise : {A : Type 0} (e : Error) → Grown (raise {A = A} e)
  Grown-raise e = Ensures-raise closed.order e

  pub Grown-lift : {A : Type 0} (r : Result A) → Grown (lift r)
  Grown-lift r = Ensures-lift closed.order r

  pub Grown-select : {A : Type 0} (f : Db → A) → Grown (select f)
  Grown-select f = Ensures-select closed.order f

  pub Grown-or_raise : {A : Type 0} (o : Option A) (e : Error) → Grown (or_raise o e)
  Grown-or_raise o e = Ensures-or_raise closed.order o e

  pub Grown-require : (b : Bool) (e : Error) → Grown (require b e)
  Grown-require b e = Ensures-require closed.order b e

  pub Grown-if :
      {A : Type 0} (b : Bool) (m n : Tx A) → Grown m → Grown n → Grown (if b then m else n)
  Grown-if b m n h k = Ensures-if closed.order b m n h k

  pub Grown-bind :
      {A B : Type 0} (m : Tx A) (f : A → Tx B) → Grown m → ((a : A) → Grown (f a)) → Grown (m >>= f)
  Grown-bind m f h k = Ensures-bind closed.order m f h k

  pub Grown-update : (id : String) (f : JobRow → JobRow) → Grown (update id f)
  unfolding update
  Grown-update id f = Ensures-write closed.order _ (λ db. closed.jobs db _)

  pub Grown-audit :
      (m : Moment) (event_type : String) (payload : Object)
      → Grown (append_audit store m event_type payload)
  Grown-audit m event_type payload = closed.audit m event_type payload

  pub Grown-change :
      (m : Moment) (id : String) (f : JobRow → JobRow) (event_type : String) (payload : Object)
      → Grown (change store m id f event_type payload)
  unfolding change
  Grown-change m id f event_type payload =
      Grown-bind (update id f) _ (Grown-update id f) (λ _. Grown-audit m event_type payload)

  pub Grown-use_up : (now : ℕ) (id : String) → Grown (use_up now id)
  unfolding use_up
  Grown-use_up now id = Ensures-write closed.order _ (closed.used now id)

  pub Grown-insert_job : (row : JobRow) → Grown (insert_job row)
  Grown-insert_job row = record {
    at = λ db u db' e. subst (R db) (sym (insert_job-db row db db' e)) (closed.jobs db _);
  }

  pub Grown-insert_confirmation :
      (row : ConfirmationRow)
      → ((db : Db) → R db (record db { confirmations = db.confirmations ++ row ∷ [] }))
      → Grown (insert_confirmation row)
  Grown-insert_confirmation row inserted = record {
    at = λ db u db' e. subst (R db) (sym (insert_confirmation-db row db db' e)) (inserted db);
  }

  pub Grown-for_each :
      (body : JobRow → Tx Unit) (rows : List JobRow)
      → ((row : JobRow) → Grown (body row))
      → Grown (for_each body rows)
  unfolding for_each
  Grown-for_each body [] h = Grown-pure tt
  Grown-for_each body (row ∷ rows) h =
      Grown-bind (body row) (λ _. for_each body rows) (h row) (λ _. Grown-for_each body rows h)

  pub Grown-collect :
      (body : JobRow → Tx (Option JobView)) (rows : List JobRow)
      → ((row : JobRow) → Grown (body row))
      → Grown (collect body rows)
  unfolding collect
  Grown-collect body [] h = Grown-pure []
  Grown-collect body (row ∷ rows) h = Grown-bind (body row) _ (h row) (λ c.
      Grown-bind (collect body rows) _ (Grown-collect body rows h)
        (λ cs. Grown-pure (cons_if c cs)))

pub ruleset grown_rules = (
  Grown-pure, Grown-raise, Grown-lift, Grown-select, Grown-or_raise, Grown-require, Grown-if,
  Grown-bind, Grown-update, Grown-audit, Grown-change, Grown-use_up, Grown-insert_job,
  Grown-for_each, Grown-collect,
)
