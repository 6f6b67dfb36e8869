-- ===== src/Interleaving.antt =====
-- The three processes that drive jobs, each beside any number of others on the same database.
use mathlib.Core.Path.{subst}
use deckhand.Base.{◌≢◌, sym, ℕ, String, All}
use deckhand.Models.State.{JobState, running}
use deckhand.Models.Request.{Subject}
use deckhand.Store.Rows.{Db}
use deckhand.Store.Advance.{IsWellFormed}
use deckhand.Store.Table.{Moves}
use deckhand.Store.Operation.History.{IsCalled, run-IsWellFormed}
use deckhand.Process.{Schedule, World}
use deckhand.Process.History.{IsReached}
use deckhand.Process.Permits.{Permits}
use deckhand.Worker.{Parts}
use deckhand.Worker
use deckhand.Worker.History as WorkerHistory
use deckhand.Reconciler
use deckhand.Reconciler.History as ReconcilerHistory
use deckhand.Canceller
use deckhand.Canceller.History as CancellerHistory

-- One round of the worker, one of the reconciler, or one request to cancel a job.
pub data Task : Type 0 where
  work : (worker_id lease_token : String) → Task
  reconcile : (max_attempts : ℕ) → Task
  cancel : (job_id : String) → Subject → Task

-- The database that a task leaves, however it ends.
unfoldable pub perform : Parts → Schedule → Task → World → Db
perform parts schedule (work worker token) w = (Worker.run_once parts schedule worker token w).1.db
perform parts schedule (reconcile max_attempts) w =
    (Reconciler.run_once parts schedule max_attempts w).1.db
perform parts schedule (cancel id subject) w = (Canceller.cancel parts schedule id subject w).1.db

abbrev IsGoal : JobState → Type 0
IsGoal target = target ≢ running

permits : Permits IsCalled IsGoal
permits = record {
  claim = λ m token worker seconds lease_for. tt;
  renew = λ m id token seconds. tt;
  transition = λ m id target result error fence expected goal. goal;
  expire = λ m. tt;
  candidates = λ m max_attempts limit. tt;
  verifying_goal = λ e. cc e;
  failed_goal = λ e. cc e;
  unknown_goal = λ e. cc e;
  cancelled_goal = λ e. cc e;
}

verifies : (parts : Parts) → WorkerHistory.Verifies parts IsGoal
verifies parts name adapter found n action request execution observation verification answer
      satisfied =
    λ e. cc e

-- Whatever the other processes commit between its steps, what a round of the worker, a round of the
-- reconciler or a cancellation leaves in the database, however it ends, is what a list of store operations
-- leaves, none of which transitions a job to `running` if none of the others' does.
pub perform-IsReached :
    (parts : Parts) (schedule : Schedule) (task : Task) (w : World)
    → ((n : ℕ) → All IsCalled (schedule.others n))
    → IsReached parts.store IsCalled w.db (perform parts schedule task w)
unfolding perform
perform-IsReached parts schedule (work worker token) w others =
    (WorkerHistory.run_once-Performs parts schedule IsCalled IsGoal permits others worker token
        (verifies parts)).at
      w
perform-IsReached parts schedule (reconcile max_attempts) w others =
    (ReconcilerHistory.run_once-Performs parts schedule IsCalled IsGoal permits others max_attempts
        (verifies parts)).at
      w
perform-IsReached parts schedule (cancel id subject) w others =
    (CancellerHistory.cancel-Performs parts schedule IsCalled IsGoal permits others id subject).at w

-- A task of the worker, the reconciler or the canceller that starts on a well-formed job table leaves one,
-- however it ends, if no other process transitions a job to `running`.
perform-IsWellFormed :
    (parts : Parts) (schedule : Schedule) (task : Task) (w : World)
    → ((n : ℕ) → All IsCalled (schedule.others n))
    → IsWellFormed w.db.jobs
    → IsWellFormed (perform parts schedule task w).jobs
      × Moves w.db.jobs (perform parts schedule task w).jobs
perform-IsWellFormed parts schedule task w others sound =
    let r = perform-IsReached parts schedule task w others in
    subst (λ (db : Db). IsWellFormed db.jobs × Moves w.db.jobs db.jobs) (sym r.reached)
      (run-IsWellFormed parts.store r.operations w.db r.each sound)
