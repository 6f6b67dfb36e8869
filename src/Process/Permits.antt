-- ===== src/Process/Permits.antt =====
-- The operations that the processes of the program make, and what they only read.
use deckhand.Base.{◌≡◌, refl, ℕ, String, Option, All, arith}
use deckhand.Json.{Object}
use deckhand.Models.State.{JobState, verifying, failed, unknown_outcome, cancelled}
use deckhand.Models.Request.{ActionRequest, JobError}
use deckhand.Store.Rows.{Db}
use deckhand.Store.Tx.{transact}
use deckhand.Store.Audit.{Store, Moment}
use deckhand.Store.Jobs.{get_job, get_job_context, optional_view}
use deckhand.Store.Leases
use deckhand.Store.Operation.{
  Operation, claim_next_job, renew_lease, transition_job, expire_leases, claim_reconcile_candidates,
  apply,
}
use deckhand.Process.{Schedule, commit}
use deckhand.Process.History.{Performs, Performs-commit, Performs-read}

-- What `P` must hold of so that the processes of the program satisfy it; `Goal` is the states that they
-- may put a job into.
pub record Permits (P : Moment × Operation → Type 0) (Goal : JobState → Type 0) : Type 0 where
  pub claim :
      (m : Moment) (token worker : String) (lease_seconds : ℕ)
      (lease_for : Option (ActionRequest → ℕ))
      → P (m, claim_next_job token worker lease_seconds lease_for)
  pub renew :
      (m : Moment) (id token : String) (lease_seconds : ℕ)
      → P (m, renew_lease id token lease_seconds)
  pub transition :
      (m : Moment) (id : String) (target : JobState) (result : Option Object)
      (error : Option JobError) (fence : Option String) (expected : Option JobState)
      → Goal target
      → P (m, transition_job id target result error fence expected)
  pub expire : (m : Moment) → P (m, expire_leases)
  pub candidates :
      (m : Moment) (max_attempts limit : ℕ) → P (m, claim_reconcile_candidates max_attempts limit)
  pub verifying_goal : Goal verifying
  pub failed_goal : Goal failed
  pub unknown_goal : Goal unknown_outcome
  pub cancelled_goal : Goal cancelled

-- Reading leaves the database as it is.
get_job_context-reads :
    (store : Store) (id : String) (db : Db) → (transact (get_job_context store id) db).1 ≡ db
unfolding transact get_job_context
get_job_context-reads store id db = ground arith

get_job-reads : (store : Store) (id : String) (db : Db) → (transact (get_job store id) db).1 ≡ db
unfolding transact get_job optional_view
get_job-reads store id db = ground arith

module _ (store : Store) (schedule : Schedule) (P : Moment × Operation → Type 0)
    (Goal : JobState → Type 0) (permits : Permits P Goal)
    (others : (n : ℕ) → All P (schedule.others n)) where
  pub transition_job-Performs :
      (id : String) (target : JobState) (result : Option Object) (error : Option JobError)
      (fence : Option String) (expected : Option JobState)
      → Goal target
      → Performs store P (
          commit store schedule
            (λ m. Leases.transition_job store m id target result error fence expected))
  unfolding apply
  transition_job-Performs id target result error fence expected goal =
      Performs-commit store P schedule others _
        (transition_job id target result error fence expected) (λ m db. refl)
        (λ m. permits.transition m id target result error fence expected goal)

  pub get_job_context-Performs :
      (id : String) → Performs store P (commit store schedule (λ m. get_job_context store id))
  get_job_context-Performs id =
      Performs-read store P schedule others _ (λ m db. get_job_context-reads store id db)

  pub get_job-Performs :
      (id : String) → Performs store P (commit store schedule (λ m. get_job store id))
  get_job-Performs id = Performs-read store P schedule others _ (λ m db. get_job-reads store id db)
