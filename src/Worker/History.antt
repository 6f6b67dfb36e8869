-- ===== src/Worker/History.antt =====
-- The worker's operations.
use deckhand.Base.{◌≡◌, refl, ℕ, String, Bool, true, false, Option, none, some, All, if◌then◌else◌}
use deckhand.Result.{Error, ok, adapter_error, is_stale_lease, stale_lease}
use deckhand.Models.State.{JobState, verifying, succeeded, failed, unknown_outcome}
use deckhand.Models.Request.{ActionRequest, ActionDefinition, JobView}
use deckhand.Adapters.{AdapterExecution, AdapterObservation, AdapterVerification, AdapterError}
use deckhand.Adapters.Registry.{Adapter, get_adapter}
use deckhand.Store.Audit.{Moment}
use deckhand.Store.Leases
use deckhand.Store.Operation.{Operation, claim_next_job, renew_lease, apply}
use deckhand.Store.Updates.{ClaimedJob}
use deckhand.Process.{Schedule, commit}
use deckhand.Process.Permits.{Permits, transition_job-Performs, get_job_context-Performs}
use deckhand.Process.History.{
  Performs, Performs-pure, Performs-elim, Performs-raise, Performs-bind, Performs-handle,
  Performs-commit, Performs-ask, Performs-lift_bind,
}
use deckhand.Worker.{Parts, report, work, abandon, recover, run_claimed, run_once, lease_for}

-- Where an adapter of the registry verifies, the state may become `succeeded`.
abbrev pub Verifies : Parts → (JobState → Type 0) → Type 0
Verifies parts Goal =
    (name : String) (adapter : Adapter)
    → get_adapter parts.store.external.repr parts.adapters name ≡ ok adapter
    → (n : ℕ) (action : ActionDefinition) (request : ActionRequest) (execution : AdapterExecution)
      (observation : AdapterObservation) (verification : AdapterVerification)
    → adapter.verify n action request execution observation ≡ ok verification
    → verification.satisfied ≡ true
    → Goal succeeded

module _ (parts : Parts) (schedule : Schedule) (P : Moment × Operation → Type 0)
    (Goal : JobState → Type 0) (permits : Permits P Goal)
    (others : (n : ℕ) → All P (schedule.others n)) where
  open parts use {store, actions, accepts, adapters}
  open store use {external as x}

  report-Performs :
      (job : JobView) (fence : String) (execution : AdapterExecution)
      (observation : AdapterObservation) (verification : AdapterVerification)
      → (verification.satisfied ≡ true → Goal succeeded)
      → Performs store P (report parts schedule job fence execution observation verification)
  unfolding report
  report-Performs job fence execution observation verification goal =
      Performs-elim store P verification.satisfied _ _
        (λ e.
          Performs-bind store P _ _
            (transition_job-Performs store schedule P Goal permits others job.id succeeded _ none
              (some fence) none (goal e))
            (λ view. Performs-pure store P (some view)))
        (λ e. Performs-raise store P _)

  renew_lease-Performs :
      (id fence : String) (seconds : ℕ)
      → Performs store P (commit store schedule (λ m. Leases.renew_lease store m id fence seconds))
  unfolding apply
  renew_lease-Performs id fence seconds =
      Performs-commit store P schedule others _ (renew_lease id fence seconds) (λ m db. refl)
        (λ m. permits.renew m id fence seconds)

  work-Performs :
      (job : JobView) (fence : String) (request : ActionRequest) (action : ActionDefinition)
      (name : String) (adapter : Adapter)
      → get_adapter x.repr adapters name ≡ ok adapter
      → Verifies parts Goal
      → Performs store P (work parts schedule job fence request action adapter)
  unfolding work
  work-Performs job fence request action name adapter found verifies =
      Performs-ask store P _ _ λ n execution e.
        Performs-bind store P _ _
          (transition_job-Performs store schedule P Goal permits others job.id verifying _ none
            (some fence) none permits.verifying_goal)
          λ view. Performs-bind store P _ _ (renew_lease-Performs job.id fence _) λ renewed.
            Performs-ask store P _ _ λ n' observation e'.
              Performs-ask store P _ _ λ n'' verification e''.
                report-Performs job fence execution observation verification (
                  verifies name adapter found n'' action request execution observation verification
                    e'')

  abandon-Performs : (e : Error) → Performs store P (abandon parts schedule e)
  unfolding abandon
  abandon-Performs e =
      Performs-elim store P (is_stale_lease e) _ _ (λ h. Performs-pure store P none)
        (λ h. Performs-raise store P e)

  failure-Performs :
      (job : JobView) (fence : String) (error : AdapterError)
      → Performs store P (recover parts schedule job fence (adapter_error error))
  unfolding recover
  failure-Performs job fence error =
      Performs-handle store P _ _
        (Performs-bind store P _ _
          (transition_job-Performs store schedule P Goal permits others job.id _ none _ (some fence)
            none (goal error.reconciliation_required))
          (λ view. Performs-pure store P (some view)))
        abandon-Performs
    where
      goal : (b : Bool) → Goal (if b then unknown_outcome else failed)
      goal true = permits.unknown_goal
      goal false = permits.failed_goal

  recover-Performs :
      (job : JobView) (fence : String) (e : Error)
      → Performs store P (recover parts schedule job fence e)
  recover-Performs job fence (adapter_error error) = failure-Performs job fence error
  recover-Performs job fence stale_lease = unfold recover in abandon-Performs stale_lease
  recover-Performs job fence e = unfold recover in abandon-Performs e

  run_claimed-Performs :
      (claimed : Option ClaimedJob)
      → Verifies parts Goal
      → Performs store P (run_claimed parts schedule claimed)
  unfolding run_claimed
  run_claimed-Performs none verifies = Performs-pure store P none
  run_claimed-Performs (some claimed) verifies =
      Performs-bind store P _ _
        (get_job_context-Performs store schedule P Goal permits others claimed.job.id)
        λ (request, owner). Performs-lift_bind store P _ _ λ action e.
          Performs-lift_bind store P _ _ λ adapter found.
            Performs-handle store P _ _
              (work-Performs claimed.job claimed.lease_token request action action.adapter adapter
                found verifies)
              (recover-Performs claimed.job claimed.lease_token)

  pub run_once-Performs :
      (worker_id lease_token : String)
      → Verifies parts Goal
      → Performs store P (run_once parts schedule worker_id lease_token)
  unfolding run_once apply
  run_once-Performs worker_id lease_token verifies =
      Performs-bind store P _ _
        (Performs-commit store P schedule others _
          (claim_next_job lease_token worker_id 30 (some (lease_for parts schedule))) (λ m db. refl)
          (λ m. permits.claim m lease_token worker_id 30 _))
        (λ claimed. run_claimed-Performs claimed verifies)
