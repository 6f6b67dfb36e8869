-- ===== src/Reconciler/History.antt =====
-- The reconciler's operations.
use deckhand.Base.{◌≡◌, refl, ℕ, String, true, none, some, List, [], ◌∷◌, All}
use deckhand.Json.{Object, get}
use deckhand.Result.{Error, ok, adapter_error, stale_lease}
use deckhand.Models.State.{JobState, verifying, succeeded, unknown_outcome}
use deckhand.Models.Request.{
  ActionRequest, ActionDefinition, JobView, RetryDisposition, never, safe, reconcile_first,
}
use deckhand.Adapters.{AdapterExecution, AdapterObservation, AdapterVerification}
use deckhand.Adapters.Registry.{Adapter, get_adapter}
use deckhand.Store.Audit.{Moment}
use deckhand.Store.Operation.{Operation, expire_leases, claim_reconcile_candidates, apply}
use deckhand.Process.{Schedule}
use deckhand.Process.Permits.{Permits, transition_job-Performs, get_job_context-Performs}
use deckhand.Process.History.{
  Performs, Performs-pure, Performs-raise, Performs-elim, Performs-bind, Performs-handle,
  Performs-commit, Performs-ask, Performs-lift_bind,
}
use deckhand.Worker.{Parts}
use deckhand.Worker.History.{Verifies}
use deckhand.Catalog.{validate_request}
use deckhand.Reconciler.{
  execution_of, settle_job, check, give_up, target_of, reconcile, reconcile_all, run_once, or_empty,
}

module _ (parts : Parts) (schedule : Schedule) (P : Moment × Operation → Type 0)
    (Goal : JobState → Type 0) (permits : Permits P Goal)
    (others : (n : ℕ) → All P (schedule.others n)) where
  open parts use {store, actions, accepts, adapters}
  open store use {external as x}

  settle_job-Performs :
      (job : JobView) (partial : Object) (observation : AdapterObservation)
      (verification : AdapterVerification)
      → (verification.satisfied ≡ true → Goal succeeded)
      → Performs store P (settle_job parts schedule job partial observation verification)
  unfolding settle_job
  settle_job-Performs job partial observation verification goal =
      Performs-elim store P verification.satisfied _ _
        (λ e.
          transition_job-Performs store schedule P Goal permits others job.id succeeded _ none none
            none (goal e))
        (λ e.
          transition_job-Performs store schedule P Goal permits others job.id unknown_outcome _ _
            none none permits.unknown_goal)

  target_of-goal : (retry : RetryDisposition) → Goal (target_of retry)
  unfolding target_of
  target_of-goal never = permits.failed_goal
  target_of-goal safe = permits.unknown_goal
  target_of-goal reconcile_first = permits.unknown_goal

  give_up-Performs :
      (job : JobView) (partial : Object) (e : Error)
      → Performs store P (give_up parts schedule job partial e)
  unfolding give_up
  give_up-Performs job partial (adapter_error error) =
      transition_job-Performs store schedule P Goal permits others job.id _ _ _ none none
        (target_of-goal error.retry)
  give_up-Performs job partial stale_lease = Performs-raise store P stale_lease
  give_up-Performs job partial e = Performs-raise store P e

  check-Performs :
      (job : JobView) (partial : Object) (request : ActionRequest) (action : ActionDefinition)
      (name : String) (adapter : Adapter) (execution : AdapterExecution)
      → get_adapter x.repr adapters name ≡ ok adapter
      → Verifies parts Goal
      → Performs store P (check parts schedule job partial request action adapter execution)
  unfolding check
  check-Performs job partial request action name adapter execution found verifies =
      Performs-ask store P _ _ λ n observation e. Performs-ask store P _ _ λ n' verification e'.
        settle_job-Performs job partial observation verification
          (verifies name adapter found n' action request execution observation verification e')

  reconcile-Performs :
      (job : JobView) → Verifies parts Goal → Performs store P (reconcile parts schedule job)
  unfolding reconcile
  reconcile-Performs job verifies =
      Performs-bind store P _ _
        (get_job_context-Performs store schedule P Goal permits others job.id)
        λ (request, owner).
          Performs-lift_bind store P (validate_request accepts actions request) _ λ action e.
            Performs-lift_bind store P (get_adapter x.repr adapters action.adapter) _
              λ adapter found.
                Performs-lift_bind store P
                  (execution_of x.validate_execution (or_empty job.result)
                    (get "execution" (or_empty job.result)))
                  _
                  λ execution e'.
                    Performs-bind store P _ _
                      (transition_job-Performs store schedule P Goal permits others job.id verifying
                        (some (or_empty job.result)) job.error none none permits.verifying_goal)
                      λ view.
                        Performs-handle store P _ _
                          (check-Performs job (or_empty job.result) request action action.adapter
                            adapter execution found verifies)
                          (give_up-Performs job (or_empty job.result))

  reconcile_all-Performs :
      (jobs : List JobView)
      → Verifies parts Goal
      → Performs store P (reconcile_all parts schedule jobs)
  unfolding reconcile_all
  reconcile_all-Performs [] verifies = Performs-pure store P []
  reconcile_all-Performs (job ∷ jobs) verifies =
      Performs-bind store P _ _ (reconcile-Performs job verifies) λ reconciled.
        Performs-bind store P _ _ (reconcile_all-Performs jobs verifies)
          λ rest. Performs-pure store P (reconciled ∷ rest)

  pub run_once-Performs :
      (max_attempts : ℕ)
      → Verifies parts Goal
      → Performs store P (run_once parts schedule max_attempts)
  unfolding run_once apply
  run_once-Performs max_attempts verifies =
      Performs-bind store P _ _
        (Performs-commit store P schedule others _ expire_leases (λ m db. refl) permits.expire)
        λ n.
          Performs-bind store P _ _
            (Performs-commit store P schedule others _ (claim_reconcile_candidates max_attempts 100)
              (λ m db. refl) (λ m. permits.candidates m max_attempts 100))
            λ jobs. reconcile_all-Performs jobs verifies
