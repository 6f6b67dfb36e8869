-- ===== src/Canceller/History.antt =====
-- The canceller's operations.
use deckhand.Base.{ℕ, String, not, ◌&&◌, none, some, All}
use deckhand.Json.{get}
use deckhand.Result.{Error, adapter_error, stale_lease, is_stale_lease}
use deckhand.Models.State.{JobState, queued, unknown_outcome, cancelled, same_state}
use deckhand.Models.Request.{ActionRequest, JobView, Subject}
use deckhand.Adapters.{
  AdapterExecution, AdapterObservation, AdapterVerification, AdapterError, AdapterCancellation,
  CancellationDisposition,
}
use deckhand.Adapters.Registry.{get_adapter}
use deckhand.Store.Audit.{Moment}
use deckhand.Store.Operation.{Operation}
use deckhand.Process.{Schedule}
use deckhand.Process.Permits.{
  Permits, transition_job-Performs, get_job_context-Performs, get_job-Performs,
}
use deckhand.Process.History.{
  Performs, Performs-pure, Performs-raise, Performs-elim, Performs-bind, Performs-handle,
  Performs-ask, Performs-lift_bind,
}
use deckhand.Worker.{Parts}
use deckhand.Adapters.{not_supported, already_terminal, unknown}
use deckhand.Adapters as Adapters
use deckhand.Catalog.{validate_request}
use deckhand.Reconciler.{or_empty}
use deckhand.Canceller.{
  required, require_active, require_owner, execution_in, apply_disposition, Progress, finished,
  proceed, Answer, answered, settled, refresh, cancel_queued, cancel_failed, conclude, proceed_with,
  cancel,
}

module _ (parts : Parts) (schedule : Schedule) (P : Moment × Operation → Type 0)
    (Goal : JobState → Type 0) (permits : Permits P Goal)
    (others : (n : ℕ) → All P (schedule.others n)) where
  open parts use {store, actions, accepts, adapters}
  open store use {external as x}

  refresh-Performs : (id : String) (e : Error) → Performs store P (refresh parts schedule id e)
  unfolding refresh
  refresh-Performs id e =
      Performs-elim store P (is_stale_lease e) _ _
        (λ h.
          Performs-bind store P _ _ (get_job-Performs store schedule P Goal permits others id)
            λ found. Performs-lift_bind store P (required found) _ λ job e.
              Performs-lift_bind store P (require_active job) _
                λ active e'. Performs-pure store P (proceed active))
        (λ h. Performs-raise store P e)

  cancel_queued-Performs : (job : JobView) → Performs store P (cancel_queued parts schedule job)
  unfolding cancel_queued
  cancel_queued-Performs job =
      Performs-elim store P (same_state job.state queued) _ _
        (λ h.
          Performs-handle store P _ _
            (Performs-bind store P _ _
              (transition_job-Performs store schedule P Goal permits others job.id cancelled _ _
                none (some queued) permits.cancelled_goal)
              (λ view. Performs-pure store P (finished view)))
            (refresh-Performs job.id))
        (λ h. Performs-pure store P (proceed job))

  apply_disposition-Performs :
      (job : JobView) (result : AdapterCancellation) (disposition : CancellationDisposition)
      → Performs store P (apply_disposition parts schedule job result disposition)
  unfolding apply_disposition
  apply_disposition-Performs job result Adapters.cancelled =
      transition_job-Performs store schedule P Goal permits others job.id cancelled _ none none none
        permits.cancelled_goal
  apply_disposition-Performs job result unknown =
      Performs-elim store P (same_state job.state unknown_outcome) _ _
        (λ h. Performs-pure store P job)
        (λ h.
          transition_job-Performs store schedule P Goal permits others job.id unknown_outcome _ _
            none none permits.unknown_goal)
  apply_disposition-Performs job result not_supported = Performs-raise store P _
  apply_disposition-Performs job result already_terminal = Performs-raise store P _

  cancel_failed-Performs :
      (job : JobView) (e : Error) → Performs store P (cancel_failed parts schedule job e)
  unfolding cancel_failed
  cancel_failed-Performs job (adapter_error error) =
      Performs-elim store P
        (error.reconciliation_required && not (same_state job.state unknown_outcome)) _ _
        (λ h.
          transition_job-Performs store schedule P Goal permits others job.id unknown_outcome _ _
            none none permits.unknown_goal)
        (λ h. Performs-raise store P _)
  cancel_failed-Performs job stale_lease = Performs-raise store P stale_lease
  cancel_failed-Performs job e = Performs-raise store P e

  conclude-Performs :
      (job : JobView) (answer : Answer parts schedule)
      → Performs store P (conclude parts schedule job answer)
  unfolding conclude
  conclude-Performs job (answered result) = apply_disposition-Performs job result result.disposition
  conclude-Performs job (settled view) = Performs-pure store P view

  proceed_with-Performs :
      (request : ActionRequest) (progress : Progress)
      → Performs store P (proceed_with parts schedule request progress)
  unfolding proceed_with
  proceed_with-Performs request (finished view) = Performs-pure store P view
  proceed_with-Performs request (proceed job) =
      Performs-lift_bind store P (validate_request accepts actions request) _ λ action e.
        Performs-lift_bind store P (get_adapter x.repr adapters action.adapter) _ λ adapter e'.
          Performs-lift_bind store P
            (execution_in x.validate_execution (get "execution" (or_empty job.result))) _
            λ execution e''.
              Performs-bind store P _ _
                (Performs-handle store P _ _
                  (Performs-ask store P (λ at. adapter.cancel at action request execution) _
                    λ n result h. Performs-pure store P (answered result))
                  (λ e.
                    Performs-bind store P _ _ (cancel_failed-Performs job e)
                      λ view. Performs-pure store P (settled view)))
                (conclude-Performs job)

  pub cancel-Performs :
      (id : String) (subject : Subject) → Performs store P (cancel parts schedule id subject)
  unfolding cancel
  cancel-Performs id subject =
      Performs-bind store P _ _ (get_job-Performs store schedule P Goal permits others id) λ found.
        Performs-lift_bind store P (required found) _ λ job e.
          Performs-bind store P _ _
            (get_job_context-Performs store schedule P Goal permits others id)
            λ (request, owner). Performs-lift_bind store P (require_owner owner subject) _ λ u h.
              Performs-lift_bind store P (require_active job) _ λ active h'.
                Performs-bind store P _ _ (cancel_queued-Performs active)
                  λ progress. proceed_with-Performs request progress
