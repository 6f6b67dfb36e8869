-- ===== src/Canceller.antt =====
-- `class Canceller` of apps/broker/src/deckhand/cancellation.py.
pub mod History
pub mod Refusals
use deckhand.Base.{
  ℕ, String, Bool, true, false, not, ◌&&◌, ◌||◌, Option, none, some, same, if◌then◌else◌,
}
use deckhand.Base.Append.{append}
use deckhand.Json.{Json, Object, get, object, put}
use deckhand.Result.{
  Error, Result, ok, err, adapter_error, cancellation_error, validation_error, is_stale_lease,
}
use deckhand.Models.State.{
  JobState, queued, cancelled, unknown_outcome, value, contains, terminal_job_states, same_state,
}
use deckhand.Models.Request.{
  ActionRequest, ActionDefinition, Subject, JobView, JobError, reconcile_first,
}
use deckhand.Adapters.{
  AdapterError, AdapterExecution, AdapterCancellation, CancellationDisposition, not_supported,
  already_terminal, unknown, disposition_value, cancellation_json, as_job_error,
}
use deckhand.Adapters as Adapters
use deckhand.Adapters.Registry.{Adapter, get_adapter}
use deckhand.Catalog.{validate_request}
use deckhand.Store.Audit.{Store, Moment}
use deckhand.Store.Jobs.{get_job, get_job_context}
use deckhand.Store.Leases.{transition_job}
use deckhand.Process.{Schedule, Process, pure, raise, lift, ◌>>=◌, ◌>>◌, handle, commit, ask}
use deckhand.Worker.{Parts}
use deckhand.Reconciler.{or_empty, parsed}

abbrev pub already : JobState → Error
already state = cancellation_error (append "job is already " (value state))

-- `None` is an error.
abbrev pub required : Option JobView → Result JobView
required none = err (cancellation_error "job not found")
required (some job) = ok job

abbrev pub require_active : JobView → Result JobView
require_active job =
    if contains job.state terminal_job_states then err (already job.state) else ok job

-- What a race with the worker leaves to do: nothing, or to ask the adapter.
pub data Progress : Type 0 where
  finished : JobView → Progress
  proceed : JobView → Progress

-- `_execution`
unfoldable pub execution_in :
    (validate : Object → Option AdapterExecution) → Option Json → Result (Option AdapterExecution)
execution_in validate (some (object o)) = elim (validate o) [
  | none ↦ err validation_error
  | some execution ↦ ok (some execution)
]
execution_in validate data' = ok none

unfoldable pub cancellation_unknown : AdapterCancellation → JobError
cancellation_unknown result = record {
  code = "cancellation_unknown";
  message = "adapter could not determine the cancellation outcome";
  retry = reconcile_first;
  reconciliation_required = true;
  details = result.details;
}

unfoldable pub owned_by : Subject → Subject → Bool
owned_by owner subject = same owner.name subject.name && same owner.device subject.device

unfoldable pub require_owner : Subject → Subject → Result (Unit {0})
unfolding owned_by
require_owner owner subject =
    if owned_by owner subject
    then ok tt
    else err (cancellation_error "job belongs to another subject or device")

module _ (parts : Parts) (schedule : Schedule) where
  open parts use {store, actions, accepts, adapters}
  open store use {external as x}

  -- `except StaleLease` of the compare-and-set: the job as it is now.
  unfoldable pub refresh : (job_id : String) → Error → Process Progress
  refresh job_id e = elim (is_stale_lease e) [
    | true ↦ (do
      found ← commit store schedule (λ m. get_job store job_id)
      job ← lift (required found)
      active ← lift (require_active job)
      pure (proceed active))
    | false ↦ raise e
  ]

  -- A job that was read as `queued` is cancelled if it still is.
  unfoldable pub cancel_queued : JobView → Process Progress
  unfolding refresh
  cancel_queued job = elim (same_state job.state queued) [
    | true ↦
        handle
          (do
            view ← commit store schedule (λ m.
                transition_job store m job.id cancelled job.result job.error none (some queued))
            pure (finished view))
          (refresh job.id)
    | false ↦ pure (proceed job)
  ]

  -- `_apply`, by `result.disposition`
  unfoldable pub apply_disposition :
      JobView → AdapterCancellation → CancellationDisposition → Process JobView
  unfolding cancellation_unknown cancellation_json disposition_value
  apply_disposition job result Adapters.cancelled = commit store schedule (λ m.
      transition_job store m job.id cancelled
        (some (put "cancellation" (cancellation_json result) (or_empty job.result))) none none none)
  apply_disposition job result unknown = elim (same_state job.state unknown_outcome) [
    | true ↦ pure job
    | false ↦ commit store schedule (λ m.
        transition_job store m job.id unknown_outcome job.result
          (some (cancellation_unknown result)) none none)
  ]
  apply_disposition job result not_supported = raise (
      cancellation_error
        (append "adapter reported cancellation " (disposition_value not_supported)))
  apply_disposition job result already_terminal = raise (
      cancellation_error
        (append "adapter reported cancellation " (disposition_value already_terminal)))

  -- `except AdapterError`
  unfoldable pub cancel_failed : JobView → Error → Process JobView
  unfolding as_job_error
  cancel_failed job (adapter_error error) =
      elim (error.reconciliation_required && not (same_state job.state unknown_outcome)) [
        | true ↦ commit store schedule (λ m.
            transition_job store m job.id unknown_outcome job.result (some (as_job_error error))
              none none)
        | false ↦ raise (cancellation_error error.message)
      ]
  cancel_failed job e = raise e

  -- The answer of the adapter, or what its error came to.
  pub data Answer : Type 0 where
    answered : AdapterCancellation → Answer
    settled : JobView → Answer

  unfoldable pub conclude : JobView → Answer → Process JobView
  unfolding apply_disposition
  conclude job (answered result) = apply_disposition job result result.disposition
  conclude job (settled view) = pure view

  unfoldable pub proceed_with : ActionRequest → Progress → Process JobView
  unfolding execution_in cancel_failed conclude
  proceed_with request (finished view) = pure view
  proceed_with request (proceed job) = do
    action ← lift (validate_request accepts actions request)
    adapter ← lift (get_adapter x.repr adapters action.adapter)
    execution ← lift (execution_in x.validate_execution (get "execution" (or_empty job.result)))
    answer ←
        handle
          (do
            result ← ask (λ at. adapter.cancel at action request execution)
            pure (answered result))
          (λ e. do view ← cancel_failed job e; pure (settled view))
    conclude job answer

  unfoldable pub cancel : (job_id : String) → Subject → Process JobView
  unfolding require_owner cancel_queued proceed_with
  cancel job_id subject = do
    found ← commit store schedule (λ m. get_job store job_id)
    job ← lift (required found)
    (request, owner) ← commit store schedule (λ m. get_job_context store job_id)
    lift (require_owner owner subject)
    active ← lift (require_active job)
    progress ← cancel_queued active
    proceed_with request progress
