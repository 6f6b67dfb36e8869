-- ===== src/Reconciler.antt =====
-- `class Reconciler` of apps/broker/src/deckhand/reconciler.py.
pub mod History
pub mod Returns
use deckhand.Base.{ℕ, String, Bool, true, false, Option, none, some, List, [], ◌∷◌, if◌then◌else◌}
use deckhand.Json.{Json, Object, end, get, object}
use deckhand.Result.{Error, Result, ok, err, adapter_error, validation_error}
use deckhand.Models.State.{JobState, verifying, succeeded, failed, unknown_outcome}
use deckhand.Models.Request.{
  ActionRequest, ActionDefinition, JobView, JobError, RetryDisposition, never, safe,
  reconcile_first,
}
use deckhand.Adapters.{
  AdapterError, AdapterExecution, AdapterObservation, AdapterVerification, as_job_error, conflict,
  kind_value,
}
use deckhand.Adapters.Registry.{Adapter, get_adapter}
use deckhand.Catalog.{validate_request}
use deckhand.Store.Audit.{Store, Moment}
use deckhand.Store.Jobs.{get_job_context}
use deckhand.Store.Leases.{transition_job}
use deckhand.Store.Sweeps.{expire_leases, claim_reconcile_candidates}
use deckhand.Process.{Schedule, Process, pure, raise, lift, ◌>>=◌, ◌>>◌, handle, commit, ask}
use deckhand.Worker.{Parts, final_result}

-- `x or {}`
abbrev pub or_empty : Option Object → Object
or_empty none = end
or_empty (some o) = o

-- `AdapterExecution.model_validate(data)` where `data` is a dict
abbrev pub parsed : Option AdapterExecution → Result AdapterExecution
parsed none = err validation_error
parsed (some execution) = ok execution

-- The execution that a partial result holds.
unfoldable pub execution_of :
    (validate : Object → Option AdapterExecution) → Object → Option Json → Result AdapterExecution
execution_of validate partial (some (object o)) = parsed (validate o)
execution_of validate partial data' = ok (record { reference = none; details = partial })

unfoldable pub not_yet : AdapterVerification → JobError
unfolding kind_value
not_yet verification = record {
  code = kind_value conflict;
  message = "adapter postcondition is not yet satisfied";
  retry = reconcile_first;
  reconciliation_required = true;
  details = verification.details;
}

-- `UNKNOWN_OUTCOME if error.retry != NEVER else FAILED`
unfoldable pub target_of : RetryDisposition → JobState
target_of never = failed
target_of safe = unknown_outcome
target_of reconcile_first = unknown_outcome

module _ (parts : Parts) (schedule : Schedule) where
  open parts use {store, actions, accepts, adapters}
  open store use {external as x}

  unfoldable pub settle_job :
      JobView → Object → AdapterObservation → AdapterVerification → Process JobView
  unfolding not_yet
  settle_job job partial observation verification = elim verification.satisfied [
    | true ↦ commit store schedule (λ m.
        transition_job store m job.id succeeded
          (some (final_result x.dump_datetime partial observation verification)) none none none)
    | false ↦ commit store schedule (λ m.
        transition_job store m job.id unknown_outcome (some partial) (some (not_yet verification))
          none none)
  ]

  -- The body of the `try` statement.
  unfoldable pub check :
      JobView
      → Object
      → ActionRequest
      → ActionDefinition
      → Adapter
      → AdapterExecution
      → Process JobView
  unfolding settle_job
  check job partial request action adapter execution = do
    observation ← ask (λ at. adapter.observe at action request)
    verification ← ask (λ at. adapter.verify at action request execution observation)
    settle_job job partial observation verification

  -- `except AdapterError`
  unfoldable pub give_up : JobView → Object → Error → Process JobView
  unfolding target_of as_job_error
  give_up job partial (adapter_error error) = commit store schedule (λ m.
      transition_job store m job.id (target_of error.retry) (some partial)
        (some (as_job_error error)) none none)
  give_up job partial e = raise e

  -- One round of the loop.
  unfoldable pub reconcile : JobView → Process JobView
  unfolding execution_of check give_up
  reconcile job = do
    (request, owner) ← commit store schedule (λ m. get_job_context store job.id)
    action ← lift (validate_request accepts actions request)
    adapter ← lift (get_adapter x.repr adapters action.adapter)
    execution ← lift (
        execution_of x.validate_execution (or_empty job.result)
          (get "execution" (or_empty job.result)))
    commit store schedule (λ m.
        transition_job store m job.id verifying (some (or_empty job.result)) job.error none none)
    handle (check job (or_empty job.result) request action adapter execution)
        (give_up job (or_empty job.result))

  unfoldable pub reconcile_all : List JobView → Process (List JobView)
  reconcile_all [] = pure []
  reconcile_all (job ∷ jobs) = do
    reconciled ← reconcile job
    rest ← reconcile_all jobs
    pure (reconciled ∷ rest)

  unfoldable pub run_once : (max_attempts : ℕ) → Process (List JobView)
  unfolding reconcile_all
  run_once max_attempts = do
    commit store schedule (λ m. expire_leases store m)
    jobs ← commit store schedule (λ m. claim_reconcile_candidates store m max_attempts 100)
    reconcile_all jobs
