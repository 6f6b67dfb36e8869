-- ===== src/Worker.antt =====
-- `class Worker` of apps/broker/src/deckhand/worker.py.
pub mod History
pub mod Round
pub mod Returns
use deckhand.Base.{ℕ, ◌+◌, String, Bool, true, false, not, Option, none, some, List, if◌then◌else◌}
use deckhand.Json.{Json, Object, end, field, put}
use deckhand.Result.{
  Error, Result, ok, err, adapter_error, is_stale_lease, is_catalog_error, stale_lease,
}
use deckhand.Models.State.{JobState, verifying, succeeded, failed, unknown_outcome}
use deckhand.Models.Request.{ActionRequest, ActionDefinition, JobView, reconcile_first}
use deckhand.Adapters.{
  AdapterError, AdapterExecution, AdapterObservation, AdapterVerification, conflict, as_job_error,
  execution_json, observation_json, verification_json,
}
use deckhand.Adapters.Registry.{Adapter, Registry, get_adapter}
use deckhand.Catalog.{validate_request}
use deckhand.Store.Audit.{Store, Moment}
use deckhand.Store.Updates.{ClaimedJob}
use deckhand.Store.Jobs.{get_job_context}
use deckhand.Store.Leases.{claim_next_job, renew_lease, transition_job}
use deckhand.Process.{Schedule, Process, pure, raise, lift, ◌>>=◌, ◌>>◌, handle, commit, ask}

-- What a process is built with: its store, its catalog with the JSON Schema validator, its adapters.
pub record Parts : Type 0 where
  pub store : Store
  pub actions : List ActionDefinition
  pub accepts : Object → Object → Bool
  pub adapters : Registry

-- `action.timeout_seconds + _LEASE_HEADROOM_SECONDS`, or `_DEFAULT_LEASE_SECONDS` on a `CatalogError`,
-- the only error that `validate_request` raises.
abbrev pub lease_of : Result ActionDefinition → ℕ
lease_of (ok action) = action.timeout_seconds + 15
lease_of (err e) = 30

-- The error of an adapter whose postcondition does not hold yet.
unfoldable pub not_satisfied : AdapterVerification → AdapterError
not_satisfied verification = record {
  message = "adapter postcondition is not yet satisfied";
  kind = conflict;
  retry = reconcile_first;
  reconciliation_required = true;
  details = verification.details;
}

-- `{"execution": execution.model_dump(mode="json")}`
unfoldable pub partial_result : AdapterExecution → Object
unfolding execution_json
partial_result execution = field "execution" (execution_json execution) end

-- `{**result, "observation": …, "verification": …}`
unfoldable pub final_result :
    (dump_datetime : ℕ → String) → Object → AdapterObservation → AdapterVerification → Object
unfolding observation_json verification_json
final_result dump_datetime result observation verification =
    put "verification" (verification_json verification)
      (put "observation" (observation_json dump_datetime observation) result)

module _ (parts : Parts) (schedule : Schedule) where
  open parts use {store, actions, accepts, adapters}
  open store use {external as x}

  unfoldable pub lease_for : ActionRequest → ℕ
  lease_for request = lease_of (validate_request accepts actions request)

  -- What follows the verification.
  unfoldable pub report :
      JobView
      → (fence : String) → AdapterExecution
      → AdapterObservation
      → AdapterVerification
      → Process (Option JobView)
  unfolding partial_result final_result not_satisfied
  report job fence execution observation verification = elim verification.satisfied [
    | true ↦ (do
      view ← commit store schedule (λ m.
          transition_job store m job.id succeeded
            (some
              (final_result x.dump_datetime (partial_result execution) observation verification))
            none (some fence) none)
      pure (some view))
    | false ↦ raise (adapter_error (not_satisfied verification))
  ]

  -- The body of the `try` statement.
  unfoldable pub work :
      JobView
      → (fence : String) → ActionRequest
      → ActionDefinition
      → Adapter
      → Process (Option JobView)
  unfolding report
  work job fence request action adapter = do
    execution ← ask (λ at. adapter.execute at action request)
    commit store schedule (λ m.
        transition_job store m job.id verifying (some (partial_result execution)) none (some fence)
          none)
    commit store schedule (λ m. renew_lease store m job.id fence (lease_for request))
    observation ← ask (λ at. adapter.observe at action request)
    verification ← ask (λ at. adapter.verify at action request execution observation)
    report job fence execution observation verification

  -- `except StaleLease: return None`
  unfoldable pub abandon : Error → Process (Option JobView)
  abandon e = elim (is_stale_lease e) [ true ↦ pure none | false ↦ raise e ]

  -- The two `except` clauses.
  unfoldable pub recover : JobView → (fence : String) → Error → Process (Option JobView)
  unfolding abandon as_job_error
  recover job fence (adapter_error error) =
      let target = if error.reconciliation_required then unknown_outcome else failed in
      handle
        (do
          view ← commit store schedule (λ m.
              transition_job store m job.id target none (some (as_job_error error)) (some fence)
                none)
          pure (some view))
        abandon
  recover job fence e = abandon e

  unfoldable pub run_claimed : Option ClaimedJob → Process (Option JobView)
  unfolding work recover
  run_claimed none = pure none
  run_claimed (some claimed) = do
    (request, owner) ← commit store schedule (λ m. get_job_context store claimed.job.id)
    action ← lift (validate_request accepts actions request)
    adapter ← lift (get_adapter x.repr adapters action.adapter)
    handle (work claimed.job claimed.lease_token request action adapter)
        (recover claimed.job claimed.lease_token)

  -- `lease_token` is the fresh token of the claim.
  unfoldable pub run_once : (worker_id lease_token : String) → Process (Option JobView)
  unfolding run_claimed lease_for
  run_once worker_id lease_token = do
    claimed ←
        commit store schedule
          (λ m. claim_next_job store m lease_token worker_id 30 (some lease_for))
    run_claimed claimed
