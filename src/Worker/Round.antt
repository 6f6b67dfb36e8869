-- ===== src/Worker/Round.antt =====
-- A round of the worker, of `run_once` of apps/broker/src/deckhand/worker.py, as the steps that it takes.
use deckhand.Base.{◌≡◌, suc, String, Bool, true, false, Option, none, some, ◌⊎◌}
use deckhand.Result.{ok, err, adapter_error}
use deckhand.Models.State.{JobState, verifying, succeeded, failed, unknown_outcome}
use deckhand.Models.Request.{ActionRequest, ActionDefinition, Subject, JobView, JobError}
use deckhand.Adapters.{
  AdapterError, AdapterExecution, AdapterObservation, AdapterVerification, as_job_error,
}
use deckhand.Adapters.Registry.{Adapter, get_adapter}
use deckhand.Catalog.{validate_request}
use deckhand.Json.{Object}
use deckhand.Store.Tx.{Tx}
use deckhand.Store.Audit.{Moment}
use deckhand.Store.Updates.{ClaimedJob}
use deckhand.Store.Jobs.{get_job_context}
use deckhand.Store.Leases.{claim_next_job, renew_lease, transition_job}
use deckhand.Process.{Schedule, World}
use deckhand.Process.Returns.{next, Commits}
use deckhand.Worker.{Parts, work, lease_for, partial_result, final_result}

module _ (parts : Parts) (schedule : Schedule) where
  open parts use {store, actions, accepts, adapters}
  open store use {external as x}

  -- A transition of the job under its claim's token.
  abbrev pub move :
      JobView → (fence : String) → JobState → Option Object → Option JobError → Moment → Tx JobView
  move job fence target result error m =
      transition_job store m job.id target result error (some fence) none

  -- What the job is given when it has succeeded.
  abbrev pub result_of : AdapterExecution → AdapterObservation → AdapterVerification → Option Object
  result_of execution observation verification =
      some (final_result x.dump_datetime (partial_result execution) observation verification)

  -- From `w`, the adapter has executed the request, and then, in the job's lease, the job was moved to
  -- `verifying` with that execution and the lease renewed; the adapter has observed and then verified that
  -- execution by that observation, and the verification is satisfied; and the job was moved to `succeeded`
  -- with the three of them, which left `w'` and gave `view`.
  pub record Succeeds (job : JobView) (fence : String) (request : ActionRequest)
      (action : ActionDefinition) (adapter : Adapter) (view : JobView) (w w' : World) : Type 0 where
    pub execution : AdapterExecution
    pub executed : adapter.execute w.turn action request ≡ ok execution
    pub moved_view : JobView
    pub moved : World
    pub moves :
        Commits store schedule
          (move job fence verifying (some (partial_result execution)) none)
          (next w)
          moved_view
          moved
    pub is_renewed : Bool
    pub renewed : World
    pub renews :
        Commits store schedule
          (λ m. renew_lease store m job.id fence (lease_for parts schedule request))
          moved
          is_renewed
          renewed
    pub observation : AdapterObservation
    pub observed : adapter.observe renewed.turn action request ≡ ok observation
    pub verification : AdapterVerification
    pub verified :
        adapter.verify (suc renewed.turn) action request execution observation ≡ ok verification
    pub satisfied : verification.satisfied ≡ true
    pub finishes :
        Commits store schedule
          (move job fence succeeded (result_of execution observation verification) none)
          (next (next renewed))
          view
          w'

  -- The work ended with an error of the adapter, in `raised`; there the job was moved, in its lease and
  -- with that error, to `unknown_outcome` if it needs reconciliation and to `failed` if not.
  pub record Reports (job : JobView) (fence : String) (request : ActionRequest)
      (action : ActionDefinition) (adapter : Adapter) (view : JobView) (w w' : World) : Type 0 where
    pub error : AdapterError
    pub raised : World
    pub raises :
        work parts schedule job fence request action adapter w ≡ (err (adapter_error error), raised)
    pub target : JobState
    pub unknown : error.reconciliation_required ≡ true → target ≡ unknown_outcome
    pub sure : error.reconciliation_required ≡ false → target ≡ failed
    pub reports :
        Commits store schedule
          (move job fence target none (some (as_job_error error)))
          raised
          view
          w'

  -- A round: a job was claimed under the round's token, its own request was read, and that request's action
  -- and adapter were found; then the work succeeded or its error was reported.
  pub record IsRound (worker_id lease_token : String) (view : JobView) (w w' : World) : Type 0 where
    pub claimed : ClaimedJob
    pub claim : World
    pub claims :
        Commits store schedule
          (λ m. claim_next_job store m lease_token worker_id 30 (some (lease_for parts schedule)))
          w
          (some claimed)
          claim
    pub request : ActionRequest
    pub owner : Subject
    pub read : World
    pub reads :
        Commits store schedule
          (λ m. get_job_context store claimed.job.id)
          claim
          (request, owner)
          read
    pub action : ActionDefinition
    pub known : validate_request accepts actions request ≡ ok action
    pub adapter : Adapter
    pub registered : get_adapter x.repr adapters action.adapter ≡ ok adapter
    pub ends :
        Succeeds claimed.job claimed.lease_token request action adapter view read w'
        ⊎ Reports claimed.job claimed.lease_token request action adapter view read w'
