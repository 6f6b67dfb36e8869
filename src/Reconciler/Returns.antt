-- ===== src/Reconciler/Returns.antt =====
-- What a turn of the reconciler's loop that returns has done with its job, step by step.
use mathlib.Core.Path.{subst}
use deckhand.Base.{◌≡◌, refl, suc, Bool, true, false, Option, none, some, ◌⊎◌, inl, inr}
use deckhand.Json.{Object, get}
use deckhand.Result.{Error, ok, err, adapter_error, stale_lease}
use deckhand.Models.State.{JobState, verifying, succeeded, failed, unknown_outcome}
use deckhand.Models.Request.{
  ActionRequest, ActionDefinition, Subject, JobView, JobError, RetryDisposition, never, safe,
  reconcile_first,
}
use deckhand.Adapters.{
  AdapterError, AdapterExecution, AdapterObservation, AdapterVerification, as_job_error,
}
use deckhand.Adapters.Registry.{Adapter, get_adapter}
use deckhand.Catalog.{validate_request}
use deckhand.Store.Tx.{Tx}
use deckhand.Store.Audit.{Moment}
use deckhand.Store.Jobs.{get_job_context}
use deckhand.Store.Leases.{transition_job}
use deckhand.Process.{Schedule, World, Process, commit}
use deckhand.Process.Returns.{
  next, Commits, commit-returns, committed-returns, ask-returns, lift-returns, handle-returns,
}
use deckhand.Worker.{Parts, final_result}
use deckhand.Reconciler.{
  execution_of, not_yet, settle_job, check, give_up, target_of, reconcile, or_empty,
}

module _ (parts : Parts) (schedule : Schedule) where
  open parts use {store, actions, accepts, adapters}
  open store use {external as x}

  -- A transition of the job, without a fence.
  abbrev pub settling : JobView → JobState → Option Object → Option JobError → Moment → Tx JobView
  settling job target result error m = transition_job store m job.id target result error none none

  -- From `w`, the adapter has observed, and has verified the execution by that observation; the job was
  -- then moved to `succeeded` with both if the verification is satisfied, and, if it is not, to
  -- `unknown_outcome` with the result it had, which left `w'` and gave `view`.
  pub record Checks (job : JobView) (request : ActionRequest) (action : ActionDefinition)
      (adapter : Adapter) (execution : AdapterExecution) (view : JobView) (w w' : World)
      : Type 0 where
    pub observation : AdapterObservation
    pub observed : adapter.observe w.turn action request ≡ ok observation
    pub verification : AdapterVerification
    pub verified :
        adapter.verify (suc w.turn) action request execution observation ≡ ok verification
    pub succeeds :
        verification.satisfied ≡ true
        → Commits store schedule
            (settling job succeeded
              (some (final_result x.dump_datetime (or_empty job.result) observation verification))
              none)
            (next (next w))
            view
            w'
    pub waits :
        verification.satisfied ≡ false
        → Commits store schedule
            (settling job unknown_outcome
              (some (or_empty job.result))
              (some (not_yet verification)))
            (next (next w))
            view
            w'

  -- The check ended with an error of the adapter, in `raised`; there the job was moved, with that error, to
  -- `failed` if it is never to be tried again and to `unknown_outcome` if it may be.
  pub record GivesUp (job : JobView) (request : ActionRequest) (action : ActionDefinition)
      (adapter : Adapter) (execution : AdapterExecution) (view : JobView) (w w' : World)
      : Type 0 where
    pub error : AdapterError
    pub raised : World
    pub raises :
        check parts schedule job (or_empty job.result) request action adapter execution w
        ≡ (err (adapter_error error), raised)
    pub target : JobState
    pub fails : error.retry ≡ never → target ≡ failed
    pub stays : ¬ (error.retry ≡ never) → target ≡ unknown_outcome
    pub reports :
        Commits store schedule
          (settling job target (some (or_empty job.result)) (some (as_job_error error)))
          raised
          view
          w'

  -- A turn: the job's own request was read and that request's action and adapter found; the execution is
  -- what the job's result holds; the job was moved to `verifying`, and then checked or given up.
  pub record IsReconciled (job view : JobView) (w w' : World) : Type 0 where
    pub request : ActionRequest
    pub owner : Subject
    pub read : World
    pub reads : Commits store schedule (λ m. get_job_context store job.id) w (request, owner) read
    pub action : ActionDefinition
    pub known : validate_request accepts actions request ≡ ok action
    pub adapter : Adapter
    pub registered : get_adapter x.repr adapters action.adapter ≡ ok adapter
    pub execution : AdapterExecution
    pub executed :
        execution_of x.validate_execution
          (or_empty job.result)
          (get "execution" (or_empty job.result))
        ≡ ok execution
    pub moved_view : JobView
    pub moved : World
    pub moves :
        Commits store schedule
          (settling job verifying (some (or_empty job.result)) job.error)
          read
          moved_view
          moved
    pub ends :
        Checks job request action adapter execution view moved w'
        ⊎ GivesUp job request action adapter execution view moved w'

  settle_job-returns :
      (job : JobView) (partial : Object) (observation : AdapterObservation)
      (verification : AdapterVerification) (view : JobView) (w w' : World)
      → settle_job parts schedule job partial observation verification w ≡ (ok view, w')
      → (verification.satisfied ≡ true
          → Commits store schedule
              (settling job succeeded
                (some (final_result x.dump_datetime partial observation verification))
                none)
              w
              view
              w')
        × (verification.satisfied ≡ false
            → Commits store schedule
                (settling job unknown_outcome (some partial) (some (not_yet verification)))
                w
                view
                w')
  unfolding settle_job
  settle_job-returns job partial observation verification view w w' h = (
    λ e. commit-returns store schedule _ w w' view (subst (λ b. branch b w ≡ (ok view, w')) e h),
    λ e. commit-returns store schedule _ w w' view (subst (λ b. branch b w ≡ (ok view, w')) e h),
  )
    where
      branch : Bool → Process JobView
      branch b = elim b as (λ _. Process JobView) [
        | true ↦ commit store schedule (
            settling job succeeded
              (some (final_result x.dump_datetime partial observation verification)) none)
        | false ↦
            commit store schedule
              (settling job unknown_outcome (some partial) (some (not_yet verification)))
      ]

  check-Checks :
      (job : JobView) (request : ActionRequest) (action : ActionDefinition) (adapter : Adapter)
      (execution : AdapterExecution) (view : JobView) (w w' : World)
      → check parts schedule job (or_empty job.result) request action adapter execution w
        ≡ (ok view, w')
      → Checks job request action adapter execution view w w'
  unfolding check
  check-Checks job request action adapter execution view w w' h =
      let (observation, observed, h1) =
        ask-returns (λ at. adapter.observe at action request) _ w w' view h in
      let (verification, verified, h2) =
        ask-returns (λ at. adapter.verify at action request execution observation) _ (next w) w'
          view h1 in
      let (succeeds, waits) =
        settle_job-returns job (or_empty job.result) observation verification view (next (next w))
          w' h2 in
      record {
        observation = observation;
        observed = observed;
        verification = verification;
        verified = verified;
        succeeds = succeeds;
        waits = waits;
      }

  target_of-never : (retry : RetryDisposition) → retry ≡ never → target_of retry ≡ failed
  unfolding target_of
  target_of-never retry e = rw e refl

  target_of-again :
      (retry : RetryDisposition) → ¬ (retry ≡ never) → target_of retry ≡ unknown_outcome
  unfolding target_of
  target_of-again never e = absurd (e refl)
  target_of-again safe e = refl
  target_of-again reconcile_first e = refl

  give_up-GivesUp :
      (job : JobView) (request : ActionRequest) (action : ActionDefinition) (adapter : Adapter)
      (execution : AdapterExecution) (view : JobView) (e : Error) (w mid w' : World)
      → check parts schedule job (or_empty job.result) request action adapter execution w
        ≡ (err e, mid)
      → give_up parts schedule job (or_empty job.result) e mid ≡ (ok view, w')
      → GivesUp job request action adapter execution view w w'
  unfolding give_up
  give_up-GivesUp job request action adapter execution view (adapter_error error) w mid w' raises
        h =
      record {
        error = error;
        raised = mid;
        raises = raises;
        target = target_of error.retry;
        fails = target_of-never error.retry;
        stays = target_of-again error.retry;
        reports =
            commit-returns store schedule
              (settling job (target_of error.retry) (some (or_empty job.result))
                (some (as_job_error error)))
              mid w' view h;
      }
  give_up-GivesUp job request action adapter execution view stale_lease w mid w' raises h =
      absurd (cc h)
  give_up-GivesUp job request action adapter execution view e w mid w' raises h = absurd (cc h)

  -- Whatever others commit meanwhile, a turn of the reconciler's loop that returns has read the request of
  -- its job, found its action and adapter, taken the execution from the job's result, and moved the job
  -- to `verifying`. Then either the adapter observed and verified that execution: the turn ended by moving
  -- the job to `succeeded` if the verification is satisfied, and back to `unknown_outcome` if it is not.
  -- Or an `AdapterError` was raised: the turn ended by moving the job to `failed` if the error is
  -- never to be retried, and to `unknown_outcome` otherwise.
  pub reconcile-IsReconciled :
      (job view : JobView) (w w' : World)
      → reconcile parts schedule job w ≡ (ok view, w')
      → IsReconciled job view w w'
  unfolding reconcile
  reconcile-IsReconciled job view w w' h =
      let partial = or_empty job.result in
      let ((request, owner), read, reads, h1) =
        committed-returns store schedule (λ m. get_job_context store job.id) _ w w' view h in
      let (action, known, h2) =
        lift-returns (validate_request accepts actions request) _ read w' view h1 in
      let (adapter, registered, h3) =
        lift-returns (get_adapter x.repr adapters action.adapter) _ read w' view h2 in
      let (execution, executed, h4) =
        lift-returns (execution_of x.validate_execution partial (get "execution" partial)) _ read w'
          view h3 in
      let (moved_view, moved, moves, h5) =
        committed-returns store schedule (settling job verifying (some partial) job.error) _ read w'
          view h4 in
      record {
        request = request;
        owner = owner;
        read = read;
        reads = reads;
        action = action;
        known = known;
        adapter = adapter;
        registered = registered;
        execution = execution;
        executed = executed;
        moved_view = moved_view;
        moved = moved;
        moves = moves;
        ends =
            elim (handle-returns (check parts schedule job partial request action adapter execution)
              (give_up parts schedule job partial) moved w' view h5) [
                | inl done ↦
                    inl (check-Checks job request action adapter execution view moved w' done)
                | inr (e, mid, raises, handled) ↦ inr (
                    give_up-GivesUp job request action adapter execution view e moved mid w' raises
                      handled)
              ];
      }
