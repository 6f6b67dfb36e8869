-- ===== src/Worker/Returns.antt =====
-- What a round of the worker that returns a job has done, step by step.
use deckhand.Base.{
  ◌≡◌, refl, String, Bool, true, false, Option, none, some, inl, inr, if◌then◌else◌,
}
use deckhand.Result.{Error, ok, err, adapter_error, stale_lease, is_stale_lease}
use deckhand.Models.State.{JobState, verifying, succeeded, failed, unknown_outcome}
use deckhand.Models.Request.{ActionRequest, ActionDefinition, JobView}
use deckhand.Adapters.{
  AdapterError, AdapterExecution, AdapterObservation, AdapterVerification, as_job_error,
}
use deckhand.Adapters.Registry.{Adapter, get_adapter}
use deckhand.Catalog.{validate_request}
use deckhand.Store.Updates.{ClaimedJob}
use deckhand.Store.Jobs.{get_job_context}
use deckhand.Store.Leases.{claim_next_job, renew_lease}
use deckhand.Process.{Schedule, World, Process, pure, raise, ◌>>=◌, commit}
use deckhand.Process.Returns.{
  next, Commits, committed-returns, ask-returns, lift-returns, handle-returns, commit_some-returns,
}
use deckhand.Worker.Round.{IsRound, Succeeds, Reports, move, result_of}
use deckhand.Worker.{
  Parts, report, work, abandon, recover, run_claimed, run_once, lease_for, partial_result,
  not_satisfied,
}

module _ (parts : Parts) (schedule : Schedule) where
  open parts use {store, actions, accepts, adapters}
  open store use {external as x}

  report-returns :
      (job : JobView) (fence : String) (execution : AdapterExecution)
      (observation : AdapterObservation) (verification : AdapterVerification) (view : JobView)
      (w w' : World)
      → report parts schedule job fence execution observation verification w ≡ (ok (some view), w')
      → (verification.satisfied ≡ true)
        × Commits store schedule
            (move parts schedule job fence succeeded
              (result_of parts schedule execution observation verification)
              none)
            w
            view
            w'
  unfolding report
  report-returns job fence execution observation verification view w w' h =
      of verification.satisfied refl h
    where
      finish : Process (Option JobView)
      finish =
          commit store schedule (
            move parts schedule job fence succeeded
              (result_of parts schedule execution observation verification) none)
          >>= λ v. pure (some v)

      of :
          (b : Bool)
          → verification.satisfied ≡ b
          → (elim b as (λ _. Process (Option JobView)) [
            | true ↦ finish
            | false ↦ raise (adapter_error (not_satisfied verification))
          ])
              w
            ≡ (ok (some view), w')
          → (verification.satisfied ≡ true)
            × Commits store schedule
                (move parts schedule job fence succeeded
                  (result_of parts schedule execution observation verification)
                  none)
                w
                view
                w'
      of true e h = (
        e,
        commit_some-returns store schedule
            (move parts schedule job fence succeeded
              (result_of parts schedule execution observation verification) none)
            w w' view h,
      )
      of false e h = absurd (cc h)

  work-Succeeds :
      (job : JobView) (fence : String) (request : ActionRequest) (action : ActionDefinition)
      (adapter : Adapter) (view : JobView) (w w' : World)
      → work parts schedule job fence request action adapter w ≡ (ok (some view), w')
      → Succeeds parts schedule job fence request action adapter view w w'
  unfolding work
  work-Succeeds job fence request action adapter view w w' h =
      let (execution, executed, h1) =
        ask-returns (λ at. adapter.execute at action request) _ w w' (some view) h in
      let (moved_view, moved, moves, h2) =
        committed-returns store schedule
          (move parts schedule job fence verifying (some (partial_result execution)) none) _
          (next w) w' (some view) h1 in
      let (is_renewed, renewed, renews, h3) =
        committed-returns store schedule
          (λ m. renew_lease store m job.id fence (lease_for parts schedule request)) _ moved w'
          (some view) h2 in
      let (observation, observed, h4) =
        ask-returns (λ at. adapter.observe at action request) _ renewed w' (some view) h3 in
      let (verification, verified, h5) =
        ask-returns (λ at. adapter.verify at action request execution observation) _ (next renewed)
          w' (some view) h4 in
      let (satisfied, finishes) =
        report-returns job fence execution observation verification view (next (next renewed)) w'
          h5 in
      record {
        execution = execution;
        executed = executed;
        moved_view = moved_view;
        moved = moved;
        moves = moves;
        is_renewed = is_renewed;
        renewed = renewed;
        renews = renews;
        observation = observation;
        observed = observed;
        verification = verification;
        verified = verified;
        satisfied = satisfied;
        finishes = finishes;
      }

  abandon-never :
      (e : Error) (view : JobView) (w w' : World)
      → ¬ (abandon parts schedule e w ≡ (ok (some view), w'))
  unfolding abandon
  abandon-never e view w w' h = of (is_stale_lease e) h
    where
      of :
          (b : Bool)
          → ¬ (
              (elim b as (λ _. Process (Option JobView)) [ true ↦ pure none | false ↦ raise e ]) w
              ≡ (ok (some view), w'))
      of true h = cc h
      of false h = cc h

  abbrev target_for : AdapterError → JobState
  target_for error = if error.reconciliation_required then unknown_outcome else failed

  recover-Reports :
      (job : JobView) (fence : String) (request : ActionRequest) (action : ActionDefinition)
      (adapter : Adapter) (view : JobView) (e : Error) (w mid w' : World)
      → work parts schedule job fence request action adapter w ≡ (err e, mid)
      → recover parts schedule job fence e mid ≡ (ok (some view), w')
      → Reports parts schedule job fence request action adapter view w w'
  unfolding recover
  recover-Reports job fence request action adapter view (adapter_error error) w mid w' raises h =
      elim (handle-returns (tried error) (abandon parts schedule) mid w' (some view) h) [
        | inl reported ↦ record {
          error = error;
          raised = mid;
          raises = raises;
          target = target_for error;
          unknown = λ b. rw b refl;
          sure = λ b. rw b refl;
          reports =
              commit_some-returns store schedule
                (move parts schedule job fence (target_for error) none (some (as_job_error error)))
                mid w' view reported;
        }
        | inr (e, left, _, abandoned) ↦ absurd (abandon-never e view left w' abandoned)
      ]
    where
      tried : AdapterError → Process (Option JobView)
      tried error =
          commit store schedule
            (move parts schedule job fence (target_for error) none (some (as_job_error error)))
          >>= λ v. pure (some v)
  recover-Reports job fence request action adapter view stale_lease w mid w' raises h =
      absurd (abandon-never stale_lease view mid w' h)
  recover-Reports job fence request action adapter view e w mid w' raises h =
      absurd (abandon-never e view mid w' h)

  -- Whatever others commit meanwhile, a round of the worker that returns a job has claimed a job under
  -- its token, read its request from the database, found its action and adapter, and called that adapter
  -- with it. Either its execution, observation and verification all answered, in this order, the last with
  -- success: then the job was moved to `verifying` and its lease renewed after the execution, and the round
  -- ended by moving it to `succeeded` with these three answers. Or an `AdapterError` was raised: then
  -- the round ended by moving the job to `unknown_outcome` or `failed`, as the error asks. Each transition
  -- was of the claimed job, under the claim's token, and on what the others had left.
  pub run_once-IsRound :
      (worker_id lease_token : String) (view : JobView) (w w' : World)
      → run_once parts schedule worker_id lease_token w ≡ (ok (some view), w')
      → IsRound parts schedule worker_id lease_token view w w'
  unfolding run_once run_claimed
  run_once-IsRound worker_id lease_token view w w' h =
      let (taken, claim, claims, h1) =
        committed-returns store schedule
          (λ m. claim_next_job store m lease_token worker_id 30 (some (lease_for parts schedule)))
          (run_claimed parts schedule) w w' (some view) h in
      of taken claim claims h1
    where
      of :
          (taken : Option ClaimedJob) (claim : World)
          → Commits store schedule
              (λ m.
                claim_next_job store m lease_token worker_id 30 (some (lease_for parts schedule)))
              w
              taken
              claim
          → run_claimed parts schedule taken claim ≡ (ok (some view), w')
          → IsRound parts schedule worker_id lease_token view w w'
      of none claim claims h = absurd (cc h)
      of (some claimed) claim claims h =
          let ((request, owner), read, reads, h1) =
            committed-returns store schedule (λ m. get_job_context store claimed.job.id) _ claim w'
              (some view) h in
          let (action, known, h2) =
            lift-returns (validate_request accepts actions request) _ read w' (some view) h1 in
          let (adapter, registered, h3) =
            lift-returns (get_adapter x.repr adapters action.adapter) _ read w' (some view) h2 in
          record {
            claimed = claimed;
            claim = claim;
            claims = claims;
            request = request;
            owner = owner;
            read = read;
            reads = reads;
            action = action;
            known = known;
            adapter = adapter;
            registered = registered;
            ends =
                elim (handle-returns
                  (work parts schedule claimed.job claimed.lease_token request action adapter)
                  (recover parts schedule claimed.job claimed.lease_token) read w' (some view) h3) [
                    | inl done ↦ inl (
                        work-Succeeds claimed.job claimed.lease_token request action adapter view
                          read w' done)
                    | inr (e, mid, raises, handled) ↦ inr (
                        recover-Reports claimed.job claimed.lease_token request action adapter view
                          e read mid w' raises handled)
                  ];
          }
