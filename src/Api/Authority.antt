-- ===== src/Api/Authority.antt =====
-- What had to hold for `execute` of apps/broker/src/deckhand/api.py to create a job.
pub mod Development
use mathlib.Core.Path.{subst}
use deckhand.Base.{
  ◌≡◌, ◌≢◌, refl, sym, ap, ◌∙◌, if◌then◌else◌, ℕ, String, Bool, true, false, suc, Option, none,
  some, same, inl, inr, ◌⊎◌, same_iff,
}
use deckhand.Result.{Result, ok, http_exception}
use deckhand.Models.Request.{
  ActionRequest, ActionDefinition, Subject, JobView, ConfirmationMode, no_confirmation,
}
use deckhand.Catalog.{validate_request}
use deckhand.Policy.{PolicyDecision, decide, decide_iff}
use deckhand.Store.Rows.{Db}
use deckhand.Store.Audit.{Store, Moment}
use deckhand.Store.Jobs as Jobs
use deckhand.Store.Contracts.Approval.{Consumed, consume_confirmation-Consumed}
use deckhand.Store.Operation.{run}
use deckhand.Process.{Schedule, World, Process, raise, lift, ◌>>◌, handle, commit, ask}
use deckhand.Process.Returns.{bind-returns, reraised-returns, commit-returns}
use deckhand.Api.{
  PolicyQuery, Runtime, policy_input, decision_on, confirm, submit, enforce, try_execute, execute,
  given_token, development_policy, development_input, execute_error,
}

given_token-some :
    (o : Option String) (token : String) → given_token o ≡ some token → o ≡ some token
given_token-some none token h = absurd (cc h)
given_token-some (some t) token h = of (same t "") h
  where
    of : (b : Bool) → (if b then none else some t) ≡ some token → some t ≡ some token
    of true h = absurd (cc h)
    of false h = h

-- The step from `w` to `after` was the transaction that consumed a confirmation of this request, with the
-- token it brought, at that step's moment and on what the others had left.
pub record IsConfirmed (store : Store) (schedule : Schedule) (request : ActionRequest)
    (subject : Subject) (w after : World) : Type 0 where
  pub token : String
  pub brought : request.confirmation_token ≡ some token
  pub consumed :
      Consumed store
        (schedule.at w.turn)
        request
        subject
        token
        request.confirmation_response
        (run store (schedule.others w.turn) w.db)
        after.db
  pub turned : after.turn ≡ suc w.turn

-- The request is of a known action and no dry run. The policy was asked in the world `after` that the
-- confirmation left, and has allowed the execution; it was told of a valid confirmation only if that step
-- consumed one. The next step created the job, on what the confirmation and then the others had left.
pub record IsAuthorized (runtime : Runtime) (schedule : Schedule) (job_id : String)
    (request : ActionRequest) (subject : Subject) (w : World) (view : JobView) (w' : World)
    : Type 0 where
  pub action : ActionDefinition
  pub known : validate_request runtime.parts.accepts runtime.parts.actions request ≡ ok action
  pub valid : Bool
  pub after : World
  pub confirmed : valid ≡ true → IsConfirmed runtime.parts.store schedule request subject w after
  pub decision : PolicyDecision
  pub decided :
      runtime.policy after.turn
        (policy_input runtime after.turn action request subject "execute" valid)
      ≡ ok decision
  pub allowed : decision.allow ≡ true
  pub wet : request.dry_run ≡ false
  pub created :
      Jobs.create_job runtime.parts.store
        (schedule.at (suc after.turn))
        job_id
        request
        subject
        (run runtime.parts.store (schedule.others (suc after.turn)) after.db)
      ≡ ok (view, w'.db)

module _ (runtime : Runtime) (schedule : Schedule) where
  open runtime use {parts}
  open parts use {store}

  confirm-IsConfirmed :
      (request : ActionRequest) (subject : Subject) (w after : World) (o : Option String)
      → ((token : String) → o ≡ some token → request.confirmation_token ≡ some token)
      → confirm runtime schedule request subject o w ≡ (ok true, after)
      → IsConfirmed store schedule request subject w after
  unfolding confirm
  confirm-IsConfirmed request subject w after none brought h = absurd (cc h)
  confirm-IsConfirmed request subject w after (some token) brought h =
      let (ran, turned) = commit-returns store schedule _ w after true h in
      record {
        token = token;
        brought = brought token refl;
        consumed =
            consume_confirmation-Consumed store (schedule.at w.turn) request subject token
              request.confirmation_response (run store (schedule.others w.turn) w.db) after.db ran;
        turned = turned;
      }

  -- A `create_job` of the request, at the step that begins in `w`.
  abbrev Creates : String → ActionRequest → Subject → JobView → World → World → Type 0
  Creates job_id request subject view w w' =
      Jobs.create_job store (schedule.at w.turn) job_id request subject
        (run store (schedule.others w.turn) w.db)
      ≡ ok (view, w'.db)

  submit-wet :
      (job_id : String) (request : ActionRequest) (subject : Subject) (w w' : World)
      (view : JobView)
      → submit runtime schedule job_id request subject w ≡ (ok view, w')
      → (request.dry_run ≡ false) × Creates job_id request subject view w w'
  unfolding submit
  submit-wet job_id request subject w w' view h = of request.dry_run h
    where
      creation : Process JobView
      creation = commit store schedule (λ m. Jobs.create_job store m job_id request subject)

      of :
          (b : Bool)
          → (elim b as (λ _. Process JobView) [
            | true ↦ raise (http_exception 422)
            | false ↦ creation
          ])
              w
            ≡ (ok view, w')
          → (b ≡ false) × Creates job_id request subject view w w'
      of true h = absurd (cc h)
      of false h = (refl, (commit-returns store schedule _ w w' view h).0)

  enforce-allowed :
      (job_id : String) (request : ActionRequest) (subject : Subject) (decision : PolicyDecision)
      (w w' : World) (view : JobView)
      → enforce runtime schedule job_id request subject decision w ≡ (ok view, w')
      → (decision.allow ≡ true)
        × (request.dry_run ≡ false)
        × Creates job_id request subject view w w'
  unfolding enforce
  enforce-allowed job_id request subject decision w w' view h = of decision.allow h
    where
      noted : Process (Unit {0})
      noted =
          commit store schedule
            (λ m. Jobs.record_policy_denial store m request subject "execute" decision.reason)

      of :
          (b : Bool)
          → (elim b as (λ _. Process JobView) [
            | true ↦ submit runtime schedule job_id request subject
            | false ↦ noted >> raise (http_exception 403)
          ])
              w
            ≡ (ok view, w')
          → (b ≡ true) × (request.dry_run ≡ false) × Creates job_id request subject view w w'
      of true h =
          let (wet, created) = submit-wet job_id request subject w w' view h in (refl, wet, created)
      of false h =
          let (u, mid, ran, rest) =
            bind-returns noted (λ _. raise (http_exception 403)) w w' view h in
          absurd (cc rest)

  decision_on-decided :
      (action : ActionDefinition) (request : ActionRequest) (subject : Subject) (valid : Bool)
      (w w' : World) (decision : PolicyDecision)
      → decision_on runtime schedule action request subject "execute" valid w ≡ (ok decision, w')
      → (runtime.policy w.turn (policy_input runtime w.turn action request subject "execute" valid)
          ≡ ok decision)
        × (w' ≡ record w { turn = suc w.turn })
  unfolding decision_on ask
  decision_on-decided action request subject valid w w' decision h =
      (ap (λ r. r.0) h, sym (ap (λ r. r.1) h))

  try_execute-IsAuthorized :
      (job_id : String) (request : ActionRequest) (subject : Subject) (w w' : World)
      (view : JobView)
      → try_execute runtime schedule job_id request subject w ≡ (ok view, w')
      → IsAuthorized runtime schedule job_id request subject w view w'
  unfolding try_execute
  try_execute-IsAuthorized job_id request subject w w' view h =
      let token = given_token request.confirmation_token in
      let (action, w1, known, h1) =
        bind-returns (lift (validate_request parts.accepts parts.actions request)) _ w w' view h in
      let (valid, w2, told, h2) =
        bind-returns (confirm runtime schedule request subject token) _ w1 w' view h1 in
      let (decision, w3, decided, h3) =
        bind-returns (decision_on runtime schedule action request subject "execute" valid) _ w2 w'
          view h2 in
      let (answer, next) =
        decision_on-decided action request subject valid w2 w3 decision decided in
      let (allowed, wet, created) = enforce-allowed job_id request subject decision w3 w' view h3 in
      let same_start : w1 ≡ w = sym (ap (λ r. r.1) known) in
      record {
        action = action;
        known = ap (λ r. r.0) known;
        valid = valid;
        after = w2;
        confirmed = λ e.
            confirm-IsConfirmed request subject w w2 token
              (given_token-some request.confirmation_token)
              (ap (confirm runtime schedule request subject token) (sym same_start)
                ∙ told
                ∙ ap (λ (b : Bool). (ok b, w2)) e);
        decision = decision;
        decided = answer;
        allowed = allowed;
        wet = wet;
        created = subst (λ v. Creates job_id request subject view v w') next created;
      }

pub execute-IsAuthorized :
    (runtime : Runtime) (schedule : Schedule) (action_id job_id : String) (request : ActionRequest)
    (subject : Subject) (w w' : World) (view : JobView)
    → execute runtime schedule action_id job_id request subject w ≡ (ok view, w')
    → (action_id ≡ request.action_id)
      × IsAuthorized runtime schedule job_id request subject w view w'
unfolding execute
execute-IsAuthorized runtime schedule action_id job_id request subject w w' view h =
    of (same action_id request.action_id) refl h
  where
    tried : Process JobView
    tried =
        handle (try_execute runtime schedule job_id request subject) (λ e. raise (execute_error e))

    of :
        (b : Bool)
        → same action_id request.action_id ≡ b
        → (elim b as (λ _. Process JobView) [ true ↦ tried | false ↦ raise (http_exception 422) ]) w
          ≡ (ok view, w')
        → (action_id ≡ request.action_id)
          × IsAuthorized runtime schedule job_id request subject w view w'
    of true e h = (
      (same_iff action_id request.action_id).0 e,
      try_execute-IsAuthorized runtime schedule job_id request subject w w' view (
          reraised-returns (try_execute runtime schedule job_id request subject) execute_error w w'
            view h),
    )
    of false e h = absurd (cc h)
