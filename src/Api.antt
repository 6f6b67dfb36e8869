-- ===== src/Api.antt =====
-- The routes of apps/broker/src/deckhand/api.py that execute, plan and cancel, as processes beside others
-- on the same database; the last two are in Plan and Cancellation. The subject is the one that was authenticated. Of a request's policy input, the
-- record has the values that the dict is made of.
pub mod Plan
pub mod Cancellation
pub mod Authority
use deckhand.Base.{
  ℕ, String, Bool, true, false, not, ◌&&◌, Option, none, some, List, same, if◌then◌else◌,
}
use deckhand.Base.Append.{append}
use deckhand.Json.{Object, end, field, text}
use deckhand.Result.{
  Error, Result, ok, err, adapter_error, cancellation_error, policy_unavailable, http_exception,
  is_catalog_error, is_store_error,
}
use deckhand.Models.Request.{
  ActionRequest, ActionDefinition, Subject, Target, JobView, ConfirmationMode,
  ConfirmationChallenge,
}
use deckhand.Policy.{PolicyInput, PolicyDecision, decide, is_no_confirmation}
use deckhand.Adapters.{AdapterPlan}
use deckhand.Adapters.Registry.{Adapter, get_adapter}
use deckhand.Catalog.{validate_request}
use deckhand.Digests.{request_digest, confirmation_digest}
use deckhand.Store.Audit.{Store, Moment}
use deckhand.Store.Jobs as Jobs
use deckhand.Store.Confirmations as Confirmations
use deckhand.Process.{Schedule, Process, pure, raise, lift, ◌>>=◌, ◌>>◌, handle, commit, ask}
use deckhand.Worker.{Parts}
use deckhand.Canceller as Canceller

-- `policy_input`
pub record PolicyQuery : Type 0 where
  pub action : ActionDefinition
  pub request : ActionRequest
  pub subject : Subject
  pub protected : Bool
  pub mutations_enabled : Bool
  pub audit_writable : Bool
  pub environment : String
  pub digest : String
  pub phase : String
  pub confirmation_valid : Bool
  pub confirmed_digest : Option String

-- What `DevelopmentPolicyEngine` reads of it.
unfoldable pub development_input : PolicyQuery → PolicyInput
development_input q = record {
  mutation = q.action.mutation;
  confirmation = q.action.confirmation;
  mutations_enabled = q.mutations_enabled;
  phase = q.phase;
  confirmation_valid = q.confirmation_valid;
}

unfoldable pub development_policy : ℕ → PolicyQuery → Result PolicyDecision
unfolding decide development_input
development_policy at q = ok (decide (development_input q))

-- What the application is built with. The policy engine and the probe of the audit log answer at a step.
pub record Runtime : Type 0 where
  pub parts : Parts
  pub policy : ℕ → PolicyQuery → Result PolicyDecision
  pub audit_is_writable : ℕ → Bool
  pub is_protected : Target → Bool
  pub allow_mutations : Bool
  pub environment : String
  pub confirmation_ttl_seconds : ℕ

-- The test of an `except` clause.
abbrev pub is_policy_unavailable : Error → Bool
is_policy_unavailable policy_unavailable = true
is_policy_unavailable e = false

-- The `except` clauses of `execute`: what each error is raised as.
unfoldable pub execute_error : Error → Error
execute_error e =
    if is_catalog_error e
    then http_exception 422
    else if is_policy_unavailable e
    then http_exception 503
    else if is_store_error e
    then http_exception 409
    else e

-- `request.confirmation_token`, where it is true.
abbrev pub given_token : Option String → Option String
given_token none = none
given_token (some token) = if same token "" then none else some token

module _ (runtime : Runtime) where
  open runtime use {parts, audit_is_writable, is_protected, allow_mutations, environment}
  open parts use {store}
  open store use {external as x}

  unfoldable pub policy_input :
      (at : ℕ)
      → ActionDefinition
      → ActionRequest
      → Subject
      → (phase : String) (confirmation_valid : Bool) → PolicyQuery
  policy_input at action request subject phase confirmation_valid = record {
    action = action;
    request = request;
    subject = subject;
    protected = is_protected request.target;
    mutations_enabled = allow_mutations;
    audit_writable = audit_is_writable at;
    environment = environment;
    digest = request_digest x request;
    phase = phase;
    confirmation_valid = confirmation_valid;
    confirmed_digest = if confirmation_valid then some (request_digest x request) else none;
  }

module _ (runtime : Runtime) (schedule : Schedule) where
  open runtime use {parts, policy}
  open parts use {store, actions, accepts, adapters}
  open store use {external as x}

  -- The decision on a request in a phase.
  unfoldable pub decision_on :
      ActionDefinition → ActionRequest → Subject → String → Bool → Process PolicyDecision
  unfolding policy_input
  decision_on action request subject phase valid =
      ask (λ at. policy at (policy_input runtime at action request subject phase valid))

  unfoldable pub confirm : ActionRequest → Subject → Option String → Process Bool
  confirm request subject none = pure false
  confirm request subject (some token) = commit store schedule (λ m.
      Confirmations.consume_confirmation store m request subject token
        request.confirmation_response)

  -- What follows the decision to allow.
  unfoldable pub submit : (job_id : String) → ActionRequest → Subject → Process JobView
  submit job_id request subject = elim request.dry_run as (λ _. Process JobView) [
    | true ↦ raise (http_exception 422)
    | false ↦ commit store schedule (λ m. Jobs.create_job store m job_id request subject)
  ]

  -- What follows the decision.
  unfoldable pub enforce :
      (job_id : String) → ActionRequest → Subject → PolicyDecision → Process JobView
  unfolding submit
  enforce job_id request subject decision = elim decision.allow as (λ _. Process JobView) [
    | true ↦ submit job_id request subject
    | false ↦
        commit store schedule
          (λ m. Jobs.record_policy_denial store m request subject "execute" decision.reason)
        >> raise (http_exception 403)
  ]

  -- The body of the `try` statement of `execute`; `job_id` is fresh.
  unfoldable pub try_execute : (job_id : String) → ActionRequest → Subject → Process JobView
  unfolding confirm decision_on enforce
  try_execute job_id request subject = do
    action ← lift (validate_request accepts actions request)
    valid ← confirm request subject (given_token request.confirmation_token)
    decision ← decision_on action request subject "execute" valid
    enforce job_id request subject decision

  unfoldable pub execute : (action_id job_id : String) → ActionRequest → Subject → Process JobView
  unfolding try_execute execute_error
  execute action_id job_id request subject =
      elim (same action_id request.action_id) as (λ _. Process JobView) [
        | true ↦ handle (try_execute job_id request subject) (λ e. raise (execute_error e))
        | false ↦ raise (http_exception 422)
      ]
