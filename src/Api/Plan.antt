-- ===== src/Api/Plan.antt =====
-- `plan` of apps/broker/src/deckhand/api.py.
use deckhand.Base.{
  ℕ, String, Bool, true, false, not, ◌&&◌, Option, none, some, List, same, if◌then◌else◌,
}
use deckhand.Base.Append.{append}
use deckhand.Result.{Error, adapter_error, http_exception, is_catalog_error}
use deckhand.Models.Request.{
  ActionRequest, ActionDefinition, Subject, Target, ConfirmationMode, ConfirmationChallenge,
}
use deckhand.Policy.{PolicyDecision, is_no_confirmation}
use deckhand.Adapters.{AdapterPlan}
use deckhand.Adapters.Registry.{get_adapter}
use deckhand.Catalog.{validate_request}
use deckhand.Digests.{request_digest, confirmation_digest}
use deckhand.Store.Jobs as Jobs
use deckhand.Store.Confirmations as Confirmations
use deckhand.Process.{Schedule, Process, pure, raise, lift, ◌>>=◌, ◌>>◌, handle, commit, ask}
use deckhand.Api.{Runtime, decision_on, is_policy_unavailable}

pub record PlanView : Type 0 where
  pub request_digest : String
  pub confirmation_digest : String
  pub action_id : String
  pub action_version : ℕ
  pub target : Target
  pub mutation : Bool
  pub executable : Bool
  pub steps : List String
  pub required_confirmation : ConfirmationMode
  pub confirmation : Option ConfirmationChallenge
  pub denial_reason : Option String

-- The test of an `except` clause.
abbrev pub is_adapter_error : Error → Bool
is_adapter_error (adapter_error error) = true
is_adapter_error e = false

-- The `except` clauses of `plan`: what each error is raised as.
unfoldable pub plan_error : Error → Error
plan_error e =
    if is_catalog_error e
    then http_exception 422
    else if is_adapter_error e
    then http_exception 503
    else if is_policy_unavailable e
    then http_exception 503
    else e

module _ (runtime : Runtime) (schedule : Schedule) where
  open runtime use {parts}
  open parts use {store, actions, accepts, adapters}
  open store use {external as x}

  -- A denial is recorded.
  unfoldable pub note_denial : ActionRequest → Subject → PolicyDecision → Process (Unit {0})
  note_denial request subject decision = elim decision.allow as (λ _. Process (Unit {0})) [
    | true ↦ pure tt
    | false ↦
        commit store schedule
          (λ m. Jobs.record_policy_denial store m request subject "plan" decision.reason)
  ]

  -- The body of the `try` statement of `plan`.
  unfoldable pub try_plan :
      ActionRequest → Subject → Process (ActionDefinition × AdapterPlan × PolicyDecision)
  unfolding decision_on note_denial
  try_plan request subject = do
    action ← lift (validate_request accepts actions request)
    adapter ← lift (get_adapter x.repr adapters action.adapter)
    adapter_plan ← ask (λ at. adapter.plan at action request)
    decision ← decision_on runtime schedule action request subject "plan" false
    note_denial request subject decision
    pure (action, adapter_plan, decision)

  abbrev pub asks_confirmation : ActionDefinition → PolicyDecision → Bool
  asks_confirmation action decision =
      decision.allow && action.mutation && not (is_no_confirmation decision.required_confirmation)

  abbrev pub prompt : ActionDefinition → ActionRequest → String
  prompt action request = append "Confirm " (
      append action.title
        (append " for " (append request.target.type (append ":" request.target.id))))

  -- `confirmation_id` and `token` are fresh.
  unfoldable pub challenge :
      (confirmation_id token : String)
      → ActionRequest
      → Subject
      → ActionDefinition
      → PolicyDecision
      → Process (Option ConfirmationChallenge)
  challenge confirmation_id token request subject action decision =
      elim (asks_confirmation action decision) as (λ _. Process (Option ConfirmationChallenge)) [
        | true ↦ (do
          created ← commit store schedule (λ m.
              Confirmations.create_confirmation store m confirmation_id token request subject
                decision.required_confirmation (prompt action request)
                runtime.confirmation_ttl_seconds)
          pure (some created))
        | false ↦ pure none
      ]

  unfoldable pub plan_view :
      ActionRequest
      → ActionDefinition
      → AdapterPlan
      → PolicyDecision
      → Option ConfirmationChallenge
      → PlanView
  plan_view request action adapter_plan decision challenged = record {
    request_digest = request_digest x request;
    confirmation_digest = confirmation_digest x request;
    action_id = action.id;
    action_version = action.version;
    target = request.target;
    mutation = action.mutation;
    executable = decision.allow;
    steps = adapter_plan.steps;
    required_confirmation = decision.required_confirmation;
    confirmation = challenged;
    denial_reason = if decision.allow then none else some decision.reason;
  }

  unfoldable pub plan :
      (action_id confirmation_id token : String) → ActionRequest → Subject → Process PlanView
  unfolding try_plan plan_error challenge plan_view
  plan action_id confirmation_id token request subject =
      elim (same action_id request.action_id) as (λ _. Process PlanView) [
        | true ↦ (do
          (action, adapter_plan, decision) ←
              handle (try_plan request subject) (λ e. raise (plan_error e))
          challenged ← challenge confirmation_id token request subject action decision
          pure (plan_view request action adapter_plan decision challenged))
        | false ↦ raise (http_exception 422)
      ]
