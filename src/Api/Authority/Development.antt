-- ===== src/Api/Authority/Development.antt =====
-- What the development policy of apps/broker/src/deckhand/policy.py adds for `execute` of
-- apps/broker/src/deckhand/api.py.
use deckhand.Base.{◌≡◌, ◌≢◌, refl, sym, ap, ◌∙◌, ℕ, String, Bool, true, false, suc, inl, inr, ◌⊎◌}
use deckhand.Result.{Result, ok}
use deckhand.Models.Request.{
  ActionRequest, ActionDefinition, Subject, JobView, ConfirmationMode, no_confirmation,
}
use deckhand.Catalog.{validate_request}
use deckhand.Policy.{PolicyDecision, decide, decide_iff}
use deckhand.Store.Audit.{Store}
use deckhand.Store.Jobs as Jobs
use deckhand.Store.Operation.{run}
use deckhand.Process.{Schedule, World}
use deckhand.Api.{
  PolicyQuery, Runtime, policy_input, execute, development_policy, development_input,
}
use deckhand.Api.Authority.{IsConfirmed, execute-IsAuthorized}

-- A confirmation was consumed by the step from `w`, and the job created two steps on.
pub record IsCreatedConfirmed (store : Store) (schedule : Schedule) (job_id : String)
    (request : ActionRequest) (subject : Subject) (w : World) (view : JobView) (w' : World)
    : Type 0 where
  pub after : World
  pub confirmed : IsConfirmed store schedule request subject w after
  pub created :
      Jobs.create_job store
        (schedule.at (suc after.turn))
        job_id
        request
        subject
        (run store (schedule.others (suc after.turn)) after.db)
      ≡ ok (view, w'.db)

allowed-means :
    (mutation enabled valid : Bool) (mode : ConfirmationMode)
    → (mutation ≡ false) ⊎ ((enabled ≡ true) × ((mode ≡ no_confirmation) ⊎ (valid ≡ true)))
    → mutation ≡ true
    → (enabled ≡ true) × (mode ≢ no_confirmation → valid ≡ true)
allowed-means mutation enabled valid mode (inl e) mutates = absurd (cc (e, mutates))
allowed-means mutation enabled valid mode (inr (e, inl none_asked)) mutates =
    (e, λ asks. absurd (asks none_asked))
allowed-means mutation enabled valid mode (inr (e, inr v)) mutates = (e, λ asks. v)

development-allows :
    (q : PolicyQuery) (at : ℕ) (decision : PolicyDecision)
    → q.phase ≡ "execute"
    → development_policy at q ≡ ok decision
    → decision.allow ≡ true
    → q.action.mutation ≡ true
    → (q.mutations_enabled ≡ true)
      × (q.action.confirmation ≢ no_confirmation → q.confirmation_valid ≡ true)
unfolding development_policy development_input
development-allows q at decision execute decided allowed mutates =
    let same_decision : decide (development_input q) ≡ decision = cc decided in
    allowed-means q.action.mutation q.mutations_enabled q.confirmation_valid q.action.confirmation
      ((decide_iff (development_input q) execute).0
        (ap (λ (d : PolicyDecision). d.allow) same_decision ∙ allowed))
      mutates

-- Under the development policy, an `execute` that returns a job of a mutating action has mutations enabled.
-- Where the action asks for a confirmation, its first step consumed one of this request: the newest unused
-- confirmation of its digest for this subject and device, with its token and before it expired; and the
-- job was created, two steps on, in the database that this step and then the others have left.
pub execute-IsConfirmed :
    (runtime : Runtime) (schedule : Schedule) (action_id job_id : String) (request : ActionRequest)
    (subject : Subject) (w w' : World) (view : JobView)
    → runtime.policy ≡ development_policy
    → execute runtime schedule action_id job_id request subject w ≡ (ok view, w')
    → (action : ActionDefinition) × (validate_request runtime.parts.accepts runtime.parts.actions
          request
        ≡ ok action)
      × (action.mutation ≡ true
          → (runtime.allow_mutations ≡ true)
            × (action.confirmation ≢ no_confirmation
                → IsCreatedConfirmed runtime.parts.store schedule job_id request subject w view w'))
unfolding policy_input
execute-IsConfirmed runtime schedule action_id job_id request subject w w' view policy h =
    let a =
      (execute-IsAuthorized runtime schedule action_id job_id request subject w w' view h).1 in
    let at = a.after.turn in
    let q = policy_input runtime at a.action request subject "execute" a.valid in
    (
      a.action,
      a.known,
      λ mutates.
          let (enabled, asks) =
            development-allows q at a.decision refl
              (ap (λ (p : ℕ → PolicyQuery → Result PolicyDecision). p at q) (sym policy)
                ∙ a.decided)
              a.allowed mutates in
          (
            enabled,
            λ asked. record {
              after = a.after;
              confirmed = a.confirmed (asks asked);
              created = a.created;
            },
          ),
    )
