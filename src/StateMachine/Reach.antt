-- ===== src/StateMachine/Reach.antt =====
-- The graph of the transitions that `require_transition` accepts: where a job can end, and what it
-- can never do again.
use deckhand.Base.{
  ℕ, ◌≤◌, ◌+◌, ◌*◌, ◌≡◌, ◌≢◌, refl, ap, ◌↔◌, Bool, true, false, arith, if◌then◌else◌,
}
use deckhand.Result.{ok, err, invalid_transition}
use deckhand.Models.State.{
  JobState, received, validated, authorized, awaiting_confirmation, queued, running, verifying,
  succeeded, denied, rejected, expired, cancelled, failed, unknown_outcome, contains,
  terminal_job_states,
}
use deckhand.StateMachine.{require_transition}

-- A step that the code accepts.
infix 40 ◌⟶◌ ◌⟶*◌
abbrev pub ◌⟶◌ : JobState → JobState → Type 0
s ⟶ t = require_transition s t ≡ ok tt

pub data ◌⟶*◌ (s : JobState) : JobState → Type 0 where
  here : s ⟶* s
  next : {t u : JobState} → s ⟶* t → t ⟶ u → s ⟶* u

pub ⟶*-trans : {s t u : JobState} → s ⟶* t → t ⟶* u → s ⟶* u
⟶*-trans p here = p
⟶*-trans p (next q st) = next (⟶*-trans p q) st

-- A state is one of `TERMINAL_JOB_STATES` exactly when `require_transition` refuses every target.
pub terminal_iff_stuck :
    (s : JobState)
    → (contains s terminal_job_states ≡ true)
      ↔ ((t : JobState) → require_transition s t ≡ err (invalid_transition s t))
unfolding require_transition
terminal_iff_stuck succeeded = (λ h t. refl, λ h. refl)
terminal_iff_stuck denied = (λ h t. refl, λ h. refl)
terminal_iff_stuck rejected = (λ h t. refl, λ h. refl)
terminal_iff_stuck expired = (λ h t. refl, λ h. refl)
terminal_iff_stuck cancelled = (λ h t. refl, λ h. refl)
terminal_iff_stuck failed = (λ h t. refl, λ h. refl)
terminal_iff_stuck received = (λ h. cc, λ h. cc (h validated))
terminal_iff_stuck validated = (λ h. cc, λ h. cc (h authorized))
terminal_iff_stuck authorized = (λ h. cc, λ h. cc (h queued))
terminal_iff_stuck awaiting_confirmation = (λ h. cc, λ h. cc (h queued))
terminal_iff_stuck queued = (λ h. cc, λ h. cc (h running))
terminal_iff_stuck running = (λ h. cc, λ h. cc (h verifying))
terminal_iff_stuck verifying = (λ h. cc, λ h. cc (h succeeded))
terminal_iff_stuck unknown_outcome = (λ h. cc, λ h. cc (h verifying))

-- A job that has left `running` is past every state in which a worker could claim it.
abbrev is_started : JobState → Bool
is_started verifying = true
is_started unknown_outcome = true
is_started succeeded = true
is_started failed = true
is_started cancelled = true
is_started _ = false

is_started-⟶ : (s t : JobState) → is_started s ≡ true → s ⟶ t → is_started t ≡ true
unfolding require_transition
is_started-⟶ verifying t h st = ground arith
is_started-⟶ unknown_outcome t h st = ground arith
is_started-⟶ running t h st = cc
is_started-⟶ _ t h st = ground arith

is_started-⟶* : {s t : JobState} → is_started s ≡ true → s ⟶* t → is_started t ≡ true
is_started-⟶* h here = h
is_started-⟶* h (next {t} {u} p st) = is_started-⟶ t u (is_started-⟶* h p) st

running-⟶ : (s : JobState) → running ⟶ s → is_started s ≡ true
unfolding require_transition
running-⟶ s h = ground arith

-- Whatever transitions follow, a job that has left `running` is never `queued` and never `running`
-- again: its operation is not replayed.
pub running_never_replayed : {s t : JobState} → running ⟶ s → s ⟶* t → (t ≢ queued) × (t ≢ running)
running_never_replayed {s} st p =
    let h = is_started-⟶* (running-⟶ s st) p in
    (λ e. cc (ap is_started e, h), λ e. cc (ap is_started e, h))

abbrev pub rank : JobState → ℕ
rank received = 0
rank validated = 1
rank authorized = 2
rank awaiting_confirmation = 3
rank queued = 4
rank running = 5
rank verifying = 6
rank unknown_outcome = 7
rank _ = 8

abbrev pub is_reconcile : JobState → JobState → Bool
is_reconcile unknown_outcome verifying = true
is_reconcile _ _ = false

abbrev pub steps : {s t : JobState} → s ⟶* t → ℕ
steps here = 0
steps (next p st) = steps p + 1

-- How often a path goes from `unknown_outcome` back to `verifying`.
abbrev pub reconciles : {s t : JobState} → s ⟶* t → ℕ
reconciles here = 0
reconciles (next {t} {u} p st) = (if is_reconcile t u then 1 else 0) + reconciles p

rank-⟶ : (s t : JobState) → s ⟶ t → rank s + 1 ≤ rank t + (if is_reconcile s t then 2 else 0)
unfolding require_transition
rank-⟶ received t st = ground arith
rank-⟶ _ t st = ground arith

-- Between two states a job makes at most as many transitions as their ranks are apart, and two more
-- for each time that it is reconciled: nothing else goes round in a circle.
pub steps_bounded : {s t : JobState} (p : s ⟶* t) → steps p + rank s ≤ rank t + 2 * reconciles p
steps_bounded here = omega arith
steps_bounded (next {t} {u} p st) = ground (arith, steps_bounded p, rank-⟶ t u st)

-- From every state some terminal state is reached by accepted transitions: no state traps a job.
pub can_finish :
    (s : JobState) → (t : JobState) × (s ⟶* t) × (contains t terminal_job_states ≡ true)
unfolding require_transition
can_finish received = (rejected, next here refl, refl)
can_finish validated = (denied, next here refl, refl)
can_finish authorized = (expired, next (next {u = queued} here refl) refl, refl)
can_finish awaiting_confirmation = (expired, next here refl, refl)
can_finish queued = (expired, next here refl, refl)
can_finish running = (failed, next here refl, refl)
can_finish verifying = (failed, next here refl, refl)
can_finish unknown_outcome = (failed, next here refl, refl)
can_finish succeeded = (succeeded, here, refl)
can_finish denied = (denied, here, refl)
can_finish rejected = (rejected, here, refl)
can_finish expired = (expired, here, refl)
can_finish cancelled = (cancelled, here, refl)
can_finish failed = (failed, here, refl)
