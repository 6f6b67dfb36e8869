-- ===== src/StateMachine.antt =====
-- apps/broker/src/deckhand/state_machine.py: the transitions that a job may make.
pub mod Reach
use deckhand.Base.{Bool, List, [], ◌∷◌, if◌then◌else◌}
use deckhand.Result.{Result, ok, err, invalid_transition}
use deckhand.Models.State.{
  JobState, received, validated, authorized, awaiting_confirmation, queued, running, verifying,
  succeeded, denied, rejected, expired, cancelled, failed, unknown_outcome, contains,
}

-- `ALLOWED_TRANSITIONS`
unfoldable pub allowed_transitions : JobState → List JobState
allowed_transitions received = validated ∷ rejected ∷ []
allowed_transitions validated = authorized ∷ denied ∷ rejected ∷ []
allowed_transitions authorized = awaiting_confirmation ∷ queued ∷ []
allowed_transitions awaiting_confirmation = queued ∷ expired ∷ cancelled ∷ []
allowed_transitions queued = running ∷ cancelled ∷ expired ∷ []
allowed_transitions running = verifying ∷ failed ∷ unknown_outcome ∷ cancelled ∷ []
allowed_transitions verifying = succeeded ∷ failed ∷ unknown_outcome ∷ cancelled ∷ []
allowed_transitions unknown_outcome = verifying ∷ succeeded ∷ failed ∷ cancelled ∷ []
allowed_transitions succeeded = []
allowed_transitions denied = []
allowed_transitions rejected = []
allowed_transitions expired = []
allowed_transitions cancelled = []
allowed_transitions failed = []

unfoldable pub require_transition : JobState → JobState → Result (Unit {0})
unfolding allowed_transitions
require_transition current target =
    if contains target (allowed_transitions current)
    then ok tt
    else err (invalid_transition current target)
