-- ===== src/Tests/Machine.antt =====
-- The state machine and the digests at concrete jobs and requests.
use deckhand.Digests.{confirmation_payload}
use deckhand.Base.{sym, ap, ◌∙◌, Option, none, some}
use deckhand.Json.{Object, Json}
use deckhand.Base.{◌≡◌, refl, ◌≢◌, ◌+◌, ◌*◌, ◌≤◌, ◌↔◌, true, none, some}
use deckhand.Result.{err, invalid_transition}
use deckhand.Models.State.{
  JobState, queued, running, verifying, unknown_outcome, succeeded, contains, terminal_job_states,
}
use deckhand.Models.Request.{RequestContext}
use deckhand.StateMachine.{require_transition}
use deckhand.StateMachine.Reach.{
  ◌⟶*◌, here, next, rank, steps, reconciles, terminal_iff_stuck, running_never_replayed,
  steps_bounded, can_finish,
}
use deckhand.Digests.{request_digest, confirmation_digest}
use deckhand.Digests.Binding.{
  IsSeparating, SameMembers, SameAuthority, execution_of, plan_digest_of_execution,
  confirmation_digest-SameAuthority,
}
use deckhand.External.{External}
use deckhand.Tests.Toy.{library, request, dumped}

-- A job that runs, is lost, is reconciled, is lost again and succeeds.
abbrev reconciled : queued ⟶* succeeded
unfolding require_transition
reconciled =
    next {t = unknown_outcome}
      (next {t = verifying}
        (next {t = unknown_outcome} (next {t = running} (next here refl) refl) refl) refl)
      refl

abbrev from_lost : unknown_outcome ⟶* succeeded
unfolding require_transition
from_lost = next {t = verifying} (next here refl) refl

terminal_iff_stuck_example :
    (contains succeeded terminal_job_states ≡ true)
    ↔ ((t : JobState) → require_transition succeeded t ≡ err (invalid_transition succeeded t))
terminal_iff_stuck_example = terminal_iff_stuck succeeded

running_never_replayed_example : (succeeded ≢ queued) × (succeeded ≢ running)
unfolding require_transition
running_never_replayed_example = running_never_replayed {s = unknown_outcome} refl from_lost

steps_bounded_example : steps reconciled + rank queued ≤ rank succeeded + 2 * reconciles reconciled
steps_bounded_example = steps_bounded reconciled

can_finish_example :
    (t : JobState) × (unknown_outcome ⟶* t) × (contains t terminal_job_states ≡ true)
can_finish_example = can_finish unknown_outcome

abbrev external : External
external = library (λ t. t)

abbrev phone : RequestContext
phone = record { profile = none; frontmost_app = none; client = "phone"; control = some "k1" }

plan_digest_of_execution_example :
    (confirmation_digest external (execution_of request "key-2" phone (some "secret") none)
      ≡ confirmation_digest external request)
    × (request_digest external
          (record request { confirmation_token = some "secret"; confirmation_response = none })
        ≡ request_digest external request)
plan_digest_of_execution_example =
    plan_digest_of_execution external request "key-2" phone (some "secret") none

one_member : (x : External) (o : Object) → SameMembers x o o
one_member x o e key u v f g =
    ap (λ (o : Option Json). elim o [ none ↦ x.dumps u | some w ↦ x.dumps w ]) (sym f ∙ g)

dumps-separates : IsSeparating external request (execution_of request "key-2" phone none none)
unfolding confirmation_digest dumped confirmation_payload
dumps-separates = record {
  no_collision = λ e. e;
  payloads = one_member external _;
  targets = one_member external _;
  texts = λ a b e. e;
  numbers = λ a b e. e;
  ints = λ e. refl;
}

same_digest :
    confirmation_digest external request
    ≡ confirmation_digest external (execution_of request "key-2" phone none none)
same_digest = sym (plan_digest_of_execution external request "key-2" phone none none).0

confirmation_digest-SameAuthority_example :
    SameAuthority external request (execution_of request "key-2" phone none none)
confirmation_digest-SameAuthority_example =
    confirmation_digest-SameAuthority external request
      (execution_of request "key-2" phone none none) dumps-separates same_digest
