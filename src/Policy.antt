-- ===== src/Policy.antt =====
-- `DevelopmentPolicyEngine` of apps/broker/src/deckhand/policy.py. Of the policy input, the record has the
-- members that the engine reads; `ConfirmationMode(…)` of a member's text is the mode itself.
use deckhand.Base.{
  String, ◌≡◌, ◌↔◌, ◌⊎◌, Bool, true, false, not, ◌&&◌, Option, none, same, same_iff, arith,
  if◌then◌else◌,
}
use deckhand.Models.Request.{ConfirmationMode, no_confirmation}

pub record PolicyInput : Type 0 where
  pub mutation : Bool
  pub confirmation : ConfirmationMode
  pub mutations_enabled : Bool
  pub phase : String
  pub confirmation_valid : Bool

pub record PolicyDecision : Type 0 where
  pub allow : Bool
  pub reason : String
  pub required_confirmation : ConfirmationMode
  pub decision_id : Option String

abbrev pub is_no_confirmation : ConfirmationMode → Bool
is_no_confirmation no_confirmation = true
is_no_confirmation _ = false

-- `required`
unfoldable pub required_mode : PolicyInput → ConfirmationMode
required_mode input = if input.mutation then input.confirmation else no_confirmation

unfoldable pub decide : PolicyInput → PolicyDecision
unfolding required_mode
decide input =
    let required = required_mode input in
    if input.mutation && not input.mutations_enabled
    then record {
      allow = false;
      reason = "mutations are disabled";
      required_confirmation = no_confirmation;
      decision_id = none;
    }
    else if same input.phase "execute"
        && not (is_no_confirmation required)
        && not input.confirmation_valid
    then record {
      allow = false;
      reason = "valid confirmation required";
      required_confirmation = required;
      decision_id = none;
    }
    else record { allow = true; reason = ""; required_confirmation = required; decision_id = none }

-- In the phase `execute` the engine allows a request exactly if it does not mutate, or mutations are
-- enabled and the action asks for no confirmation or has a valid one.
pub decide_iff :
    (input : PolicyInput)
    → input.phase ≡ "execute"
    → ((decide input).allow ≡ true) ↔ (
        (input.mutation ≡ false)
        ⊎ ((input.mutations_enabled ≡ true)
            × ((input.confirmation ≡ no_confirmation) ⊎ (input.confirmation_valid ≡ true))))
unfolding decide required_mode
decide_iff input execute = ground (arith, same_iff input.phase "execute")
