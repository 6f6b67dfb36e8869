-- ===== src/Tests/Decisions.antt =====
-- The development policy at a confirmed mutation.
use deckhand.Base.{◌≡◌, ◌↔◌, ◌⊎◌, refl, true, false}
use deckhand.Models.Request.{no_confirmation, hold}
use deckhand.Policy.{PolicyInput, decide, decide_iff}

abbrev input : PolicyInput
input = record {
  mutation = true;
  confirmation = hold;
  mutations_enabled = true;
  phase = "execute";
  confirmation_valid = true;
}

decide_iff_example : ((decide input).allow ≡ true) ↔ (
    (input.mutation ≡ false)
    ⊎ ((input.mutations_enabled ≡ true)
        × ((input.confirmation ≡ no_confirmation) ⊎ (input.confirmation_valid ≡ true))))
decide_iff_example = decide_iff input refl
