-- ===== src/Catalog.antt =====
-- `class Catalog` of apps/broker/src/deckhand/catalog.py, without the reading of files. The dict of the
-- definitions is the list of its values in the dict's order; a value's key is its ID and version.
pub mod Lookup
use deckhand.Base.{
  ℕ, String, Bool, true, false, not, ◌&&◌, ◌||◌, Option, none, some, List, [], ◌∷◌, same, ltb, ◌==◌,
  length, if◌then◌else◌,
}
use deckhand.Json.{Object}
use deckhand.Result.{
  Result, ok, err, ◌>>=◌, duplicate_action, unknown_action, target_not_allowed, invalid_parameters,
}
use deckhand.Models.Request.{ActionRequest, ActionDefinition}

abbrev pub has_key : String → ℕ → ActionDefinition → Bool
has_key id version a = same a.id id && a.version == version

-- `d[(action.id, action.version)] = action`
unfoldable pub set_action : ActionDefinition → List ActionDefinition → List ActionDefinition
set_action a [] = a ∷ []
set_action a (b ∷ bs) = if has_key a.id a.version b then a ∷ bs else b ∷ set_action a bs

-- The dict comprehension of `__init__`, from a dict that is there.
unfoldable pub set_actions : List ActionDefinition → List ActionDefinition → List ActionDefinition
unfolding set_action
set_actions actions [] = actions
set_actions actions (a ∷ rest) = set_actions (set_action a actions) rest

-- `Catalog(actions)`
unfoldable pub catalog : List ActionDefinition → Result (List ActionDefinition)
unfolding set_actions
catalog actions =
    let dict = set_actions [] actions in
    if length dict == length actions then ok dict else err duplicate_action

unfoldable pub find_action : String → ℕ → List ActionDefinition → Option ActionDefinition
find_action id version [] = none
find_action id version (a ∷ rest) =
    if has_key id version a then some a else find_action id version rest

abbrev pub found : Option ActionDefinition → Result ActionDefinition
found none = err unknown_action
found (some a) = ok a

-- `get`
unfoldable pub get_action : List ActionDefinition → String → ℕ → Result ActionDefinition
unfolding find_action
get_action actions id version = found (find_action id version actions)

-- `max(versions, key=…)`, of equal versions the first
abbrev pub larger : ActionDefinition → Option ActionDefinition → ActionDefinition
larger a none = a
larger a (some b) = if ltb a.version b.version then b else a

unfoldable pub highest : String → List ActionDefinition → Option ActionDefinition
highest id [] = none
highest id (a ∷ rest) =
    let highest_rest = highest id rest in
    if same a.id id then some (larger a highest_rest) else highest_rest

unfoldable pub latest : List ActionDefinition → String → Result ActionDefinition
unfolding highest
latest actions id = found (highest id actions)

-- `text in texts`
unfoldable pub includes : String → List String → Bool
includes s [] = false
includes s (t ∷ ts) = same t s || includes s ts

-- `accepts schema parameters`: the JSON Schema validator finds no error.
module _ (accepts : Object → Object → Bool) where
  unfoldable pub validate_request : List ActionDefinition → ActionRequest → Result ActionDefinition
  unfolding includes
  validate_request actions request =
      get_action actions request.action_id request.action_version >>= λ action.
      if not (includes request.target.type action.target_types)
      then err target_not_allowed
      else if not (accepts action.parameter_schema request.parameters)
      then err invalid_parameters
      else ok action
