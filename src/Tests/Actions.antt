-- ===== src/Tests/Actions.antt =====
-- The catalog with three definitions, two of them versions of one action.
use deckhand.Base.{same}
use deckhand.Base.{ℕ, String, ◌≡◌, ◌≤◌, refl, true, List, [], ◌∷◌, All}
use deckhand.Json.{end}
use deckhand.Result.{ok}
use deckhand.Models.Request.{ActionDefinition, local, confirm}
use deckhand.Catalog.{catalog, get_action, latest}
use deckhand.Catalog.Lookup.{IsDistinct, catalog-finds, latest-covers}

abbrev definition : String → ℕ → ActionDefinition
definition id version = record {
  id = id;
  version = version;
  title = "";
  description = "";
  risk_class = local;
  plugin = "hue";
  adapter = "hue";
  target_types = "light" ∷ [];
  parameter_schema = end;
  policy_action = "light.write";
  confirmation = confirm;
  timeout_seconds = 5;
  idempotency = "required";
  mutation = true;
}

abbrev toggle : ActionDefinition
toggle = definition "light.toggle" 1

abbrev pub actions : List ActionDefinition
actions = toggle ∷ definition "light.toggle" 2 ∷ definition "light.dim" 1 ∷ []

builds : catalog actions ≡ ok actions
unfolding catalog same
builds = refl

catalog-finds_example :
    (actions ≡ actions)
    × IsDistinct actions
    × All (λ a. get_action actions a.id a.version ≡ ok a) actions
catalog-finds_example = catalog-finds actions actions builds

abbrev newest_toggle : ActionDefinition
newest_toggle = definition "light.toggle" 2

selects : latest actions "light.toggle" ≡ ok newest_toggle
unfolding latest same
selects = refl

latest-covers_example :
    (newest_toggle.id ≡ "light.toggle")
    × All (λ b. b.id ≡ "light.toggle" → b.version ≤ newest_toggle.version) actions
latest-covers_example = latest-covers "light.toggle" actions newest_toggle selects
