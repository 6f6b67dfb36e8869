-- ===== src/Tests/MacAgent.antt =====
-- The macOS agent on a small inventory.
use deckhand.MacAgent.Permitted.Refusals.{is_known}
use deckhand.MacAgent.Inventory.{find}
use deckhand.MacAgent.Handlers.Routines.{sleep_inhibit_off, sleep_inhibit_on}
use deckhand.Base.{◌≡◌, refl, true, false, none, some, List, [], ◌∷◌, All, inr, same}
use deckhand.MacAgent.{LocalAction, LocalActionRequest}
use deckhand.MacAgent.Inventory.{MacInventory}
use deckhand.Json.{Object, field, text, array, item, object, number, end, nil}
use deckhand.MacAgent.Agent.{Platform, Machine, returned, spawn, terminate, succeeded}
use deckhand.MacAgent.Executor.{execute, execute_all}
use deckhand.MacAgent.Permitted.{Permitted}
use deckhand.MacAgent.Permitted.Execute.{execute_all-Permitted}
use deckhand.MacAgent.Permitted.Refusals.{IsRefused, execute-IsRefused}

-- The scene that OBS shows, with the camera in it.
abbrev scene : Object
scene = field "currentProgramSceneName" (text "Desk") (
    field "sceneItems"
      (array (
        item (object (field "sourceName" (text "Camera") (field "sceneItemId" (number "7") end)))
          nil))
      end)

abbrev platform : Platform
platform = record {
  ended = λ at arguments. succeeded "true";
  obs_answer = λ at type data'. returned scene;
  can_spawn = λ at arguments. true;
  has_exited = λ at process. false;
  which = λ name. none;
  expanduser = λ path. path;
  strip = λ t. t;
  lower = λ t. t;
  repr = λ t. t;
  is_zero = λ t. some false;
  first_256 = λ t. t;
  is_nonzero = λ t. true;
}

abbrev inventory : MacInventory
inventory = record {
  apps = ("notes", "com.apple.Notes") ∷ [];
  browser_sessions = [];
  shortcuts = [];
  audio_inputs = [];
  audio_outputs = [];
  focus_modes = [];
  pomodoro_routines = [];
  display_modes = [];
  workspaces = [];
  input_sources = [];
  app_commands =
      ("export", record { bundle_id = "org.gimp.gimp"; keystroke = "keystroke \"e\"" }) ∷ [];
  obs = record { scenes = []; sources = ("cam", "Camera") ∷ [] };
}

abbrev idle : Machine
idle = record { given = []; caffeinate_process = none; turn = 0 }

abbrev requests : List LocalActionRequest
requests =
    record { action_id = LocalAction.app_ensure_running; target = "notes" }
    ∷ record { action_id = LocalAction.app_command; target = "export" }
    ∷ record { action_id = LocalAction.obs_source_toggle; target = "cam" }
    ∷ record { action_id = LocalAction.sleep_inhibit_on; target = "mac" }
    ∷ record { action_id = LocalAction.sleep_inhibit_on; target = "mac" }
    ∷ record { action_id = LocalAction.sleep_inhibit_off; target = "_" }
    ∷ []

execute_all-Permitted_example :
    All (Permitted platform inventory) (execute_all platform inventory requests idle).given
execute_all-Permitted_example = execute_all-Permitted platform inventory requests idle tt

abbrev unknown_app : LocalActionRequest
unknown_app = record { action_id = LocalAction.app_ensure_running; target = "mail" }

execute-IsRefused_example : IsRefused (execute platform inventory unknown_app) idle
unfolding is_known find same
execute-IsRefused_example = execute-IsRefused platform inventory unknown_app idle (inr refl)

-- A second request to inhibit sleep starts no second process.
sleep_is_inhibited_once :
    (execute_all platform inventory
      (record { action_id = LocalAction.sleep_inhibit_on; target = "mac" }
        ∷ record { action_id = LocalAction.sleep_inhibit_on; target = "mac" }
        ∷ record { action_id = LocalAction.sleep_inhibit_off; target = "_" }
        ∷ [])
      idle).given
    ≡ terminate 0 ∷ spawn ("/usr/bin/caffeinate" ∷ "-di" ∷ []) ∷ []
unfolding execute_all sleep_inhibit_off same sleep_inhibit_on
sleep_is_inhibited_once = refl
