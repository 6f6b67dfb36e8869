-- ===== src/MacAgent/Permitted.antt =====
-- Which commands the operator's inventory permits, whatever was requested, and that the handlers of
-- apps/macos-agent/src/deckhand_macos/executor.py give no others.
pub mod Apps
pub mod Routines
pub mod Recording
pub mod Execute
pub mod Refusals
use deckhand.Base.{◌≡◌, refl, ℕ, String, Bool, true, Option, none, some, List, [], ◌∷◌}
use deckhand.Json.{Json, Items, Object, boolean, array, object, item, end, field, text, get}
use deckhand.MacAgent.Inventory.{Dict, MacInventory, AppCommand, find, is_bundle_id}
use deckhand.MacAgent.Agent.{Platform, Command, returned, exec, obs, spawn, terminate}
use deckhand.MacAgent.Agent.Gives.{Gives, Gives-bind, Gives-raise, Gives-pure, Gives-give}
use deckhand.MacAgent.Obs.{or_null}
use deckhand.MacAgent.Handlers.{lookup, or_unknown, run_shortcut}
use deckhand.MacAgent.Handlers.Apps.{running_script, activate_script, keystroke_script}
use deckhand.MacAgent.Handlers.Audio.{volume_script, direction}
use deckhand.MacAgent.Handlers.Routines.{caffeinate}
use deckhand.MacAgent.Handlers.Keyboard.{input_script, reset_script}
use deckhand.Base.Append.{append}
use deckhand.MacAgent.Agent.{Agent, Failure, local_action_error, pure, raise, ◌>>=◌, run, osascript}

-- A value of a dict of the inventory.
abbrev pub Holds : {V : Type 0} → Dict V → V → Type 0
Holds dict v = (alias : String) × (find alias dict ≡ some v)

-- The dicts whose values name Shortcuts.
pub data Routine : Type 0 where
  shortcut focus pomodoro display input : Routine

abbrev pub routines : MacInventory → Routine → Dict String
routines inventory shortcut = inventory.shortcuts
routines inventory focus = inventory.focus_modes
routines inventory pomodoro = inventory.pomodoro_routines
routines inventory display = inventory.display_modes
routines inventory input = inventory.input_sources

-- The scripts that hold nothing of the inventory.
pub data Script : Type 0 where
  mute unmute volume desktops input_source key_up : Script

abbrev pub script_text : Script → String
script_text mute = volume_script true
script_text unmute = volume_script Bool.false
script_text volume = "input volume of (get volume settings)"
script_text desktops = "tell application \"System Events\" to count of desktops"
script_text input_source = input_script
script_text key_up = reset_script

-- The dict of the audio devices for a direction.
abbrev pub devices : MacInventory → (output : Bool) → Dict String
devices inventory true = inventory.audio_outputs
devices inventory Bool.false = inventory.audio_inputs

abbrev pub osascript_of : String → Command
osascript_of script = exec ("/usr/bin/osascript" ∷ "-e" ∷ script ∷ [])

-- The scene that OBS has answered to be the current one, at some step.
abbrev pub IsCurrentScene : Platform → Json → Type 0
IsCurrentScene platform scene =
    (at : ℕ) × (answer : Object) × (platform.obs_answer at "GetCurrentProgramScene" end
      ≡ returned answer)
    × (or_null (get "currentProgramSceneName" answer) ≡ scene)

-- An item of a scene, under a source and with an identifier.
pub data HasItem (source : String) (id : Json) : Items → Type 0 where
  here :
      {o : Object} {rest : Items}
      → get "sourceName" o ≡ some (text source)
      → or_null (get "sceneItemId" o) ≡ id
      → HasItem source id (item (object o) rest)
  there : {v : Json} {rest : Items} → HasItem source id rest → HasItem source id (item v rest)

-- An identifier that OBS has answered, at some step, for an item of the scene under that source.
abbrev pub IsListed : Platform → Json → String → Json → Type 0
IsListed platform scene source id =
    (at : ℕ) × (answer : Object) × (items : Items) × (platform.obs_answer at "GetSceneItemList"
        (field "sceneName" scene end)
      ≡ returned answer)
    × (get "sceneItems" answer ≡ some (array items))
    × HasItem source id items

-- The commands that are made of constants, of values of the inventory and of the path of the audio tool;
-- for OBS, of the current scene and the item of a source of the inventory, as OBS itself answered them.
pub data Permitted (platform : Platform) (inventory : MacInventory) : Command → Type 0 where
  open_app :
      (v : String)
      → Holds inventory.apps v
      → Permitted platform inventory (exec ("/usr/bin/open" ∷ "-b" ∷ v ∷ []))
  open_url :
      (v : String)
      → Holds inventory.browser_sessions v
      → Permitted platform inventory (exec ("/usr/bin/open" ∷ v ∷ []))
  open_path :
      (v : String)
      → Holds inventory.workspaces v
      → Permitted platform inventory (exec ("/usr/bin/open" ∷ platform.expanduser v ∷ []))
  shortcuts :
      (r : Routine) (v : String)
      → Holds (routines inventory r) v
      → Permitted platform inventory (exec ("/usr/bin/shortcuts" ∷ "run" ∷ v ∷ []))
  constant : (s : Script) → Permitted platform inventory (osascript_of (script_text s))
  is_running :
      (v : String)
      → Holds inventory.apps v
      → is_bundle_id v ≡ true
      → Permitted platform inventory (osascript_of (running_script v))
  activate :
      (c : AppCommand)
      → Holds inventory.app_commands c
      → is_bundle_id c.bundle_id ≡ true
      → Permitted platform inventory (osascript_of (activate_script c.bundle_id))
  keystroke :
      (c : AppCommand)
      → Holds inventory.app_commands c
      → is_bundle_id c.bundle_id ≡ true
      → Permitted platform inventory (osascript_of (keystroke_script c.keystroke))
  select_device :
      (tool : String) (output : Bool) (v : String)
      → platform.which "SwitchAudioSource" ≡ some tool
      → Holds (devices inventory output) v
      → Permitted platform inventory (exec (tool ∷ "-t" ∷ direction output ∷ "-s" ∷ v ∷ []))
  current_device :
      (tool : String) (output : Bool)
      → platform.which "SwitchAudioSource" ≡ some tool
      → Permitted platform inventory (exec (tool ∷ "-t" ∷ direction output ∷ "-c" ∷ []))
  inhibit_sleep : Permitted platform inventory (spawn caffeinate)
  allow_sleep : (process : ℕ) → Permitted platform inventory (terminate process)
  set_scene :
      (v : String)
      → Holds inventory.obs.scenes v
      → Permitted platform inventory (obs "SetCurrentProgramScene" (field "sceneName" (text v) end))
  start_recording : Permitted platform inventory (obs "StartRecord" end)
  stop_recording : Permitted platform inventory (obs "StopRecord" end)
  recording_state : Permitted platform inventory (obs "GetRecordStatus" end)
  current_scene : Permitted platform inventory (obs "GetCurrentProgramScene" end)
  list_items :
      (scene : Json)
      → IsCurrentScene platform scene
      → Permitted platform inventory (obs "GetSceneItemList" (field "sceneName" scene end))
  enable_item :
      (v : String) (scene id : Json) (enabled : Bool)
      → Holds inventory.obs.sources v
      → IsCurrentScene platform scene
      → IsListed platform scene v id
      → Permitted platform inventory (
          obs "SetSceneItemEnabled" (
            field "sceneName" scene
              (field "sceneItemId" id (field "sceneItemEnabled" (boolean enabled) end))))
  save_replay_buffer : Permitted platform inventory (obs "SaveReplayBuffer" end)

module _ (platform : Platform) (inventory : MacInventory) where
  abbrev pub Safe : {A : Type 0} → Agent A → Type 0
  Safe m = Gives (Permitted platform inventory) m

module _ {platform : Platform} {inventory : MacInventory} where
  found-Safe :
      {V A : Type 0} (alias : String) (o : Option V) (f : V → Agent A)
      → ((v : V) → o ≡ some v → Safe platform inventory (f v))
      → Safe platform inventory (or_unknown platform alias o >>= f)
  found-Safe alias none f k =
      Gives-raise (Permitted platform inventory)
        (local_action_error (append "unknown local target alias " (platform.repr alias)))
  found-Safe alias (some v) f k = k v refl

  -- After a look-up, what follows may use that the value is the inventory's.
  pub lookup-Safe :
      {V A : Type 0} (dict : Dict V) (alias : String) (f : V → Agent A)
      → ((v : V) → Holds dict v → Safe platform inventory (f v))
      → Safe platform inventory (lookup platform dict alias >>= f)
  unfolding lookup
  lookup-Safe dict alias f k = found-Safe alias (find alias dict) f (λ v e. k v (alias, e))

  pub run-Safe :
      (arguments : List String)
      → Permitted platform inventory (exec arguments)
      → Safe platform inventory (run platform arguments)
  unfolding run
  run-Safe arguments p = Gives-give (Permitted platform inventory) (exec arguments) _ p

  -- A command, and then what gives no other.
  pub after-Safe :
      {A B : Type 0} (m : Agent A) (f : A → Agent B)
      → Safe platform inventory m
      → ((a : A) → Safe platform inventory (f a))
      → Safe platform inventory (m >>= f)
  after-Safe m f h k = Gives-bind (Permitted platform inventory) m f h k

  pub pure-Safe : {A : Type 0} (a : A) → Safe platform inventory (pure a)
  pure-Safe a = Gives-pure (Permitted platform inventory) a

  pub raise-Safe : {A : Type 0} (e : Failure) → Safe platform inventory (raise {A = A} e)
  raise-Safe e = Gives-raise (Permitted platform inventory) e

  pub then-Safe :
      {A B : Type 0} (m : Agent A) (f : A → B)
      → Safe platform inventory m
      → Safe platform inventory (m >>= λ a. pure (f a))
  then-Safe m f h = after-Safe m (λ a. pure (f a)) h (λ a. pure-Safe (f a))

  pub osascript-Safe :
      (script : String)
      → Permitted platform inventory (osascript_of script)
      → Safe platform inventory (osascript platform script)
  unfolding osascript
  osascript-Safe script p = run-Safe ("/usr/bin/osascript" ∷ "-e" ∷ script ∷ []) p

  pub shortcut-Safe :
      (r : Routine) (v : String)
      → Holds (routines inventory r) v
      → Safe platform inventory (run_shortcut platform v)
  unfolding run_shortcut
  shortcut-Safe r v h = run-Safe ("/usr/bin/shortcuts" ∷ "run" ∷ v ∷ []) (shortcuts r v h)
