-- ===== src/MacAgent/Handlers/Keyboard.antt =====
-- The keyboard, of apps/macos-agent/src/deckhand_macos/executor.py.
use deckhand.Base.{String, true, false, same, if◌then◌else◌}
use deckhand.Base.Append.{append}
use deckhand.Json.{text, end, field}
use deckhand.MacAgent.{LocalActionRequest, LocalActionResult}
use deckhand.MacAgent.Inventory.{MacInventory}
use deckhand.MacAgent.Agent.{
  Platform, Agent, Failure, local_action_error, pure, raise, ◌>>=◌, ◌>>◌, handle, osascript,
}
use deckhand.MacAgent.Handlers.{lookup, run_shortcut, answer}

abbrev pub input_script : String
input_script = append "tell application \"System Events\" to tell process \"SystemUIServer\" " (
    append "to get the value of the first menu bar item of menu bar 1 whose "
      "description is \"text input\"")

abbrev pub reset_script : String
reset_script = "tell application \"System Events\" to key up {command, option, control, shift}"

-- `except LocalActionError`
unfoldable pub input_unknown : LocalActionRequest → Failure → Agent LocalActionResult
unfolding answer
input_unknown request (local_action_error message) = pure (answer request "unknown" false end)
input_unknown request e = raise e

unfoldable pub named_input : LocalActionRequest → (name : String) → LocalActionResult
unfolding answer
named_input request name =
    if same name ""
    then answer request "unknown" false end
    else answer request "ok" false (field "source" (text name) end)

module _ (platform : Platform) (inventory : MacInventory) where
  open platform use {strip}

  unfoldable pub input_select : LocalActionRequest → Agent LocalActionResult
  unfolding lookup run_shortcut answer
  input_select request = do
    shortcut ← lookup platform inventory.input_sources request.target
    run_shortcut platform shortcut
    pure (answer request "requested" false (field "source" (text shortcut) end))

  unfoldable pub input_state : LocalActionRequest → Agent LocalActionResult
  unfolding osascript input_unknown named_input
  input_state request =
      handle (do name ← osascript platform input_script; pure (named_input request (strip name)))
        (input_unknown request)

  unfoldable pub reset_modifiers : LocalActionRequest → Agent LocalActionResult
  unfolding osascript answer
  reset_modifiers request = do
    osascript platform reset_script
    pure (answer request "reset" true end)
