-- ===== src/MacAgent/Handlers/Apps.antt =====
-- Applications, browser sessions, shortcuts, workspaces and commands of applications, of
-- apps/macos-agent/src/deckhand_macos/executor.py.
use deckhand.Base.{String, Bool, true, false, [], ◌∷◌, same, if◌then◌else◌}
use deckhand.Base.Append.{append}
use deckhand.Json.{text, end, field}
use deckhand.MacAgent.{LocalActionRequest, LocalActionResult}
use deckhand.MacAgent.Inventory.{MacInventory, is_bundle_id}
use deckhand.MacAgent.Agent.{
  Platform, Agent, Failure, local_action_error, pure, raise, ◌>>=◌, ◌>>◌, handle, run, osascript,
}
use deckhand.MacAgent.Handlers.{lookup, run_shortcut, answer}

abbrev pub running_script : String → String
running_script bundle_id = append "application id \"" (append bundle_id "\" is running")

abbrev pub activate_script : String → String
activate_script bundle_id = append "tell application id \"" (append bundle_id "\" to activate")

abbrev pub keystroke_script : String → String
keystroke_script keystroke =
    append "tell application \"System Events\" to tell "
      (append "(first process whose frontmost is true) to " keystroke)

-- `except LocalActionError: return False`
unfoldable pub not_running : Failure → Agent Bool
not_running (local_action_error message) = pure false
not_running e = raise e

module _ (platform : Platform) (inventory : MacInventory) where
  open platform use {expanduser, strip, lower}

  -- `_application_running`
  unfoldable pub application_running : String → Agent Bool
  unfolding osascript not_running
  application_running bundle_id = elim (is_bundle_id bundle_id) [
    | true ↦
        handle
          (do
            result ← osascript platform (running_script bundle_id)
            pure (same (lower (strip result)) "true"))
          not_running
    | false ↦ raise (local_action_error "invalid bundle identifier")
  ]

  unfoldable pub app_ensure_running : LocalActionRequest → Agent LocalActionResult
  unfolding lookup run application_running answer
  app_ensure_running request = do
    bundle_id ← lookup platform inventory.apps request.target
    run platform ("/usr/bin/open" ∷ "-b" ∷ bundle_id ∷ [])
    running ← application_running bundle_id
    pure (
        answer request (if running then "running" else "unknown") running
          (field "bundle_id" (text bundle_id) end))

  unfoldable pub browser_session_open : LocalActionRequest → Agent LocalActionResult
  unfolding lookup run answer
  browser_session_open request = do
    url ← lookup platform inventory.browser_sessions request.target
    run platform ("/usr/bin/open" ∷ url ∷ [])
    pure (answer request "requested" false end)

  unfoldable pub shortcut_run : LocalActionRequest → Agent LocalActionResult
  unfolding lookup run_shortcut answer
  shortcut_run request = do
    shortcut ← lookup platform inventory.shortcuts request.target
    run_shortcut platform shortcut
    pure (answer request "completed" true end)

  unfoldable pub workspace_open : LocalActionRequest → Agent LocalActionResult
  unfolding lookup run answer
  workspace_open request = do
    path ← lookup platform inventory.workspaces request.target
    run platform ("/usr/bin/open" ∷ expanduser path ∷ [])
    pure (answer request "requested" false (field "path" (text (expanduser path)) end))

  unfoldable pub app_command : LocalActionRequest → Agent LocalActionResult
  unfolding lookup osascript answer
  app_command request = do
    command ← lookup platform inventory.app_commands request.target
    elim (is_bundle_id command.bundle_id) [
      | true ↦ (do
        osascript platform (activate_script command.bundle_id)
        osascript platform (keystroke_script command.keystroke)
        pure (answer request "requested" false (field "bundle_id" (text command.bundle_id) end)))
      | false ↦ raise (local_action_error "invalid bundle identifier")
    ]
