-- ===== src/MacAgent/Permitted/Apps.antt =====
-- The handlers of applications, browser sessions, shortcuts and workspaces.
use deckhand.Base.{String, false}
use deckhand.MacAgent.{LocalActionRequest}
use deckhand.MacAgent.Inventory.{MacInventory, is_bundle_id}
use deckhand.MacAgent.Agent.{Platform, Failure, local_action_error, obs_error, other_error}
use deckhand.MacAgent.Agent.Gives.{Gives-handle, Gives-elim}
use deckhand.MacAgent.Handlers.Apps.{
  application_running, not_running, app_ensure_running, browser_session_open, shortcut_run,
  workspace_open, app_command,
}
use deckhand.MacAgent.Permitted.{
  Holds, shortcut, Permitted, Safe, lookup-Safe, run-Safe, after-Safe, pure-Safe, raise-Safe,
  then-Safe, osascript-Safe, shortcut-Safe, open_app, open_url, open_path, is_running, activate,
  keystroke,
}

module _ (platform : Platform) (inventory : MacInventory) where
  not_running-Safe : (e : Failure) → Safe platform inventory (not_running e)
  unfolding not_running
  not_running-Safe (local_action_error message) = pure-Safe false
  not_running-Safe (obs_error message) = raise-Safe (obs_error message)
  not_running-Safe other_error = raise-Safe other_error

  application_running-Safe :
      (v : String)
      → Holds inventory.apps v
      → Safe platform inventory (application_running platform inventory v)
  unfolding application_running
  application_running-Safe v h =
      Gives-elim (Permitted platform inventory) (is_bundle_id v) _ _
        (λ e.
          Gives-handle (Permitted platform inventory) _ not_running
            (then-Safe _ _ (osascript-Safe _ (is_running v h e))) not_running-Safe)
        (λ e. raise-Safe _)

  module _ (request : LocalActionRequest) where
    pub app_ensure_running-Safe :
        Safe platform inventory (app_ensure_running platform inventory request)
    unfolding app_ensure_running
    app_ensure_running-Safe = lookup-Safe inventory.apps request.target _ (λ v h.
        after-Safe _ _ (run-Safe _ (open_app v h))
          (λ out. then-Safe _ _ (application_running-Safe v h)))

    pub browser_session_open-Safe :
        Safe platform inventory (browser_session_open platform inventory request)
    unfolding browser_session_open
    browser_session_open-Safe =
        lookup-Safe inventory.browser_sessions request.target _
          (λ v h. then-Safe _ _ (run-Safe _ (open_url v h)))

    pub shortcut_run-Safe : Safe platform inventory (shortcut_run platform inventory request)
    unfolding shortcut_run
    shortcut_run-Safe =
        lookup-Safe inventory.shortcuts request.target _
          (λ v h. then-Safe _ _ (shortcut-Safe shortcut v h))

    pub workspace_open-Safe : Safe platform inventory (workspace_open platform inventory request)
    unfolding workspace_open
    workspace_open-Safe =
        lookup-Safe inventory.workspaces request.target _
          (λ v h. then-Safe _ _ (run-Safe _ (open_path v h)))

    pub app_command-Safe : Safe platform inventory (app_command platform inventory request)
    unfolding app_command
    app_command-Safe = lookup-Safe inventory.app_commands request.target _ (λ c h.
        Gives-elim (Permitted platform inventory) (is_bundle_id c.bundle_id) _ _
          (λ e.
            after-Safe _ _ (osascript-Safe _ (activate c h e))
              (λ out. then-Safe _ _ (osascript-Safe _ (keystroke c h e))))
          (λ e. raise-Safe _))
