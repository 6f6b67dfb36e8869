-- ===== src/MacAgent/Permitted/Execute.antt =====
-- What `execute` of apps/macos-agent/src/deckhand_macos/executor.py may do.
use deckhand.Base.{◌&&◌, same, List, All}
use deckhand.MacAgent.{LocalAction, LocalActionRequest, action_requires_target}
use deckhand.MacAgent.Inventory.{MacInventory}
use deckhand.MacAgent.Agent.{Platform, Machine}
use deckhand.MacAgent.Agent.Gives.{Gives-elim}
use deckhand.MacAgent.Executor.{handler, execute, execute_all}
use deckhand.MacAgent.Permitted.{Permitted, Safe, raise-Safe}
use deckhand.MacAgent.Permitted.Apps as Apps
use deckhand.MacAgent.Permitted.Routines as Routines
use deckhand.MacAgent.Permitted.Recording as Recording

module _ (platform : Platform) (inventory : MacInventory) where
  handler-Safe :
      (action : LocalAction) (request : LocalActionRequest)
      → Safe platform inventory (handler platform inventory action request)
  unfolding handler
  handler-Safe LocalAction.app_ensure_running request =
      Apps.app_ensure_running-Safe platform inventory request
  handler-Safe LocalAction.browser_session_open request =
      Apps.browser_session_open-Safe platform inventory request
  handler-Safe LocalAction.shortcut_run request = Apps.shortcut_run-Safe platform inventory request
  handler-Safe LocalAction.workspace_open request =
      Apps.workspace_open-Safe platform inventory request
  handler-Safe LocalAction.app_command request = Apps.app_command-Safe platform inventory request
  handler-Safe LocalAction.mic_mute request = Routines.mic_mute-Safe platform inventory request
  handler-Safe LocalAction.mic_unmute request = Routines.mic_unmute-Safe platform inventory request
  handler-Safe LocalAction.mic_toggle request = Routines.mic_toggle-Safe platform inventory request
  handler-Safe LocalAction.mic_state request = Routines.mic_state-Safe platform inventory request
  handler-Safe LocalAction.audio_output_select request =
      Routines.audio_output_select-Safe platform inventory request
  handler-Safe LocalAction.audio_input_select request =
      Routines.audio_input_select-Safe platform inventory request
  handler-Safe LocalAction.audio_state request =
      Routines.audio_state-Safe platform inventory request
  handler-Safe LocalAction.focus_set request = Routines.focus_set-Safe platform inventory request
  handler-Safe LocalAction.focus_clear request =
      Routines.focus_clear-Safe platform inventory request
  handler-Safe LocalAction.focus_state request =
      Routines.focus_state-Safe platform inventory request
  handler-Safe LocalAction.pomodoro_start request =
      Routines.pomodoro_start-Safe platform inventory request
  handler-Safe LocalAction.pomodoro_stop request =
      Routines.pomodoro_stop-Safe platform inventory request
  handler-Safe LocalAction.pomodoro_state request =
      Routines.pomodoro_state-Safe platform inventory request
  handler-Safe LocalAction.display_mode_apply request =
      Routines.display_mode_apply-Safe platform inventory request
  handler-Safe LocalAction.display_state request =
      Routines.display_state-Safe platform inventory request
  handler-Safe LocalAction.sleep_inhibit_on request =
      Routines.sleep_inhibit_on-Safe platform inventory request
  handler-Safe LocalAction.sleep_inhibit_off request =
      Routines.sleep_inhibit_off-Safe platform inventory request
  handler-Safe LocalAction.sleep_inhibit_state request =
      Routines.sleep_inhibit_state-Safe platform inventory request
  handler-Safe LocalAction.obs_scene_set request =
      Recording.obs_scene_set-Safe platform inventory request
  handler-Safe LocalAction.obs_record_start request =
      Recording.obs_record_start-Safe platform inventory request
  handler-Safe LocalAction.obs_record_stop request =
      Recording.obs_record_stop-Safe platform inventory request
  handler-Safe LocalAction.obs_record_state request =
      Recording.obs_record_state-Safe platform inventory request
  handler-Safe LocalAction.obs_source_toggle request =
      Recording.obs_source_toggle-Safe platform inventory request
  handler-Safe LocalAction.obs_replay_save request =
      Recording.obs_replay_save-Safe platform inventory request
  handler-Safe LocalAction.input_select request =
      Recording.input_select-Safe platform inventory request
  handler-Safe LocalAction.input_state request =
      Recording.input_state-Safe platform inventory request
  handler-Safe LocalAction.reset_modifiers request =
      Recording.reset_modifiers-Safe platform inventory request

  execute-Safe :
      (request : LocalActionRequest) → Safe platform inventory (execute platform inventory request)
  unfolding execute
  execute-Safe request =
      Gives-elim (Permitted platform inventory)
        (action_requires_target request.action_id && same request.target "_") _ _
        (λ e. raise-Safe _) (λ e. handler-Safe request.action_id request)

-- Whatever requests are executed, one after another and with whatever outcome, from a machine that has
-- been given permitted commands only, the commands given are permitted: their arguments are constants,
-- values of the inventory or the path of the audio tool, never a text of a request; a script holds only a
-- bundle identifier of safe characters, or the keystroke declared beside one.
pub execute_all-Permitted :
    (platform : Platform) (inventory : MacInventory) (requests : List LocalActionRequest)
    (s : Machine)
    → All (Permitted platform inventory) s.given
    → All (Permitted platform inventory) (execute_all platform inventory requests s).given
unfolding execute_all
execute_all-Permitted platform inventory List.[] s h = h
execute_all-Permitted platform inventory (List.◌∷◌ request requests) s h =
    execute_all-Permitted platform inventory requests (execute platform inventory request s).1
      ((execute-Safe platform inventory request).at s h)
