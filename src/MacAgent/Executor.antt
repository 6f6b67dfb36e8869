-- ===== src/MacAgent/Executor.antt =====
-- `MacExecutor.execute` and `_HANDLERS`, of apps/macos-agent/src/deckhand_macos/executor.py.
use deckhand.Base.{true, false, ◌&&◌, same, List, [], ◌∷◌}
use deckhand.Base.Append.{append}
use deckhand.MacAgent.{
  LocalAction, LocalActionRequest, LocalActionResult, action_requires_target, action_value,
}
use deckhand.MacAgent.Inventory.{MacInventory}
use deckhand.MacAgent.Agent.{Platform, Machine, Agent, local_action_error, raise}
use deckhand.MacAgent.Handlers.Apps as Apps
use deckhand.MacAgent.Handlers.Audio as Audio
use deckhand.MacAgent.Handlers.Routines as Routines
use deckhand.MacAgent.Handlers.Recording as Recording
use deckhand.MacAgent.Handlers.Keyboard as Keyboard

module _ (platform : Platform) (inventory : MacInventory) where
  -- `_HANDLERS`, which has every action.
  unfoldable pub handler : LocalAction → LocalActionRequest → Agent LocalActionResult
  handler LocalAction.app_ensure_running = Apps.app_ensure_running platform inventory
  handler LocalAction.browser_session_open = Apps.browser_session_open platform inventory
  handler LocalAction.shortcut_run = Apps.shortcut_run platform inventory
  handler LocalAction.workspace_open = Apps.workspace_open platform inventory
  handler LocalAction.app_command = Apps.app_command platform inventory
  handler LocalAction.mic_mute = Audio.mic_mute platform inventory
  handler LocalAction.mic_unmute = Audio.mic_unmute platform inventory
  handler LocalAction.mic_toggle = Audio.mic_toggle platform inventory
  handler LocalAction.mic_state = Audio.mic_state platform inventory
  handler LocalAction.audio_output_select = Audio.audio_output_select platform inventory
  handler LocalAction.audio_input_select = Audio.audio_input_select platform inventory
  handler LocalAction.audio_state = Audio.audio_state platform inventory
  handler LocalAction.focus_set = Routines.focus_set platform inventory
  handler LocalAction.focus_clear = Routines.focus_clear platform inventory
  handler LocalAction.focus_state = Routines.focus_state platform inventory
  handler LocalAction.pomodoro_start = Routines.pomodoro_start platform inventory
  handler LocalAction.pomodoro_stop = Routines.pomodoro_stop platform inventory
  handler LocalAction.pomodoro_state = Routines.pomodoro_state platform inventory
  handler LocalAction.display_mode_apply = Routines.display_mode_apply platform inventory
  handler LocalAction.display_state = Routines.display_state platform inventory
  handler LocalAction.sleep_inhibit_on = Routines.sleep_inhibit_on platform inventory
  handler LocalAction.sleep_inhibit_off = Routines.sleep_inhibit_off platform inventory
  handler LocalAction.sleep_inhibit_state = Routines.sleep_inhibit_state platform inventory
  handler LocalAction.obs_scene_set = Recording.obs_scene_set platform inventory
  handler LocalAction.obs_record_start = Recording.obs_record_start platform inventory
  handler LocalAction.obs_record_stop = Recording.obs_record_stop platform inventory
  handler LocalAction.obs_record_state = Recording.obs_record_state platform inventory
  handler LocalAction.obs_source_toggle = Recording.obs_source_toggle platform inventory
  handler LocalAction.obs_replay_save = Recording.obs_replay_save platform inventory
  handler LocalAction.input_select = Keyboard.input_select platform inventory
  handler LocalAction.input_state = Keyboard.input_state platform inventory
  handler LocalAction.reset_modifiers = Keyboard.reset_modifiers platform inventory

  unfoldable pub execute : LocalActionRequest → Agent LocalActionResult
  unfolding handler action_requires_target action_value
  execute request = elim (action_requires_target request.action_id && same request.target "_") [
    | true ↦ raise (
        local_action_error
          (append "action " (append (action_value request.action_id) " requires a target alias")))
    | false ↦ handler request.action_id request
  ]

  -- The machine after requests that are executed one after another, whatever comes of each.
  unfoldable pub execute_all : List LocalActionRequest → Machine → Machine
  unfolding execute
  execute_all [] s = s
  execute_all (request ∷ requests) s = execute_all requests (execute request s).1
