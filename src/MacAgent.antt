-- ===== src/MacAgent.antt =====
-- The macOS agent, apps/macos-agent/src/deckhand_macos: the requests and the answers of models.py. The
-- pattern of an alias is pydantic's to check.
pub mod Inventory
pub mod Agent
pub mod Obs
pub mod Handlers
pub mod Executor
pub mod Permitted
use deckhand.Base.{String, Bool, true, false, not}
use deckhand.Json.{Object}

pub data LocalAction : Type 0 where
  app_ensure_running browser_session_open shortcut_run : LocalAction
  mic_mute mic_unmute mic_toggle mic_state : LocalAction
  audio_output_select audio_input_select audio_state : LocalAction
  focus_set focus_clear focus_state : LocalAction
  pomodoro_start pomodoro_stop pomodoro_state : LocalAction
  display_mode_apply display_state : LocalAction
  sleep_inhibit_on sleep_inhibit_off sleep_inhibit_state : LocalAction
  workspace_open : LocalAction
  obs_scene_set obs_record_start obs_record_stop obs_record_state : LocalAction
  obs_source_toggle obs_replay_save : LocalAction
  input_select input_state reset_modifiers : LocalAction
  app_command : LocalAction

-- The text of the enumeration.
unfoldable pub action_value : LocalAction → String
action_value app_ensure_running = "mac.app.ensure_running"
action_value browser_session_open = "browser.session.open"
action_value shortcut_run = "mac.shortcut.run"
action_value mic_mute = "mac.mic.mute"
action_value mic_unmute = "mac.mic.unmute"
action_value mic_toggle = "mac.mic.toggle"
action_value mic_state = "mac.mic.state"
action_value audio_output_select = "mac.audio.output_select"
action_value audio_input_select = "mac.audio.input_select"
action_value audio_state = "mac.audio.state"
action_value focus_set = "mac.focus.set"
action_value focus_clear = "mac.focus.clear"
action_value focus_state = "mac.focus.state"
action_value pomodoro_start = "mac.pomodoro.start"
action_value pomodoro_stop = "mac.pomodoro.stop"
action_value pomodoro_state = "mac.pomodoro.state"
action_value display_mode_apply = "mac.display.mode_apply"
action_value display_state = "mac.display.state"
action_value sleep_inhibit_on = "mac.sleep.inhibit_on"
action_value sleep_inhibit_off = "mac.sleep.inhibit_off"
action_value sleep_inhibit_state = "mac.sleep.inhibit_state"
action_value workspace_open = "mac.workspace.open"
action_value obs_scene_set = "mac.obs.scene_set"
action_value obs_record_start = "mac.obs.record_start"
action_value obs_record_stop = "mac.obs.record_stop"
action_value obs_record_state = "mac.obs.record_state"
action_value obs_source_toggle = "mac.obs.source_toggle"
action_value obs_replay_save = "mac.obs.replay_save"
action_value input_select = "mac.keyboard.input_select"
action_value input_state = "mac.keyboard.input_state"
action_value reset_modifiers = "mac.keyboard.reset_modifiers"
action_value app_command = "mac.app.command"

-- Membership of `_NO_TARGET_ACTIONS`.
unfoldable pub takes_no_target : LocalAction → Bool
takes_no_target mic_mute = true
takes_no_target mic_unmute = true
takes_no_target mic_toggle = true
takes_no_target mic_state = true
takes_no_target audio_state = true
takes_no_target focus_clear = true
takes_no_target focus_state = true
takes_no_target pomodoro_stop = true
takes_no_target pomodoro_state = true
takes_no_target display_state = true
takes_no_target sleep_inhibit_off = true
takes_no_target sleep_inhibit_state = true
takes_no_target obs_record_start = true
takes_no_target obs_record_stop = true
takes_no_target obs_record_state = true
takes_no_target obs_replay_save = true
takes_no_target input_state = true
takes_no_target reset_modifiers = true
takes_no_target _ = false

unfoldable pub action_requires_target : LocalAction → Bool
unfolding takes_no_target
action_requires_target action = not (takes_no_target action)

pub record LocalActionRequest : Type 0 where
  pub action_id : LocalAction
  pub target : String

pub record LocalActionResult : Type 0 where
  pub action_id : LocalAction
  pub target : String
  pub state : String
  pub verified : Bool
  pub details : Object
