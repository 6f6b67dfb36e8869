-- ===== src/MacAgent/Permitted/Refusals.antt =====
-- The requests that `execute` of apps/macos-agent/src/deckhand_macos/executor.py refuses.
use deckhand.Base.{
  ◌≡◌, refl, String, Bool, true, false, ◌&&◌, ◌⊎◌, inl, inr, same, Option, none, some,
}
use deckhand.Base.Append.{append}
use deckhand.MacAgent.{
  LocalAction, LocalActionRequest, LocalActionResult, action_requires_target, action_value,
}
use deckhand.MacAgent.Inventory.{MacInventory, Dict, find}
use deckhand.MacAgent.Agent.{Platform, Machine, Agent, raised, local_action_error, raise, ◌>>=◌}
use deckhand.MacAgent.Handlers.{lookup, or_unknown}
use deckhand.MacAgent.Executor.{handler, execute}
use deckhand.MacAgent.Handlers.Apps.{
  app_ensure_running, browser_session_open, shortcut_run, workspace_open, app_command,
}
use deckhand.MacAgent.Handlers.Audio.{audio_output_select, audio_input_select}
use deckhand.MacAgent.Handlers.Routines.{focus_set, pomodoro_start, display_mode_apply}
use deckhand.MacAgent.Handlers.Recording.{obs_scene_set, obs_source_toggle}
use deckhand.MacAgent.Handlers.Keyboard.{input_select}

abbrev pub is_key : {V : Type 0} → Option V → Bool
is_key none = false
is_key (some v) = true

-- Whether the inventory has what the action asks for; an action that looks nothing up asks for nothing.
unfoldable pub is_known : MacInventory → LocalAction → String → Bool
is_known inventory LocalAction.app_ensure_running alias = is_key (find alias inventory.apps)
is_known inventory LocalAction.browser_session_open alias =
    is_key (find alias inventory.browser_sessions)
is_known inventory LocalAction.shortcut_run alias = is_key (find alias inventory.shortcuts)
is_known inventory LocalAction.workspace_open alias = is_key (find alias inventory.workspaces)
is_known inventory LocalAction.app_command alias = is_key (find alias inventory.app_commands)
is_known inventory LocalAction.audio_output_select alias =
    is_key (find alias inventory.audio_outputs)
is_known inventory LocalAction.audio_input_select alias = is_key (find alias inventory.audio_inputs)
is_known inventory LocalAction.focus_set alias = is_key (find alias inventory.focus_modes)
is_known inventory LocalAction.pomodoro_start alias =
    is_key (find alias inventory.pomodoro_routines)
is_known inventory LocalAction.display_mode_apply alias =
    is_key (find alias inventory.display_modes)
is_known inventory LocalAction.obs_scene_set alias = is_key (find alias inventory.obs.scenes)
is_known inventory LocalAction.obs_source_toggle alias = is_key (find alias inventory.obs.sources)
is_known inventory LocalAction.input_select alias = is_key (find alias inventory.input_sources)
is_known inventory action alias = true

-- Nothing is done, and the error is the agent's own.
abbrev pub IsRefused : Agent LocalActionResult → Machine → Type 0
IsRefused m s = (message : String) × (m s ≡ (raised (local_action_error message), s))

module _ (platform : Platform) (inventory : MacInventory) where
  unknown-IsRefused :
      {V : Type 0} (alias : String) (o : Option V) (f : V → Agent LocalActionResult) (s : Machine)
      → is_key o ≡ false
      → IsRefused (or_unknown platform alias o >>= f) s
  unknown-IsRefused alias none f s e =
      (append "unknown local target alias " (platform.repr alias), refl)
  unknown-IsRefused alias (some v) f s e = absurd (cc e)

  lookup-IsRefused :
      {V : Type 0} (dict : Dict V) (alias : String) (f : V → Agent LocalActionResult) (s : Machine)
      → is_key (find alias dict) ≡ false
      → IsRefused (lookup platform dict alias >>= f) s
  unfolding lookup
  lookup-IsRefused dict alias f s e = unknown-IsRefused alias (find alias dict) f s e

  handler-IsRefused :
      (action : LocalAction) (request : LocalActionRequest) (s : Machine)
      → is_known inventory action request.target ≡ false
      → IsRefused (handler platform inventory action request) s
  unfolding is_known handler app_ensure_running browser_session_open shortcut_run workspace_open
      app_command audio_output_select audio_input_select focus_set pomodoro_start display_mode_apply
      obs_scene_set obs_source_toggle input_select
  handler-IsRefused LocalAction.app_ensure_running request s e =
      lookup-IsRefused inventory.apps request.target _ s e
  handler-IsRefused LocalAction.browser_session_open request s e =
      lookup-IsRefused inventory.browser_sessions request.target _ s e
  handler-IsRefused LocalAction.shortcut_run request s e =
      lookup-IsRefused inventory.shortcuts request.target _ s e
  handler-IsRefused LocalAction.workspace_open request s e =
      lookup-IsRefused inventory.workspaces request.target _ s e
  handler-IsRefused LocalAction.app_command request s e =
      lookup-IsRefused inventory.app_commands request.target _ s e
  handler-IsRefused LocalAction.audio_output_select request s e =
      lookup-IsRefused inventory.audio_outputs request.target _ s e
  handler-IsRefused LocalAction.audio_input_select request s e =
      lookup-IsRefused inventory.audio_inputs request.target _ s e
  handler-IsRefused LocalAction.focus_set request s e =
      lookup-IsRefused inventory.focus_modes request.target _ s e
  handler-IsRefused LocalAction.pomodoro_start request s e =
      lookup-IsRefused inventory.pomodoro_routines request.target _ s e
  handler-IsRefused LocalAction.display_mode_apply request s e =
      lookup-IsRefused inventory.display_modes request.target _ s e
  handler-IsRefused LocalAction.obs_scene_set request s e =
      lookup-IsRefused inventory.obs.scenes request.target _ s e
  handler-IsRefused LocalAction.obs_source_toggle request s e =
      lookup-IsRefused inventory.obs.sources request.target _ s e
  handler-IsRefused LocalAction.input_select request s e =
      lookup-IsRefused inventory.input_sources request.target _ s e
  handler-IsRefused action request s e = absurd (cc e)

  IsRefused-if :
      (b : Bool) (message : String) (m : Agent LocalActionResult) (s : Machine)
      → (b ≡ true) ⊎ IsRefused m s
      → IsRefused
          (elim b as (λ _. Agent LocalActionResult) [
            | true ↦ raise (local_action_error message)
            | false ↦ m
          ])
          s
  IsRefused-if true message m s h = (message, refl)
  IsRefused-if false message m s (inl e) = absurd (cc e)
  IsRefused-if false message m s (inr h) = h

-- A request that names no target where its action requires one, or a target that the inventory's dict for
-- that action lacks, gives no command, changes nothing and raises LocalActionError.
pub execute-IsRefused :
    (platform : Platform) (inventory : MacInventory) (request : LocalActionRequest) (s : Machine)
    → ((action_requires_target request.action_id && same request.target "_") ≡ true)
      ⊎ (is_known inventory request.action_id request.target ≡ false)
    → IsRefused (execute platform inventory request) s
unfolding execute
execute-IsRefused platform inventory request s e =
    IsRefused-if platform inventory
      (action_requires_target request.action_id && same request.target "_")
      (append "action " (append (action_value request.action_id) " requires a target alias"))
      (handler platform inventory request.action_id request) s (refusing e)
  where
    refusing :
        (((action_requires_target request.action_id && same request.target "_") ≡ true)
          ⊎ (is_known inventory request.action_id request.target ≡ false))
        → ((action_requires_target request.action_id && same request.target "_") ≡ true)
          ⊎ IsRefused (handler platform inventory request.action_id request) s
    refusing (inl e) = inl e
    refusing (inr e) = inr (handler-IsRefused platform inventory request.action_id request s e)
