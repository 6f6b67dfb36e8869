-- ===== src/MacAgent/Handlers/Audio.antt =====
-- The microphone and the audio devices, of apps/macos-agent/src/deckhand_macos/executor.py.
use deckhand.Base.{String, Bool, true, false, not, Option, none, some, [], ◌∷◌, same, if◌then◌else◌}
use deckhand.Json.{text, end, field}
use deckhand.MacAgent.{LocalActionRequest, LocalActionResult}
use deckhand.MacAgent.Inventory.{MacInventory}
use deckhand.MacAgent.Agent.{
  Platform, Agent, local_action_error, pure, raise, ◌>>=◌, ◌>>◌, run, osascript,
}
use deckhand.MacAgent.Handlers.{lookup, answer}

abbrev pub volume_script : (muted : Bool) → String
volume_script true = "set volume input volume 0"
volume_script false = "set volume input volume 75"

-- What `int(level)` says.
abbrev pub mic_of : Option Bool → String
mic_of none = "unknown"
mic_of (some true) = "muted"
mic_of (some false) = "live"

abbrev pub direction : (output : Bool) → String
direction true = "output"
direction false = "input"

module _ (platform : Platform) (inventory : MacInventory) where
  open platform use {is_zero, which}

  unfoldable pub mic_query : Agent String
  unfolding osascript
  mic_query = do
    level ← osascript platform "input volume of (get volume settings)"
    pure (mic_of (is_zero level))

  unfoldable pub mic_set : LocalActionRequest → (muted : Bool) → Agent LocalActionResult
  unfolding osascript mic_query answer
  mic_set request muted = do
    osascript platform (volume_script muted)
    state ← mic_query
    pure (answer request state (same state (if muted then "muted" else "live")) end)

  unfoldable pub mic_mute : LocalActionRequest → Agent LocalActionResult
  unfolding mic_set
  mic_mute request = mic_set request true

  unfoldable pub mic_unmute : LocalActionRequest → Agent LocalActionResult
  unfolding mic_set
  mic_unmute request = mic_set request false

  unfoldable pub mic_toggle : LocalActionRequest → Agent LocalActionResult
  unfolding mic_query mic_set
  mic_toggle request = do current ← mic_query; mic_set request (not (same current "muted"))

  unfoldable pub mic_state : LocalActionRequest → Agent LocalActionResult
  unfolding mic_query answer
  mic_state request = do state ← mic_query; pure (answer request state true end)

  abbrev pub select_with : Option String → (device : String) → (output : Bool) → Agent String
  select_with none device output = raise (
      local_action_error
        "audio device switching requires SwitchAudioSource (brew install switchaudio-osx)")
  select_with (some tool) device output =
      run platform (tool ∷ "-t" ∷ direction output ∷ "-s" ∷ device ∷ [])

  -- `_set_audio_device`
  unfoldable pub set_audio_device : (device : String) → (output : Bool) → Agent String
  unfolding run
  set_audio_device device output = select_with (which "SwitchAudioSource") device output

  unfoldable pub audio_output_select : LocalActionRequest → Agent LocalActionResult
  unfolding lookup set_audio_device answer
  audio_output_select request = do
    device ← lookup platform inventory.audio_outputs request.target
    set_audio_device device true
    pure (answer request "selected" true (field "device" (text device) end))

  unfoldable pub audio_input_select : LocalActionRequest → Agent LocalActionResult
  unfolding lookup set_audio_device answer
  audio_input_select request = do
    device ← lookup platform inventory.audio_inputs request.target
    set_audio_device device false
    pure (answer request "selected" true (field "device" (text device) end))

  unfoldable pub state_with : LocalActionRequest → Option String → Agent LocalActionResult
  unfolding run answer
  state_with request none =
      pure (answer request "unknown" false (field "reason" (text "SwitchAudioSource absent") end))
  state_with request (some tool) = do
    out ← run platform (tool ∷ "-t" ∷ "output" ∷ "-c" ∷ [])
    inp ← run platform (tool ∷ "-t" ∷ "input" ∷ "-c" ∷ [])
    pure (answer request "ok" true (field "output" (text out) (field "input" (text inp) end)))

  unfoldable pub audio_state : LocalActionRequest → Agent LocalActionResult
  unfolding state_with
  audio_state request = state_with request (which "SwitchAudioSource")
