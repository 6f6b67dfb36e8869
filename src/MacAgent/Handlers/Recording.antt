-- ===== src/MacAgent/Handlers/Recording.antt =====
-- OBS, of apps/macos-agent/src/deckhand_macos/executor.py.
use deckhand.Base.{true, false, not, same, if◌then◌else◌}
use deckhand.Json.{text, end, field}
use deckhand.MacAgent.{LocalActionRequest, LocalActionResult}
use deckhand.MacAgent.Inventory.{MacInventory}
use deckhand.MacAgent.Agent.{Platform, Agent, Failure, obs_error, pure, raise, ◌>>=◌, ◌>>◌, handle}
use deckhand.MacAgent.Obs.{set_scene, record_output, record_state, toggle_source, save_replay}
use deckhand.MacAgent.Handlers.{lookup, answer, as_local_error}

-- `except ObsError as error`: the state is unknown.
unfoldable pub state_unknown : LocalActionRequest → Failure → Agent LocalActionResult
unfolding answer
state_unknown request (obs_error message) =
    pure (answer request "unknown" false (field "reason" (text message) end))
state_unknown request e = raise e

module _ (platform : Platform) (inventory : MacInventory) where
  unfoldable pub obs_scene_set : LocalActionRequest → Agent LocalActionResult
  unfolding lookup set_scene as_local_error answer
  obs_scene_set request = do
    scene ← lookup platform inventory.obs.scenes request.target
    handle (set_scene platform scene) as_local_error
    pure (answer request "set" true (field "scene" (text scene) end))

  unfoldable pub obs_record_start : LocalActionRequest → Agent LocalActionResult
  unfolding record_output record_state as_local_error answer
  obs_record_start request = do
    state ← handle (record_output platform true >> record_state platform) as_local_error
    pure (answer request state (same state "recording") end)

  unfoldable pub obs_record_stop : LocalActionRequest → Agent LocalActionResult
  unfolding record_output record_state as_local_error answer
  obs_record_stop request = do
    state ← handle (record_output platform false >> record_state platform) as_local_error
    pure (answer request state (not (same state "recording")) end)

  unfoldable pub obs_record_state : LocalActionRequest → Agent LocalActionResult
  unfolding record_state answer state_unknown
  obs_record_state request =
      handle (do state ← record_state platform; pure (answer request state true end))
        (state_unknown request)

  unfoldable pub obs_source_toggle : LocalActionRequest → Agent LocalActionResult
  unfolding lookup toggle_source as_local_error answer
  obs_source_toggle request = do
    source ← lookup platform inventory.obs.sources request.target
    visible ← handle (toggle_source platform source) as_local_error
    pure (
        answer request (if visible then "visible" else "hidden") true
          (field "source" (text source) end))

  unfoldable pub obs_replay_save : LocalActionRequest → Agent LocalActionResult
  unfolding save_replay as_local_error answer
  obs_replay_save request = do
    handle (save_replay platform) as_local_error
    pure (answer request "saved" true end)
