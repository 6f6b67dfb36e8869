-- ===== src/MacAgent/Obs.antt =====
-- The operations of `class ObsClient`, of apps/macos-agent/src/deckhand_macos/obs.py, each as the requests
-- that it makes; the exchange over the socket is the platform's.
use deckhand.Base.{String, Bool, true, false, not, Option, none, some, same, if◌then◌else◌}
use deckhand.Base.Append.{append}
use deckhand.Json.{
  Json, Items, Object, null, boolean, number, text, array, object, nil, item, end, field, get,
}
use deckhand.MacAgent.Agent.{
  Platform, Agent, Outcome, returned, raised, obs_error, other_error, obs, give, pure, raise, ◌>>=◌,
  ◌>>◌,
}

-- `d.get(key)`, as a value
abbrev pub or_null : Option Json → Json
or_null none = null
or_null (some v) = v

abbrev pub truth_of_items : Items → Bool
truth_of_items nil = false
truth_of_items (item v rest) = true

abbrev pub truth_of_object : Object → Bool
truth_of_object end = false
truth_of_object (field k v rest) = true

-- `bool(value)`
unfoldable pub truth : (is_nonzero : String → Bool) → Json → Bool
truth is_nonzero null = false
truth is_nonzero (boolean b) = b
truth is_nonzero (number literal) = is_nonzero literal
truth is_nonzero (text s) = not (same s "")
truth is_nonzero (array xs) = truth_of_items xs
truth is_nonzero (object o) = truth_of_object o

-- `value == text`
unfoldable pub is_text : String → Json → Bool
is_text s (text t) = same t s
is_text s v = false

-- What `for item in d.get("sceneItems", [])` goes through; iterating what is no container is an error,
-- and so is `item.get` on a key or a character.
unfoldable pub scene_items : Option Json → Outcome Items
scene_items none = returned nil
scene_items (some (array xs)) = returned xs
scene_items (some (object end)) = returned nil
scene_items (some (text s)) = if same s "" then returned nil else raised other_error
scene_items (some v) = raised other_error

-- `item.get("sceneItemEnabled", True)`
abbrev pub or_true : Option Json → Json
or_true none = boolean true
or_true (some v) = v

-- The loop of `toggle_source`: the first item of that source, and whether it is enabled.
unfoldable pub find_item : String → Items → Outcome (Option (Json × Json))
unfolding is_text
find_item source nil = returned none
find_item source (item (object o) rest) =
    if is_text source (or_null (get "sourceName" o))
    then returned (some (or_null (get "sceneItemId" o), or_true (get "sceneItemEnabled" o)))
    else find_item source rest
find_item source (item v rest) = raised other_error

abbrev pub change : Json → Json → Bool → Object
change scene id enabled =
    field "sceneName" scene
      (field "sceneItemId" id (field "sceneItemEnabled" (boolean enabled) end))

module _ (platform : Platform) where
  open platform use {obs_answer, is_nonzero, repr}

  -- `_request`
  unfoldable pub request : String → Object → Agent Object
  unfolding give
  request request_type data' =
      give (obs request_type data') (λ at. obs_answer at request_type data')

  unfoldable pub set_scene : String → Agent Object
  unfolding request
  set_scene scene = request "SetCurrentProgramScene" (field "sceneName" (text scene) end)

  -- `record`
  unfoldable pub record_output : (start : Bool) → Agent Object
  unfolding request
  record_output start = request (if start then "StartRecord" else "StopRecord") end

  abbrev pub state_of : Object → String
  state_of data' =
      if truth is_nonzero (or_null (get "outputActive" data')) then "recording" else "idle"

  unfoldable pub record_state : Agent String
  unfolding request truth
  record_state = do data' ← request "GetRecordStatus" end; pure (state_of data')

  unfoldable pub lift : {A : Type 0} → Outcome A → Agent A
  lift r s = (r, s)

  abbrev pub found_item : String → Option (Json × Json) → Agent (Json × Json)
  found_item source none =
      raise (obs_error (append "OBS source " (append (repr source) " not found in current scene")))
  found_item source (some found) = pure found

  unfoldable pub toggle_source : String → Agent Bool
  unfolding request truth lift scene_items find_item
  toggle_source source = do
    current ← request "GetCurrentProgramScene" end
    let scene = or_null (get "currentProgramSceneName" current)
    listed ← request "GetSceneItemList" (field "sceneName" scene end)
    items ← lift (scene_items (get "sceneItems" listed))
    looked ← lift (find_item source items)
    found ← found_item source looked
    let new_state = not (truth is_nonzero found.1)
    request "SetSceneItemEnabled" (change scene found.0 new_state)
    pure new_state

  unfoldable pub save_replay : Agent Object
  unfolding request
  save_replay = request "SaveReplayBuffer" end
