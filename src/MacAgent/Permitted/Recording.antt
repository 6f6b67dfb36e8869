-- ===== src/MacAgent/Permitted/Recording.antt =====
-- The handlers of OBS and of the keyboard.
use mathlib.Core.Path.{subst}
use deckhand.Base.{
  String, Bool, not, true, false, Option, none, some, ◌≡◌, refl, ap, sym, ◌∙◌, same, same_iff,
  Bool-cases, inl, inr, arith,
}
use deckhand.Json.{Json, Items, Object, nil, item, object, array, text, end, get}
use deckhand.MacAgent.{LocalActionRequest}
use deckhand.MacAgent.Inventory.{MacInventory}
use deckhand.MacAgent.Agent.{
  Platform, Agent, Command, Failure, Outcome, returned, ◌>>=◌, local_action_error, obs_error,
  other_error, obs, handle,
}
use deckhand.MacAgent.Agent.Gives.{Gives-give, Gives-give_bind, Gives-value_bind, Gives-handle}
use deckhand.MacAgent.Obs.{
  request as obs_request, set_scene, record_output, record_state, lift, found_item, toggle_source,
  save_replay, scene_items, find_item, change, is_text, or_null, truth,
}
use deckhand.MacAgent.Handlers.{as_local_error}
use deckhand.MacAgent.Handlers.Recording.{
  state_unknown, obs_scene_set, obs_record_start, obs_record_stop, obs_record_state,
  obs_source_toggle, obs_replay_save,
}
use deckhand.MacAgent.Handlers.Keyboard.{input_unknown, input_select, input_state, reset_modifiers}
use deckhand.MacAgent.Permitted.{
  Permitted, Safe, Holds, IsCurrentScene, HasItem, here, there, input, input_source, key_up,
  lookup-Safe, after-Safe, pure-Safe, raise-Safe, then-Safe, osascript-Safe, shortcut-Safe,
  constant, set_scene as set_scene_permitted, start_recording, stop_recording, recording_state,
  current_scene, list_items, enable_item, save_replay_buffer,
}

named :
    (source : String) (o : Option Json) → is_text source (or_null o) ≡ true → o ≡ some (text source)
unfolding is_text
named source none h = absurd (cc h)
named source (some (text t)) h = ap (λ (s : String). some (text s)) ((same_iff t source).0 h)
named source (some v) h = absurd (cc h)

no_item : {source : String} {id : Json} → HasItem source id nil → ⊥
no_item = elim [ ]

of_nil :
    (source : String) (id : Json) (o : Option Json) (items : Items)
    → returned nil ≡ returned items
    → HasItem source id items
    → o ≡ some (array items)
of_nil source id o items h i =
    let empty : nil ≡ items = cc h in absurd (no_item (subst (HasItem source id) (sym empty) i))

-- Only a list has an item.
scene_items-array :
    (source : String) (id : Json) (o : Option Json) (items : Items)
    → scene_items o ≡ returned items
    → HasItem source id items
    → o ≡ some (array items)
unfolding scene_items
scene_items-array source id none items h i = of_nil source id none items h i
scene_items-array source id (some (array xs)) items h i = cc h
scene_items-array source id (some (object end)) items h i = of_nil source id _ items h i
scene_items-array source id (some (text s)) items h i = elim (Bool-cases (same s "")) [
  | inl e ↦ of_nil source id _ items (ground arith) i
  | inr e ↦ absurd (ground arith)
]
scene_items-array source id (some v) items h i = absurd (cc h)

module _ (platform : Platform) (inventory : MacInventory) where
  abbrev P : Command → Type 0
  P = Permitted platform inventory

  request-Safe :
      (type : String) (data' : Object)
      → Permitted platform inventory (obs type data')
      → Safe platform inventory (obs_request platform type data')
  unfolding obs_request
  request-Safe type data' p = Gives-give (Permitted platform inventory) (obs type data') _ p

  lift-Safe : {A : Type 0} (r : Outcome A) → Safe platform inventory (lift platform r)
  unfolding lift
  lift-Safe r = record { at = λ s h. h }

  found_item-bind-Safe :
      {B : Type 0} (source : String) (o : Option (Json × Json)) (f : Json × Json → Agent B)
      → ((found : Json × Json) → o ≡ some found → Safe platform inventory (f found))
      → Safe platform inventory (found_item platform source o >>= f)
  found_item-bind-Safe source none f k = record { at = λ s h. h }
  found_item-bind-Safe source (some found) f k = k found refl

  record_output-Safe : (start : Bool) → Safe platform inventory (record_output platform start)
  unfolding record_output
  record_output-Safe true = request-Safe _ _ start_recording
  record_output-Safe false = request-Safe _ _ stop_recording

  record_state-Safe : Safe platform inventory (record_state platform)
  unfolding record_state
  record_state-Safe = then-Safe _ _ (request-Safe _ _ recording_state)

  -- What is found is an item of the list under that source.
  find_item-HasItem :
      (source : String) (items : Items) (found : Json × Json)
      → find_item source items ≡ returned (some found)
      → HasItem source found.0 items
  unfolding find_item
  find_item-HasItem source nil found h = absurd (cc h)
  find_item-HasItem source (item (object o) rest) found h =
      elim (Bool-cases (is_text source (or_null (get "sourceName" o)))) [
        | inl e ↦ here (named source (get "sourceName" o) e) (ground arith)
        | inr e ↦ there (find_item-HasItem source rest found (ground arith))
      ]
  find_item-HasItem source (item v rest) found h = absurd (cc h)

  toggle_source-Safe :
      (source : String)
      → Holds inventory.obs.sources source
      → Safe platform inventory (toggle_source platform source)
  unfolding toggle_source obs_request lift
  toggle_source-Safe source held = Gives-give_bind P _ _ _ current_scene λ at current answer.
      let scene = or_null (get "currentProgramSceneName" current) in
      let is_current : IsCurrentScene platform scene = (at, current, answer, refl) in
      Gives-give_bind P _ _ _ (list_items scene is_current) λ at' listed answer'.
        Gives-value_bind P (scene_items (get "sceneItems" listed)) _ λ items read.
          Gives-value_bind P (find_item source items) _ λ looked searched.
            found_item-bind-Safe source looked _ λ found e.
              let has =
                find_item-HasItem source items found
                  (searched ∙ ap (λ (o : Option (Json × Json)). returned o) e) in
              let listing =
                scene_items-array source found.0 (get "sceneItems" listed) items read has in
              let enabled = not (truth platform.is_nonzero found.1) in
              then-Safe (obs_request platform "SetSceneItemEnabled" (change scene found.0 enabled))
                (λ done. enabled)
                (request-Safe _ _ (
                  enable_item source scene found.0 enabled held is_current
                    (at', listed, items, answer', listing, has)))

  local_error-Safe : {A : Type 0} (e : Failure) → Safe platform inventory (as_local_error {A = A} e)
  unfolding as_local_error
  local_error-Safe (local_action_error message) = raise-Safe _
  local_error-Safe (obs_error message) = raise-Safe _
  local_error-Safe other_error = raise-Safe _

  -- A request to OBS with its error handled.
  handled-Safe :
      {A : Type 0} (m : Agent A)
      → Safe platform inventory m
      → Safe platform inventory (handle m as_local_error)
  handled-Safe m h = Gives-handle (Permitted platform inventory) m as_local_error h local_error-Safe

  module _ (request : LocalActionRequest) where
    state_unknown-Safe : (e : Failure) → Safe platform inventory (state_unknown request e)
    unfolding state_unknown
    state_unknown-Safe (obs_error message) = pure-Safe _
    state_unknown-Safe (local_action_error message) = raise-Safe _
    state_unknown-Safe other_error = raise-Safe _

    input_unknown-Safe : (e : Failure) → Safe platform inventory (input_unknown request e)
    unfolding input_unknown
    input_unknown-Safe (local_action_error message) = pure-Safe _
    input_unknown-Safe (obs_error message) = raise-Safe _
    input_unknown-Safe other_error = raise-Safe _

    pub obs_scene_set-Safe : Safe platform inventory (obs_scene_set platform inventory request)
    unfolding obs_scene_set
    obs_scene_set-Safe = lookup-Safe inventory.obs.scenes request.target _ (λ v h. then-Safe _ _ (
        handled-Safe (set_scene platform v)
          (unfold set_scene in request-Safe _ _ (set_scene_permitted v h))))

    pub obs_record_start-Safe :
        Safe platform inventory (obs_record_start platform inventory request)
    unfolding obs_record_start
    obs_record_start-Safe =
        then-Safe _ _
          (handled-Safe _ (after-Safe _ _ (record_output-Safe true) (λ out. record_state-Safe)))

    pub obs_record_stop-Safe : Safe platform inventory (obs_record_stop platform inventory request)
    unfolding obs_record_stop
    obs_record_stop-Safe =
        then-Safe _ _
          (handled-Safe _ (after-Safe _ _ (record_output-Safe false) (λ out. record_state-Safe)))

    pub obs_record_state-Safe :
        Safe platform inventory (obs_record_state platform inventory request)
    unfolding obs_record_state
    obs_record_state-Safe =
        Gives-handle (Permitted platform inventory) _ (state_unknown request)
          (then-Safe _ _ record_state-Safe) state_unknown-Safe

    pub obs_source_toggle-Safe :
        Safe platform inventory (obs_source_toggle platform inventory request)
    unfolding obs_source_toggle
    obs_source_toggle-Safe =
        lookup-Safe inventory.obs.sources request.target _
          (λ v h. then-Safe _ _ (handled-Safe _ (toggle_source-Safe v h)))

    pub obs_replay_save-Safe : Safe platform inventory (obs_replay_save platform inventory request)
    unfolding obs_replay_save
    obs_replay_save-Safe = then-Safe _ _ (
        handled-Safe (save_replay platform)
          (unfold save_replay in request-Safe _ _ save_replay_buffer))

    pub input_select-Safe : Safe platform inventory (input_select platform inventory request)
    unfolding input_select
    input_select-Safe =
        lookup-Safe inventory.input_sources request.target _
          (λ v h. then-Safe _ _ (shortcut-Safe input v h))

    pub input_state-Safe : Safe platform inventory (input_state platform inventory request)
    unfolding input_state
    input_state-Safe =
        Gives-handle (Permitted platform inventory) _ (input_unknown request)
          (then-Safe _ _ (osascript-Safe _ (constant input_source))) input_unknown-Safe

    pub reset_modifiers-Safe : Safe platform inventory (reset_modifiers platform inventory request)
    unfolding reset_modifiers
    reset_modifiers-Safe = then-Safe _ _ (osascript-Safe _ (constant key_up))
