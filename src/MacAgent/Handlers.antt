-- ===== src/MacAgent/Handlers.antt =====
-- The helpers of `class MacExecutor`, of apps/macos-agent/src/deckhand_macos/executor.py.
pub mod Apps
pub mod Audio
pub mod Routines
pub mod Recording
pub mod Keyboard
use deckhand.Base.{String, Bool, true, Option, none, some, List, ◌∷◌, []}
use deckhand.Base.Append.{append}
use deckhand.Json.{Json, Object, null, text, end, field}
use deckhand.MacAgent.{LocalActionRequest, LocalActionResult}
use deckhand.MacAgent.Inventory.{Dict, find}
use deckhand.MacAgent.Agent.{
  Platform, Agent, Failure, local_action_error, obs_error, other_error, pure, raise, ◌>>=◌, ◌>>◌,
  run,
}

module _ (platform : Platform) where
  open platform use {repr}

  abbrev pub or_unknown : {V : Type 0} → String → Option V → Agent V
  or_unknown alias none =
      raise (local_action_error (append "unknown local target alias " (repr alias)))
  or_unknown alias (some v) = pure v

  -- `_lookup`
  unfoldable pub lookup : {V : Type 0} → Dict V → String → Agent V
  lookup mapping alias = or_unknown alias (find alias mapping)

  -- `_run("/usr/bin/shortcuts", "run", shortcut)`
  unfoldable pub run_shortcut : String → Agent String
  unfolding run
  run_shortcut shortcut = run platform ("/usr/bin/shortcuts" ∷ "run" ∷ shortcut ∷ [])

-- `{k: v for k, v in details.items() if v is not None}`
unfoldable pub clean : Object → Object
clean end = end
clean (field k null rest) = clean rest
clean (field k v rest) = field k v (clean rest)

-- `_ok`
unfoldable pub answer :
    LocalActionRequest → (state : String) → (verified : Bool) → Object → LocalActionResult
unfolding clean
answer request state verified details = record {
  action_id = request.action_id;
  target = request.target;
  state = state;
  verified = verified;
  details = clean details;
}

-- `except ObsError as error: raise LocalActionError(str(error))`
unfoldable pub as_local_error : {A : Type 0} → Failure → Agent A
as_local_error (obs_error message) = raise (local_action_error message)
as_local_error e = raise e
