-- ===== src/MacAgent/Handlers/Routines.antt =====
-- Focus, Pomodoro, displays, and the inhibition of sleep, of
-- apps/macos-agent/src/deckhand_macos/executor.py.
use deckhand.Base.{
  ℕ, suc, String, Bool, true, false, not, Option, none, some, List, [], ◌∷◌, if◌then◌else◌,
}
use deckhand.Json.{text, end, field}
use deckhand.MacAgent.{LocalActionRequest, LocalActionResult}
use deckhand.MacAgent.Inventory.{MacInventory, find}
use deckhand.MacAgent.Agent.{
  Platform, Machine, Agent, Outcome, returned, raised, other_error, local_action_error, spawn,
  terminate, pure, raise, ◌>>=◌, ◌>>◌, osascript,
}
use deckhand.MacAgent.Handlers.{lookup, run_shortcut, answer}

abbrev pub caffeinate : List String
caffeinate = "/usr/bin/caffeinate" ∷ "-di" ∷ []

module _ (platform : Platform) (inventory : MacInventory) where
  open platform use {can_spawn, has_exited}

  unfoldable pub focus_set : LocalActionRequest → Agent LocalActionResult
  unfolding lookup run_shortcut answer
  focus_set request = do
    shortcut ← lookup platform inventory.focus_modes request.target
    run_shortcut platform shortcut
    pure (answer request "set" false (field "mode" (text shortcut) end))

  unfoldable pub clear_with : LocalActionRequest → Option String → Agent LocalActionResult
  unfolding run_shortcut answer
  clear_with request none = raise (local_action_error "no '_clear' focus alias configured")
  clear_with request (some shortcut) = do
    run_shortcut platform shortcut
    pure (answer request "cleared" false end)

  unfoldable pub focus_clear : LocalActionRequest → Agent LocalActionResult
  unfolding find clear_with
  focus_clear request = clear_with request (find "_clear" inventory.focus_modes)

  unfoldable pub focus_state : LocalActionRequest → Agent LocalActionResult
  unfolding answer
  focus_state request = pure (answer request "unknown" false end)

  unfoldable pub pomodoro_start : LocalActionRequest → Agent LocalActionResult
  unfolding lookup run_shortcut answer
  pomodoro_start request = do
    shortcut ← lookup platform inventory.pomodoro_routines request.target
    run_shortcut platform shortcut
    pure (answer request "started" false (field "routine" (text shortcut) end))

  unfoldable pub stop_with : LocalActionRequest → Option String → Agent LocalActionResult
  unfolding run_shortcut answer
  stop_with request none = pure (answer request "stopped" false end)
  stop_with request (some shortcut) = do
    run_shortcut platform shortcut
    pure (answer request "stopped" false end)

  unfoldable pub pomodoro_stop : LocalActionRequest → Agent LocalActionResult
  unfolding find stop_with
  pomodoro_stop request = stop_with request (find "_stop" inventory.pomodoro_routines)

  unfoldable pub pomodoro_state : LocalActionRequest → Agent LocalActionResult
  unfolding answer
  pomodoro_state request = pure (answer request "unknown" false end)

  unfoldable pub display_mode_apply : LocalActionRequest → Agent LocalActionResult
  unfolding lookup run_shortcut answer
  display_mode_apply request = do
    shortcut ← lookup platform inventory.display_modes request.target
    run_shortcut platform shortcut
    pure (answer request "applied" false (field "mode" (text shortcut) end))

  unfoldable pub display_state : LocalActionRequest → Agent LocalActionResult
  unfolding osascript answer
  display_state request = do
    count ← osascript platform "tell application \"System Events\" to count of desktops"
    pure (answer request "ok" true (field "displays" (text count) end))

  -- `_caffeinate_process is not None and _caffeinate_process.returncode is None`
  abbrev pub is_inhibited : Machine → Bool
  is_inhibited s = elim s.caffeinate_process [
    | none ↦ false
    | some process ↦ not (has_exited s.turn process)
  ]

  -- The process is held from the step that starts it.
  unfoldable pub hold : Agent (Unit {0})
  hold s =
      if can_spawn s.turn caffeinate
      then (
        returned tt,
        record {
          given = spawn caffeinate ∷ s.given;
          caffeinate_process = some s.turn;
          turn = suc s.turn;
        },
      )
      else (raised other_error, record s { given = spawn caffeinate ∷ s.given; turn = suc s.turn })

  unfoldable pub inhibit : Agent (Unit {0})
  unfolding hold
  inhibit s = if is_inhibited s then (returned tt, s) else hold s

  unfoldable pub sleep_inhibit_on : LocalActionRequest → Agent LocalActionResult
  unfolding inhibit answer
  sleep_inhibit_on request = inhibit >> pure (answer request "inhibited" true end)

  abbrev pub let_go : Option ℕ → Machine → Outcome (Unit {0}) × Machine
  let_go none s = (returned tt, s)
  let_go (some process) s = if has_exited s.turn process then (returned tt, s) else (
    returned tt,
    record { given = terminate process ∷ s.given; caffeinate_process = none; turn = suc s.turn },
  )

  unfoldable pub release : Agent (Unit {0})
  release s = let_go s.caffeinate_process s

  unfoldable pub sleep_inhibit_off : LocalActionRequest → Agent LocalActionResult
  unfolding release answer
  sleep_inhibit_off request = release >> pure (answer request "released" true end)

  unfoldable pub sleep_inhibit_state : LocalActionRequest → Agent LocalActionResult
  unfolding answer
  sleep_inhibit_state request s =
      (returned (answer request (if is_inhibited s then "inhibited" else "released") true end), s)
