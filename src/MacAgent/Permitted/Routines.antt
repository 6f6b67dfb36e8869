-- ===== src/MacAgent/Permitted/Routines.antt =====
-- The handlers of the microphone, the audio devices, the routines and the inhibition of sleep.
use deckhand.Base.{
  ◌≡◌, refl, ℕ, String, Bool, true, false, not, Option, none, some, same, All, if◌then◌else◌,
}
use deckhand.MacAgent.{LocalActionRequest}
use deckhand.MacAgent.Inventory.{MacInventory, find}
use deckhand.MacAgent.Agent.{Platform, Machine, Outcome, returned}
use deckhand.MacAgent.Handlers.Audio.{
  volume_script, mic_query, mic_set, mic_mute, mic_unmute, mic_toggle, mic_state, select_with,
  set_audio_device, audio_output_select, audio_input_select, state_with, audio_state,
}
use deckhand.MacAgent.Handlers.Routines.{
  focus_set, clear_with, focus_clear, focus_state, pomodoro_start, stop_with, pomodoro_stop,
  pomodoro_state, display_mode_apply, display_state, is_inhibited, caffeinate, hold, inhibit,
  sleep_inhibit_on, let_go, release, sleep_inhibit_off, sleep_inhibit_state,
}
use deckhand.MacAgent.Permitted.{
  Holds, Permitted, osascript_of, Safe, mute, unmute, volume, desktops, focus, pomodoro, display,
  devices, lookup-Safe, run-Safe, after-Safe, pure-Safe, raise-Safe, then-Safe, osascript-Safe,
  shortcut-Safe, constant, select_device, current_device, inhibit_sleep, allow_sleep,
}

module _ (platform : Platform) (inventory : MacInventory) where
  mic_query-Safe : Safe platform inventory (mic_query platform inventory)
  unfolding mic_query
  mic_query-Safe = then-Safe _ _ (osascript-Safe _ (constant volume))

  volume-Safe : (muted : Bool) → Permitted platform inventory (osascript_of (volume_script muted))
  volume-Safe true = constant mute
  volume-Safe false = constant unmute

  select-Safe :
      (o : Option String) (device : String) (output : Bool)
      → platform.which "SwitchAudioSource" ≡ o
      → Holds (devices inventory output) device
      → Safe platform inventory (select_with platform inventory o device output)
  select-Safe none device output e h = raise-Safe _
  select-Safe (some tool) device output e h = run-Safe _ (select_device tool output device e h)

  set_audio_device-Safe :
      (device : String) (output : Bool)
      → Holds (devices inventory output) device
      → Safe platform inventory (set_audio_device platform inventory device output)
  unfolding set_audio_device
  set_audio_device-Safe device output h = select-Safe _ device output refl h

  if-Given :
      {A : Type 0} (b : Bool) (x y : Outcome A × Machine)
      → All (Permitted platform inventory) x.1.given
      → All (Permitted platform inventory) y.1.given
      → All (Permitted platform inventory) (if b then x else y).1.given
  if-Given true x y h k = h
  if-Given false x y h k = k

  hold-Safe : Safe platform inventory (hold platform inventory)
  unfolding hold
  hold-Safe = record {
    at = λ s h.
        if-Given (platform.can_spawn s.turn caffeinate) _ _ (inhibit_sleep, h) (inhibit_sleep, h);
  }

  inhibit-Safe : Safe platform inventory (inhibit platform inventory)
  unfolding inhibit
  inhibit-Safe = record {
    at = λ s h.
        if-Given (is_inhibited platform inventory s) (returned tt, s) (hold platform inventory s) h
          (hold-Safe.at s h);
  }

  let_go-Safe :
      (o : Option ℕ) (s : Machine)
      → All (Permitted platform inventory) s.given
      → All (Permitted platform inventory) (let_go platform inventory o s).1.given
  let_go-Safe none s h = h
  let_go-Safe (some process) s h =
      if-Given (platform.has_exited s.turn process) (returned tt, s) _ h (allow_sleep process, h)

  release-Safe : Safe platform inventory (release platform inventory)
  unfolding release
  release-Safe = record { at = λ s h. let_go-Safe s.caffeinate_process s h }

  module _ (request : LocalActionRequest) where
    mic_set-Safe :
        (muted : Bool) → Safe platform inventory (mic_set platform inventory request muted)
    unfolding mic_set
    mic_set-Safe muted =
        after-Safe _ _ (osascript-Safe _ (volume-Safe muted)) (λ out. then-Safe _ _ mic_query-Safe)

    state-Safe :
        (o : Option String)
        → platform.which "SwitchAudioSource" ≡ o
        → Safe platform inventory (state_with platform inventory request o)
    unfolding state_with
    state-Safe none e = pure-Safe _
    state-Safe (some tool) e =
        after-Safe _ _ (run-Safe _ (current_device tool true e))
          (λ out. then-Safe _ _ (run-Safe _ (current_device tool false e)))

    clear-Safe :
        (o : Option String)
        → find "_clear" inventory.focus_modes ≡ o
        → Safe platform inventory (clear_with platform inventory request o)
    unfolding clear_with
    clear-Safe none e = raise-Safe _
    clear-Safe (some v) e = then-Safe _ _ (shortcut-Safe focus v ("_clear", e))

    stop-Safe :
        (o : Option String)
        → find "_stop" inventory.pomodoro_routines ≡ o
        → Safe platform inventory (stop_with platform inventory request o)
    unfolding stop_with
    stop-Safe none e = pure-Safe _
    stop-Safe (some v) e = then-Safe _ _ (shortcut-Safe pomodoro v ("_stop", e))

    pub mic_mute-Safe : Safe platform inventory (mic_mute platform inventory request)
    unfolding mic_mute
    mic_mute-Safe = mic_set-Safe true

    pub mic_unmute-Safe : Safe platform inventory (mic_unmute platform inventory request)
    unfolding mic_unmute
    mic_unmute-Safe = mic_set-Safe false

    pub mic_toggle-Safe : Safe platform inventory (mic_toggle platform inventory request)
    unfolding mic_toggle
    mic_toggle-Safe =
        after-Safe _ _ mic_query-Safe (λ current. mic_set-Safe (not (same current "muted")))

    pub mic_state-Safe : Safe platform inventory (mic_state platform inventory request)
    unfolding mic_state
    mic_state-Safe = then-Safe _ _ mic_query-Safe

    pub audio_output_select-Safe :
        Safe platform inventory (audio_output_select platform inventory request)
    unfolding audio_output_select
    audio_output_select-Safe =
        lookup-Safe inventory.audio_outputs request.target _
          (λ v h. then-Safe _ _ (set_audio_device-Safe v true h))

    pub audio_input_select-Safe :
        Safe platform inventory (audio_input_select platform inventory request)
    unfolding audio_input_select
    audio_input_select-Safe =
        lookup-Safe inventory.audio_inputs request.target _
          (λ v h. then-Safe _ _ (set_audio_device-Safe v false h))

    pub audio_state-Safe : Safe platform inventory (audio_state platform inventory request)
    unfolding audio_state
    audio_state-Safe = state-Safe _ refl

    pub focus_set-Safe : Safe platform inventory (focus_set platform inventory request)
    unfolding focus_set
    focus_set-Safe =
        lookup-Safe inventory.focus_modes request.target _
          (λ v h. then-Safe _ _ (shortcut-Safe focus v h))

    pub pomodoro_start-Safe : Safe platform inventory (pomodoro_start platform inventory request)
    unfolding pomodoro_start
    pomodoro_start-Safe =
        lookup-Safe inventory.pomodoro_routines request.target _
          (λ v h. then-Safe _ _ (shortcut-Safe pomodoro v h))

    pub display_mode_apply-Safe :
        Safe platform inventory (display_mode_apply platform inventory request)
    unfolding display_mode_apply
    display_mode_apply-Safe =
        lookup-Safe inventory.display_modes request.target _
          (λ v h. then-Safe _ _ (shortcut-Safe display v h))

    pub focus_clear-Safe : Safe platform inventory (focus_clear platform inventory request)
    unfolding focus_clear
    focus_clear-Safe = clear-Safe _ refl

    pub pomodoro_stop-Safe : Safe platform inventory (pomodoro_stop platform inventory request)
    unfolding pomodoro_stop
    pomodoro_stop-Safe = stop-Safe _ refl

    pub focus_state-Safe : Safe platform inventory (focus_state platform inventory request)
    unfolding focus_state
    focus_state-Safe = pure-Safe _

    pub pomodoro_state-Safe : Safe platform inventory (pomodoro_state platform inventory request)
    unfolding pomodoro_state
    pomodoro_state-Safe = pure-Safe _

    pub display_state-Safe : Safe platform inventory (display_state platform inventory request)
    unfolding display_state
    display_state-Safe = then-Safe _ _ (osascript-Safe _ (constant desktops))

    pub sleep_inhibit_on-Safe :
        Safe platform inventory (sleep_inhibit_on platform inventory request)
    unfolding sleep_inhibit_on
    sleep_inhibit_on-Safe = then-Safe _ _ inhibit-Safe

    pub sleep_inhibit_off-Safe :
        Safe platform inventory (sleep_inhibit_off platform inventory request)
    unfolding sleep_inhibit_off
    sleep_inhibit_off-Safe = then-Safe _ _ release-Safe

    pub sleep_inhibit_state-Safe :
        Safe platform inventory (sleep_inhibit_state platform inventory request)
    unfolding sleep_inhibit_state
    sleep_inhibit_state-Safe = record { at = λ s h. h }
