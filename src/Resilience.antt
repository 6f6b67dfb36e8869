-- ===== src/Resilience.antt =====
-- The circuit breaker of `class ResilienceGuard` in apps/broker/src/deckhand/resilience.py. Each method
-- holds the guard's lock, so it is one step of the guard's state; between the steps of one call those of
-- other calls come. A time is a number of microseconds of the monotonic clock, which never goes back.
pub mod Circuit
pub mod Refusals
use deckhand.Base.{
  ℕ, ◌+◌, ◌-◌, String, Bool, true, false, not, ◌&&◌, ◌||◌, Option, none, some, List, [], ◌∷◌, ltb,
  leb, if◌then◌else◌,
}
use deckhand.Json.{Json, Object, end, null, field, text, get}
use deckhand.Models.Request.{never, safe}
use deckhand.Adapters.{
  AdapterErrorKind, AdapterError, rate_limited, unavailable, timeout, protocol, unexpected,
  unknown_outcome_error,
}

pub data CircuitState : Type 0 where
  circuit_closed circuit_open circuit_half_open : CircuitState

-- The fields of `ResiliencePolicy` that the circuit reads.
pub record ResiliencePolicy : Type 0 where
  pub failure_threshold : ℕ
  pub recovery : ℕ

-- The fields of the guard that make up the circuit.
pub record Guard : Type 0 where
  pub state : CircuitState
  pub consecutive_failures : ℕ
  pub opened_at : Option ℕ
  pub half_open_probe_active : Bool

abbrev pub is_open : CircuitState → Bool
is_open circuit_open = true
is_open _ = false

abbrev pub is_half_open : CircuitState → Bool
is_half_open circuit_half_open = true
is_half_open _ = false

-- `__init__`
unfoldable pub fresh : Guard
fresh = record {
  state = circuit_closed;
  consecutive_failures = 0;
  opened_at = none;
  half_open_probe_active = false;
}

-- `kind in TRANSIENT_FAILURES`
unfoldable pub is_transient : AdapterErrorKind → Bool
is_transient rate_limited = true
is_transient unavailable = true
is_transient timeout = true
is_transient protocol = true
is_transient unexpected = true
is_transient _ = false

-- `error.details.get("circuit_state") is not None`
abbrev pub is_present : Option Json → Bool
is_present none = false
is_present (some null) = false
is_present (some _) = true

unfoldable pub is_refusal : AdapterError → Bool
unfolding get
is_refusal e = is_present (get "circuit_state" e.details)

-- The error of a call that the circuit refuses.
unfoldable pub refusal : (message state : String) → AdapterError
refusal message state = record {
  message = message;
  kind = unavailable;
  retry = safe;
  reconciliation_required = false;
  details = field "circuit_state" (text state) end;
}

-- What `_enter_circuit` does: the call goes on, or it raises.
pub data Entry : Type 0 where
  admitted : Guard → Entry
  refused : AdapterError → Guard → Entry

-- The branch of the half-open state.
unfoldable pub probe : Guard → Entry
unfolding refusal
probe g =
    if is_half_open g.state
    then (if g.half_open_probe_active
        then refused (refusal "plugin circuit recovery probe is already running" "half_open") g
        else admitted (record g { half_open_probe_active = true }))
    else admitted g

-- `opened_at`, set to `now` where it is missing
abbrev pub opened : ℕ → Option ℕ → ℕ
opened now none = now
opened now (some t) = t

unfoldable pub enter_circuit : ResiliencePolicy → ℕ → Guard → Entry
unfolding refusal probe
enter_circuit policy now g =
    if is_open g.state
    then (let opened_at = opened now g.opened_at in
        let stamped = record g { opened_at = some opened_at } in
        if ltb (now - opened_at) policy.recovery
        then refused (refusal "plugin circuit is open" "open") stamped
        else probe (record stamped { state = circuit_half_open; half_open_probe_active = false }))
    else probe g

unfoldable pub record_success : Guard → Guard
unfolding fresh
record_success g = fresh

unfoldable pub record_failure : ResiliencePolicy → ℕ → AdapterError → Guard → Guard
unfolding is_refusal is_transient fresh
record_failure policy now error g =
    let failures = g.consecutive_failures + 1 in
    if is_refusal error
    then g
    else if not (is_transient error.kind)
    then (if is_half_open g.state then fresh else g)
    else if is_half_open g.state || leb policy.failure_threshold failures
    then record {
      state = circuit_open;
      consecutive_failures = failures;
      opened_at = some now;
      half_open_probe_active = false;
    }
    else record g { consecutive_failures = failures }

unfoldable pub record_cancellation : ℕ → Guard → Guard
record_cancellation now g =
    if is_half_open g.state
    then record g { state = circuit_open; opened_at = some now; half_open_probe_active = false }
    else g

-- How the awaited part of `call` ends, after the circuit was entered.
pub data Outcome : Type 0 where
  returned cancelled raised : Outcome
  timed_out : (operation_started : Bool) → Outcome
  failed : AdapterError → Outcome

-- The error that a timeout becomes.
unfoldable pub timeout_error : (operation_started unknown_on_started_timeout : Bool) → AdapterError
unfolding unknown_outcome_error
timeout_error operation_started unknown_on_started_timeout =
    if operation_started && unknown_on_started_timeout
    then unknown_outcome_error "plugin operation timed out" end
    else record {
      message = "plugin operation timed out";
      kind = timeout;
      retry = safe;
      reconciliation_required = false;
      details = end;
    }

unfoldable pub unexpected_error : AdapterError
unexpected_error = record {
  message = "plugin operation failed";
  kind = unexpected;
  retry = never;
  reconciliation_required = false;
  details = end;
}

-- The `record_…` call of the branch of `call` that an outcome takes.
unfoldable pub conclude_call : ResiliencePolicy → ℕ → Bool → Outcome → Guard → Guard
unfolding record_success record_failure record_cancellation timeout_error unexpected_error
conclude_call policy now unknown returned g = record_success g
conclude_call policy now unknown cancelled g = record_cancellation now g
conclude_call policy now unknown raised g = record_failure policy now unexpected_error g
conclude_call policy now unknown (timed_out started) g =
    record_failure policy now (timeout_error started unknown) g
conclude_call policy now unknown (failed error) g = record_failure policy now error g

-- A call that asks to enter. A refusal is raised inside the `try` of `call`, and so passes through
-- `_record_failure` too.
unfoldable pub start_call : ResiliencePolicy → ℕ → Guard → Entry
unfolding enter_circuit record_failure
start_call policy now g = elim (enter_circuit policy now g) [
  | admitted g' ↦ admitted g'
  | refused error g' ↦ refused error (record_failure policy now error g')
]

abbrev pub after : Entry → Guard
after (admitted g) = g
after (refused error g) = g

-- The steps of concurrent calls, each at its time.
pub data Event : Type 0 where
  start : ℕ → Event
  finish : ℕ → (unknown_on_started_timeout : Bool) → Outcome → Event

unfoldable pub step : ResiliencePolicy → Event → Guard → Guard
unfolding start_call conclude_call
step policy (start now) g = after (start_call policy now g)
step policy (finish now unknown outcome) g = conclude_call policy now unknown outcome g

unfoldable pub play : ResiliencePolicy → List Event → Guard → Guard
unfolding step
play policy [] g = g
play policy (event ∷ events) g = play policy events (step policy event g)
