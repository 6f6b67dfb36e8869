-- ===== src/Resilience/Circuit.antt =====
-- What the circuit breaker keeps true of its guard.
use deckhand.Json.{get}
use deckhand.Adapters.{AdapterError, unknown_outcome_error}
use deckhand.Base.{ℕ, ◌<◌, ◌≤◌, ◌≡◌, ◌≢◌, ◌↔◌, refl, Bool, false, none, List, [], ◌∷◌, arith}
use deckhand.Resilience.{
  circuit_closed, circuit_half_open, ResiliencePolicy, Guard, fresh, refusal, enter_circuit,
  start_call, after, record_success, record_failure, record_cancellation, is_half_open, probe,
  returned, cancelled, raised, timed_out, failed, conclude_call, Event, Outcome, start, finish,
  step, play, is_refusal, timeout_error, unexpected_error,
}

-- The circuit is closed exactly while fewer failures than the threshold have come in a row; it has the
-- time at which it opened exactly if it is not closed; and the flag of a probe is set in the half-open
-- state, and in no other.
pub record IsConsistent (policy : ResiliencePolicy) (g : Guard) : Type 0 where
  pub counted : (g.state ≡ circuit_closed) ↔ (g.consecutive_failures < policy.failure_threshold)
  pub stamped : (g.state ≡ circuit_closed) ↔ (g.opened_at ≡ none)
  pub probing : g.half_open_probe_active ≡ is_half_open g.state

-- The end of a call other than by an error that is itself the refusal of a circuit.
abbrev pub IsEnd : Outcome → Type 0
IsEnd (failed error) = is_refusal error ≡ false
IsEnd _ = Unit

module _ (policy : ResiliencePolicy) where
  pub fresh-IsConsistent : 1 ≤ policy.failure_threshold → IsConsistent policy fresh
  unfolding fresh
  fresh-IsConsistent h = record { counted = ground arith; stamped = ground arith; probing = refl }

  start_call-IsConsistent :
      (now : ℕ) (g : Guard)
      → IsConsistent policy g
      → IsConsistent policy (after (start_call policy now g))
  unfolding start_call enter_circuit probe record_failure refusal is_refusal
  start_call-IsConsistent now g h =
      let c = h.counted in
      let s = h.stamped in
      let p = h.probing in
      record { counted = ground arith; stamped = ground arith; probing = ground arith }

  record_success-IsConsistent :
      1 ≤ policy.failure_threshold → (g : Guard) → IsConsistent policy (record_success g)
  unfolding record_success
  record_success-IsConsistent t g = fresh-IsConsistent t

  record_failure-IsConsistent :
      1 ≤ policy.failure_threshold
      → (now : ℕ) (error : AdapterError) (g : Guard) → IsConsistent policy g
      → IsConsistent policy (record_failure policy now error g)
  unfolding record_failure fresh
  record_failure-IsConsistent t now error g h =
      let c = h.counted in
      let s = h.stamped in
      let p = h.probing in
      record { counted = ground arith; stamped = ground arith; probing = ground arith }

  record_cancellation-IsConsistent :
      (now : ℕ) (g : Guard)
      → IsConsistent policy g
      → IsConsistent policy (record_cancellation now g)
  unfolding record_cancellation
  record_cancellation-IsConsistent now g h =
      let c = h.counted in
      let s = h.stamped in
      let p = h.probing in
      record { counted = ground arith; stamped = ground arith; probing = ground arith }

  step-IsConsistent :
      1 ≤ policy.failure_threshold
      → (event : Event) (g : Guard) → IsConsistent policy g
      → IsConsistent policy (step policy event g)
  unfolding step conclude_call
  step-IsConsistent t (start now) g h = start_call-IsConsistent now g h
  step-IsConsistent t (finish now u returned) g h = record_success-IsConsistent t g
  step-IsConsistent t (finish now u cancelled) g h = record_cancellation-IsConsistent now g h
  step-IsConsistent t (finish now u raised) g h =
      record_failure-IsConsistent t now unexpected_error g h
  step-IsConsistent t (finish now u (timed_out started)) g h =
      record_failure-IsConsistent t now (timeout_error started u) g h
  step-IsConsistent t (finish now u (failed error)) g h =
      record_failure-IsConsistent t now error g h

  play-keeps :
      1 ≤ policy.failure_threshold
      → (events : List Event) (g : Guard) → IsConsistent policy g
      → IsConsistent policy (play policy events g)
  unfolding play
  play-keeps t [] g h = h
  play-keeps t (event ∷ events) g h =
      play-keeps t events (step policy event g) (step-IsConsistent t event g h)

  record_failure-ends :
      (now : ℕ) (error : AdapterError) (g : Guard)
      → is_refusal error ≡ false
      → (record_failure policy now error g).state ≢ circuit_half_open
  unfolding record_failure fresh
  record_failure-ends now error g h e = ground arith

  step-ends :
      (now : ℕ) (unknown : Bool) (outcome : Outcome) (g : Guard)
      → IsEnd outcome
      → (step policy (finish now unknown outcome) g).state ≢ circuit_half_open
  unfolding step conclude_call record_success fresh record_cancellation timeout_error
      unexpected_error is_refusal get unknown_outcome_error
  step-ends now unknown returned g h e = cc e
  step-ends now unknown cancelled g h e = ground arith
  step-ends now unknown raised g h e = record_failure-ends now unexpected_error g refl e
  step-ends now unknown (timed_out started) g h e =
      record_failure-ends now (timeout_error started unknown) g (ground arith) e
  step-ends now unknown (failed error) g h e = record_failure-ends now error g h e

  -- Whatever steps concurrent calls make, in any order, from a consistent guard under a policy with a
  -- threshold of at least 1: the guard is consistent. And whichever call then ends, by a result, a
  -- cancellation, a timeout or an error that is not the refusal of a circuit, the guard is not half-open
  -- after it, so that no probe that has ended leaves it so.
  pub play-IsConsistent :
      1 ≤ policy.failure_threshold
      → (events : List Event) (g : Guard) → IsConsistent policy g
      → IsConsistent policy (play policy events g)
        × ((now : ℕ) (unknown : Bool) (outcome : Outcome)
            → IsEnd outcome
            → (step policy (finish now unknown outcome) (play policy events g)).state
              ≢ circuit_half_open)
  play-IsConsistent t events g h = (
    play-keeps t events g h,
    λ now unknown outcome ends. step-ends now unknown outcome (play policy events g) ends,
  )
