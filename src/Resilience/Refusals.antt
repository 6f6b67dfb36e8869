-- ===== src/Resilience/Refusals.antt =====
-- Which calls the circuit breaker refuses.
use mathlib.Core.Path.{subst}
use deckhand.Base.{String, same}
use deckhand.Json.{get}
use deckhand.Adapters.{AdapterError}
use deckhand.Models.Request.{safe}
use deckhand.Base.{
  ℕ, ◌+◌, ◌<◌, ◌≤◌, ◌≡◌, refl, sym, inl, inr, All, Option-cases, true, false, some, List, [], ◌∷◌,
  arith,
}
use deckhand.Resilience.{
  circuit_open, circuit_half_open, ResiliencePolicy, Guard, fresh, admitted, refused, refusal,
  enter_circuit, start_call, after, record_failure, record_cancellation, is_open, probe, returned,
  cancelled, raised, timed_out, failed, conclude_call, Event, start, finish, step, play, is_refusal,
  timeout_error, unexpected_error,
}

-- What may happen from a failure at `failed_at` until `over`: calls start, and calls that had started end,
-- but none of them with a result.
abbrev pub IsDuring : (failed_at over : ℕ) → Event → Type 0
IsDuring failed_at over (start now) = (failed_at ≤ now) × (now < over)
IsDuring failed_at over (finish now unknown returned) = ⊥
IsDuring failed_at over (finish now unknown outcome) = failed_at ≤ now

-- The circuit is open, and was opened at `failed_at` or later.
record IsOpenSince (failed_at : ℕ) (g : Guard) : Type 0 where
  open' : g.state ≡ circuit_open
  at : ℕ
  stamp : g.opened_at ≡ some at
  since : failed_at ≤ at

module _ (policy : ResiliencePolicy) where
  -- A call that starts and is refused, leaving the guard as it is.
  abbrev pub IsRefused : Guard → ℕ → Type 0
  IsRefused g now =
      (error : AdapterError) × (start_call policy now g ≡ refused error g)
      × (is_refusal error ≡ true)
      × (error.retry ≡ safe)

  is_refusal-refusal : (message state : String) → is_refusal (refusal message state) ≡ true
  unfolding is_refusal refusal get same
  is_refusal-refusal message state = refl

  record_failure-refusal :
      (now : ℕ) (message state : String) (g : Guard)
      → record_failure policy now (refusal message state) g ≡ g
  unfolding record_failure
  record_failure-refusal now message state g = simp (is_refusal-refusal)

  open_refuses :
      (opened_at now : ℕ) (g : Guard)
      → g.state ≡ circuit_open
      → g.opened_at ≡ some opened_at
      → now < opened_at + policy.recovery
      → 0 < policy.recovery
      → IsRefused g now
  unfolding start_call enter_circuit
  open_refuses opened_at now g e at early lasts = (
    refusal "plugin circuit is open" "open",
    ground (arith, record_failure-refusal now "plugin circuit is open" "open" g),
    is_refusal-refusal "plugin circuit is open" "open",
    (unfold refusal in refl),
  )

  probe_refuses :
      (now : ℕ) (g : Guard)
      → g.state ≡ circuit_half_open
      → g.half_open_probe_active ≡ true
      → IsRefused g now
  unfolding start_call enter_circuit probe
  probe_refuses now g e active = (
    refusal "plugin circuit recovery probe is already running" "half_open",
    ground (
      arith,
      record_failure-refusal now "plugin circuit recovery probe is already running" "half_open" g,
    ),
    is_refusal-refusal "plugin circuit recovery probe is already running" "half_open",
    (unfold refusal in refl),
  )

  failure-opened_at :
      (failed_at : ℕ) (error : AdapterError) (g : Guard)
      → is_open g.state ≡ false
      → (record_failure policy failed_at error g).state ≡ circuit_open
      → (record_failure policy failed_at error g).opened_at ≡ some failed_at
  unfolding record_failure fresh
  failure-opened_at failed_at error g was opens = ground arith

  record_failure-IsOpenSince :
      (failed_at now : ℕ) (error : AdapterError) (g : Guard)
      → failed_at ≤ now
      → IsOpenSince failed_at g
      → IsOpenSince failed_at (record_failure policy now error g)
  unfolding record_failure fresh
  record_failure-IsOpenSince failed_at now error g later h =
      let o = h.open' in
      let s = h.stamp in
      let l = h.since in
      elim (Option-cases (record_failure policy now error g).opened_at) [
        | inl gone ↦ absurd (ground arith)
        | inr (at, stamp) ↦ record {
          open' = ground arith;
          at = at;
          stamp = stamp;
          since = ground arith;
        }
      ]

  start-IsOpenSince :
      (failed_at now : ℕ) (g : Guard)
      → failed_at ≤ now
      → now < failed_at + policy.recovery
      → IsOpenSince failed_at g
      → IsRefused g now
  start-IsOpenSince failed_at now g later early h =
      let l = h.since in open_refuses h.at now g h.open' h.stamp (omega arith) (omega arith)

  step-IsOpenSince :
      (failed_at : ℕ) (event : Event) (g : Guard)
      → IsDuring failed_at (failed_at + policy.recovery) event
      → IsOpenSince failed_at g
      → IsOpenSince failed_at (step policy event g)
  unfolding step conclude_call record_cancellation
  step-IsOpenSince failed_at (start now) g (later, early) h =
      let (error, refuses, _, _) = start-IsOpenSince failed_at now g later early h in
      subst (λ e. IsOpenSince failed_at (after e)) (sym refuses) h
  step-IsOpenSince failed_at (finish now u returned) g during h = absurd during
  step-IsOpenSince failed_at (finish now u cancelled) g later h =
      let o = h.open' in subst (IsOpenSince failed_at) (ground arith) h
  step-IsOpenSince failed_at (finish now u raised) g later h =
      record_failure-IsOpenSince failed_at now unexpected_error g later h
  step-IsOpenSince failed_at (finish now u (timed_out started)) g later h =
      record_failure-IsOpenSince failed_at now (timeout_error started u) g later h
  step-IsOpenSince failed_at (finish now u (failed error)) g later h =
      record_failure-IsOpenSince failed_at now error g later h

  play-IsOpenSince :
      (failed_at : ℕ) (events : List Event) (g : Guard)
      → All (IsDuring failed_at (failed_at + policy.recovery)) events
      → IsOpenSince failed_at g
      → IsOpenSince failed_at (play policy events g)
  unfolding play
  play-IsOpenSince failed_at [] g during h = h
  play-IsOpenSince failed_at (event ∷ events) g during h =
      play-IsOpenSince failed_at events (step policy event g) during.1
        (step-IsOpenSince failed_at event g during.0 h)

  -- Where a failure has opened a circuit that was not open, a call that starts before the recovery time is
  -- over is refused, with an error that allows a retry, and leaves the guard as it is; and so it is
  -- whatever other calls start in that time, and whatever calls that had started fail, time out or are
  -- cancelled in it, as long as none of them ends with a result.
  pub record_failure-IsRefused :
      (failed_at now : ℕ) (error : AdapterError) (g : Guard) (events : List Event)
      → is_open g.state ≡ false
      → (record_failure policy failed_at error g).state ≡ circuit_open
      → All (IsDuring failed_at (failed_at + policy.recovery)) events
      → failed_at ≤ now
      → now < failed_at + policy.recovery
      → IsRefused (play policy events (record_failure policy failed_at error g)) now
  record_failure-IsRefused failed_at now error g events was opens during later early =
      start-IsOpenSince failed_at now _ later early (
        play-IsOpenSince failed_at events (record_failure policy failed_at error g) during (record {
          open' = opens;
          at = failed_at;
          stamp = failure-opened_at failed_at error g was opens;
          since = omega arith;
        }))

  probe_of : Guard → ℕ → Guard
  probe_of g t = record g {
    state = circuit_half_open;
    opened_at = some t;
    half_open_probe_active = true;
  }

  -- Where the circuit is open and its recovery time is over, a call that starts is admitted, as the probe,
  -- and after it every other call that starts is refused and leaves the guard as it is.
  pub start_call-IsRefused :
      (opened_at now now' : ℕ) (g : Guard)
      → g.state ≡ circuit_open
      → g.opened_at ≡ some opened_at
      → opened_at + policy.recovery ≤ now
      → (g' : Guard) × (start_call policy now g ≡ admitted g') × IsRefused g' now'
  unfolding start_call enter_circuit probe probe_of
  start_call-IsRefused opened_at now now' g e at over =
      (probe_of g opened_at, ground arith, probe_refuses now' (probe_of g opened_at) refl refl)
