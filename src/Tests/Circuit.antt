-- ===== src/Tests/Circuit.antt =====
-- The circuit breaker on concrete guards.
use deckhand.Base.{ℕ, Bool, ◌≡◌, ◌≢◌, refl, true, false, none, some, List, [], ◌∷◌, arith}
use deckhand.Resilience.{
  circuit_closed, circuit_open, circuit_half_open, Outcome, step, ResiliencePolicy, Guard, admitted,
  start_call, record_failure, unexpected_error, raised, returned, timed_out, Event, start, finish,
  play, fresh,
}
use deckhand.Resilience.Circuit.{IsConsistent, IsEnd, fresh-IsConsistent, play-IsConsistent}
use deckhand.Resilience.Refusals.{IsRefused, record_failure-IsRefused, start_call-IsRefused}

-- Two failures open the circuit for ten.
abbrev policy : ResiliencePolicy
policy = record { failure_threshold = 2; recovery = 10 }

-- Two calls that overlap fail, a probe times out, a later one succeeds.
abbrev events : List Event
events =
    start 0
    ∷ start 1
    ∷ finish 2 false raised
    ∷ finish 3 true (timed_out true)
    ∷ start 5
    ∷ start 14
    ∷ finish 20 false (timed_out false)
    ∷ start 31
    ∷ finish 32 false returned
    ∷ []

play-IsConsistent_example :
    IsConsistent policy (play policy events fresh)
    × ((now : ℕ) (unknown : Bool) (outcome : Outcome)
        → IsEnd outcome
        → (step policy (finish now unknown outcome) (play policy events fresh)).state
          ≢ circuit_half_open)
play-IsConsistent_example =
    play-IsConsistent policy (omega arith) events fresh (fresh-IsConsistent policy (omega arith))

abbrev failing : Guard
failing = record {
  state = circuit_closed;
  consecutive_failures = 1;
  opened_at = none;
  half_open_probe_active = false;
}

opens : (record_failure policy 3 unexpected_error failing).state ≡ circuit_open
unfolding record_failure unexpected_error
opens = refl

-- A call starts, and one that had started before the failure times out.
abbrev meanwhile : List Event
meanwhile = start 5 ∷ finish 8 false (timed_out true) ∷ []

record_failure-IsRefused_example :
    IsRefused policy (play policy meanwhile (record_failure policy 3 unexpected_error failing)) 12
record_failure-IsRefused_example =
    record_failure-IsRefused policy 3 12 unexpected_error failing meanwhile refl opens
      ((omega arith, omega arith), (omega arith, tt)) (omega arith) (omega arith)

abbrev tripped : Guard
tripped = record {
  state = circuit_open;
  consecutive_failures = 2;
  opened_at = some 3;
  half_open_probe_active = false;
}

start_call-IsRefused_example :
    (g : Guard) × (start_call policy 14 tripped ≡ admitted g) × IsRefused policy g 15
start_call-IsRefused_example = start_call-IsRefused policy 3 14 15 tripped refl refl (omega arith)
