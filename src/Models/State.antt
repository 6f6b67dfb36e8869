-- ===== src/Models/State.antt =====
-- The job states of apps/broker/src/deckhand/models.py.
use deckhand.Base.{
  ℕ, String, ◌≡◌, refl, ap, sym, ◌∙◌, ◌↔◌, Bool, true, false, List, [], ◌∷◌, ◌==◌, ==_iff, ◌||◌,
}

pub data JobState : Type 0 where
  received validated authorized awaiting_confirmation queued running verifying : JobState
  succeeded denied rejected expired cancelled failed unknown_outcome : JobState

-- The text of the enumeration, as the database and the audit log have it.
unfoldable pub value : JobState → String
value received = "received"
value validated = "validated"
value authorized = "authorized"
value awaiting_confirmation = "awaiting_confirmation"
value queued = "queued"
value running = "running"
value verifying = "verifying"
value succeeded = "succeeded"
value denied = "denied"
value rejected = "rejected"
value expired = "expired"
value cancelled = "cancelled"
value failed = "failed"
value unknown_outcome = "unknown_outcome"

-- The place of a member in the enumeration; two members are equal if their places are.
abbrev pub position : JobState → ℕ
position received = 0
position validated = 1
position authorized = 2
position awaiting_confirmation = 3
position queued = 4
position running = 5
position verifying = 6
position succeeded = 7
position denied = 8
position rejected = 9
position expired = 10
position cancelled = 11
position failed = 12
position unknown_outcome = 13

abbrev pub same_state : JobState → JobState → Bool
same_state a b = position a == position b

abbrev first : Bool → JobState → JobState → JobState
first true a b = a
first false a b = b

abbrev at_position : ℕ → JobState
at_position n = first (n == 0) received (
    first (n == 1) validated (
      first (n == 2) authorized (
        first (n == 3) awaiting_confirmation (
          first (n == 4) queued (
            first (n == 5) running (
              first (n == 6) verifying (
                first (n == 7) succeeded (
                  first (n == 8) denied (
                    first (n == 9) rejected (
                      first (n == 10) expired (
                        first (n == 11) cancelled
                          (first (n == 12) failed unknown_outcome))))))))))))

at_position-position : (s : JobState) → at_position (position s) ≡ s
at_position-position received = refl
at_position-position _ = refl

pub position-injective : (a b : JobState) → position a ≡ position b → a ≡ b
position-injective a b e = sym (at_position-position a) ∙ ap at_position e ∙ at_position-position b

pub same_state_iff : (a b : JobState) → (same_state a b ≡ true) ↔ (a ≡ b)
same_state_iff a b = (
  λ h. position-injective a b ((==_iff (position a) (position b)).0 h),
  λ e. (==_iff (position a) (position b)).1 (ap position e),
)

-- `state in states`
abbrev pub contains : JobState → List JobState → Bool
contains s [] = false
contains s (t ∷ ts) = same_state t s || contains s ts

-- `TERMINAL_JOB_STATES`
abbrev pub terminal_job_states : List JobState
terminal_job_states = succeeded ∷ denied ∷ rejected ∷ expired ∷ cancelled ∷ failed ∷ []
