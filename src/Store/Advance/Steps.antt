-- ===== src/Store/Advance/Steps.antt =====
-- Each assignment of store.py is a step of its job, from the states in which the code makes it.
use deckhand.Base.{ℕ, String, ◌≡◌, ◌≢◌, refl, sym, ap, ◌∙◌, false, Option, arith}
use mathlib.Core.Bool.{false≢true}
use deckhand.Models.State.{JobState, running, expired}
use deckhand.StateMachine.Reach.{◌⟶◌, here, next}
use deckhand.Store.Rows.{JobRow}
use deckhand.Store.Audit.{Moment}
use deckhand.Store.Updates.{is_active, moved, leased, released, expire_released, counted}
use deckhand.Store.Table.{Becomes}
use deckhand.Store.Advance.{IsStep}

Becomes-by :
    (r s : JobRow)
    → s.id ≡ r.id
    → s.idempotency_key ≡ r.idempotency_key
    → s.request_json ≡ r.request_json
    → s.request_digest ≡ r.request_digest
    → s.subject_json ≡ r.subject_json
    → s.created_at ≡ r.created_at
    → r.state ⟶ s.state
    → Becomes r s
Becomes-by r s a b c d e f st = record {
  id = a;
  idempotency_key = b;
  request_json = c;
  request_digest = d;
  subject_json = e;
  created_at = f;
  path = next here st;
}

pub moved-IsStep :
    (m : Moment) (target : JobState) (result error : Option String) (row : JobRow)
    → target ≢ running
    → row.state ⟶ target
    → IsStep row (moved m target result error)
unfolding moved
moved-IsStep m target result error row ne st = record {
  keeps_id = λ r. refl;
  becomes = Becomes-by row _ refl refl refl refl refl refl st;
  sound = λ h. record {
    held = λ e. absurd (ne e);
    idle = λ e. unfold is_active in ground arith;
    token = λ e. ground (arith, h.token);
    expiry = λ e. ground (arith, h.expiry);
  };
}

pub leased-IsStep :
    (m : Moment) (worker_id lease_token : String) (expiry : ℕ) (row : JobRow)
    → row.state ⟶ running
    → IsStep row (leased m worker_id lease_token expiry)
unfolding leased
leased-IsStep m worker_id lease_token expiry row st = record {
  keeps_id = λ r. refl;
  becomes = Becomes-by row _ refl refl refl refl refl refl st;
  sound = λ h. unfold is_active in ground arith;
}

pub released-IsStep :
    (m : Moment) (target : JobState) (error : Option String) (row : JobRow)
    → is_active target ≡ false
    → row.state ⟶ target
    → IsStep row (released m target error)
unfolding released
released-IsStep m target error row idle st =
    unfold is_active in
    record {
      keeps_id = λ r. refl;
      becomes = Becomes-by row _ refl refl refl refl refl refl st;
      sound = λ h. record {
        held = λ e. absurd (false≢true (sym idle ∙ ap is_active e ∙ refl));
        idle = λ _. (refl, refl, refl);
        token = λ _. refl;
        expiry = λ _. refl;
      };
    }

pub counted-IsStep : (attempts : ℕ) (row : JobRow) → IsStep row (counted attempts)
unfolding counted
counted-IsStep attempts row = record {
  keeps_id = λ r. refl;
  becomes = record {
    id = refl;
    idempotency_key = refl;
    request_json = refl;
    request_digest = refl;
    subject_json = refl;
    created_at = refl;
    path = here;
  };
  sound = λ h. record { held = h.held; idle = h.idle; token = h.token; expiry = h.expiry };
}

pub expire_released-IsStep :
    (m : Moment) (row : JobRow) → row.state ⟶ expired → IsStep row (expire_released m)
unfolding expire_released
expire_released-IsStep m row st = record {
  keeps_id = λ r. refl;
  becomes = (released-IsStep m expired row.error row (unfold is_active in refl) st).becomes;
  sound = (released-IsStep m expired row.error row (unfold is_active in refl) st).sound;
}
