-- ===== src/Api/Cancellation.antt =====
-- The cancellation of jobs and of confirmations by apps/broker/src/deckhand/api.py.
use deckhand.Base.{String, Bool, true, false, same, if◌then◌else◌}
use deckhand.Result.{Error, cancellation_error, http_exception}
use deckhand.Models.Request.{Subject, JobView}
use deckhand.Store.Confirmations as Confirmations
use deckhand.Process.{Schedule, Process, pure, raise, ◌>>=◌, handle, commit}
use deckhand.Canceller as Canceller
use deckhand.Api.{Runtime}

-- The `except` clause of `cancel_job`.
unfoldable pub cancel_error : Error → Error
cancel_error (cancellation_error message) =
    http_exception (if same message "job not found" then 404 else 409)
cancel_error e = e

module _ (runtime : Runtime) (schedule : Schedule) where
  open runtime use {parts}
  open parts use {store, actions, accepts, adapters}
  open store use {external as x}

  unfoldable pub cancel_job : (job_id : String) → Subject → Process JobView
  unfolding cancel_error
  cancel_job job_id subject =
      handle (Canceller.cancel parts schedule job_id subject) (λ e. raise (cancel_error e))

  abbrev pub or_not_found : Bool → Process (Unit {0})
  or_not_found true = pure tt
  or_not_found false = raise (http_exception 404)

  unfoldable pub cancel_confirmation : (confirmation_id : String) → Subject → Process (Unit {0})
  cancel_confirmation confirmation_id subject = do
    cancelled ←
        commit store schedule
          (λ m. Confirmations.cancel_confirmation store m confirmation_id subject)
    or_not_found cancelled
