-- ===== src/Store/Leases.antt =====
-- `claim_next_job`, `renew_lease` and `transition_job` of apps/broker/src/deckhand/store.py. Each is
-- the body of one transaction; a fresh token is an argument.
use deckhand.Base.{ℕ, ◌+◌, String, Bool, Option, none, some, ◌==◌, keep, length, map, if◌then◌else◌}
use deckhand.Base.Append.{append}
use mathlib.Core.Option
use deckhand.Json.{Object, end, field, text}
use deckhand.Result.{ok, job_not_found, write_lost, stale_lease}
use deckhand.Models.State.{JobState, running, value}
use deckhand.Models.Request.{ActionRequest, JobError, JobView}
use deckhand.StateMachine.{require_transition}
use deckhand.Store.Rows.{JobRow, find_job, oldest}
use deckhand.Store.Tx.{Tx, ◌>>=◌, ◌>>◌, pure, lift, select, or_raise, require}
use deckhand.Store.Audit.{Store, Moment}
use deckhand.Store.Views.{validated, job_view, error_members}
use deckhand.Store.Updates.{
  seconds, is_claimable, leased, moved, holds_lease, renewed, fence_fits, state_fits,
  optional_object, ClaimedJob, change,
}

-- The UPDATE of `renew_lease`, at one row.
unfoldable pub renew_row : Moment → String → String → ℕ → JobRow → JobRow
renew_row m job_id lease_token lease_seconds r =
    if holds_lease job_id lease_token r then renewed m lease_seconds r else r

-- The payload of the audit event of a transition.
unfoldable pub transition_payload : String → Option Object → Option JobError → Object
unfolding optional_object
transition_payload job_id result error = field "job_id" (text job_id) (
    field "result" (optional_object result)
      (field "error" (optional_object (Option.map error_members error)) end))

module _ (store : Store) where
  open store use {external as x}

  -- `SELECT * FROM jobs WHERE id = ?` after a write, and its view
  unfoldable pub read_back : String → Tx JobView
  read_back id = do
    found ← select (λ db. find_job id db.jobs)
    row ← or_raise found write_lost
    lift (job_view x row)

  -- An update of one job, its audit event, and the view of the row that is left.
  unfoldable pub change_and_read :
      Moment → String → (JobRow → JobRow) → String → Object → Tx JobView
  change_and_read m id f event_type payload = do
    change store m id f event_type payload
    read_back id

  -- `lease_for(claimed_request)` where a `lease_for` is given
  unfoldable pub lease_length : ℕ → Option (ActionRequest → ℕ) → JobRow → Tx ℕ
  lease_length lease_seconds none row = pure lease_seconds
  lease_length lease_seconds (some lease_for) row = do
    request ← lift (validated (x.validate_request row.request_json))
    pure (lease_for request)

  unfoldable pub claim_row :
      Moment → String → String → ℕ → Option (ActionRequest → ℕ) → JobRow → Tx ClaimedJob
  unfolding leased
  claim_row m lease_token worker_id lease_seconds lease_for row = do
    length ← lease_length lease_seconds lease_for row
    lift (require_transition row.state running)
    job ←
        change_and_read m row.id (leased m worker_id lease_token (m.now + seconds length))
          "job.running" (field "job_id" (text row.id) (field "worker_id" (text worker_id) end))
    pure (record { job = job; lease_token = lease_token })

  unfoldable pub claim_found :
      Moment
      → String
      → String
      → ℕ
      → Option (ActionRequest → ℕ)
      → Option JobRow
      → Tx (Option ClaimedJob)
  claim_found m lease_token worker_id lease_seconds lease_for none = pure none
  claim_found m lease_token worker_id lease_seconds lease_for (some row) = do
    claimed ← claim_row m lease_token worker_id lease_seconds lease_for row
    pure (some claimed)

  -- `lease_token` is the fresh token.
  unfoldable pub claim_next_job :
      Moment → String → String → ℕ → Option (ActionRequest → ℕ) → Tx (Option ClaimedJob)
  unfolding claim_found
  claim_next_job m lease_token worker_id lease_seconds lease_for = do
    row ← select (λ db. oldest (is_claimable m.now) db.jobs)
    claim_found m lease_token worker_id lease_seconds lease_for row

  unfoldable pub renew_lease : Moment → String → String → ℕ → Tx Bool
  unfolding holds_lease renewed
  renew_lease m job_id lease_token lease_seconds db = ok (
    length (keep (holds_lease job_id lease_token) db.jobs) == 1,
    record db { jobs = map (renew_row m job_id lease_token lease_seconds) db.jobs },
  )

  unfoldable pub transition_job :
      Moment
      → String
      → JobState
      → (result : Option Object) (error : Option JobError)
      → (fence : Option String) (expected_state : Option JobState) → Tx JobView
  unfolding fence_fits state_fits
  transition_job m job_id target result error fence expected_state = do
    found ← select (λ db. find_job job_id db.jobs)
    row ← or_raise found job_not_found
    require (fence_fits fence row) stale_lease
    require (state_fits expected_state row) stale_lease
    lift (require_transition row.state target)
    change_and_read m job_id
        (moved m target (Option.map x.dumps_result result) (Option.map x.dump_error error))
        (append "job." (value target)) (transition_payload job_id result error)
