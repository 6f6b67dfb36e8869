-- ===== src/Store/Contracts/Transition.antt =====
-- `transition_job`: what it has checked, and the row that it leaves, column by column.
use mathlib.Core.Option
use deckhand.Base.{
  ℕ, String, ◌≡◌, ◌≢◌, refl, ap, ◌∙◌, true, Option, none, some, arith, same_iff, same_option_iff,
}
use deckhand.Json.{Object}
use deckhand.Result.{ok}
use deckhand.Models.State.{JobState, verifying, same_state_iff}
use deckhand.Models.Request.{JobError, JobView}
use deckhand.StateMachine.Reach.{◌⟶◌}
use deckhand.Store.Rows.{JobRow, Db, find_job}
use deckhand.Store.Audit.{Store, Moment}
use deckhand.Store.Updates.{fence_fits, state_fits, moved}
use deckhand.Store.Leases.{transition_job}
use deckhand.Store.Commits.{transition_job-commits}
use deckhand.Store.Table.{find_job-update_self, find_job-update_ne}

fence_fits-token :
    (o : Option String) (row : JobRow) (fence : String)
    → o ≡ some fence
    → fence_fits o row ≡ true
    → row.lease_token ≡ some fence
unfolding fence_fits
fence_fits-token none row fence e h = absurd (cc e)
fence_fits-token (some s) row fence e h = (same_option_iff row.lease_token (some s)).0 h ∙ e

state_fits-state :
    (o : Option JobState) (row : JobRow) (expected : JobState)
    → o ≡ some expected
    → state_fits o row ≡ true
    → row.state ≡ expected
unfolding state_fits
state_fits-state none row expected e h = absurd (cc e)
state_fits-state (some s) row expected e h = (same_state_iff row.state s).0 h ∙ cc e

-- The lease columns of a row.
pub record Lease : Type 0 where
  pub owner : Option String
  pub token : Option String
  pub expires_at : Option ℕ

abbrev pub lease_columns : JobRow → Lease
lease_columns r = record {
  owner = r.lease_owner;
  token = r.lease_token;
  expires_at = r.lease_expires_at;
}

abbrev pub no_lease : Lease
no_lease = record { owner = none; token = none; expires_at = none }

moved-verifying :
    (m : Moment) (target : JobState) (result error : Option String) (r : JobRow)
    → target ≡ verifying
    → lease_columns (moved m target result error r) ≡ lease_columns r
unfolding moved
moved-verifying m target result error r e = ground (arith, same_state_iff target verifying)

moved-other :
    (m : Moment) (target : JobState) (result error : Option String) (r : JobRow)
    → target ≢ verifying
    → lease_columns (moved m target result error r) ≡ no_lease
unfolding moved
moved-other m target result error r e = ground (arith, same_state_iff target verifying)

module _ (store : Store) where
  open store use {external as x}

  -- A transition that was made: `before` is the job's row, and `after` the one that it left.
  pub record IsTransitioned (m : Moment) (job_id : String) (target : JobState)
      (result : Option Object) (error : Option JobError) (fence : Option String)
      (expected : Option JobState) (db db' : Db) : Type 0 where
    pub before : JobRow
    pub found : find_job job_id db.jobs ≡ some before
    pub fenced : (token : String) → fence ≡ some token → before.lease_token ≡ some token
    pub expected_state : (state : JobState) → expected ≡ some state → before.state ≡ state
    pub allowed : before.state ⟶ target
    pub after : JobRow
    pub written : find_job job_id db'.jobs ≡ some after
    pub state : after.state ≡ target
    pub result_json : after.result_json ≡ Option.map x.dumps_result result
    pub error_json : after.error ≡ Option.map x.dump_error error
    pub updated_at : after.updated_at ≡ m.now
    pub keeps_lease : target ≡ verifying → lease_columns after ≡ lease_columns before
    pub drops_lease : target ≢ verifying → lease_columns after ≡ no_lease
    pub columns :
        record after {
          state = before.state;
          result_json = before.result_json;
          error = before.error;
          updated_at = before.updated_at;
          lease_owner = before.lease_owner;
          lease_token = before.lease_token;
          lease_expires_at = before.lease_expires_at;
        }
        ≡ before
    pub others : (id : String) → job_id ≢ id → find_job id db'.jobs ≡ find_job id db.jobs

  -- A `transition_job` that commits has found the job, holding the token of its fence if it was given one,
  -- and in the expected state if it was given one, in a state from which the target is accepted. The
  -- job's row then has the target, the given result and error, and the time of the transition; it has
  -- kept its lease if the target is `verifying`, and has none otherwise. Its other columns, and every other
  -- job's row, are as they were.
  pub transition_job-IsTransitioned :
      (m : Moment) (job_id : String) (target : JobState) (result : Option Object)
      (error : Option JobError) (fence : Option String) (expected : Option JobState)
      (view : JobView) (db db' : Db)
      → transition_job store m job_id target result error fence expected db ≡ ok (view, db')
      → IsTransitioned m job_id target result error fence expected db db'
  unfolding moved
  transition_job-IsTransitioned m job_id target result error fence expected view db db' h =
      let c =
        transition_job-commits store m job_id target result error fence expected view db db' h in
      let result_json = Option.map x.dumps_result result in
      let error_json = Option.map x.dump_error error in
      let f = moved m target result_json error_json in
      let same_id : (r : JobRow) → (f r).id ≡ r.id = λ r. refl in
      record {
        before = c.row;
        found = c.found;
        fenced = λ token e. fence_fits-token fence c.row token e c.fenced;
        expected_state = λ state e. state_fits-state expected c.row state e c.expected_state;
        allowed = c.allowed;
        after = f c.row;
        written =
            ap (find_job job_id) c.jobs
            ∙ find_job-update_self job_id f same_id db.jobs c.row c.found;
        state = refl;
        result_json = refl;
        error_json = refl;
        updated_at = refl;
        keeps_lease = moved-verifying m target result_json error_json c.row;
        drops_lease = moved-other m target result_json error_json c.row;
        columns = refl;
        others = λ id other.
            ap (find_job id) c.jobs
            ∙ find_job-update_ne job_id f same_id id db.jobs (ground (arith, same_iff job_id id));
      }
