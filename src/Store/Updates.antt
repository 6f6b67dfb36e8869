-- ===== src/Store/Updates.antt =====
-- The WHERE clauses, the assignments and the loops that the job operations of
-- apps/broker/src/deckhand/store.py share.
use deckhand.Base.{
  ℕ, ◌+◌, ◌*◌, String, Bool, true, false, ◌&&◌, ◌||◌, Option, none, some, List, [], ◌∷◌, same,
  same_option, ltb, if◌then◌else◌,
}
use deckhand.Json.{Json, Object, end, null, object}
use deckhand.Models.State.{JobState, queued, running, verifying, expired, same_state}
use deckhand.Models.Request.{JobError, JobView, reconcile_first}
use deckhand.Store.Rows.{JobRow, update_job}
use deckhand.Store.Tx.{Tx, ◌>>=◌, ◌>>◌, pure, write}
use deckhand.Store.Audit.{Store, Moment, append_audit}

-- `timedelta(seconds=…)`, in microseconds
abbrev pub seconds : ℕ → ℕ
seconds n = n * 1000000

-- `ClaimedJob`
pub record ClaimedJob : Type 0 where
  pub job : JobView
  pub lease_token : String

-- A comparison with NULL is not true.
abbrev pub lapsed : Option ℕ → ℕ → Bool
lapsed none now = false
lapsed (some t) now = ltb t now

abbrev pub is_null {ℓ} : {A : Type ℓ} → Option A → Bool
is_null none = true
is_null (some _) = false

unfoldable pub is_claimable : ℕ → JobRow → Bool
is_claimable now r =
    same_state r.state queued && (is_null r.lease_expires_at || lapsed r.lease_expires_at now)

unfoldable pub is_active : JobState → Bool
is_active s = same_state s running || same_state s verifying

unfoldable pub is_abandoned : ℕ → JobRow → Bool
unfolding is_active
is_abandoned now r = is_active r.state && lapsed r.lease_expires_at now

-- The assignments of the UPDATE statements.
unfoldable pub leased : Moment → String → String → ℕ → JobRow → JobRow
leased m worker_id lease_token expiry r = record r {
  state = running;
  lease_owner = some worker_id;
  lease_token = some lease_token;
  lease_expires_at = some expiry;
  updated_at = m.now;
}

unfoldable pub moved : Moment → JobState → Option String → Option String → JobRow → JobRow
moved m target result error r =
    let keep_lease = same_state target verifying in
    record r {
      state = target;
      result_json = result;
      error = error;
      lease_owner = if keep_lease then r.lease_owner else none;
      lease_token = if keep_lease then r.lease_token else none;
      lease_expires_at = if keep_lease then r.lease_expires_at else none;
      updated_at = m.now;
    }

unfoldable pub released : Moment → JobState → Option String → JobRow → JobRow
released m target error r = record r {
  state = target;
  lease_owner = none;
  lease_token = none;
  lease_expires_at = none;
  error = error;
  updated_at = m.now;
}

unfoldable pub update : String → (JobRow → JobRow) → Tx Unit
update id f = write (λ db. record db { jobs = update_job id f db.jobs })

-- The row that the UPDATE of `renew_lease` finds.
unfoldable pub holds_lease : String → String → JobRow → Bool
unfolding is_active
holds_lease job_id lease_token r =
    same r.id job_id && same_option r.lease_token (some lease_token) && is_active r.state

unfoldable pub renewed : Moment → ℕ → JobRow → JobRow
renewed m lease_seconds r = record r {
  lease_expires_at = some (m.now + seconds lease_seconds);
  updated_at = m.now;
}

-- `fence is not None and row["lease_token"] != fence`
unfoldable pub fence_fits : Option String → JobRow → Bool
fence_fits none row = true
fence_fits (some fence) row = same_option row.lease_token (some fence)

-- `expected_state is not None and JobState(row["state"]) != expected_state`
unfoldable pub state_fits : Option JobState → JobRow → Bool
state_fits none row = true
state_fits (some expected) row = same_state row.state expected

unfoldable pub optional_object : Option Object → Json
optional_object none = null
optional_object (some o) = object o

-- The error that `expire_leases` writes.
unfoldable pub lease_expired : JobError
lease_expired = record {
  code = "lease_expired";
  message = "worker lease expired; reconciliation required";
  retry = reconcile_first;
  reconciliation_required = true;
  details = end;
}

-- `created_at < cutoff`; before the epoch a time stops at 0, and no job is older than that.
unfoldable pub is_stale : ℕ → JobRow → Bool
is_stale cutoff r = same_state r.state queued && ltb r.created_at cutoff

-- The assignments of `expire_stale_queued`, which leave `error` as it is.
unfoldable pub expire_released : Moment → JobRow → JobRow
unfolding released
expire_released m r = released m expired r.error r

unfoldable pub counted : ℕ → JobRow → JobRow
counted attempts r = record r { reconcile_attempts = attempts }

abbrev pub cons_if {ℓ} : {A : Type ℓ} → Option A → List A → List A
cons_if none xs = xs
cons_if (some a) xs = a ∷ xs

-- A `for` loop over selected rows.
unfoldable pub for_each : (JobRow → Tx Unit) → List JobRow → Tx Unit
for_each body [] = pure tt
for_each body (row ∷ rows) = body row >> for_each body rows

unfoldable pub collect : (JobRow → Tx (Option JobView)) → List JobRow → Tx (List JobView)
collect body [] = pure []
collect body (row ∷ rows) = do
  candidate ← body row
  candidates ← collect body rows
  pure (cons_if candidate candidates)

-- An `UPDATE jobs … WHERE id = ?` and the audit event that goes with it.
unfoldable pub change : Store → Moment → String → (JobRow → JobRow) → String → Object → Tx Unit
change store m id f event_type payload = do update id f; append_audit store m event_type payload
