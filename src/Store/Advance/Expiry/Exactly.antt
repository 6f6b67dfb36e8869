-- ===== src/Store/Advance/Expiry/Exactly.antt =====
-- The sweeps of the scheduler, beside what the job table says: the state, the lease and the age of a row
-- in equations and orders, and the columns of the row that is written.
use deckhand.Base.{
  ℕ, suc, ◌+◌, ◌-◌, ◌<◌, ◌≡◌, sym, Bool, true, false, ◌⊎◌, inl, inr, Option, none, some, List, [],
  ◌∷◌, All, String, map, keep, length, arith, Bool-cases,
}
use mathlib.Core.Path.{subst}
use deckhand.Result.{ok}
use deckhand.Models.State.{
  JobState, queued, running, verifying, unknown_outcome, expired, same_state_iff,
}
use deckhand.Store.Rows.{JobRow, Db}
use deckhand.Store.Audit.{Store, Moment}
use deckhand.Store.Updates.{
  is_abandoned, is_stale, released, expire_released, lease_expired, seconds,
}
use deckhand.Store.Sweeps.{expire_leases, expire_stale_queued}
use deckhand.Store.Table.{IsKeyed}
use deckhand.Store.Advance.Sweep.{choose}
use deckhand.Store.Advance.Expiry.{expire_leases-reclaims, expire_stale_queued-expires}

-- A table before and after a sweep, row by row: `n` rows satisfy `P` and are written, the others do not
-- and stay.
pub data Swept (P : JobRow → Type 0) (f : JobRow → JobRow)
    : ℕ → List JobRow → List JobRow → Type 0 where
  done : Swept P f 0 [] []
  writes :
      {n : ℕ} {r : JobRow} {rs ss : List JobRow}
      → P r
      → Swept P f n rs ss
      → Swept P f (suc n) (r ∷ rs) (f r ∷ ss)
  stays :
      {n : ℕ} {r : JobRow} {rs ss : List JobRow}
      → ¬ P r
      → Swept P f n rs ss
      → Swept P f n (r ∷ rs) (r ∷ ss)

module _ (P : JobRow → Type 0) (f : JobRow → JobRow) (p : JobRow → Bool)
    (means : (r : JobRow) → p r ≡ true → P r) (fails : (r : JobRow) → p r ≡ false → ¬ P r) where
  choose-Swept : (rs : List JobRow) → Swept P f (length (keep p rs)) rs (map (choose p f) rs)
  unfolding keep
  choose-Swept [] = done
  choose-Swept (r ∷ rs) = elim (Bool-cases (p r)) [
    | inl e ↦ rw e (writes (means r e) (choose-Swept rs))
    | inr e ↦ rw e (stays (fails r e) (choose-Swept rs))
  ]

  none_left : (rs : List JobRow) → All (λ r. p r ≡ false) rs → All (λ r. ¬ P r) rs
  none_left [] h = tt
  none_left (r ∷ rs) h = (fails r h.0, none_left rs h.1)

-- A job that a worker runs or verifies, under a lease that ended before `now`.
abbrev pub HasLapsed : ℕ → JobRow → Type 0
HasLapsed now r =
    ((r.state ≡ running) ⊎ (r.state ≡ verifying))
    × ((t : ℕ) × (r.lease_expires_at ≡ some t) × (t < now))

-- A job that still waits, and was created more than `ttl_seconds` before `now`.
abbrev pub IsOverdue : ℕ → ℕ → JobRow → Type 0
IsOverdue now ttl_seconds r = (r.state ≡ queued) × (r.created_at + seconds ttl_seconds < now)

-- The row without its lease, in another state and with this error.
abbrev pub taken_back : ℕ → JobState → Option String → JobRow → JobRow
taken_back now state error r = record {
  id = r.id;
  idempotency_key = r.idempotency_key;
  request_json = r.request_json;
  request_digest = r.request_digest;
  subject_json = r.subject_json;
  state = state;
  lease_owner = none;
  lease_token = none;
  lease_expires_at = none;
  reconcile_attempts = r.reconcile_attempts;
  result_json = r.result_json;
  error = error;
  created_at = r.created_at;
  updated_at = now;
}

abandoned-HasLapsed : (now : ℕ) (r : JobRow) → is_abandoned now r ≡ true → HasLapsed now r
unfolding is_abandoned
abandoned-HasLapsed now r h =
    ground (arith, same_state_iff r.state running, same_state_iff r.state verifying)

active-keeps : (now : ℕ) (r : JobRow) → is_abandoned now r ≡ false → ¬ HasLapsed now r
unfolding is_abandoned
active-keeps now r h (active, (t, at, before)) =
    ground (arith, same_state_iff r.state running, same_state_iff r.state verifying)

stale-IsOverdue :
    (now ttl_seconds : ℕ) (r : JobRow)
    → is_stale (now - seconds ttl_seconds) r ≡ true
    → IsOverdue now ttl_seconds r
unfolding is_stale
stale-IsOverdue now ttl_seconds r h = ground (arith, same_state_iff r.state queued)

young-keeps :
    (now ttl_seconds : ℕ) (r : JobRow)
    → is_stale (now - seconds ttl_seconds) r ≡ false
    → ¬ IsOverdue now ttl_seconds r
unfolding is_stale
young-keeps now ttl_seconds r h (waits, old) = ground (arith, same_state_iff r.state queued)

module _ (store : Store) where
  open store use {external as x}

  -- An `expire_leases` that commits, on a table with distinct identifiers, takes back exactly the jobs
  -- that are running or verifying under a lease that ended before now: each is `unknown_outcome`, without
  -- a lease and with the error `lease_expired`, in its place and with its other columns. Every other row
  -- stays as it was, the answer is how many were taken back, and no such job is left.
  pub expire_leases-Swept :
      (m : Moment) (n : ℕ) (db db' : Db)
      → IsKeyed db.jobs
      → expire_leases store m db ≡ ok (n, db')
      → Swept
          (HasLapsed m.now)
          (taken_back m.now unknown_outcome (some (x.dump_error lease_expired)))
          n
          db.jobs
          db'.jobs
        × All (λ r. ¬ HasLapsed m.now r) db'.jobs
  unfolding released
  expire_leases-Swept m n db db' k h =
      let (jobs, count, left) = expire_leases-reclaims store m n db db' k h in
      let P = HasLapsed m.now in
      let p = is_abandoned m.now in
      let f = taken_back m.now unknown_outcome (some (x.dump_error lease_expired)) in
      let means = abandoned-HasLapsed m.now in
      let fails = active-keeps m.now in
      let swept = choose-Swept P f p means fails db.jobs in
      (
        subst (λ i. Swept P f i db.jobs db'.jobs) (sym count)
            (subst (Swept P f (length (keep p db.jobs)) db.jobs) (sym jobs) swept),
        none_left P f p means fails db'.jobs left,
      )

  -- An `expire_stale_queued` that commits, on a table with distinct identifiers, ends exactly the jobs
  -- that are queued and were created more than `ttl_seconds` before now: each is `expired`, in its place
  -- and with its other columns. Every other row stays as it was, the answer is how many were ended, and no
  -- such job is left.
  pub expire_stale_queued-Swept :
      (m : Moment) (ttl_seconds n : ℕ) (db db' : Db)
      → IsKeyed db.jobs
      → expire_stale_queued store m ttl_seconds db ≡ ok (n, db')
      → Swept
          (IsOverdue m.now ttl_seconds)
          (λ r. taken_back m.now expired r.error r)
          n
          db.jobs
          db'.jobs
        × All (λ r. ¬ IsOverdue m.now ttl_seconds r) db'.jobs
  unfolding expire_released
  expire_stale_queued-Swept m ttl_seconds n db db' k h =
      let (jobs, count, left) = expire_stale_queued-expires store m ttl_seconds n db db' k h in
      let P = IsOverdue m.now ttl_seconds in
      let p = is_stale (m.now - seconds ttl_seconds) in
      let f : JobRow → JobRow = λ r. taken_back m.now expired r.error r in
      let means = stale-IsOverdue m.now ttl_seconds in
      let fails = young-keeps m.now ttl_seconds in
      let swept = choose-Swept P f p means fails db.jobs in
      (
        subst (λ i. Swept P f i db.jobs db'.jobs) (sym count)
            (subst (Swept P f (length (keep p db.jobs)) db.jobs) (sym jobs) swept),
        none_left P f p means fails db'.jobs left,
      )
