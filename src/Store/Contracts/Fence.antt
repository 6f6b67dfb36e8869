-- ===== src/Store/Contracts/Fence.antt =====
-- Fencing: a worker whose lease is gone cannot write.
use deckhand.Base.{
  ◌≡◌, ◌≢◌, ap, ◌∙◌, String, true, Option, some, List, [], ◌∷◌, map, same_option_iff, arith, ℕ,
}
use deckhand.Json.{Object}
use deckhand.Result.{ok, err, stale_lease}
use deckhand.Models.State.{JobState, unknown_outcome}
use deckhand.Models.Request.{JobError}
use deckhand.Store.Rows.{JobRow, Db, find_job}
use deckhand.Store.Tx.{transact}
use deckhand.Store.Audit.{Store, Moment}
use deckhand.Store.Updates.{is_abandoned, released, lease_expired}
use deckhand.Store.Leases.{transition_job}
use deckhand.Store.Sweeps.{expire_leases}
use deckhand.Store.Table.{IsKeyed}
use deckhand.Store.Advance.Sweep.{choose}
use deckhand.Store.Advance.Expiry.{expire_leases-reclaims}

find_job-map :
    (g : JobRow → JobRow) (id : String) (rs : List JobRow) (r : JobRow)
    → ((s : JobRow) → (g s).id ≡ s.id)
    → find_job id rs ≡ some r
    → find_job id (map g rs) ≡ some (g r)
unfolding find_job
find_job-map g id [] r same_id h = cc
find_job-map g id (s ∷ rs) r same_id h = ground (arith, same_id s, find_job-map g id rs r same_id)

module _ (store : Store) where
  open store use {external as x}

  -- Where the job's row does not carry the fencing token, a fenced transition raises `StaleLease` and
  -- the database stays as it was.
  pub transition_job-stale :
      (m : Moment) (job_id : String) (target : JobState) (result : Option Object)
      (error : Option JobError) (fence : String) (expected : Option JobState) (row : JobRow)
      (db : Db)
      → find_job job_id db.jobs ≡ some row
      → row.lease_token ≢ some fence
      → transact (transition_job store m job_id target result error (some fence) expected) db
        ≡ (err stale_lease, db)
  unfolding transact transition_job
  transition_job-stale m job_id target result error fence expected row db found gone =
      ground (arith, same_option_iff row.lease_token (some fence))

  -- A worker whose lease has lapsed and was reclaimed by `expire_leases` is shut out: on a table with
  -- distinct identifiers, each transition that it then asks for, under any token, raises `StaleLease` and
  -- changes nothing.
  pub expire_leases-fences :
      (m m' : Moment) (job_id : String) (target : JobState) (result : Option Object)
      (error : Option JobError) (fence : String) (expected : Option JobState) (row : JobRow) (n : ℕ)
      (db db' : Db)
      → IsKeyed db.jobs
      → find_job job_id db.jobs ≡ some row
      → is_abandoned m.now row ≡ true
      → expire_leases store m db ≡ ok (n, db')
      → transact (transition_job store m' job_id target result error (some fence) expected) db'
        ≡ (err stale_lease, db')
  expire_leases-fences m m' job_id target result error fence expected row n db db' k found lapsed
        h =
      let (jobs, _, _) = expire_leases-reclaims store m n db db' k h in
      let f = released m unknown_outcome (some (x.dump_error lease_expired)) in
      let found' =
        ap (find_job job_id) jobs
        ∙ find_job-map (choose (is_abandoned m.now) f) job_id db.jobs row
            (λ s. unfold released in ground arith) found in
      transition_job-stale m' job_id target result error fence expected _ db' found'
        (unfold released in ground arith)
