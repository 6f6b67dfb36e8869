-- ===== src/Store/Commits.antt =====
-- What a job operation that commits has found, and what it has written to the job table.
pub mod Created
use mathlib.Core.Option
use deckhand.Base.{
  ℕ, ◌+◌, String, ◌≡◌, ap, ◌∙◌, Bool, true, Option, none, some, [], ◌∷◌, ◌++◌, map, inl, inr,
  same_iff, arith, Option-cases,
}
use deckhand.Base.Append.{append}
use deckhand.Json.{Object, field, text, end}
use deckhand.Result.{ok}
use deckhand.Models.State.{JobState, running, unknown_outcome, expired, value}
use deckhand.Models.Request.{ActionRequest, Subject, JobError, JobView}
use deckhand.StateMachine.{require_transition}
use deckhand.StateMachine.Reach.{◌⟶◌}
use deckhand.Store.Rows.{Db, JobRow, find_job, find_key, update_job}
use deckhand.Store.Tx.{lift, pure}
use deckhand.Store.Audit.{Store, Moment, append_audit}
use deckhand.Store.Updates.{
  fence_fits, state_fits, moved, leased, released, expire_released, ClaimedJob, lease_expired,
  seconds, change, update,
}
use deckhand.Digests.{request_digest}
use deckhand.Store.Jobs.{new_row, created_payload, create_new, create_job, insert_job}
use deckhand.Store.Ensures.{bind-ok}
use deckhand.Store.Leases.{
  renew_lease, renew_row, change_and_read, read_back, transition_payload, transition_job, claim_row,
  lease_length,
}
use deckhand.Store.Sweeps.{expire_row, expire_queued_row}

abbrev reason_payload : String → String → Object
reason_payload id reason = field "job_id" (text id) (field "reason" (text reason) end)

module _ (store : Store) where
  open store use {external as x}

  pub record Transitioned (m : Moment) (job_id : String) (target : JobState)
      (result : Option Object) (error : Option JobError) (fence : Option String)
      (expected : Option JobState) (view : JobView) (db db' : Db) : Type 0 where
    pub row : JobRow
    pub found : find_job job_id db.jobs ≡ some row
    pub fenced : fence_fits fence row ≡ true
    pub expected_state : state_fits expected row ≡ true
    pub allowed : row.state ⟶ target
    pub jobs :
        db'.jobs
        ≡ update_job job_id
            (moved m target (Option.map x.dumps_result result) (Option.map x.dump_error error))
            db.jobs

  change-jobs :
      (m : Moment) (id : String) (f : JobRow → JobRow) (event_type : String) (payload : Object)
      (db db' : Db)
      → change store m id f event_type payload db ≡ ok (tt, db')
      → db'.jobs ≡ update_job id f db.jobs
  unfolding change update append_audit
  change-jobs m id f event_type payload db db' h = ground arith

  pub read_back-db :
      (id : String) (view : JobView) (db db' : Db)
      → read_back store id db ≡ ok (view, db')
      → db' ≡ db
  unfolding read_back
  read_back-db id view db db' h = ground arith

  change_and_read-jobs :
      (m : Moment) (id : String) (f : JobRow → JobRow) (event_type : String) (payload : Object)
      (view : JobView) (db db' : Db)
      → change_and_read store m id f event_type payload db ≡ ok (view, db')
      → db'.jobs ≡ update_job id f db.jobs
  unfolding change_and_read
  change_and_read-jobs m id f event_type payload view db db' h =
      let (u, mid, e, k) =
        bind-ok (change store m id f event_type payload) (λ _. read_back store id) db h in
      ap (λ (d : Db). d.jobs) (read_back-db id view mid db' k)
      ∙ change-jobs m id f event_type payload db mid e

  -- A transition that commits has found its job, under its fence and in the expected state, in a state
  -- from which the target is allowed; it has written that job's row and no other.
  pub transition_job-commits :
      (m : Moment) (job_id : String) (target : JobState) (result : Option Object)
      (error : Option JobError) (fence : Option String) (expected : Option JobState)
      (view : JobView) (db db' : Db)
      → transition_job store m job_id target result error fence expected db ≡ ok (view, db')
      → Transitioned m job_id target result error fence expected view db db'
  transition_job-commits m job_id target result error fence expected view db db' h =
      elim (Option-cases (find_job job_id db.jobs)) [
        | inl missing ↦ absurd (unfold transition_job in ground arith)
        | inr (row, found) ↦ record {
          row = row;
          found = found;
          fenced = unfold transition_job in ground arith;
          expected_state = unfold transition_job in ground arith;
          allowed = unfold transition_job in ground arith;
          jobs =
              change_and_read-jobs m job_id
                (moved m target (Option.map x.dumps_result result) (Option.map x.dump_error error))
                (append "job." (value target)) (transition_payload job_id result error) view db db'
                (unfold transition_job in ground arith);
        }
      ]

  pure-db : {A : Type 0} {a b : A} {db db' : Db} → pure a db ≡ ok (b, db') → db' ≡ db
  pure-db h = cc

  -- How long a lease is: as the caller says, or as it computes from the job's request.
  abbrev pub LeaseLength : ℕ → Option (ActionRequest → ℕ) → JobRow → ℕ → Type 0
  LeaseLength lease_seconds none row n = n ≡ lease_seconds
  LeaseLength lease_seconds (some lease_for) row n =
      (request : ActionRequest) × (x.validate_request row.request_json ≡ some request)
      × (n ≡ lease_for request)

  pub record Claimed (m : Moment) (lease_token worker_id : String) (lease_seconds : ℕ)
      (lease_for : Option (ActionRequest → ℕ)) (claimed : ClaimedJob) (row : JobRow) (db db' : Db)
      : Type 0 where
    pub allowed : row.state ⟶ running
    pub token : claimed.lease_token ≡ lease_token
    pub length : ℕ
    pub lasts : LeaseLength lease_seconds lease_for row length
    pub jobs :
        db'.jobs
        ≡ update_job row.id (leased m worker_id lease_token (m.now + seconds length)) db.jobs

  lease_length-db :
      (lease_seconds : ℕ) (lease_for : Option (ActionRequest → ℕ)) (row : JobRow) (n : ℕ)
      (db db' : Db)
      → lease_length store lease_seconds lease_for row db ≡ ok (n, db')
      → db' ≡ db
  unfolding lease_length
  lease_length-db lease_seconds none row n db db' h = ground arith
  lease_length-db lease_seconds (some lease_for) row n db db' h = ground arith

  lease_length-LeaseLength :
      (lease_seconds : ℕ) (lease_for : Option (ActionRequest → ℕ)) (row : JobRow) (n : ℕ)
      (db db' : Db)
      → lease_length store lease_seconds lease_for row db ≡ ok (n, db')
      → LeaseLength lease_seconds lease_for row n
  unfolding lease_length
  lease_length-LeaseLength lease_seconds none row n db db' h = ground arith
  lease_length-LeaseLength lease_seconds (some lease_for) row n db db' h =
      elim (Option-cases (x.validate_request row.request_json)) [
        | inl missing ↦ absurd (ground arith)
        | inr (request, e) ↦ (request, e, ground arith)
      ]

  abbrev running_payload : String → String → Object
  running_payload id worker_id = field "job_id" (text id) (field "worker_id" (text worker_id) end)

  lift_transition :
      (from to : JobState) (u : Unit {0}) (db db' : Db)
      → lift (require_transition from to) db ≡ ok (u, db')
      → (from ⟶ to) × (db' ≡ db)
  unfolding require_transition
  lift_transition from to u db db' h = (ground arith, ground arith)

  pub claim_row-commits :
      (m : Moment) (lease_token worker_id : String) (lease_seconds : ℕ)
      (lease_for : Option (ActionRequest → ℕ)) (row : JobRow) (claimed : ClaimedJob) (db db' : Db)
      → claim_row store m lease_token worker_id lease_seconds lease_for row db ≡ ok (claimed, db')
      → Claimed m lease_token worker_id lease_seconds lease_for claimed row db db'
  unfolding claim_row
  claim_row-commits m lease_token worker_id lease_seconds lease_for row claimed db db' h =
      let (n, mid, e, k) = bind-ok (lease_length store lease_seconds lease_for row) _ db h in
      let (u, mid', e', k') = bind-ok (lift (require_transition row.state running)) _ mid k in
      let f = leased m worker_id lease_token (m.now + seconds n) in
      let payload = running_payload row.id worker_id in
      let change = change_and_read store m row.id f "job.running" payload in
      let (view, last, e'', k'') = bind-ok change _ mid' k' in
      let (allowed, same_mid) = lift_transition row.state running u mid mid' e' in
      let start = same_mid ∙ lease_length-db lease_seconds lease_for row n db mid e in
      record {
        allowed = allowed;
        token = cc;
        length = n;
        lasts = lease_length-LeaseLength lease_seconds lease_for row n db mid e;
        jobs =
            ap (λ (d : Db). d.jobs) (pure-db k'')
            ∙ change_and_read-jobs m row.id f "job.running" payload view mid' last e''
            ∙ ap (λ (d : Db). update_job row.id f d.jobs) start;
      }

  -- One turn of the loop of `expire_leases`.
  pub expire_row-commits :
      (m : Moment) (row : JobRow) (db db' : Db)
      → expire_row store m row db ≡ ok (tt, db')
      → (row.state ⟶ unknown_outcome)
        × (db'.jobs
            ≡ update_job row.id
                (released m unknown_outcome (some (x.dump_error lease_expired)))
                db.jobs)
  unfolding expire_row
  expire_row-commits m row db db' h =
      let (u, mid, e, k) = bind-ok (lift (require_transition row.state unknown_outcome)) _ db h in
      let (allowed, same_mid) = lift_transition row.state unknown_outcome u db mid e in
      let f = released m unknown_outcome (some (x.dump_error lease_expired)) in
      (
        allowed,
        change-jobs m row.id f "job.unknown_outcome" (reason_payload row.id "lease_expired") mid db'
              k
            ∙ ap (λ (d : Db). update_job row.id f d.jobs) same_mid,
      )

  -- One turn of the loop of `expire_stale_queued`.
  pub expire_queued_row-commits :
      (m : Moment) (row : JobRow) (db db' : Db)
      → expire_queued_row store m row db ≡ ok (tt, db')
      → (row.state ⟶ expired) × (db'.jobs ≡ update_job row.id (expire_released m) db.jobs)
  unfolding expire_queued_row
  expire_queued_row-commits m row db db' h =
      let (u, mid, e, k) = bind-ok (lift (require_transition row.state expired)) _ db h in
      let (allowed, same_mid) = lift_transition row.state expired u db mid e in
      let f = expire_released m in
      (
        allowed,
        change-jobs m row.id f "job.expired" (reason_payload row.id "queue_ttl") mid db' k
            ∙ ap (λ (d : Db). update_job row.id f d.jobs) same_mid,
      )

  -- `renew_lease` writes no table but that of the jobs.
  pub renew_lease-db :
      (m : Moment) (id token : String) (lease_seconds : ℕ) (renewed : Bool) (db db' : Db)
      → renew_lease store m id token lease_seconds db ≡ ok (renewed, db')
      → db' ≡ record db { jobs = map (renew_row m id token lease_seconds) db.jobs }
  unfolding renew_lease
  renew_lease-db m id token lease_seconds renewed db db' h = ground arith
