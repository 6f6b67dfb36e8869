-- ===== src/Store/Advance/Calls.antt =====
-- Every job operation keeps the table well-formed and moves each job along the state machine.
use mathlib.Core.Option
use mathlib.Core.Path.{subst}
use deckhand.Base.{
  ℕ, ◌+◌, ◌-◌, length, String, ◌≡◌, ◌≢◌, refl, sym, ap, ◌∙◌, Bool, true, false, Option, none, some,
  List, [], ◌∷◌, arith, keep, if◌then◌else◌, leb,
}
use deckhand.Json.{Object}
use deckhand.Result.{ok}
use deckhand.Models.State.{JobState, running, unknown_outcome}
use deckhand.Models.Request.{ActionRequest, Subject, JobError, JobView}
use deckhand.StateMachine.Reach.{here}
use deckhand.Store.Rows.{JobRow, Db, oldest, update_job}
use deckhand.Store.Tx.{Tx, ◌>>=◌, pure, lift}
use deckhand.Store.Audit.{Store, Moment, append_audit}
use deckhand.Store.Ensures.{bind-ok}
use deckhand.Store.Views.{job_view}
use deckhand.Store.Table.{Becomes, Becomes-refl}
use deckhand.Store.Updates.{
  is_claimable, is_abandoned, is_stale, is_active, moved, leased, released, expire_released,
  renewed, holds_lease, for_each, collect, update, counted, lease_expired, seconds,
}
use deckhand.Store.Jobs.{new_row, create_job}
use deckhand.Store.Leases.{
  claim_next_job, claim_found, claim_row, renew_row, renew_lease, transition_job,
}
use deckhand.Store.Sweeps.{
  expire_row, expire_leases, expire_queued_row, expire_stale_queued, reconcile_row, attempt,
  audit_exhausted, claim_reconcile_candidates,
}
use deckhand.Store.Commits.{
  transition_job-commits, claim_row-commits, expire_row-commits, expire_queued_row-commits,
  renew_lease-db,
}
use deckhand.Store.Commits.Created.{replayed, inserted, Created, create_job-commits}
use deckhand.Store.Advance.{
  IsLeaseSound, IsWellFormed, Advances, Advances-refl, Advances-trans, Advances-update,
  Advances-append,
}
use deckhand.Store.Advance.Steps.{
  moved-IsStep, leased-IsStep, released-IsStep, expire_released-IsStep, counted-IsStep,
}
use deckhand.Store.Advance.Rows.{keep-IsCurrent, keep-IsKeyed, oldest-current}
use deckhand.Store.Advance.Loops.{Updates, for_each-Advances}
use deckhand.Store.Advance.Everywhere.{Advances-map, by_test, Advances-update_any}

abbrev pub Advanced : {A : Type 0} → Tx A → Type 0
Advanced {A} m = (db : Db) (a : A) (db' : Db) → m db ≡ ok (a, db') → Advances db.jobs db'.jobs

renew_row-Becomes :
    (m : Moment) (id token : String) (lease_seconds : ℕ) (r : JobRow)
    → Becomes r (renew_row m id token lease_seconds r)
unfolding renew_row renewed
renew_row-Becomes m id token lease_seconds r =
    by_test (Becomes r) (holds_lease id token r) r (renewed m lease_seconds r) (Becomes-refl r)
      (record {
        id = refl;
        idempotency_key = refl;
        request_json = refl;
        request_digest = refl;
        subject_json = refl;
        created_at = refl;
        path = here;
      })

-- Only a running or verifying job with a token is renewed, so the lease stays sound.
renew_row_sound :
    (m : Moment) (id token : String) (lease_seconds : ℕ) (r : JobRow)
    → IsLeaseSound r
    → IsLeaseSound (renew_row m id token lease_seconds r)
unfolding renew_row renewed holds_lease
renew_row_sound m id token lease_seconds r h = record {
  held = λ e. ground (arith, h.held);
  idle = λ e. ground (arith, h.idle);
  token = λ e. ground (arith, h.token);
  expiry = λ e. ground (arith, h.expiry);
}

pure_db : {A : Type 0} {a b : A} {db db' : Db} → pure a db ≡ ok (b, db') → db' ≡ db
pure_db h = cc

Advanced-if :
    {A : Type 0} (b : Bool) (m n : Tx A) → Advanced m → Advanced n → Advanced (if b then m else n)
Advanced-if true m n h k = h
Advanced-if false m n h k = k

-- A sweep: every row that a WHERE clause accepts is updated by a step of its own.
swept :
    (body : JobRow → Tx Unit) (f : JobRow → JobRow)
    → Updates body f
    → (p : JobRow → Bool) (n : ℕ) (db db' : Db)
    → (for_each body (keep p db.jobs) >>= λ _. pure (length (keep p db.jobs))) db ≡ ok (n, db')
    → Advances db.jobs db'.jobs
swept body f step p n db db' h =
    let rows = keep p db.jobs in
    let (u, last, ran, rest) = bind-ok (for_each body rows) _ db h in
    let advances : IsWellFormed db.jobs → Advances db.jobs db'.jobs = λ w.
      subst (λ (d : Db). Advances db.jobs d.jobs) (sym (pure_db rest))
        (for_each-Advances body f step rows db last (keep-IsKeyed p db.jobs w.keyed)
          (keep-IsCurrent p db.jobs w.keyed) ran) in
    record { well_formed = λ w. (advances w).well_formed w; moves = λ w. (advances w).moves w }

module _ (store : Store) where
  open store use {external as x}

  pub transition_job-Advances :
      (m : Moment) (job_id : String) (target : JobState) (result : Option Object)
      (error : Option JobError) (fence : Option String) (expected : Option JobState)
      → target ≢ running
      → Advanced (transition_job store m job_id target result error fence expected)
  transition_job-Advances m job_id target result error fence expected ne db view db' h =
      let c =
        transition_job-commits store m job_id target result error fence expected view db db' h in
      let result_json = Option.map x.dumps_result result in
      let error_json = Option.map x.dump_error error in
      subst (Advances db.jobs) (sym c.jobs) (
        Advances-update db.jobs job_id (moved m target result_json error_json) c.row (λ _. c.found)
          (moved-IsStep m target result_json error_json c.row ne c.allowed))

  pub claim_next_job-Advances :
      (m : Moment) (lease_token worker_id : String) (lease_seconds : ℕ)
      (lease_for : Option (ActionRequest → ℕ))
      → Advanced (claim_next_job store m lease_token worker_id lease_seconds lease_for)
  unfolding claim_next_job
  claim_next_job-Advances m lease_token worker_id lease_seconds lease_for db claimed db' h =
      by_row (oldest (is_claimable m.now) db.jobs) refl h
    where
      by_row :
          (row : Option JobRow)
          → oldest (is_claimable m.now) db.jobs ≡ row
          → claim_found store m lease_token worker_id lease_seconds lease_for row db
            ≡ ok (claimed, db')
          → Advances db.jobs db'.jobs
      by_row none e k =
          subst (λ (d : Db). Advances db.jobs d.jobs) (sym (pure_db (unfold claim_found in k)))
            (Advances-refl db.jobs)
      by_row (some row) e k =
          let (c, last, ran, rest) =
            bind-ok (claim_row store m lease_token worker_id lease_seconds lease_for row) _ db
              (unfold claim_found in k) in
          let claim =
            claim_row-commits store m lease_token worker_id lease_seconds lease_for row c db last
              ran in
          let f = leased m worker_id lease_token (m.now + seconds claim.length) in
          subst (λ (d : Db). Advances db.jobs d.jobs) (sym (pure_db rest))
            (subst (Advances db.jobs) (sym claim.jobs) (
              Advances-update db.jobs row.id f row
                (λ k. oldest-current (is_claimable m.now) db.jobs row k e)
                (leased-IsStep m worker_id lease_token _ row claim.allowed)))

  pub expire_row-Updates :
      (m : Moment)
      → Updates
          (expire_row store m)
          (released m unknown_outcome (some (x.dump_error lease_expired)))
  expire_row-Updates m row db db' h =
      let (allowed, jobs) = expire_row-commits store m row db db' h in
      (jobs, released-IsStep m unknown_outcome _ row (unfold is_active in refl) allowed)

  pub expire_leases-Advances : (m : Moment) → Advanced (expire_leases store m)
  unfolding expire_leases
  expire_leases-Advances m db n db' h =
      swept (expire_row store m) _ (expire_row-Updates m) (is_abandoned m.now) n db db' h

  pub expire_queued_row-Updates :
      (m : Moment) → Updates (expire_queued_row store m) (expire_released m)
  expire_queued_row-Updates m row db db' h =
      let (allowed, jobs) = expire_queued_row-commits store m row db db' h in
      (jobs, expire_released-IsStep m row allowed)

  pub expire_stale_queued-Advances :
      (m : Moment) (ttl_seconds : ℕ) → Advanced (expire_stale_queued store m ttl_seconds)
  unfolding expire_stale_queued
  expire_stale_queued-Advances m ttl_seconds db n db' h =
      swept (expire_queued_row store m) _ (expire_queued_row-Updates m)
        (is_stale (m.now - seconds ttl_seconds)) n db db' h

  new_row-IsLeaseSound :
      (m : Moment) (job_id : String) (request : ActionRequest) (subject : Subject)
      → IsLeaseSound (new_row store m job_id request subject)
  unfolding new_row
  new_row-IsLeaseSound m job_id request subject = record {
    held = λ e. cc;
    idle = λ _. (refl, refl, refl);
    token = λ _. refl;
    expiry = λ _. refl;
  }

  pub create_job-Advances :
      (m : Moment) (job_id : String) (request : ActionRequest) (subject : Subject)
      → Advanced (create_job store m job_id request subject)
  create_job-Advances m job_id request subject db view db' h =
      by_creation (create_job-commits store m job_id request subject view db db' h)
    where
      row : JobRow
      row = new_row store m job_id request subject

      by_creation : Created store row db db' → Advances db.jobs db'.jobs
      by_creation (replayed existing found digest unchanged) =
          subst (λ (d : Db). Advances db.jobs d.jobs) (sym unchanged) (Advances-refl db.jobs)
      by_creation (inserted new_key new_id jobs) = subst (Advances db.jobs) (sym jobs) (
          Advances-append db.jobs row new_id (unfold new_row in refl)
            (new_row-IsLeaseSound m job_id request subject))

  pub renew_lease-Advances :
      (m : Moment) (id token : String) (lease_seconds : ℕ)
      → Advanced (renew_lease store m id token lease_seconds)
  renew_lease-Advances m id token lease_seconds db renewed db' h =
      subst (λ (d : Db). Advances db.jobs d.jobs)
        (sym (renew_lease-db store m id token lease_seconds renewed db db' h))
        (Advances-map (renew_row m id token lease_seconds)
          (λ r. (renew_row-Becomes m id token lease_seconds r).id) db.jobs
          (renew_row-Becomes m id token lease_seconds) (renew_row_sound m id token lease_seconds))

  audit_exhausted-jobs :
      (m : Moment) (max_attempts : ℕ) (row : JobRow) (u : Unit {0}) (db db' : Db)
      → audit_exhausted store m max_attempts row db ≡ ok (u, db')
      → db'.jobs ≡ db.jobs
  unfolding audit_exhausted append_audit
  audit_exhausted-jobs m max_attempts row u db db' h = ground arith

  update_db :
      (id : String) (f : JobRow → JobRow) (u : Unit {0}) (db db' : Db)
      → update id f db ≡ ok (u, db')
      → db'.jobs ≡ update_job id f db.jobs
  unfolding update
  update_db id f u db db' h = ground arith

  view_db :
      (row : JobRow) (view : JobView) (db db' : Db)
      → lift (job_view x row) db ≡ ok (view, db')
      → db' ≡ db
  view_db row view db db' h = ground arith

  attempt-Advances :
      (m : Moment) (max_attempts : ℕ) (row : JobRow) → Advanced (attempt store m max_attempts row)
  unfolding attempt
  attempt-Advances m max_attempts row db view db' h =
      let f = counted (row.reconcile_attempts + 1) in
      let (u, db₁, ran₁, rest₁) = bind-ok (update row.id f) _ db h in
      let (v, db₂, ran₂, rest₂) = bind-ok (audit_exhausted store m max_attempts row) _ db₁ rest₁ in
      let (job, db₃, ran₃, rest₃) = bind-ok (lift (job_view x row)) _ db₂ rest₂ in
      let jobs : db'.jobs ≡ update_job row.id f db.jobs =
        ap (λ (d : Db). d.jobs) (pure_db rest₃ ∙ view_db row job db₂ db₃ ran₃)
        ∙ audit_exhausted-jobs m max_attempts row v db₁ db₂ ran₂
        ∙ update_db row.id f u db db₁ ran₁ in
      subst (Advances db.jobs) (sym jobs)
        (Advances-update_any db.jobs row.id f (counted-IsStep (row.reconcile_attempts + 1)))

  reconcile_row-Advances :
      (m : Moment) (max_attempts : ℕ) (row : JobRow)
      → Advanced (reconcile_row store m max_attempts row)
  unfolding reconcile_row
  reconcile_row-Advances m max_attempts row =
      Advanced-if (leb max_attempts row.reconcile_attempts) (pure none)
        (attempt store m max_attempts row)
        (λ db a db' h.
          subst (λ (d : Db). Advances db.jobs d.jobs) (sym (pure_db h)) (Advances-refl db.jobs))
        (attempt-Advances m max_attempts row)

  collect-Advances :
      (body : JobRow → Tx (Option JobView))
      → ((row : JobRow) → Advanced (body row))
      → (rows : List JobRow) → Advanced (collect body rows)
  unfolding collect
  collect-Advances body step [] db views db' h =
      subst (λ (d : Db). Advances db.jobs d.jobs) (sym (pure_db h)) (Advances-refl db.jobs)
  collect-Advances body step (row ∷ rows) db views db' h =
      let (c, mid, ran, rest) = bind-ok (body row) _ db h in
      let (cs, last, ran', rest') = bind-ok (collect body rows) _ mid rest in
      subst (λ (d : Db). Advances db.jobs d.jobs) (sym (pure_db rest'))
        (Advances-trans db.jobs mid.jobs last.jobs (step row db c mid ran)
          (collect-Advances body step rows mid cs last ran'))

  pub claim_reconcile_candidates-Advances :
      (m : Moment) (max_attempts limit : ℕ)
      → Advanced (claim_reconcile_candidates store m max_attempts limit)
  unfolding claim_reconcile_candidates
  claim_reconcile_candidates-Advances m max_attempts limit db views db' h =
      collect-Advances (reconcile_row store m max_attempts) (reconcile_row-Advances m max_attempts)
        _ db views db' h
