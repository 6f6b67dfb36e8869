-- ===== src/Store/Commits/Created.antt =====
-- What a `create_job` that commits has found, and what it has written to the job table.
use deckhand.Store.Commits.{read_back-db}
use deckhand.Base.{
  String, ◌≡◌, ap, ◌∙◌, none, some, [], ◌∷◌, ◌++◌, inl, inr, same_iff, arith, Option-cases,
}
use deckhand.Json.{Object}
use deckhand.Result.{ok}
use deckhand.Models.Request.{ActionRequest, Subject, JobView}
use deckhand.Store.Rows.{Db, JobRow, find_job, find_key}
use deckhand.Store.Audit.{Store, Moment, append_audit}
use deckhand.Digests.{request_digest}
use deckhand.Store.Jobs.{new_row, created_payload, create_new, create_job, insert_job}
use deckhand.Store.Ensures.{bind-ok}
use deckhand.Store.Leases.{read_back}

module _ (store : Store) where
  open store use {external as x}

  -- A `create_job` that commits has found the key and written nothing, or inserted the new row.
  pub data Created (row : JobRow) (db db' : Db) : Type 0 where
    replayed :
        (existing : JobRow)
        → find_key row.idempotency_key db.jobs ≡ some existing
        → existing.request_digest ≡ row.request_digest
        → db' ≡ db
        → Created row db db'
    inserted :
        find_key row.idempotency_key db.jobs ≡ none
        → find_job row.id db.jobs ≡ none
        → db'.jobs ≡ db.jobs ++ row ∷ []
        → Created row db db'

  insert_job-inserts :
      (row : JobRow) (db db' : Db)
      → insert_job row db ≡ ok (tt, db')
      → (find_job row.id db.jobs ≡ none) × (db'.jobs ≡ db.jobs ++ row ∷ [])
  unfolding insert_job
  insert_job-inserts row db db' h = (ground arith, ground arith)

  audit-jobs :
      (m : Moment) (event_type : String) (payload : Object) (db db' : Db)
      → append_audit store m event_type payload db ≡ ok (tt, db')
      → db'.jobs ≡ db.jobs
  unfolding append_audit
  audit-jobs m event_type payload db db' h = ground arith

  create_new-inserts :
      (m : Moment) (job_id : String) (request : ActionRequest) (subject : Subject) (view : JobView)
      (db db' : Db)
      → create_new store m job_id request subject db ≡ ok (view, db')
      → (find_job job_id db.jobs ≡ none)
        × (db'.jobs ≡ db.jobs ++ new_row store m job_id request subject ∷ [])
  unfolding create_new
  create_new-inserts m job_id request subject view db db' h =
      let row = new_row store m job_id request subject in
      let (u, mid, e, k) = bind-ok (insert_job row) _ db h in
      let payload = created_payload store job_id request subject in
      let (u', last, e', k') = bind-ok (append_audit store m "job.queued" payload) _ mid k in
      let (new, jobs) = insert_job-inserts row db mid e in
      let same_last = read_back-db store job_id view last db' (unfold read_back in k') in
      (
        unfold new_row in new,
        ap (λ (d : Db). d.jobs) same_last ∙ audit-jobs m "job.queued" payload mid last e' ∙ jobs,
      )

  pub create_job-commits :
      (m : Moment) (job_id : String) (request : ActionRequest) (subject : Subject) (view : JobView)
      (db db' : Db)
      → create_job store m job_id request subject db ≡ ok (view, db')
      → Created (new_row store m job_id request subject) db db'
  unfolding create_job new_row
  create_job-commits m job_id request subject view db db' h =
      elim (Option-cases (find_key request.idempotency_key db.jobs)) [
        | inl new ↦
            let (unknown, jobs) =
              create_new-inserts m job_id request subject view db db' (ground arith) in
            inserted new unknown jobs
        | inr (existing, found) ↦
            replayed existing found
              (ground (arith, same_iff existing.request_digest (request_digest x request)))
              (ground arith)
      ]
