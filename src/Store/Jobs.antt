-- ===== src/Store/Jobs.antt =====
-- The job table's operations that are not about leases: `create_job`, `get_job`, `get_job_context`,
-- `list_jobs` and `record_policy_denial` of apps/broker/src/deckhand/store.py. Each is the body of one
-- transaction.
use deckhand.Base.{
  ℕ, String, not, Option, none, some, List, [], ◌∷◌, ◌++◌, same, take, min, keep, if◌then◌else◌,
}
use deckhand.Json.{Json, Object, end, field, text, number, object}
use deckhand.Result
use deckhand.Result.{Result, ok, err, key_reused, job_not_found, write_lost, constraint_failed}
use deckhand.Models.State.{JobState, queued, same_state}
use deckhand.Models.Request.{ActionRequest, Subject, JobView}
use deckhand.Digests.{request_digest, target_json}
use deckhand.Store.Rows.{JobRow, find_job, find_key, order_by_updated_at}
use deckhand.Store.Tx.{Tx, ◌>>=◌, ◌>>◌, pure, raise, lift, select, or_raise}
use deckhand.Store.Audit.{Store, Moment, append_audit}
use deckhand.Store.Views.{validated, job_view}

-- `subject.model_dump()`
unfoldable pub subject_json : Subject → Json
subject_json s = object (
    field "name" (text s.name)
      (field "device" (text s.device) (field "channel" (text s.channel) end)))

-- An `INSERT INTO jobs`: `id` is the primary key and `idempotency_key` is UNIQUE.
unfoldable pub insert_job : JobRow → Tx Unit
insert_job row db = elim (find_job row.id db.jobs) [
  | some _ ↦ err constraint_failed
  | none ↦ elim (find_key row.idempotency_key db.jobs) [
    | some _ ↦ err constraint_failed
    | none ↦ ok (tt, record db { jobs = db.jobs ++ row ∷ [] })
  ]
]

module _ (store : Store) where
  open store use {external as x}

  -- The columns of a new job; those that the INSERT does not name have their defaults.
  unfoldable pub new_row : Moment → String → ActionRequest → Subject → JobRow
  new_row m job_id request subject = record {
    id = job_id;
    idempotency_key = request.idempotency_key;
    request_json = x.dump_request request;
    request_digest = request_digest x request;
    subject_json = x.dump_subject subject;
    state = queued;
    lease_owner = none;
    lease_token = none;
    lease_expires_at = none;
    reconcile_attempts = 0;
    result_json = none;
    error = none;
    created_at = m.now;
    updated_at = m.now;
  }

  -- The payload of the audit event of a new job.
  unfoldable pub created_payload : String → ActionRequest → Subject → Object
  unfolding subject_json
  created_payload job_id request subject = field "job_id" (text job_id) (
      field "request_digest" (text (request_digest x request))
        (field "subject" (subject_json subject) end))

  -- `job_id` is the fresh `job_…` identifier.
  unfoldable pub create_new : Moment → String → ActionRequest → Subject → Tx JobView
  create_new m job_id request subject = do
    insert_job (new_row m job_id request subject)
    append_audit store m "job.queued" (created_payload job_id request subject)
    found ← select (λ db. find_job job_id db.jobs)
    row ← or_raise found write_lost
    lift (job_view x row)

  create_existing : ActionRequest → JobRow → Tx JobView
  create_existing request row =
      if not (same row.request_digest (request_digest x request))
      then raise key_reused
      else lift (job_view x row)

  unfoldable pub create : Moment → String → ActionRequest → Subject → Option JobRow → Tx JobView
  unfolding create_existing
  create m job_id request subject none = create_new m job_id request subject
  create m job_id request subject (some existing) = create_existing request existing

  unfoldable pub create_job : Moment → String → ActionRequest → Subject → Tx JobView
  unfolding create
  create_job m job_id request subject = do
    existing ← select (λ db. find_key request.idempotency_key db.jobs)
    create m job_id request subject existing

  unfoldable pub optional_view : Option JobRow → Tx (Option JobView)
  optional_view none = pure none
  optional_view (some row) = do view ← lift (job_view x row); pure (some view)

  unfoldable pub get_job : String → Tx (Option JobView)
  unfolding optional_view
  get_job job_id = do row ← select (λ db. find_job job_id db.jobs); optional_view row

  unfoldable pub get_job_context : String → Tx (ActionRequest × Subject)
  get_job_context job_id = do
    found ← select (λ db. find_job job_id db.jobs)
    row ← or_raise found job_not_found
    request ← lift (validated (x.validate_request row.request_json))
    subject ← lift (validated (x.validate_subject row.subject_json))
    pure (request, subject)

  unfoldable pub views : List JobRow → Result (List JobView)
  views [] = ok []
  views (row ∷ rows) =
      Result.◌>>=◌ (job_view x row) λ view. Result.◌>>=◌ (views rows) λ rest. ok (view ∷ rest)

  unfoldable pub list_jobs : JobState → ℕ → Tx (List JobView)
  list_jobs state limit = do
    rows ← select (λ db.
        take (min limit 1000)
          (order_by_updated_at (keep (λ row. same_state row.state state) db.jobs)))
    lift (views rows)

  unfoldable pub record_policy_denial : Moment → ActionRequest → Subject → String → String → Tx Unit
  unfolding subject_json
  record_policy_denial m request subject phase reason = append_audit store m "policy.denied" (
      field "phase" (text phase) (
        field "action_id" (text request.action_id) (
          field "action_version" (number (x.str_int request.action_version)) (
            field "target" (target_json request.target) (
              field "subject" (subject_json subject) (
                field "request_digest" (text (request_digest x request))
                  (field "reason" (text reason) end)))))))
