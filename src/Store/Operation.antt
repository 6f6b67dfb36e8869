-- ===== src/Store/Operation.antt =====
-- The public operations of `class Store` in apps/broker/src/deckhand/store.py that open a write
-- transaction, each applied to the database. The worker, the scheduler and the broker are processes
-- that share one file; SQLite runs their `BEGIN IMMEDIATE` transactions one after another, so what they
-- do together is a list of operations.
pub mod Kept
pub mod History
use deckhand.Base.{ℕ, String, Option, List, [], ◌∷◌}
use deckhand.Json.{Object}
use deckhand.Models.State.{JobState}
use deckhand.Models.Request.{ActionRequest, Subject, JobError, ConfirmationMode}
use deckhand.Store.Rows.{Db}
use deckhand.Store.Tx.{transact}
use deckhand.Store.Audit.{Store, Moment}
use deckhand.Store.Jobs
use deckhand.Store.Leases
use deckhand.Store.Sweeps
use deckhand.Store.Confirmations

pub data Operation : Type 0 where
  create_job : (job_id : String) → ActionRequest → Subject → Operation
  claim_next_job :
      (lease_token worker_id : String)
      → (lease_seconds : ℕ) → Option (ActionRequest → ℕ)
      → Operation
  renew_lease : (job_id lease_token : String) → (lease_seconds : ℕ) → Operation
  transition_job :
      (job_id : String)
      → JobState
      → (result : Option Object) (error : Option JobError)
      → (fence : Option String) (expected_state : Option JobState) → Operation
  expire_leases : Operation
  expire_stale_queued : (ttl_seconds : ℕ) → Operation
  claim_reconcile_candidates : (max_attempts limit : ℕ) → Operation
  create_confirmation :
      (confirmation_id token : String)
      → ActionRequest
      → Subject
      → ConfirmationMode
      → (prompt : String) (ttl_seconds : ℕ) → Operation
  consume_confirmation :
      ActionRequest → Subject → (token : String) (response : Option String) → Operation
  cancel_confirmation : (confirmation_id : String) → Subject → Operation
  record_policy_denial : ActionRequest → Subject → (phase reason : String) → Operation

module _ (store : Store) where
  unfoldable pub apply : Moment → Operation → Db → Db
  apply m (create_job id request subject) db =
      (transact (Jobs.create_job store m id request subject) db).1
  apply m (claim_next_job token worker seconds lease_for) db =
      (transact (Leases.claim_next_job store m token worker seconds lease_for) db).1
  apply m (renew_lease id token seconds) db =
      (transact (Leases.renew_lease store m id token seconds) db).1
  apply m (transition_job id target result error fence expected) db =
      (transact (Leases.transition_job store m id target result error fence expected) db).1
  apply m expire_leases db = (transact (Sweeps.expire_leases store m) db).1
  apply m (expire_stale_queued ttl) db = (transact (Sweeps.expire_stale_queued store m ttl) db).1
  apply m (claim_reconcile_candidates max_attempts limit) db =
      (transact (Sweeps.claim_reconcile_candidates store m max_attempts limit) db).1
  apply m (create_confirmation id token request subject mode prompt ttl) db =
      (transact (Confirmations.create_confirmation store m id token request subject mode prompt ttl)
        db).1
  apply m (consume_confirmation request subject token response) db =
      (transact (Confirmations.consume_confirmation store m request subject token response) db).1
  apply m (cancel_confirmation id subject) db =
      (transact (Confirmations.cancel_confirmation store m id subject) db).1
  apply m (record_policy_denial request subject phase reason) db =
      (transact (Jobs.record_policy_denial store m request subject phase reason) db).1

  -- Operations one after another, each at its own moment.
  unfoldable pub run : List (Moment × Operation) → Db → Db
  run [] db = db
  run ((m, op) ∷ rest) db = run rest (apply m op db)
