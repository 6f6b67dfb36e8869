-- ===== src/Store/Growth/Calls.antt =====
-- Every operation of the store keeps a relation that its writes keep.
use deckhand.Base.{ℕ, String, Option, none, some, [], ◌∷◌, ◌++◌}
use deckhand.Json.{Object}
use deckhand.Models.State.{JobState}
use deckhand.Models.Request.{ActionRequest, Subject, JobError, ConfirmationMode}
use deckhand.Store.Rows.{Db, JobRow, ConfirmationRow}
use deckhand.Store.Audit.{Store, Moment}
use deckhand.Store.Jobs.{create, create_new, create_job, record_policy_denial}
use deckhand.Store.Leases.{
  change_and_read, read_back, claim_row, claim_found, claim_next_job, lease_length, transition_job,
}
use deckhand.Store.Sweeps.{
  expire_leases, expire_stale_queued, claim_reconcile_candidates, reconcile_row, attempt,
  audit_exhausted,
}
use deckhand.Store.Confirmations.{
  RejectReason, new_confirmation, insert_confirmation, create_confirmation, consume_confirmation,
  conclude, cancel_confirmation, cancel_found,
}
use deckhand.Store.Growth.Rules.{
  IsClosed, Grown, Grown-bind, Grown-audit, Grown-pure, Grown-insert_confirmation, grown_rules,
}

module _ (store : Store) {R : Db → Db → Type 0} (closed : IsClosed store R) where
  pub change_and_read-Grown :
      (m : Moment) (id : String) (f : JobRow → JobRow) (event_type : String) (payload : Object)
      → Grown store closed (change_and_read store m id f event_type payload)
  unfolding change_and_read read_back
  change_and_read-Grown m id f event_type payload = search grown_rules depth 8

  pub transition_job-Grown :
      (m : Moment) (job_id : String) (target : JobState) (result : Option Object)
      (error : Option JobError) (fence : Option String) (expected : Option JobState)
      → Grown store closed (transition_job store m job_id target result error fence expected)
  unfolding transition_job
  transition_job-Grown m job_id target result error fence expected =
      search (grown_rules, change_and_read-Grown) depth 12

  pub create-Grown :
      (m : Moment) (job_id : String) (request : ActionRequest) (subject : Subject)
      (existing : Option JobRow)
      → Grown store closed (create store m job_id request subject existing)
  unfolding create create_new
  create-Grown m job_id request subject none = search grown_rules depth 12
  create-Grown m job_id request subject (some row) = search grown_rules depth 12

  pub create_job-Grown :
      (m : Moment) (job_id : String) (request : ActionRequest) (subject : Subject)
      → Grown store closed (create_job store m job_id request subject)
  create_job-Grown m job_id request subject =
      unfold create_job in search (grown_rules, create-Grown) depth 12

  pub lease_length-Grown :
      (lease_seconds : ℕ) (lease_for : Option (ActionRequest → ℕ)) (row : JobRow)
      → Grown store closed (lease_length store lease_seconds lease_for row)
  unfolding lease_length
  lease_length-Grown lease_seconds none row = search grown_rules
  lease_length-Grown lease_seconds (some lease_for) row = search grown_rules

  pub claim_found-Grown :
      (m : Moment) (lease_token worker_id : String) (lease_seconds : ℕ)
      (lease_for : Option (ActionRequest → ℕ)) (row : Option JobRow)
      → Grown store closed (claim_found store m lease_token worker_id lease_seconds lease_for row)
  unfolding claim_found claim_row
  claim_found-Grown m lease_token worker_id lease_seconds lease_for none = search grown_rules
  claim_found-Grown m lease_token worker_id lease_seconds lease_for (some row) =
      search (grown_rules, lease_length-Grown, change_and_read-Grown) depth 14

  pub claim_next_job-Grown :
      (m : Moment) (lease_token worker_id : String) (lease_seconds : ℕ)
      (lease_for : Option (ActionRequest → ℕ))
      → Grown store closed (claim_next_job store m lease_token worker_id lease_seconds lease_for)
  claim_next_job-Grown m lease_token worker_id lease_seconds lease_for =
      unfold claim_next_job in search (grown_rules, claim_found-Grown)

  pub expire_leases-Grown : (m : Moment) → Grown store closed (expire_leases store m)
  unfolding expire_leases
  expire_leases-Grown m = search grown_rules depth 12

  pub expire_stale_queued-Grown :
      (m : Moment) (ttl_seconds : ℕ) → Grown store closed (expire_stale_queued store m ttl_seconds)
  unfolding expire_stale_queued
  expire_stale_queued-Grown m ttl_seconds = search grown_rules depth 12

  pub claim_reconcile_candidates-Grown :
      (m : Moment) (max_attempts limit : ℕ)
      → Grown store closed (claim_reconcile_candidates store m max_attempts limit)
  unfolding claim_reconcile_candidates reconcile_row attempt audit_exhausted
  claim_reconcile_candidates-Grown m max_attempts limit = search grown_rules depth 12

  pub create_confirmation-Grown :
      (m : Moment) (confirmation_id token : String) (request : ActionRequest) (subject : Subject)
      (mode : ConfirmationMode) (prompt : String) (ttl_seconds : ℕ)
      → ((db : Db)
          → R db (record db {
            confirmations =
                db.confirmations
                ++ new_confirmation store m confirmation_id token request subject mode ttl_seconds
                  ∷ [];
          }))
      → Grown store closed (
          create_confirmation store m confirmation_id token request subject mode prompt ttl_seconds)
  unfolding create_confirmation
  create_confirmation-Grown m confirmation_id token request subject mode prompt ttl_seconds
        inserted =
      let row = new_confirmation store m confirmation_id token request subject mode ttl_seconds in
      Grown-bind store closed (insert_confirmation row) _
        (Grown-insert_confirmation store closed row inserted)
        (λ _.
          Grown-bind store closed _ _ (Grown-audit store closed m "confirmation.created" _)
            (λ _. Grown-pure store closed _))

  pub conclude-Grown :
      (m : Moment) (request : ActionRequest) (subject : Subject) (row : Option ConfirmationRow)
      (reason : Option RejectReason)
      → Grown store closed (conclude store m request subject row reason)
  unfolding conclude
  conclude-Grown m request subject row (some reason) = search grown_rules
  conclude-Grown m request subject none none = search grown_rules
  conclude-Grown m request subject (some row) none = search grown_rules depth 8

  pub consume_confirmation-Grown :
      (m : Moment) (request : ActionRequest) (subject : Subject) (token : String)
      (response : Option String)
      → Grown store closed (consume_confirmation store m request subject token response)
  unfolding consume_confirmation
  consume_confirmation-Grown m request subject token response =
      search (grown_rules, conclude-Grown) depth 8

  pub cancel_found-Grown :
      (m : Moment) (confirmation_id : String) (subject : Subject) (row : Option ConfirmationRow)
      → Grown store closed (cancel_found store m confirmation_id subject row)
  unfolding cancel_found
  cancel_found-Grown m confirmation_id subject none = search grown_rules
  cancel_found-Grown m confirmation_id subject (some row) = search grown_rules depth 8

  pub cancel_confirmation-Grown :
      (m : Moment) (confirmation_id : String) (subject : Subject)
      → Grown store closed (cancel_confirmation store m confirmation_id subject)
  cancel_confirmation-Grown m confirmation_id subject =
      unfold cancel_confirmation in search (grown_rules, cancel_found-Grown)

  pub record_policy_denial-Grown :
      (m : Moment) (request : ActionRequest) (subject : Subject) (phase reason : String)
      → Grown store closed (record_policy_denial store m request subject phase reason)
  unfolding record_policy_denial
  record_policy_denial-Grown m request subject phase reason = search grown_rules
