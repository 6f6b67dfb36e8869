-- ===== src/Tests/Jobs.antt =====
-- The operations of the store on concrete databases.
use deckhand.Store.Jobs.{create_new, insert_job, new_row}
use deckhand.Store.Views.{job_error}
use deckhand.Store.Rows.{has_hash}
use deckhand.Digests.{request_payload}
use deckhand.Tests.Toy.{dumped}
use deckhand.Store.Leases.{change_and_read, claim_row, lease_length, read_back}
use deckhand.Store.Updates.{change, moved, update}
use deckhand.Store.Rows.{has_hash, update_job}
use deckhand.Store.Views.{job_error}
use deckhand.Digests.{confirmation_digest, confirmation_payload}
use deckhand.Tests.Toy.{dumped}
use deckhand.Base.{is_ascii}
use deckhand.Store.Confirmations.{conclude, use_up}
use deckhand.Base.{◌≡◌, ◌≢◌, refl, ap, ℕ, same, Option, true, none, some, List, [], ◌∷◌, All, keep}
use deckhand.Result.{ok, err, stale_lease, key_reused}
use deckhand.Models.State.{
  JobState, queued, running, verifying, unknown_outcome, succeeded, expired,
}
use deckhand.Models.Request.{JobView, JobError, confirm}
use deckhand.StateMachine.{require_transition}
use deckhand.Digests.{request_digest}
use deckhand.Store.Rows.{JobRow, Db, find_job, find_key, oldest, newest}
use deckhand.Store.Tx.{transact, lift}
use deckhand.Store.Audit.{append_audit, compare_digest}
use deckhand.Store.Views.{job_view}
use deckhand.Store.Jobs.{create_job}
use deckhand.Store.Updates.{ClaimedJob, is_claimable, is_abandoned, is_stale, lease_expired}
use deckhand.Store.Leases.{claim_next_job, transition_job}
use deckhand.Store.Sweeps.{expire_leases, expire_stale_queued}
use deckhand.Store.Confirmations.{consume_confirmation}
use deckhand.Store.Contracts.Transition.{IsTransitioned, transition_job-IsTransitioned}
use deckhand.Store.Advance.Expiry.Exactly.{
  Swept, HasLapsed, IsOverdue, taken_back, expire_leases-Swept, expire_stale_queued-Swept,
}
use deckhand.Store.Contracts.Fence.{expire_leases-fences}
use deckhand.Store.Contracts.Idempotency.{create_job-idempotent}
use deckhand.Store.Contracts.Claim.{HandsOut, claim_next_job-HandsOut}
use deckhand.Store.Contracts.Approval.{Consumed, consume_confirmation-Consumed}
use deckhand.Store.Contracts.Approval.Once.{consume_confirmation-once}
use deckhand.Store.Operation as Operations
use deckhand.Store.Operation.{Operation, create_confirmation, run}
use deckhand.Store.Audit.{Moment}
use deckhand.Tests.Toy.{
  plain, at, empty, job, with_job, with_confirmation, request, other_request, subject,
}

-- A job that a worker runs until 9.
abbrev held : JobRow
held = record (job running) {
  lease_owner = some "worker";
  lease_token = some "lease";
  lease_expires_at = some 9;
}

abbrev view : JobState → ℕ → Option JobError → JobView
view state now error = record {
  id = "job-1";
  state = state;
  action_id = "light.toggle";
  target = request.target;
  created_at = 1;
  updated_at = now;
  result = none;
  error = error;
}

abbrev queued_db : Db
queued_db = with_job (job queued)

abbrev claimed_db : Db
claimed_db = (transact (claim_next_job plain (at 5) "lease" "worker" 1 none) queued_db).1

abbrev claimed : ClaimedJob
claimed = record { job = view running 5 none; lease_token = "lease" }

claims :
    claim_next_job plain (at 5) "lease" "worker" 1 none queued_db ≡ ok (some claimed, claimed_db)
unfolding claim_next_job oldest is_claimable claim_row lease_length require_transition
    change_and_read change update append_audit has_hash read_back find_job update_job same job_view
    job_error transact
claims = refl

claim_next_job-HandsOut_example :
    HandsOut plain (at 5) "lease" "worker" 1 none claimed queued_db claimed_db
unfolding find_job
claim_next_job-HandsOut_example =
    claim_next_job-HandsOut plain (at 5) "lease" "worker" 1 none claimed queued_db claimed_db
      (refl, tt) claims

abbrev held_db : Db
held_db = with_job held

abbrev moved_db : Db
moved_db =
    (transact
      (transition_job plain (at 6) "job-1" verifying none none (some "lease") (some running))
      held_db).1

transitions :
    transition_job plain (at 6) "job-1" verifying none none (some "lease") (some running) held_db
    ≡ ok (view verifying 6 none, moved_db)
unfolding transition_job find_job same require_transition change_and_read change update append_audit
    has_hash read_back update_job moved job_view job_error transact
transitions = refl

transition_job-IsTransitioned_example :
    IsTransitioned plain
      (at 6)
      "job-1"
      verifying
      none
      none
      (some "lease")
      (some running)
      held_db
      moved_db
transition_job-IsTransitioned_example =
    transition_job-IsTransitioned plain (at 6) "job-1" verifying none none (some "lease")
      (some running) (view verifying 6 none) held_db moved_db transitions

finds_held : find_job "job-1" held_db.jobs ≡ some held
unfolding find_job same
finds_held = refl

abbrev lapsed_db : Db
lapsed_db = (transact (expire_leases plain (at 20)) held_db).1

lapses : expire_leases plain (at 20) held_db ≡ ok (1, lapsed_db)
unfolding expire_leases keep is_abandoned require_transition change update append_audit has_hash
    transact
lapses = refl

is_abandoned-held : is_abandoned 20 held ≡ true
unfolding is_abandoned
is_abandoned-held = refl

expire_leases-Swept_example :
    Swept
      (HasLapsed 20)
      (taken_back 20 unknown_outcome (some "lease_expired"))
      1
      held_db.jobs
      lapsed_db.jobs
    × All (λ r. ¬ HasLapsed 20 r) lapsed_db.jobs
unfolding lease_expired find_job
expire_leases-Swept_example =
    expire_leases-Swept plain (at 20) 1 held_db lapsed_db (refl, tt) lapses

expire_leases-fences_example :
    transact
      (transition_job plain (at 21) "job-1" succeeded none none (some "lease") none)
      lapsed_db
    ≡ (err stale_lease, lapsed_db)
unfolding find_job
expire_leases-fences_example =
    expire_leases-fences plain (at 20) (at 21) "job-1" succeeded none none "lease" none held 1
      held_db lapsed_db (refl, tt) finds_held is_abandoned-held lapses

abbrev stale_db : Db
stale_db = (transact (expire_stale_queued plain (at 5000000) 1) queued_db).1

stale : expire_stale_queued plain (at 5000000) 1 queued_db ≡ ok (1, stale_db)
unfolding expire_stale_queued keep is_stale require_transition change update append_audit has_hash
    transact
stale = refl

expire_stale_queued-Swept_example :
    Swept
      (IsOverdue 5000000 1)
      (λ r. taken_back 5000000 expired r.error r)
      1
      queued_db.jobs
      stale_db.jobs
    × All (λ r. ¬ IsOverdue 5000000 1 r) stale_db.jobs
unfolding find_job
expire_stale_queued-Swept_example =
    expire_stale_queued-Swept plain (at 5000000) 1 1 queued_db stale_db (refl, tt) stale

abbrev created_db : Db
created_db = (transact (create_job plain (at 1) "job-1" request subject) empty).1

creates :
    create_job plain (at 1) "job-1" request subject empty ≡ ok (view queued 1 none, created_db)
unfolding create_job find_key create_new insert_job find_job append_audit has_hash same new_row
    job_view job_error transact
creates = refl

digests_differ : request_digest plain.external other_request ≢ request_digest plain.external request
unfolding request_digest request_payload dumped same
digests_differ = λ e. cc (ap (λ s. same s "light.dim") e)

create_job-idempotent_example :
    (row : JobRow) × (find_key "key-1" created_db.jobs ≡ some row)
    × (create_job plain (at 6) "job-2" request subject created_db
        ≡ lift (job_view plain.external row) created_db)
    × (transact (create_job plain (at 6) "job-2" other_request subject) created_db
        ≡ (err key_reused, created_db))
create_job-idempotent_example =
    create_job-idempotent plain (at 1) (at 6) "job-1" "job-2" request other_request subject subject
      (view queued 1 none) empty created_db creates refl digests_differ

abbrev consumed_db : Db
consumed_db =
    (transact (consume_confirmation plain (at 5) request subject "secret" none) with_confirmation).1

consumes :
    consume_confirmation plain (at 5) request subject "secret" none with_confirmation
    ≡ ok (true, consumed_db)
unfolding consume_confirmation newest same confirmation_digest dumped confirmation_payload
    compare_digest is_ascii conclude use_up append_audit has_hash transact
consumes = refl

consume_confirmation-Consumed_example :
    Consumed plain (at 5) request subject "secret" none with_confirmation consumed_db
consume_confirmation-Consumed_example =
    consume_confirmation-Consumed plain (at 5) request subject "secret" none with_confirmation
      consumed_db consumes

another-secret : plain.external.sha256 "another" ≢ plain.external.sha256 "secret"
unfolding same
another-secret = λ e. cc (ap (λ s. same s "secret") e)

-- In between no lease has lapsed, and another confirmation is made.
abbrev between : List (Moment × Operation)
between =
    (at 6, Operations.expire_leases)
    ∷ (at 7, create_confirmation "conf-2" "another" request subject confirm "?" 60)
    ∷ []

consume_confirmation-once_example :
    consume_confirmation plain (at 8) request subject "secret" none (run plain between consumed_db)
    ≢ ok (true, consumed_db)
consume_confirmation-once_example =
    consume_confirmation-once plain (at 5) (at 8) request request subject subject "secret" "conf-1"
      none none between with_confirmation consumed_db consumed_db (λ e. refl, tt) consumes
      (tt, (another-secret, tt))
