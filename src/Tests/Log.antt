-- ===== src/Tests/Log.antt =====
-- The audit log, and histories of operations, on concrete databases.
use deckhand.Base.Separators.{separators}
use deckhand.Store.Audit.{sign}
use deckhand.Tests.Toy.{unary}
use deckhand.Store.Rows.{has_hash}
use deckhand.Base.{is_ascii, join, same}
use deckhand.Store.Audit.{material}
use deckhand.Tests.Toy.{unary}
use deckhand.Base.{◌≡◌, ◌≢◌, refl, true, none, some, List, [], ◌∷◌, ◌++◌}
use deckhand.Json.{end}
use deckhand.Result.{ok}
use deckhand.Models.State.{queued, running, unknown_outcome}
use deckhand.StateMachine.{require_transition}
use deckhand.Store.Rows.{AuditRow, JobRow, Db, find_job}
use deckhand.Store.Tx.{transact}
use deckhand.Store.Audit.{
  Moment, genesis, compare_digest, chain_hash, append_audit, verify_rows, verify_audit_chain,
}
use deckhand.Store.Audit.Chain.{append_audit-verifies}
use deckhand.Store.Audit.Tamper.{IsBinding, IsClean, verify_audit_chain-binds}
use deckhand.Store.Advance.{IsWellFormed}
use deckhand.Store.Table.{Moves}
use deckhand.Store.Growth.{Keeps}
use deckhand.Store.Operation.{Operation, create_job, claim_next_job, expire_leases, run}
use deckhand.Store.Operation.History.{run-IsWellFormed, run_never_replays, run-verify_audit_chain}
use deckhand.Tests.Toy.{
  plain, ascii, ascii-IsHex, at, empty, job, with_job, request, subject, unary-injective,
}

-- A job that is created, claimed and lost.
abbrev lost_job : List (Moment × Operation)
lost_job =
    (at 1, create_job "job-1" request subject)
    ∷ (at 2, claim_next_job "lease" "worker" 1 none)
    ∷ (at 9000000, expire_leases)
    ∷ []

empty-IsWellFormed : IsWellFormed empty.jobs
empty-IsWellFormed = record { keyed = tt; leases = tt }

run-IsWellFormed_example :
    IsWellFormed (run plain lost_job empty).jobs × Moves empty.jobs (run plain lost_job empty).jobs
run-IsWellFormed_example =
    run-IsWellFormed plain lost_job empty (tt, (tt, (tt, tt))) empty-IsWellFormed

abbrev lost_db : Db
lost_db = with_job (job unknown_outcome)

lost_db-IsWellFormed : IsWellFormed lost_db.jobs
unfolding find_job
lost_db-IsWellFormed = record {
  keyed = (refl, tt);
  leases = (
    record {
      held = λ e. cc e;
      idle = λ e. (refl, refl, refl);
      token = λ e. refl;
      expiry = λ e. refl;
    },
    tt,
  );
}

run_never_replays_example :
    (s : JobRow) × (find_job "job-1" (run plain lost_job lost_db).jobs ≡ some s)
    × (s.state ≢ queued)
    × (s.state ≢ running)
unfolding find_job require_transition same
run_never_replays_example =
    run_never_replays plain lost_job lost_db "job-1" (job unknown_outcome) (tt, (tt, (tt, tt)))
      lost_db-IsWellFormed refl refl

empty-verifies : verify_audit_chain ascii empty ≡ ok true
unfolding verify_audit_chain verify_rows
empty-verifies = refl

run-verify_audit_chain_example :
    (verify_audit_chain ascii (run ascii lost_job empty) ≡ ok true)
    × (∥ (
        (more : List AuditRow) × ((run ascii lost_job empty).audit_events
          ≡ empty.audit_events ++ more)) ∥₁)
    × Keeps empty.confirmations (run ascii lost_job empty).confirmations
run-verify_audit_chain_example =
    run-verify_audit_chain ascii ascii-IsHex lost_job empty empty-verifies

abbrev logged : Db
logged = (transact (append_audit ascii (at 3) "job.queued" end) empty).1

logs : append_audit ascii (at 3) "job.queued" end empty ≡ ok (tt, logged)
unfolding append_audit has_hash transact
logs = refl

append_audit-verifies_example : verify_audit_chain ascii logged ≡ ok true
append_audit-verifies_example =
    append_audit-verifies ascii ascii-IsHex (at 3) "job.queued" end empty logged empty-verifies logs

abbrev event : AuditRow
event = record {
  sequence = 1;
  occurred_at = "now";
  event_type = "job.queued";
  payload_json = "{}";
  previous_hash = genesis;
  event_hash = chain_hash plain 1 genesis "now" "job.queued" "{}";
}

abbrev one_event : Db
one_event = record empty { audit_events = event ∷ [] }

one_event-verifies : verify_audit_chain plain one_event ≡ ok true
unfolding verify_audit_chain verify_rows same compare_digest is_ascii chain_hash material join unary
one_event-verifies = refl

plain-IsBinding : IsBinding plain
unfolding sign
plain-IsBinding = record { digest = λ a b e. e; ints = unary-injective }

event-IsClean : IsClean plain event
unfolding separators unary
event-IsClean = record {
  sequence = refl;
  previous_hash = refl;
  occurred_at = refl;
  event_type = refl;
  payload_json = refl;
}

verify_audit_chain-binds_example : one_event.audit_events ≡ one_event.audit_events
verify_audit_chain-binds_example =
    verify_audit_chain-binds plain plain-IsBinding one_event one_event (event-IsClean, tt)
      one_event-verifies one_event-verifies refl refl
