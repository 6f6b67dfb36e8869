-- ===== src/Store/Operation/Kept.antt =====
-- A relation that every write keeps is kept by any operations.
use mathlib.Core.Path.{subst}
use deckhand.Base.{ℕ, String, sym, List, [], ◌∷◌, ◌++◌, All}
use deckhand.Store.Rows.{Db}
use deckhand.Store.Audit.{Store, Moment}
use deckhand.Store.Ensures.{Ensures, Ensures-transact}
use deckhand.Store.Growth.Rules.{IsClosed}
use deckhand.Store.Growth.Calls
use deckhand.Store.Confirmations.{new_confirmation}
use deckhand.Store.Leases
use deckhand.Store.Commits.{renew_lease-db}
use deckhand.Store.Operation.{
  Operation, create_job, claim_next_job, renew_lease, transition_job, expire_leases,
  expire_stale_queued, claim_reconcile_candidates, create_confirmation, consume_confirmation,
  cancel_confirmation, record_policy_denial, apply, run,
}

module _ (store : Store) (R : Db → Db → Type 0) where
  -- Where the operation creates a confirmation, its insertion keeps the relation.
  abbrev pub Inserts : Moment × Operation → Type 0
  Inserts (m, create_confirmation id token request subject mode prompt ttl) =
      (db : Db)
      → R db (record db {
        confirmations =
            db.confirmations ++ new_confirmation store m id token request subject mode ttl ∷ [];
      })
  Inserts _ = Unit

module _ (store : Store) {R : Db → Db → Type 0} (closed : IsClosed store R) where
  renew_lease-R :
      (m : Moment) (id token : String) (seconds : ℕ)
      → Ensures R (Leases.renew_lease store m id token seconds)
  renew_lease-R m id token seconds = record {
    at = λ db a db' e.
        subst (R db) (sym (renew_lease-db store m id token seconds a db db' e)) (closed.jobs db _);
  }

  apply-R :
      (m : Moment) (op : Operation) (db : Db) → Inserts store R (m, op) → R db (apply store m op db)
  unfolding apply
  apply-R m (create_job id request subject) db i =
      Ensures-transact closed.order _ db (Calls.create_job-Grown store closed m id request subject)
  apply-R m (claim_next_job token worker seconds lease_for) db i =
      Ensures-transact closed.order _ db
        (Calls.claim_next_job-Grown store closed m token worker seconds lease_for)
  apply-R m (renew_lease id token seconds) db i =
      Ensures-transact closed.order _ db (renew_lease-R m id token seconds)
  apply-R m (transition_job id target result error fence expected) db i =
      Ensures-transact closed.order _ db
        (Calls.transition_job-Grown store closed m id target result error fence expected)
  apply-R m expire_leases db i =
      Ensures-transact closed.order _ db (Calls.expire_leases-Grown store closed m)
  apply-R m (expire_stale_queued ttl) db i =
      Ensures-transact closed.order _ db (Calls.expire_stale_queued-Grown store closed m ttl)
  apply-R m (claim_reconcile_candidates max_attempts limit) db i =
      Ensures-transact closed.order _ db
        (Calls.claim_reconcile_candidates-Grown store closed m max_attempts limit)
  apply-R m (create_confirmation id token request subject mode prompt ttl) db i =
      Ensures-transact closed.order _ db
        (Calls.create_confirmation-Grown store closed m id token request subject mode prompt ttl i)
  apply-R m (consume_confirmation request subject token response) db i =
      Ensures-transact closed.order _ db
        (Calls.consume_confirmation-Grown store closed m request subject token response)
  apply-R m (cancel_confirmation id subject) db i =
      Ensures-transact closed.order _ db (Calls.cancel_confirmation-Grown store closed m id subject)
  apply-R m (record_policy_denial request subject phase reason) db i =
      Ensures-transact closed.order _ db
        (Calls.record_policy_denial-Grown store closed m request subject phase reason)

  pub run-R :
      (ops : List (Moment × Operation)) (db : Db)
      → All (Inserts store R) ops
      → R db (run store ops db)
  unfolding run
  run-R [] db i = closed.order.refl' db
  run-R ((m, op) ∷ rest) db i =
      closed.order.trans db (apply store m op db) _ (apply-R m op db i.0)
        (run-R rest (apply store m op db) i.1)
