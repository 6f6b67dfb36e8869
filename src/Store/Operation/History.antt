-- ===== src/Store/Operation/History.antt =====
-- What holds of the database after any operations, by any processes, in any order.
use mathlib.Core.Path.{subst}
use deckhand.Base.{String, ◌≡◌, ◌≢◌, refl, sym, true, some, List, [], ◌∷◌, ◌++◌, All}
use deckhand.Result.{Result, ok, err}
use deckhand.Models.State.{running, queued}
use deckhand.Store.Rows.{Db, JobRow, AuditRow, find_job}
use deckhand.Store.Tx.{Tx, transact, settle}
use deckhand.Store.Audit.{Store, Moment, verify_audit_chain}
use deckhand.Store.Audit.Chain.{IsHex}
use deckhand.Store.Ensures.{returned}
use deckhand.Store.Frame.{
  Framed, create_confirmation-Framed, consume_confirmation-Framed, cancel_confirmation-Framed,
  record_policy_denial-Framed,
}
use deckhand.Store.Advance.{IsWellFormed, Advances, Advances-refl, Advances-trans}
use deckhand.Store.Advance.Calls as Advance
use deckhand.Store.Advance.Calls.{Advanced}
use deckhand.Store.Table.{Moves, Moves-find}
use deckhand.StateMachine.Reach.{◌⟶◌, running_never_replayed}
use deckhand.Store.Growth.{
  Keeps, Grows, Grows-order, Grows-jobs, Grows-confirmations, Keeps-set_used, Keeps-append,
  Ensures-append_audit,
}
use deckhand.Store.Growth.Rules.{IsClosed}
use deckhand.Store.Operation.Kept.{Inserts, run-R}
use deckhand.Store.Operation.{
  Operation, create_job, claim_next_job, renew_lease, transition_job, expire_leases,
  expire_stale_queued, claim_reconcile_candidates, create_confirmation, consume_confirmation,
  cancel_confirmation, record_policy_denial, apply, run,
}

module _ (store : Store) (hex : IsHex store) where
  Grows-closed : IsClosed store (Grows store)
  Grows-closed = record {
    order = Grows-order store;
    audit = Ensures-append_audit store hex;
    jobs = Grows-jobs store;
    used = λ now id db. Grows-confirmations store db _ (Keeps-set_used now id db.confirmations);
  }

  Grows-Inserts : (m : Moment) (op : Operation) → Inserts store (Grows store) (m, op)
  Grows-Inserts m (create_confirmation id token request subject mode prompt ttl) =
      λ db. Grows-confirmations store db _ (Keeps-append db.confirmations _)
  Grows-Inserts m _ = tt

  all-Inserts : (ops : List (Moment × Operation)) → All (Inserts store (Grows store)) ops
  all-Inserts [] = tt
  all-Inserts ((m, op) ∷ rest) = (Grows-Inserts m op, all-Inserts rest)

  run-Grows : (ops : List (Moment × Operation)) (db : Db) → Grows store db (run store ops db)
  run-Grows ops db = run-R store Grows-closed ops db (all-Inserts ops)

-- No caller asks `transition_job` for `running`: a job begins to run by `claim_next_job`, which gives it
-- a lease.
abbrev pub IsCalled : Moment × Operation → Type 0
IsCalled (m, transition_job id target result error fence expected) = target ≢ running
IsCalled _ = Unit

settled :
    {A : Type 0} (db : Db) (r : Result (A × Db))
    → ((a : A) (db' : Db) → r ≡ returned a db' → Advances db.jobs db'.jobs)
    → Advances db.jobs (settle db r).1.jobs
settled db (ok (a, db')) k = k a db' refl
settled db (err e) k = Advances-refl db.jobs

settle-Advances :
    {A : Type 0} (m : Tx A) (db : Db) → Advanced m → Advances db.jobs (transact m db).1.jobs
unfolding transact
settle-Advances m db h = settled db (m db) (h db)

Framed-Advanced : {A : Type 0} (m : Tx A) → Framed m → Advanced m
Framed-Advanced m h db a db' e =
    subst (Advances db.jobs) (sym (h.at db a db' e)) (Advances-refl db.jobs)

module _ (store : Store) where
  apply-Advances :
      (m : Moment) (op : Operation) (db : Db)
      → IsCalled (m, op)
      → Advances db.jobs (apply store m op db).jobs
  unfolding apply
  apply-Advances m (create_job id request subject) db c =
      settle-Advances _ db (Advance.create_job-Advances store m id request subject)
  apply-Advances m (claim_next_job token worker seconds lease_for) db c =
      settle-Advances _ db (Advance.claim_next_job-Advances store m token worker seconds lease_for)
  apply-Advances m (renew_lease id token seconds) db c =
      settle-Advances _ db (Advance.renew_lease-Advances store m id token seconds)
  apply-Advances m (transition_job id target result error fence expected) db c =
      settle-Advances _ db
        (Advance.transition_job-Advances store m id target result error fence expected c)
  apply-Advances m expire_leases db c =
      settle-Advances _ db (Advance.expire_leases-Advances store m)
  apply-Advances m (expire_stale_queued ttl) db c =
      settle-Advances _ db (Advance.expire_stale_queued-Advances store m ttl)
  apply-Advances m (claim_reconcile_candidates max_attempts limit) db c =
      settle-Advances _ db (Advance.claim_reconcile_candidates-Advances store m max_attempts limit)
  apply-Advances m (create_confirmation id token request subject mode prompt ttl) db c =
      settle-Advances _ db (
        Framed-Advanced _
          (create_confirmation-Framed store m id token request subject mode prompt ttl))
  apply-Advances m (consume_confirmation request subject token response) db c =
      settle-Advances _ db
        (Framed-Advanced _ (consume_confirmation-Framed store m request subject token response))
  apply-Advances m (cancel_confirmation id subject) db c =
      settle-Advances _ db (Framed-Advanced _ (cancel_confirmation-Framed store m id subject))
  apply-Advances m (record_policy_denial request subject phase reason) db c =
      settle-Advances _ db
        (Framed-Advanced _ (record_policy_denial-Framed store m request subject phase reason))

  run-Advances :
      (ops : List (Moment × Operation)) (db : Db)
      → All IsCalled ops
      → Advances db.jobs (run store ops db).jobs
  unfolding run
  run-Advances [] db c = Advances-refl db.jobs
  run-Advances ((m, op) ∷ rest) db c =
      Advances-trans db.jobs (apply store m op db).jobs _ (apply-Advances m op db c.0)
        (run-Advances rest (apply store m op db) c.1)

  -- From a well-formed job table, whatever operations the processes run, in any order: the table is
  -- well-formed, that is, its identifiers are distinct and every lease is sound; and every job is still
  -- there, has kept its request, and has followed transitions that the state machine accepts, from
  -- `queued` if it is new. The calls are those of the program: none transitions a job to `running`.
  pub run-IsWellFormed :
      (ops : List (Moment × Operation)) (db : Db)
      → All IsCalled ops
      → IsWellFormed db.jobs
      → IsWellFormed (run store ops db).jobs × Moves db.jobs (run store ops db).jobs
  run-IsWellFormed ops db c w = let h = run-Advances ops db c in (h.well_formed w, h.moves w)

  -- A job that has been taken out of `running` is in no later state of the database `queued` or
  -- `running`: no operation replays it.
  pub run_never_replays :
      (ops : List (Moment × Operation)) (db : Db) (id : String) (r : JobRow)
      → All IsCalled ops
      → IsWellFormed db.jobs
      → find_job id db.jobs ≡ some r
      → running ⟶ r.state
      → (s : JobRow) × (find_job id (run store ops db).jobs ≡ some s)
        × (s.state ≢ queued)
        × (s.state ≢ running)
  run_never_replays ops db id r c w found left =
      let (s, e, b) =
        Moves-find id db.jobs (run store ops db).jobs r ((run-Advances ops db c).moves w) found in
      let (not_queued, not_running) = running_never_replayed left b.path in
      (s, e, not_queued, not_running)

module _ (store : Store) (hex : IsHex store) where
  -- Whatever operations the processes run, in any order, an audit log that verifies still verifies, the
  -- events that it held are its first, and every confirmation that was used is still there and used.
  pub run-verify_audit_chain :
      (ops : List (Moment × Operation)) (db : Db)
      → verify_audit_chain store db ≡ ok true
      → (verify_audit_chain store (run store ops db) ≡ ok true)
        × (∥ (
            (more : List AuditRow) × ((run store ops db).audit_events
              ≡ db.audit_events ++ more)) ∥₁)
        × Keeps db.confirmations (run store ops db).confirmations
  run-verify_audit_chain ops db v =
      let g = run-Grows store hex ops db in
      (g.verifies v, ∣ (g.appended, g.log) ∣₁, g.confirmations)
