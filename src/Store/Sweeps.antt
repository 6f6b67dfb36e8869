-- ===== src/Store/Sweeps.antt =====
-- The scheduler's sweeps over the job table: `expire_leases`, `expire_stale_queued` and
-- `claim_reconcile_candidates` of apps/broker/src/deckhand/store.py. Each is the body of one
-- transaction.
use deckhand.Base.{
  ℕ, ◌+◌, ◌-◌, Option, none, some, List, leb, ◌==◌, take, min, keep, length, if◌then◌else◌,
}
use deckhand.Json.{end, field, text, number}
use deckhand.Models.State.{unknown_outcome, expired, same_state}
use deckhand.Models.Request.{JobView}
use deckhand.StateMachine.{require_transition}
use deckhand.Store.Rows.{JobRow, order_by_updated_at}
use deckhand.Store.Tx.{Tx, ◌>>=◌, ◌>>◌, pure, lift, select}
use deckhand.Store.Audit.{Store, Moment, append_audit}
use deckhand.Store.Views.{job_view}
use deckhand.Store.Updates.{
  change, seconds, is_abandoned, released, update, lease_expired, is_stale, expire_released,
  counted, for_each, collect,
}

module _ (store : Store) where
  open store use {external as x}

  unfoldable pub expire_row : Moment → JobRow → Tx Unit
  unfolding released
  expire_row m row = do
    lift (require_transition row.state unknown_outcome)
    change store m row.id (released m unknown_outcome (some (x.dump_error lease_expired)))
        "job.unknown_outcome"
        (field "job_id" (text row.id) (field "reason" (text "lease_expired") end))

  unfoldable pub expire_leases : Moment → Tx ℕ
  unfolding expire_row for_each
  expire_leases m = do
    rows ← select (λ db. keep (is_abandoned m.now) db.jobs)
    for_each (expire_row m) rows
    pure (length rows)

  unfoldable pub expire_queued_row : Moment → JobRow → Tx Unit
  unfolding expire_released
  expire_queued_row m row = do
    lift (require_transition row.state expired)
    change store m row.id (expire_released m) "job.expired"
        (field "job_id" (text row.id) (field "reason" (text "queue_ttl") end))

  unfoldable pub expire_stale_queued : Moment → ℕ → Tx ℕ
  unfolding expire_queued_row for_each
  expire_stale_queued m ttl_seconds = do
    rows ← select (λ db. keep (is_stale (m.now - seconds ttl_seconds)) db.jobs)
    for_each (expire_queued_row m) rows
    pure (length rows)

  -- The attempt that reaches the budget is audited.
  unfoldable pub audit_exhausted : Moment → ℕ → JobRow → Tx Unit
  audit_exhausted m max_attempts row =
      let attempts = row.reconcile_attempts + 1 in
      if attempts == max_attempts
      then append_audit store m "job.reconcile_exhausted"
          (field "job_id" (text row.id) (field "attempts" (number (x.str_int attempts)) end))
      else pure tt

  -- One more attempt of a candidate, whose view is that of the row as it was selected.
  unfoldable pub attempt : Moment → ℕ → JobRow → Tx (Option JobView)
  attempt m max_attempts row = do
    update row.id (counted (row.reconcile_attempts + 1))
    audit_exhausted m max_attempts row
    job ← lift (job_view x row)
    pure (some job)

  unfoldable pub reconcile_row : Moment → ℕ → JobRow → Tx (Option JobView)
  reconcile_row m max_attempts row =
      if leb max_attempts row.reconcile_attempts then pure none else attempt m max_attempts row

  unfoldable pub claim_reconcile_candidates : Moment → ℕ → ℕ → Tx (List JobView)
  unfolding collect
  claim_reconcile_candidates m max_attempts limit = do
    rows ← select (λ db.
        take (min limit 1000)
          (order_by_updated_at (keep (λ r. same_state r.state unknown_outcome) db.jobs)))
    collect (reconcile_row m max_attempts) rows
