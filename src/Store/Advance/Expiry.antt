-- ===== src/Store/Advance/Expiry.antt =====
-- What the two sweeps of the scheduler do to the whole job table.
pub mod Exactly
use mathlib.Core.Path.{subst}
use deckhand.Base.{
  ℕ, ◌-◌, ◌≡◌, refl, sym, ap, ◌∙◌, String, false, Option, some, List, [], ◌∷◌, All, map, keep,
  arith, length,
}
use deckhand.Result.{ok}
use deckhand.Models.State.{unknown_outcome}
use deckhand.Store.Rows.{JobRow, Db}
use deckhand.Store.Audit.{Store, Moment}
use deckhand.Store.Ensures.{bind-ok}
use deckhand.Store.Updates.{
  is_abandoned, is_stale, released, expire_released, for_each, lease_expired, seconds,
}
use deckhand.Store.Sweeps.{expire_row, expire_leases, expire_queued_row, expire_stale_queued}
use deckhand.Store.Table.{IsKeyed}
use deckhand.Store.Advance.Calls.{expire_row-Updates, expire_queued_row-Updates}
use deckhand.Store.Advance.Sweep.{choose, sweep-jobs}

released-active :
    (m : Moment) (error : Option String) (r : JobRow)
    → is_abandoned m.now (choose (is_abandoned m.now) (released m unknown_outcome error) r) ≡ false
unfolding is_abandoned released
released-active m error r = ground arith

none_abandoned :
    (m : Moment) (error : Option String) (rs : List JobRow)
    → All
        (λ r. is_abandoned m.now r ≡ false)
        (map (choose (is_abandoned m.now) (released m unknown_outcome error)) rs)
none_abandoned m error [] = tt
none_abandoned m error (r ∷ rs) = (released-active m error r, none_abandoned m error rs)

released_stale :
    (m : Moment) (cutoff : ℕ) (r : JobRow)
    → is_stale cutoff (choose (is_stale cutoff) (expire_released m) r) ≡ false
unfolding is_stale expire_released
released_stale m cutoff r = ground arith

none_stale :
    (m : Moment) (cutoff : ℕ) (rs : List JobRow)
    → All (λ r. is_stale cutoff r ≡ false) (map (choose (is_stale cutoff) (expire_released m)) rs)
none_stale m cutoff [] = tt
none_stale m cutoff (r ∷ rs) = (released_stale m cutoff r, none_stale m cutoff rs)

module _ (store : Store) where
  open store use {external as x}

  -- An `expire_leases` that commits, on a table with distinct identifiers, moves exactly the running and
  -- verifying jobs whose lease has lapsed to `unknown_outcome`, without a lease and with the error
  -- `lease_expired`; it leaves every other row as it was, returns how many it moved, and leaves no
  -- lapsed lease behind.
  pub expire_leases-reclaims :
      (m : Moment) (n : ℕ) (db db' : Db)
      → IsKeyed db.jobs
      → expire_leases store m db ≡ ok (n, db')
      → (db'.jobs
          ≡ map
              (choose
                (is_abandoned m.now)
                (released m unknown_outcome (some (x.dump_error lease_expired))))
              db.jobs)
        × (n ≡ length (keep (is_abandoned m.now) db.jobs))
        × All (λ r. is_abandoned m.now r ≡ false) db'.jobs
  unfolding expire_leases
  expire_leases-reclaims m n db db' k h =
      let rows = keep (is_abandoned m.now) db.jobs in
      let error = some (x.dump_error lease_expired) in
      let (u, last, ran, rest) = bind-ok (for_each (expire_row store m) rows) _ db h in
      let same_last : db' ≡ last = ground arith in
      let swept =
        sweep-jobs (expire_row store m) (released m unknown_outcome error)
          (expire_row-Updates store m) (unfold released in λ r. refl) (is_abandoned m.now) db last k
          ran in
      let jobs = ap (λ (d : Db). d.jobs) same_last ∙ swept in
      (
        jobs,
        ground arith,
        subst (All (λ r. is_abandoned m.now r ≡ false)) (sym jobs) (none_abandoned m error db.jobs),
      )

  -- An `expire_stale_queued` that commits, on a table with distinct identifiers, moves exactly the queued
  -- jobs that were created before the cutoff to `expired`; it leaves every other row as it was, returns
  -- how many it moved, and leaves no such job behind.
  pub expire_stale_queued-expires :
      (m : Moment) (ttl_seconds n : ℕ) (db db' : Db)
      → IsKeyed db.jobs
      → expire_stale_queued store m ttl_seconds db ≡ ok (n, db')
      → (db'.jobs
          ≡ map (choose (is_stale (m.now - seconds ttl_seconds)) (expire_released m)) db.jobs)
        × (n ≡ length (keep (is_stale (m.now - seconds ttl_seconds)) db.jobs))
        × All (λ r. is_stale (m.now - seconds ttl_seconds) r ≡ false) db'.jobs
  unfolding expire_stale_queued
  expire_stale_queued-expires m ttl_seconds n db db' k h =
      let cutoff = m.now - seconds ttl_seconds in
      let (u, last, ran, rest) =
        bind-ok (for_each (expire_queued_row store m) (keep (is_stale cutoff) db.jobs)) _ db h in
      let same_last : db' ≡ last = ground arith in
      let swept =
        sweep-jobs (expire_queued_row store m) (expire_released m)
          (expire_queued_row-Updates store m) (unfold expire_released in λ r. refl)
          (is_stale cutoff) db last k ran in
      let jobs = ap (λ (d : Db). d.jobs) same_last ∙ swept in
      (
        jobs,
        ground arith,
        subst (All (λ r. is_stale cutoff r ≡ false)) (sym jobs) (none_stale m cutoff db.jobs),
      )
