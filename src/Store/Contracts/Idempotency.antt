-- ===== src/Store/Contracts/Idempotency.antt =====
-- Idempotency keys: a request that is sent twice makes one job.
use deckhand.Base.{
  ◌≡◌, ◌≢◌, refl, ap, ◌∙◌, String, none, some, List, [], ◌∷◌, ◌++◌, same_iff, arith,
}
use deckhand.Result.{ok, err, key_reused}
use deckhand.Models.Request.{ActionRequest, Subject, JobView}
use deckhand.Digests.{request_digest}
use deckhand.Store.Rows.{JobRow, Db, find_key}
use deckhand.Store.Tx.{transact, lift}
use deckhand.Store.Audit.{Store, Moment}
use deckhand.Store.Views.{job_view}
use deckhand.Store.Jobs.{new_row, create_job}
use deckhand.Store.Commits.Created.{Created, replayed, inserted, create_job-commits}

find_key-append :
    (key : String) (rs : List JobRow) (r : JobRow)
    → find_key key rs ≡ none
    → r.idempotency_key ≡ key
    → find_key key (rs ++ r ∷ []) ≡ some r
unfolding find_key
find_key-append key [] r h e = ground (arith, same_iff r.idempotency_key key)
find_key-append key (s ∷ rs) r h e = ground (arith, find_key-append key rs r)

module _ (store : Store) where
  open store use {external as x}

  -- The row that a `create_job` leaves under the request's key.
  left_row :
      (m : Moment) (job_id : String) (request : ActionRequest) (subject : Subject) (db db' : Db)
      → Created store (new_row store m job_id request subject) db db'
      → (row : JobRow) × (find_key request.idempotency_key db'.jobs ≡ some row)
        × (row.request_digest ≡ request_digest x request)
  unfolding new_row
  left_row m job_id request subject db db' (replayed existing found digest unchanged) =
      (existing, ap (λ (d : Db). find_key request.idempotency_key d.jobs) unchanged ∙ found, digest)
  left_row m job_id request subject db db' (inserted new_key new_id jobs) = (
    _,
    ap (find_key request.idempotency_key) jobs ∙ find_key-append _ db.jobs _ new_key refl,
    refl,
  )

  -- After a `create_job` that commits, there is one row under the request's key, and it has the request's
  -- digest. From then on the same request, by whatever subject and with whatever fresh identifier,
  -- writes nothing and is answered by the view of that row; and a request that reuses the key with
  -- another digest is refused, and writes nothing.
  pub create_job-idempotent :
      (m m' : Moment) (job_id job_id' : String) (request other : ActionRequest)
      (subject subject' : Subject) (view : JobView) (db db' : Db)
      → create_job store m job_id request subject db ≡ ok (view, db')
      → other.idempotency_key ≡ request.idempotency_key
      → request_digest x other ≢ request_digest x request
      → (row : JobRow) × (find_key request.idempotency_key db'.jobs ≡ some row)
        × (create_job store m' job_id' request subject' db' ≡ lift (job_view x row) db')
        × (transact (create_job store m' job_id' other subject') db' ≡ (err key_reused, db'))
  unfolding create_job transact
  create_job-idempotent m m' job_id job_id' request other subject subject' view db db' h same_key
        differ =
      let (row, found, digest) =
        left_row m job_id request subject db db'
          (create_job-commits store m job_id request subject view db db' h) in
      (
        row,
        found,
        ground (arith, same_iff row.request_digest (request_digest x request)),
        ground (
          arith,
          same_iff row.request_digest (request_digest x other),
          ap (λ key. find_key key db'.jobs) same_key,
        ),
      )
