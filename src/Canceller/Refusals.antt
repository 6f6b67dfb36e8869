-- ===== src/Canceller/Refusals.antt =====
-- Who may cancel a job through apps/broker/src/deckhand/cancellation.py.
use deckhand.Base.{◌≡◌, ◌≢◌, refl, suc, String, false, some, ◌⊎◌, arith, same_iff}
use deckhand.Result.{ok, err, cancellation_error}
use deckhand.Models.Request.{ActionRequest, Subject, JobView}
use deckhand.Store.Jobs.{get_job, get_job_context}
use deckhand.Store.Operation.{run}
use deckhand.Store.Rows.{Db}
use deckhand.Store.Tx.{transact}
use deckhand.Process.{Schedule, World, commit}
use deckhand.Worker.{Parts}
use deckhand.Canceller.{cancel, owned_by, require_owner}

other-owned_by :
    (owner subject : Subject)
    → (owner.name ≢ subject.name) ⊎ (owner.device ≢ subject.device)
    → owned_by owner subject ≡ false
unfolding owned_by
other-owned_by owner subject other =
    ground (arith, same_iff owner.name subject.name, same_iff owner.device subject.device)

module _ (parts : Parts) (schedule : Schedule) where
  open parts use {store}

  -- What the others have left when `cancel` reads the job, and when it reads its owner.
  abbrev pub first : World → Db
  first w = run store (schedule.others w.turn) w.db

  abbrev pub second : World → Db
  second w = run store (schedule.others (suc w.turn)) (first w)

  -- Where the job is there, but the database has another subject or device for it, `cancel` raises its
  -- error after the two reads: the adapter is not asked, and the database is what the others have left.
  pub cancel-IsRefused :
      (job_id : String) (subject owner : Subject) (request : ActionRequest) (job : JobView)
      (w : World)
      → get_job store job_id (first w) ≡ ok (some job, first w)
      → get_job_context store job_id (second w) ≡ ok ((request, owner), second w)
      → (owner.name ≢ subject.name) ⊎ (owner.device ≢ subject.device)
      → cancel parts schedule job_id subject w ≡ (
        err (cancellation_error "job belongs to another subject or device"),
        record { db = second w; turn = suc (suc w.turn) },
      )
  unfolding cancel commit transact require_owner
  cancel-IsRefused job_id subject owner request job w found read other =
      rw (found, read, other-owned_by owner subject other) refl
