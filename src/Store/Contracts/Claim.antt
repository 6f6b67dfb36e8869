-- ===== src/Store/Contracts/Claim.antt =====
-- Claiming: which job a worker gets, and what its row then says.
use deckhand.Base.{
  ℕ, ◌+◌, ◌*◌, ◌≤◌, ◌<◌, ◌≡◌, ◌≢◌, ◌⊎◌, refl, ap, ◌∙◌, String, true, Option, none, some, All,
  All-map, arith, same_iff,
}
use deckhand.Result.{ok}
use deckhand.Models.State.{queued, running, same_state_iff}
use deckhand.Models.Request.{ActionRequest}
use deckhand.Store.Rows.{JobRow, Db, find_job, oldest}
use deckhand.Store.Audit.{Store, Moment}
use deckhand.Store.Ensures.{bind-ok}
use deckhand.Store.Updates.{ClaimedJob, is_claimable, leased, seconds}
use deckhand.Store.Leases.{claim_next_job, claim_found, claim_row}
use deckhand.Store.Commits.{LeaseLength, claim_row-commits}
use deckhand.Store.Table.{IsKeyed, find_job-update_self, find_job-update_ne}
use deckhand.Store.Advance.Rows.{oldest-holds, oldest-current, oldest-first}

-- A job that waits, and that no lease or only one that ended before `now` is on.
abbrev pub IsWaiting : ℕ → JobRow → Type 0
IsWaiting now r =
    (r.state ≡ queued)
    × ((r.lease_expires_at ≡ none) ⊎ ((t : ℕ) × (r.lease_expires_at ≡ some t) × (t < now)))

claimable-IsWaiting : (now : ℕ) (r : JobRow) → is_claimable now r ≡ true → IsWaiting now r
unfolding is_claimable
claimable-IsWaiting now r h = ground (arith, same_state_iff r.state queued)

waiting-claimable : (now : ℕ) (r : JobRow) → IsWaiting now r → is_claimable now r ≡ true
unfolding is_claimable
waiting-claimable now r (waits, free) = ground (arith, same_state_iff r.state queued)

module _ (store : Store) where
  -- A job that was handed out: `row` is what its row was, and no waiting job was created before it. Its row
  -- now runs under the worker's name and the token, as long as `LeaseLength` says from now; its other
  -- columns and every other job's row are as they were.
  pub record HandsOut (m : Moment) (lease_token worker_id : String) (lease_seconds : ℕ)
      (lease_for : Option (ActionRequest → ℕ)) (claimed : ClaimedJob) (db db' : Db) : Type 0 where
    pub row : JobRow
    pub found : find_job row.id db.jobs ≡ some row
    pub waited : IsWaiting m.now row
    pub first : All (λ s. IsWaiting m.now s → row.created_at ≤ s.created_at) db.jobs
    pub token : claimed.lease_token ≡ lease_token
    pub length : ℕ
    pub lasts : LeaseLength store lease_seconds lease_for row length
    pub leased_row :
        find_job row.id db'.jobs
        ≡ some (record row {
          state = running;
          lease_owner = some worker_id;
          lease_token = some lease_token;
          lease_expires_at = some (m.now + length * 1_000_000);
          updated_at = m.now;
        })
    pub others : (id : String) → row.id ≢ id → find_job id db'.jobs ≡ find_job id db.jobs

  -- On a table with distinct identifiers, a `claim_next_job` that commits with a job has handed out a job
  -- that was queued under no lease, or under one that had ended, such that no such job was created earlier.
  -- Its row is now `running`, with the worker, with the token that was returned, and with an expiry that
  -- is the given number of seconds away, or that which `lease_for` gives for the job's request; its other
  -- columns and every other job's row are as they were.
  pub claim_next_job-HandsOut :
      (m : Moment) (lease_token worker_id : String) (lease_seconds : ℕ)
      (lease_for : Option (ActionRequest → ℕ)) (claimed : ClaimedJob) (db db' : Db)
      → IsKeyed db.jobs
      → claim_next_job store m lease_token worker_id lease_seconds lease_for db
        ≡ ok (some claimed, db')
      → HandsOut m lease_token worker_id lease_seconds lease_for claimed db db'
  unfolding claim_next_job
  claim_next_job-HandsOut m lease_token worker_id lease_seconds lease_for claimed db db' k h =
      by_row (oldest (is_claimable m.now) db.jobs) refl h
    where
      by_row :
          (row : Option JobRow)
          → oldest (is_claimable m.now) db.jobs ≡ row
          → claim_found store m lease_token worker_id lease_seconds lease_for row db
            ≡ ok (some claimed, db')
          → HandsOut m lease_token worker_id lease_seconds lease_for claimed db db'
      by_row none e c = absurd (unfold claim_found in ground arith)
      by_row (some row) e c =
          let (job, last, ran, rest) =
            bind-ok (claim_row store m lease_token worker_id lease_seconds lease_for row) _ db
              (unfold claim_found in c) in
          let claim =
            claim_row-commits store m lease_token worker_id lease_seconds lease_for row job db last
              ran in
          let f = leased m worker_id lease_token (m.now + seconds claim.length) in
          let same_id : (r : JobRow) → (f r).id ≡ r.id = unfold leased in λ r. refl in
          let found = oldest-current (is_claimable m.now) db.jobs row k e in
          let same_job : job ≡ claimed = ground arith in
          let same_last : db' ≡ last = ground arith in
          let jobs = ap (λ (d : Db). d.jobs) same_last ∙ claim.jobs in
          record {
            row = row;
            found = found;
            waited =
                claimable-IsWaiting m.now row (oldest-holds (is_claimable m.now) db.jobs row e);
            first =
                All-map _ _ (λ s earliest waits. earliest (waiting-claimable m.now s waits)) db.jobs
                  (oldest-first (is_claimable m.now) db.jobs row e);
            token = cc (claim.token, same_job);
            length = claim.length;
            lasts = claim.lasts;
            leased_row =
                ap (find_job row.id) jobs
                ∙ find_job-update_self row.id f same_id db.jobs row found
                ∙ (unfold leased in refl);
            others = λ id other.
                ap (find_job id) jobs
                ∙ find_job-update_ne row.id f same_id id db.jobs
                    (ground (arith, same_iff row.id id));
          }
