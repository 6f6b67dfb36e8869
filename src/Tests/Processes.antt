-- ===== src/Tests/Processes.antt =====
-- A worker, beside a scheduler that expires leases, on one queued job.
use deckhand.Process.{ask}
use deckhand.Store.Audit.{chain_hash, last_hash, material}
use deckhand.Base.{join}
use deckhand.Tests.Toy.{dumped, unary}
use deckhand.Models.State.{value}
use deckhand.Store.Leases.{transition_payload}
use deckhand.Base.{refl, ◌≡◌, ℕ, zero, suc, ◌+◌, true, List, [], ◌∷◌, some, none}
use deckhand.Base.{same, keep}
use deckhand.Process.{commit}
use deckhand.Store.Operation.{run, apply}
use deckhand.Store.Leases.{
  claim_next_job, claim_row, lease_length, change_and_read, read_back, transition_job, renew_lease,
  renew_row,
}
use deckhand.Store.Rows.{oldest, has_hash, find_job, update_job}
use deckhand.Store.Updates.{
  is_claimable, change, update, renewed, holds_lease, is_abandoned, released, moved, lease_expired,
  fence_fits, state_fits,
}
use deckhand.StateMachine.{require_transition}
use deckhand.Store.Audit.{append_audit, sealed}
use deckhand.Store.Tx.{transact}
use deckhand.Store.Sweeps as Sweeps
use deckhand.Store.Views.{job_view, job_error}
use deckhand.Store.Jobs.{get_job_context}
use deckhand.Catalog.{validate_request, get_action}
use deckhand.Adapters.Registry.{get_adapter}
use deckhand.Worker.{lease_for}
use deckhand.Reconciler.{reconcile}
use deckhand.Reconciler.Returns.{IsReconciled, reconcile-IsReconciled}
use deckhand.Canceller.{cancel}
use deckhand.Canceller.Refusals.{cancel-IsRefused}
use deckhand.Store.Jobs.{get_job}
use deckhand.Models.Request.{Subject}
use deckhand.Base.{◌≢◌, ap, inr}
use deckhand.Result.{err, cancellation_error}
use deckhand.Json.{end, get}
use deckhand.Result.{ok}
use deckhand.Models.State.{queued, unknown_outcome, succeeded}
use deckhand.Models.Request.{JobView}
use deckhand.Store.Audit.{Moment}
use deckhand.Store.Operation.{Operation, expire_leases}
use deckhand.Adapters.Registry.{fake_adapter}
use deckhand.Process.{Schedule, World}
use deckhand.Worker.{Parts, run_once}
use deckhand.Worker.Returns.{run_once-IsRound}
use deckhand.Worker.Round.{IsRound}
use deckhand.Tests.Toy.{plain, at, job, with_job, request, subject}
use deckhand.Tests.Actions.{actions}

abbrev parts : Parts
parts = record {
  store = plain;
  actions = actions;
  accepts = λ schema parameters. true;
  adapters = ("hue", fake_adapter (λ n. n)) ∷ [];
}

abbrev sweeps : ℕ → List (Moment × Operation)
sweeps zero = []
sweeps (suc n) = (at (n + 9), expire_leases) ∷ []

abbrev schedule : Schedule
schedule = record { others = sweeps; at = λ n. at (n + 5) }

abbrev start : World
start = record { db = with_job (job queued); turn = 0 }

abbrev finished : World
finished = (run_once parts schedule "worker" "lease" start).1

abbrev view : JobView
view = record {
  id = "job-1";
  state = succeeded;
  action_id = "light.toggle";
  target = request.target;
  created_at = 1;
  updated_at = 12;
  result = some end;
  error = none;
}

succeeds : run_once parts schedule "worker" "lease" start ≡ (ok (some view), finished)
unfolding run_once commit claim_next_job oldest run is_claimable claim_row lease_length
    require_transition change_and_read change update append_audit has_hash read_back find_job
    update_job transition_job renew_lease renew_row renewed holds_lease same transact apply
    Sweeps.expire_leases keep is_abandoned job_view job_error get_job_context validate_request
    get_action get_adapter sealed lease_for released moved lease_expired fence_fits state_fits ask
    fake_adapter chain_hash material join unary last_hash dumped value transition_payload
succeeds = refl

run_once-IsRound_example : IsRound parts schedule "worker" "lease" view start finished
run_once-IsRound_example =
    run_once-IsRound parts schedule "worker" "lease" view start finished succeeds

abbrev alone : Schedule
alone = record { others = λ n. []; at = λ n. at (n + 5) }

abbrev stranger : Subject
stranger = record subject { device = "elsewhere" }

abbrev read_job : JobView
read_job = record view { state = queued; updated_at = 1; result = none }

reads_job : get_job plain "job-1" start.db ≡ ok (some read_job, start.db)
unfolding get_job find_job same job_view job_error
reads_job = refl

reads_owner : get_job_context plain "job-1" start.db ≡ ok ((request, subject), start.db)
unfolding get_job_context find_job same
reads_owner = refl

is_elsewhere : subject.device ≢ stranger.device
unfolding same
is_elsewhere = λ e. cc (ap (λ s. same s "elsewhere") e)

cancel-IsRefused_example : cancel parts alone "job-1" stranger start ≡ (
  err (cancellation_error "job belongs to another subject or device"),
  record { db = start.db; turn = 2 },
)
unfolding run
cancel-IsRefused_example =
    cancel-IsRefused parts alone "job-1" stranger subject request read_job start reads_job
      reads_owner (inr is_elsewhere)

abbrev unsure : World
unsure = record { db = with_job (job unknown_outcome); turn = 0 }

abbrev candidate : JobView
candidate = record view { state = unknown_outcome; updated_at = 1; result = none }

abbrev settled : JobView
settled = record view { updated_at = 9 }

abbrev reconciled : World
reconciled = (reconcile parts alone candidate unsure).1

reconciles : reconcile parts alone candidate unsure ≡ (ok settled, reconciled)
unfolding reconcile commit run require_transition change_and_read change update append_audit
    has_hash read_back find_job update_job transition_job same transact job_view job_error
    get_job_context validate_request get_action get_adapter sealed moved ask fake_adapter chain_hash
    material join unary last_hash dumped value transition_payload get
reconciles = refl

reconcile-IsReconciled_example : IsReconciled parts alone candidate settled unsure reconciled
reconcile-IsReconciled_example =
    reconcile-IsReconciled parts alone candidate settled unsure reconciled reconciles
