-- ===== src/Tests/Api.antt =====
-- The light's switch, executed through the interface under the development policy with a confirmation.
use deckhand.Base.{join, same, is_ascii, ◌≡◌, ◌≢◌, refl, ◌+◌, true, false, some, none, []}
use deckhand.Result.{ok}
use deckhand.Models.State.{queued}
use deckhand.Models.Request.{ActionRequest, ActionDefinition, JobView, no_confirmation}
use deckhand.Catalog.{validate_request}
use deckhand.Catalog.{get_action}
use deckhand.Store.Confirmations.{consume_confirmation, conclude, use_up}
use deckhand.Store.Rows.{newest, has_hash, find_key, find_job}
use deckhand.Store.Operation.{run}
use deckhand.Digests.{confirmation_digest, confirmation_payload}
use deckhand.Tests.Toy.{dumped, unary}
use deckhand.Store.Audit.{compare_digest, append_audit, sealed, chain_hash, material, last_hash}
use deckhand.Store.Tx.{transact}
use deckhand.Store.Jobs.{create_job, create_new, insert_job, created_payload, new_row}
use deckhand.Store.Views.{job_view, job_error}
use deckhand.Process.{commit, ask, Schedule, World}
use deckhand.Api.{Runtime, development_policy, execute}
use deckhand.Api.Authority.Development.{IsCreatedConfirmed, execute-IsConfirmed}
use deckhand.Tests.Toy.{plain, at, request, subject, with_confirmation}
use deckhand.Tests.Actions.{actions}

abbrev runtime : Runtime
runtime = record {
  parts = record {
    store = plain;
    actions = actions;
    accepts = λ schema parameters. true;
    adapters = [];
  };
  policy = development_policy;
  audit_is_writable = λ n. true;
  is_protected = λ target. false;
  allow_mutations = true;
  environment = "development";
  confirmation_ttl_seconds = 60;
}

abbrev quiet : Schedule
quiet = record { others = λ n. []; at = λ n. at (n + 5) }

abbrev start : World
start = record { db = with_confirmation; turn = 0 }

abbrev approved : ActionRequest
approved = record request { confirmation_token = some "secret" }

abbrev view : JobView
view = record {
  id = "job-9";
  state = queued;
  action_id = "light.toggle";
  target = request.target;
  created_at = 7;
  updated_at = 7;
  result = none;
  error = none;
}

abbrev finished : World
finished = (execute runtime quiet "light.toggle" "job-9" approved subject start).1

creates : execute runtime quiet "light.toggle" "job-9" approved subject start ≡ (ok view, finished)
unfolding execute same validate_request get_action commit consume_confirmation newest run
    confirmation_digest dumped confirmation_payload compare_digest is_ascii conclude use_up
    append_audit has_hash transact ask development_policy create_job find_key create_new insert_job
    find_job sealed chain_hash material join unary last_hash created_payload new_row job_view
    job_error
creates = refl

execute-IsConfirmed_example :
    (action : ActionDefinition) × (validate_request runtime.parts.accepts runtime.parts.actions
        approved
      ≡ ok action)
    × (action.mutation ≡ true
        → (runtime.allow_mutations ≡ true)
          × (action.confirmation ≢ no_confirmation
              → IsCreatedConfirmed plain quiet "job-9" approved subject start view finished))
execute-IsConfirmed_example =
    execute-IsConfirmed runtime quiet "light.toggle" "job-9" approved subject start finished view
      refl creates
