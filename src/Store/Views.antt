-- ===== src/Store/Views.antt =====
-- `_job_view` and `_job_error` of apps/broker/src/deckhand/store.py.
use Prim.Native.String.{count}
use deckhand.Base.{String, false, ◌&&◌, Option, none, some, same, leb, if◌then◌else◌}
use deckhand.Json.{Object, end, field, text, boolean, object}
use deckhand.Result.{Result, ok, err, validation_error, ◌>>=◌}
use deckhand.Models.Request.{JobError, JobView, RetryDisposition, never, safe, reconcile_first}
use deckhand.External.{External}
use deckhand.Store.Rows.{JobRow}

-- `RetryDisposition.value`
unfoldable pub retry_value : RetryDisposition → String
retry_value never = "never"
retry_value safe = "safe"
retry_value reconcile_first = "reconcile_first"

-- `error.model_dump(mode="json")`
unfoldable pub error_members : JobError → Object
unfolding retry_value
error_members e = field "code" (text e.code) (
    field "message" (text e.message) (
      field "retry" (text (retry_value e.retry)) (
        field "reconciliation_required" (boolean e.reconciliation_required)
          (field "details" (object e.details) end))))

-- `model_validate_json`, with the `ValidationError` as a value.
abbrev pub validated : {A : Type 0} → Option A → Result A
validated none = err validation_error
validated (some a) = ok a

-- A text that is no `JobError` becomes the message of one, if it has a message's length.
unfoldable pub legacy_error : String → Result (Option JobError)
legacy_error raw =
    if leb 1 (count raw) && leb (count raw) 1024
    then ok (
        some (record {
          code = "legacy_error";
          message = raw;
          retry = never;
          reconciliation_required = false;
          details = end;
        }))
    else err validation_error

module _ (x : External) where
  unfoldable pub job_error : Option String → Result (Option JobError)
  job_error none = ok none
  job_error (some raw) = elim (x.validate_error raw) [
    | some error ↦ ok (some error)
    | none ↦ legacy_error raw
  ]

  -- `json.loads(row["result_json"]) if row["result_json"] else None`
  job_result : Option String → Result (Option Object)
  job_result none = ok none
  job_result (some raw) =
      if same raw ""
      then ok none
      else (do result ← validated (x.loads_result raw); ok (some result))

  unfoldable pub job_view : JobRow → Result JobView
  unfolding job_result
  job_view row = do
    request ← validated (x.validate_request row.request_json)
    result ← job_result row.result_json
    error ← job_error row.error
    ok (record {
      id = row.id;
      state = row.state;
      action_id = request.action_id;
      target = request.target;
      created_at = row.created_at;
      updated_at = row.updated_at;
      result = result;
      error = error;
    })
