-- ===== src/Adapters.antt =====
-- The errors and the answers of adapters, of apps/broker/src/deckhand/adapters.py. The bounds on lengths
-- are pydantic's to check.
pub mod Registry
use deckhand.Base.{ℕ, String, Bool, true, Option, List}
use deckhand.Json.{Json, Object, end, field, text, optional_text, object, boolean}
use deckhand.Models.Request.{JobError, RetryDisposition, reconcile_first}

pub data AdapterErrorKind : Type 0 where
  configuration authentication authorization not_found conflict : AdapterErrorKind
  rate_limited unavailable timeout protocol unexpected : AdapterErrorKind

-- The text of the enumeration.
unfoldable pub kind_value : AdapterErrorKind → String
kind_value configuration = "configuration"
kind_value authentication = "authentication"
kind_value authorization = "authorization"
kind_value not_found = "not_found"
kind_value conflict = "conflict"
kind_value rate_limited = "rate_limited"
kind_value unavailable = "unavailable"
kind_value timeout = "timeout"
kind_value protocol = "protocol"
kind_value unexpected = "unexpected"

pub record AdapterError : Type 0 where
  pub message : String
  pub kind : AdapterErrorKind
  pub retry : RetryDisposition
  pub reconciliation_required : Bool
  pub details : Object

unfoldable pub as_job_error : AdapterError → JobError
unfolding kind_value
as_job_error e = record {
  code = kind_value e.kind;
  message = e.message;
  retry = e.retry;
  reconciliation_required = e.reconciliation_required;
  details = e.details;
}

-- `UnknownOutcome(message, details=details)`
unfoldable pub unknown_outcome_error : String → Object → AdapterError
unknown_outcome_error message details = record {
  message = message;
  kind = timeout;
  retry = reconcile_first;
  reconciliation_required = true;
  details = details;
}

pub record AdapterPlan : Type 0 where
  pub steps : List String

pub data AdapterHealthState : Type 0 where
  healthy degraded health_unavailable : AdapterHealthState

pub record AdapterHealth : Type 0 where
  pub state : AdapterHealthState
  pub checked_at : ℕ
  pub details : Object

pub record AdapterExecution : Type 0 where
  pub reference : Option String
  pub details : Object

pub record AdapterObservation : Type 0 where
  pub state : String
  pub observed_at : ℕ
  pub details : Object

pub record AdapterVerification : Type 0 where
  pub satisfied : Bool
  pub details : Object

pub data CancellationDisposition : Type 0 where
  cancelled not_supported already_terminal unknown : CancellationDisposition

pub record AdapterCancellation : Type 0 where
  pub disposition : CancellationDisposition
  pub details : Object

-- The text of the enumeration.
unfoldable pub disposition_value : CancellationDisposition → String
disposition_value cancelled = "cancelled"
disposition_value not_supported = "not_supported"
disposition_value already_terminal = "already_terminal"
disposition_value unknown = "unknown"

-- `model_dump(mode="json")` of the answers that a job keeps; `dump_datetime` is the JSON text of a time.
unfoldable pub execution_json : AdapterExecution → Json
execution_json e =
    object (field "reference" (optional_text e.reference) (field "details" (object e.details) end))

unfoldable pub observation_json : (dump_datetime : ℕ → String) → AdapterObservation → Json
observation_json dump_datetime o = object (
    field "state" (text o.state) (
      field "observed_at" (text (dump_datetime o.observed_at))
        (field "details" (object o.details) end)))

unfoldable pub verification_json : AdapterVerification → Json
verification_json v =
    object (field "satisfied" (boolean v.satisfied) (field "details" (object v.details) end))

unfoldable pub cancellation_json : AdapterCancellation → Json
unfolding disposition_value
cancellation_json c = object (
    field "disposition" (text (disposition_value c.disposition))
      (field "details" (object c.details) end))
