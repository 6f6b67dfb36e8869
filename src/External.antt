-- ===== src/External.antt =====
-- What the broker takes from Python's standard library and from pydantic: digests, JSON texts and the
-- parsing of models. Nothing is assumed of these functions here; a theorem that needs a law of one
-- has it as a hypothesis.
use deckhand.Base.{ℕ, String, Option}
use deckhand.Json.{Json, Object}
use deckhand.Models.Request.{ActionRequest, Subject, JobError}
use deckhand.Adapters.{AdapterExecution}

pub record External : Type 0 where
  -- `str(n)`
  pub str_int : ℕ → String
  -- `datetime.isoformat()`
  pub isoformat : ℕ → String
  -- `json.dumps(value, sort_keys=True, separators=(",", ":"))`
  pub dumps : Json → String
  -- `json.dumps(result, sort_keys=True)`, and `json.loads` with pydantic's check that it is a dict
  pub dumps_result : Object → String
  pub loads_result : String → Option Object
  -- `hashlib.sha256(text.encode()).hexdigest()`
  pub sha256 : String → String
  -- `hmac.new(key, text.encode(), hashlib.sha256).hexdigest()`
  pub hmac_sha256 : String → String → String
  -- `model_dump_json()` and `model_validate_json(text)`; `none` is a `ValidationError`
  pub dump_request : ActionRequest → String
  pub validate_request : String → Option ActionRequest
  pub dump_subject : Subject → String
  pub validate_subject : String → Option Subject
  pub dump_error : JobError → String
  pub validate_error : String → Option JobError
  -- the JSON text of a `datetime` field
  pub dump_datetime : ℕ → String
  -- `repr(text)`
  pub repr : String → String
  -- `AdapterExecution.model_validate(d)`; `none` is a `ValidationError`
  pub validate_execution : Object → Option AdapterExecution
