-- ===== src/Models/Request.antt =====
-- The request, subject, job and confirmation models of apps/broker/src/deckhand/models.py, field by
-- field. The bounds on lengths and the patterns are pydantic's to check, and are not repeated here.
-- A `datetime` is the number of microseconds since the epoch.
use deckhand.Base.{ℕ, String, Bool, Option, List}
use deckhand.Json.{Object}
use deckhand.Models.State.{JobState}

pub data RiskClass : Type 0 where
  read local reversible disruptive destructive safety_sensitive : RiskClass

pub data RetryDisposition : Type 0 where
  never safe reconcile_first : RetryDisposition

pub data ConfirmationMode : Type 0 where
  no_confirmation confirm hold typed dual_control policy : ConfirmationMode

pub record Target : Type 0 where
  pub type : String
  pub id : String

pub record RequestContext : Type 0 where
  pub profile : Option String
  pub frontmost_app : Option String
  pub client : String
  pub control : Option String

pub record ActionRequest : Type 0 where
  pub action_id : String
  pub action_version : ℕ
  pub target : Target
  pub parameters : Object
  pub context : RequestContext
  pub idempotency_key : String
  pub dry_run : Bool
  pub confirmation_token : Option String
  pub confirmation_response : Option String

pub record ActionDefinition : Type 0 where
  pub id : String
  pub version : ℕ
  pub title : String
  pub description : String
  pub risk_class : RiskClass
  pub plugin : String
  pub adapter : String
  pub target_types : List String
  pub parameter_schema : Object
  pub policy_action : String
  pub confirmation : ConfirmationMode
  pub timeout_seconds : ℕ
  pub idempotency : String
  pub mutation : Bool

pub record Subject : Type 0 where
  pub name : String
  pub device : String
  pub channel : String

pub record ConfirmationChallenge : Type 0 where
  pub id : String
  pub token : String
  pub mode : ConfirmationMode
  pub expires_at : ℕ
  pub prompt : String

pub record JobError : Type 0 where
  pub code : String
  pub message : String
  pub retry : RetryDisposition
  pub reconciliation_required : Bool
  pub details : Object

pub record JobView : Type 0 where
  pub id : String
  pub state : JobState
  pub action_id : String
  pub target : Target
  pub created_at : ℕ
  pub updated_at : ℕ
  pub result : Option Object
  pub error : Option JobError
