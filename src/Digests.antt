-- ===== src/Digests.antt =====
-- apps/broker/src/deckhand/digests.py: the two identities of a request.
pub mod Binding
use deckhand.Base.{String, Option, none, some}
use deckhand.Json.{Json, Object, end, field, null, boolean, number, text, object, optional_text}
use deckhand.Models.Request.{Target, RequestContext, ActionRequest}
use deckhand.External.{External}

-- `target.model_dump(mode="json")`
unfoldable pub target_members : Target → Object
target_members t = field "type" (text t.type) (field "id" (text t.id) end)

abbrev pub target_json : Target → Json
target_json t = object (target_members t)

-- `context.model_dump(mode="json")`
unfoldable pub context_json : RequestContext → Json
context_json c = object (
    field "profile" (optional_text c.profile) (
      field "frontmost_app" (optional_text c.frontmost_app)
        (field "client" (text c.client) (field "control" (optional_text c.control) end))))

module _ (x : External) where
  -- `model_dump(mode="json", exclude={"confirmation_token", "confirmation_response"})`
  unfoldable pub request_payload : ActionRequest → Object
  unfolding context_json
  request_payload r = field "action_id" (text r.action_id) (
      field "action_version" (number (x.str_int r.action_version)) (
        field "target" (target_json r.target) (
          field "parameters" (object r.parameters) (
            field "context" (context_json r.context) (
              field "idempotency_key" (text r.idempotency_key)
                (field "dry_run" (boolean r.dry_run) end))))))

  unfoldable pub request_digest : ActionRequest → String
  unfolding request_payload
  request_digest r = x.sha256 (x.dumps (object (request_payload r)))

  unfoldable pub confirmation_payload : ActionRequest → Object
  confirmation_payload r = field "action_id" (text r.action_id) (
      field "action_version" (number (x.str_int r.action_version))
        (field "target" (target_json r.target) (field "parameters" (object r.parameters) end)))

  unfoldable pub confirmation_digest : ActionRequest → String
  confirmation_digest r = x.sha256 (x.dumps (object (confirmation_payload r)))
