-- ===== src/Digests/Binding.antt =====
-- What the two digests bind, and what they leave free.
use deckhand.Base.{String, same, ◌≡◌, refl, false, Option, some}
use deckhand.Json.{Json, Object, number, text, object, get}
use deckhand.Models.Request.{RequestContext, ActionRequest}
use deckhand.External.{External}
use deckhand.Digests.{target_members, request_digest, confirmation_payload, confirmation_digest}

-- The request that a client sends to execute what it planned with `r`: a fresh idempotency key, no
-- dry run, another context, and the proof of approval.
abbrev pub execution_of :
    ActionRequest → String → RequestContext → Option String → Option String → ActionRequest
execution_of r key context token response = record r {
  context = context;
  idempotency_key = key;
  dry_run = false;
  confirmation_token = token;
  confirmation_response = response;
}

-- A confirmation made for a planned request has the digest of every request that executes that plan,
-- and the idempotency digest of a request is the same with any confirmation token and response.
pub plan_digest_of_execution :
    (x : External) (r : ActionRequest) (key : String) (context : RequestContext)
    (token response : Option String)
    → (confirmation_digest x (execution_of r key context token response) ≡ confirmation_digest x r)
      × (request_digest x
            (record r { confirmation_token = token; confirmation_response = response })
          ≡ request_digest x r)
unfolding confirmation_digest confirmation_payload request_digest
plan_digest_of_execution x r key context token response = (refl, refl)

-- Objects with one canonical text hold values with one canonical text at every key.
abbrev pub SameMembers : External → Object → Object → Type 0
SameMembers x a b =
    x.dumps (object a) ≡ x.dumps (object b)
    → (key : String) (u v : Json) → get key a ≡ some u
    → get key b ≡ some v
    → x.dumps u ≡ x.dumps v

-- What is relied on at two requests: SHA-256 does not collide on their payloads, and the canonical
-- JSON text of a value determines the value's members, strings and numbers.
pub record IsSeparating (x : External) (r s : ActionRequest) : Type 0 where
  pub no_collision :
      confirmation_digest x r ≡ confirmation_digest x s
      → x.dumps (object (confirmation_payload x r)) ≡ x.dumps (object (confirmation_payload x s))
  pub payloads : SameMembers x (confirmation_payload x r) (confirmation_payload x s)
  pub targets : SameMembers x (target_members r.target) (target_members s.target)
  pub texts : (a b : String) → x.dumps (text a) ≡ x.dumps (text b) → a ≡ b
  pub numbers : (a b : String) → x.dumps (number a) ≡ x.dumps (number b) → a ≡ b
  pub ints :
      x.str_int r.action_version ≡ x.str_int s.action_version → r.action_version ≡ s.action_version

-- What a confirmation approves.
pub record SameAuthority (x : External) (r s : ActionRequest) : Type 0 where
  pub action_id : r.action_id ≡ s.action_id
  pub action_version : r.action_version ≡ s.action_version
  pub target_type : r.target.type ≡ s.target.type
  pub target_id : r.target.id ≡ s.target.id
  pub parameters : x.dumps (object r.parameters) ≡ x.dumps (object s.parameters)

-- Where SHA-256 and the canonical JSON texts separate the two payloads, requests with one confirmation
-- digest have the same action, version and target, and parameters with one canonical text.
pub confirmation_digest-SameAuthority :
    (x : External) (r s : ActionRequest)
    → IsSeparating x r s
    → confirmation_digest x r ≡ confirmation_digest x s
    → SameAuthority x r s
unfolding confirmation_payload target_members get same
confirmation_digest-SameAuthority x r s h e =
    let same_text = h.no_collision e in
    let at = h.payloads same_text in
    let target = h.targets (at "target" _ _ refl refl) in
    record {
      action_id = h.texts _ _ (at "action_id" _ _ refl refl);
      action_version = h.ints (h.numbers _ _ (at "action_version" _ _ refl refl));
      target_type = h.texts _ _ (target "type" _ _ refl refl);
      target_id = h.texts _ _ (target "id" _ _ refl refl);
      parameters = at "parameters" _ _ refl refl;
    }
