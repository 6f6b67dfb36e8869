-- ===== src/Adapters/Registry.antt =====
-- `class AdapterRegistry`, `FakeAdapter` and `DisabledMutationAdapter` of
-- apps/broker/src/deckhand/adapters.py. What an adapter answers depends on the world outside, so each
-- method has, before its own arguments, the number of the step at which it is called.
use deckhand.Base.{
  ℕ, String, Bool, true, false, Option, none, some, List, [], ◌∷◌, same, if◌then◌else◌,
}
use deckhand.Base.Append.{append}
use deckhand.Json.{end, field, text, optional_text}
use deckhand.Result.{Result, ok, err, value_error, adapter_error}
use deckhand.Models.Request.{ActionDefinition, ActionRequest, never}
use deckhand.Digests.{target_json}
use deckhand.Adapters.{
  AdapterError, AdapterErrorKind, AdapterExecution, AdapterObservation, AdapterVerification,
  AdapterCancellation, AdapterPlan, AdapterHealth, configuration, unexpected, not_supported,
  already_terminal, healthy, health_unavailable,
}

-- The protocol `Adapter`.
pub record Adapter : Type 0 where
  pub health : ℕ → Result AdapterHealth
  pub plan : ℕ → ActionDefinition → ActionRequest → Result AdapterPlan
  pub execute : ℕ → ActionDefinition → ActionRequest → Result AdapterExecution
  pub observe : ℕ → ActionDefinition → ActionRequest → Result AdapterObservation
  pub verify :
      ℕ
      → ActionDefinition
      → ActionRequest
      → AdapterExecution
      → AdapterObservation
      → Result AdapterVerification
  pub cancel :
      ℕ → ActionDefinition → ActionRequest → Option AdapterExecution → Result AdapterCancellation

-- `AdapterError(message, kind=kind)`
abbrev pub plain_error : String → AdapterErrorKind → AdapterError
plain_error message kind = record {
  message = message;
  kind = kind;
  retry = never;
  reconciliation_required = false;
  details = end;
}

-- `FakeAdapter`; `now` is the clock.
unfoldable pub fake_adapter : (now : ℕ → ℕ) → Adapter
fake_adapter now = record {
  health = λ at.
      ok (record {
        state = healthy;
        checked_at = now at;
        details = field "source" (text "fake") end;
      });
  plan = λ at action request. ok (record {
    steps = append "observe " (append request.target.type (append ":" request.target.id)) ∷ [];
  });
  execute = λ at action request. ok (record {
    reference = some (append "fake:" request.idempotency_key);
    details = field "target" (target_json request.target) (field "source" (text "fake") end);
  });
  observe = λ at action request. ok (record {
    state = "healthy";
    observed_at = now at;
    details = field "target" (target_json request.target) (field "source" (text "fake") end);
  });
  verify = λ at action request execution observation. ok (record {
    satisfied = same observation.state "healthy";
    details = field "execution_reference" (optional_text execution.reference) end;
  });
  cancel =
      λ at action request execution. ok (record { disposition = already_terminal; details = end });
}

-- `DisabledMutationAdapter`
unfoldable pub disabled_adapter : (now : ℕ → ℕ) → (name : String) → Adapter
disabled_adapter now name = record {
  health = λ at. ok (record {
    state = health_unavailable;
    checked_at = now at;
    details = field "reason" (text "configuration_required") end;
  });
  plan = λ at action request. ok (record {
    steps =
        append "validate " (append name " target")
        ∷ append "execute " action.id
        ∷ "verify postcondition"
        ∷ [];
  });
  execute = λ at action request. err (
      adapter_error (
        plain_error (append name " adapter requires approved production inventory") configuration));
  observe = λ at action request. err (
      adapter_error (
        plain_error (append name " adapter requires approved production inventory") configuration));
  verify = λ at action request execution observation. err (
      adapter_error
        (plain_error (append name " adapter cannot verify an unconfigured target") configuration));
  cancel =
      λ at action request execution. ok (record { disposition = not_supported; details = end });
}

-- The registry's dict.
abbrev pub Registry : Type 0
Registry = List (String × Adapter)

unfoldable pub find_adapter : String → Registry → Option Adapter
find_adapter name [] = none
find_adapter name ((n, a) ∷ rest) = if same n name then some a else find_adapter name rest

abbrev pub is_registered : Option Adapter → Bool
is_registered none = false
is_registered (some a) = true

append_adapter : Registry → String → Adapter → Registry
append_adapter [] name adapter = (name, adapter) ∷ []
append_adapter (entry ∷ rest) name adapter = entry ∷ append_adapter rest name adapter

unfoldable pub register : String → Adapter → Registry → Result Registry
unfolding find_adapter append_adapter
register name adapter registry =
    if is_registered (find_adapter name registry)
    then err value_error
    else ok (append_adapter registry name adapter)

abbrev pub or_unregistered : (repr : String → String) → String → Option Adapter → Result Adapter
or_unregistered repr name none = err (
    adapter_error
      (plain_error (append "adapter " (append (repr name) " is not registered")) unexpected))
or_unregistered repr name (some adapter) = ok adapter

-- `get`
unfoldable pub get_adapter : (repr : String → String) → Registry → String → Result Adapter
unfolding find_adapter
get_adapter repr registry name = or_unregistered repr name (find_adapter name registry)
