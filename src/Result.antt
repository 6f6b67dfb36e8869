-- ===== src/Result.antt =====
-- The exceptions that the modelled code raises, as values. Messages are left out where nothing
-- reads them.
use deckhand.Base.{ℕ, String, Bool, true, false}
use deckhand.Adapters.{AdapterError}
use deckhand.Models.State.{JobState}

pub data Error : Type 0 where
  -- `StoreError` of store.py, by the place that raises it; `constraint_failed` is a
  -- `sqlite3.IntegrityError`, which `connect` turns into a `StoreError`
  key_reused job_not_found write_lost constraint_failed : Error
  -- `StaleLease`, a subclass of `StoreError`
  stale_lease : Error
  -- `InvalidTransition` of state_machine.py
  invalid_transition : JobState → JobState → Error
  -- pydantic's `ValidationError`
  validation_error : Error
  -- `CatalogError` of catalog.py
  duplicate_action unknown_action target_not_allowed invalid_parameters : Error
  -- the other `ValueError`s, and `TypeError`
  value_error type_error : Error
  -- `AdapterError` of adapters.py and its subclasses
  adapter_error : AdapterError → Error
  -- `CancellationError` of cancellation.py, with its message
  cancellation_error : String → Error
  -- `PolicyUnavailable` of policy.py, and fastapi's `HTTPException`, by its status code
  policy_unavailable : Error
  http_exception : ℕ → Error

pub data Result {ℓ} (A : Type ℓ) : Type ℓ where
  ok : A → Result A
  err : Error → Result A

infixl 5 ◌>>=◌ ◌>>◌
abbrev pub ◌>>=◌ {ℓ κ} : {A : Type ℓ} {B : Type κ} → Result A → (A → Result B) → Result B
ok a >>= f = f a
err e >>= f = err e

abbrev pub ◌>>◌ {ℓ κ} : {A : Type ℓ} {B : Type κ} → Result A → Result B → Result B
m >> k = m >>= λ _. k

abbrev pub is_ok {ℓ} : {A : Type ℓ} → Result A → Bool
is_ok (ok _) = true
is_ok (err _) = false

abbrev pub is_stale_lease : Error → Bool
is_stale_lease stale_lease = true
is_stale_lease _ = false

-- `CatalogError`
abbrev pub is_catalog_error : Error → Bool
is_catalog_error duplicate_action = true
is_catalog_error unknown_action = true
is_catalog_error target_not_allowed = true
is_catalog_error invalid_parameters = true
is_catalog_error _ = false

-- `StoreError`, with its subclass
abbrev pub is_store_error : Error → Bool
is_store_error key_reused = true
is_store_error job_not_found = true
is_store_error write_lost = true
is_store_error constraint_failed = true
is_store_error stale_lease = true
is_store_error _ = false
