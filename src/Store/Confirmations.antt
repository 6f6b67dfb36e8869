-- ===== src/Store/Confirmations.antt =====
-- Confirmations: `create_confirmation`, `consume_confirmation` with `_confirmation_reject_reason`, and
-- `cancel_confirmation` of apps/broker/src/deckhand/store.py. Each is the body of one transaction; the
-- fresh identifier and the fresh token are arguments.
use deckhand.Base.{
  ℕ, ◌+◌, String, Bool, true, false, not, ◌&&◌, Option, none, some, [], ◌∷◌, ◌++◌, same,
  same_option, leb, if◌then◌else◌,
}
use deckhand.Json.{end, field, text, optional_text}
use deckhand.Result
use deckhand.Result.{Result, ok, err, constraint_failed}
use deckhand.Models.Request.{
  ActionRequest, Subject, ConfirmationChallenge, ConfirmationMode, no_confirmation, confirm, hold,
  typed, dual_control, policy,
}
use deckhand.Digests.{confirmation_digest}
use deckhand.Store.Rows.{ConfirmationRow, Db, newest, find_confirmation, set_used}
use deckhand.Store.Tx.{Tx, ◌>>=◌, ◌>>◌, pure, lift, select, write}
use deckhand.Store.Audit.{Store, Moment, append_audit, compare_digest}
use deckhand.Store.Jobs.{subject_json}
use deckhand.Store.Updates.{seconds, is_null}

-- `ConfirmationMode.value`
unfoldable pub mode_value : ConfirmationMode → String
mode_value no_confirmation = "none"
mode_value confirm = "confirm"
mode_value hold = "hold"
mode_value typed = "typed"
mode_value dual_control = "dual_control"
mode_value policy = "policy"

-- `request.target.id if mode == ConfirmationMode.TYPED else None`
abbrev pub expected_for : ConfirmationMode → String → Option String
expected_for typed id = some id
expected_for _ id = none

pub data RejectReason : Type 0 where
  no_matching_confirmation token_mismatch expired control_mismatch : RejectReason
  typed_response_mismatch : RejectReason

unfoldable pub reason_text : RejectReason → String
reason_text no_matching_confirmation = "no_matching_confirmation"
reason_text token_mismatch = "token_mismatch"
reason_text expired = "expired"
reason_text control_mismatch = "control_mismatch"
reason_text typed_response_mismatch = "typed_response_mismatch"

-- `response or ""`
abbrev pub response_text : Option String → String
response_text none = ""
response_text (some s) = s

-- The test of the expected response, the last of `_confirmation_reject_reason`.
unfoldable pub typed_reason : Option String → Option String → Result (Option RejectReason)
typed_reason none response = ok none
typed_reason (some expected) response =
    Result.◌>>=◌ (compare_digest expected (response_text response))
      λ equal. if not equal then ok (some typed_response_mismatch) else ok none

unfoldable pub row_reason :
    ConfirmationRow → String → ActionRequest → Option String → ℕ → Result (Option RejectReason)
unfolding typed_reason
row_reason row token_hash request response now =
    Result.◌>>=◌ (compare_digest row.token_hash token_hash) λ equal.
      if not equal
      then ok (some token_mismatch)
      else if leb row.expires_at now
      then ok (some expired)
      else if not (same_option row.control request.context.control)
      then ok (some control_mismatch)
      else typed_reason row.expected_response response

unfoldable pub confirmation_reject_reason :
    Option ConfirmationRow
    → String
    → ActionRequest
    → Option String
    → ℕ
    → Result (Option RejectReason)
unfolding row_reason
confirmation_reject_reason none token_hash request response now = ok (some no_matching_confirmation)
confirmation_reject_reason (some row) token_hash request response now =
    row_reason row token_hash request response now

-- The WHERE clause of `consume_confirmation`.
unfoldable pub is_pending : String → Subject → ConfirmationRow → Bool
is_pending digest subject r =
    same r.confirmation_digest digest
    && same r.subject_name subject.name
    && same r.subject_device subject.device
    && is_null r.used_at

-- An `INSERT INTO confirmations`: `id` is the primary key.
unfoldable pub insert_confirmation : ConfirmationRow → Tx Unit
insert_confirmation row db = elim (find_confirmation row.id db.confirmations) [
  | some _ ↦ err constraint_failed
  | none ↦ ok (tt, record db { confirmations = db.confirmations ++ row ∷ [] })
]

-- `UPDATE confirmations SET used_at = ? WHERE id = ?`
unfoldable pub use_up : ℕ → String → Tx Unit
use_up now id = write (λ db. record db { confirmations = set_used now id db.confirmations })

-- The row that `cancel_confirmation` selects.
unfoldable pub cancellable : String → Subject → Db → Option ConfirmationRow
cancellable confirmation_id subject db = elim (find_confirmation confirmation_id db.confirmations) [
  | none ↦ none
  | some r ↦
      if same r.subject_name subject.name
        && same r.subject_device subject.device
        && is_null r.used_at
      then some r
      else none
]

module _ (store : Store) where
  open store use {external as x}

  unfoldable pub new_confirmation :
      Moment → String → String → ActionRequest → Subject → ConfirmationMode → ℕ → ConfirmationRow
  new_confirmation m confirmation_id token request subject mode ttl_seconds = record {
    id = confirmation_id;
    token_hash = x.sha256 token;
    confirmation_digest = confirmation_digest x request;
    subject_name = subject.name;
    subject_device = subject.device;
    control = request.context.control;
    mode = mode;
    expected_response = expected_for mode request.target.id;
    expires_at = m.now + seconds ttl_seconds;
    used_at = none;
    created_at = m.now;
  }

  unfoldable pub create_confirmation :
      Moment
      → (confirmation_id token : String) → ActionRequest
      → Subject
      → ConfirmationMode
      → (prompt : String) (ttl_seconds : ℕ) → Tx ConfirmationChallenge
  unfolding insert_confirmation new_confirmation mode_value
  create_confirmation m confirmation_id token request subject mode prompt ttl_seconds = do
    insert_confirmation (new_confirmation m confirmation_id token request subject mode ttl_seconds)
    append_audit store m "confirmation.created" (
        field "confirmation_id" (text confirmation_id) (
          field "confirmation_digest" (text (confirmation_digest x request)) (
            field "mode" (text (mode_value mode))
              (field "control" (optional_text request.context.control) end))))
    pure (record {
      id = confirmation_id;
      token = token;
      mode = mode;
      expires_at = m.now + seconds ttl_seconds;
      prompt = prompt;
    })

  reject : Moment → ActionRequest → Subject → RejectReason → Tx Bool
  unfolding subject_json reason_text
  reject m request subject reason = do
    append_audit store m "confirmation.rejected" (
        field "confirmation_digest" (text (confirmation_digest x request))
          (field "subject" (subject_json subject) (field "reason" (text (reason_text reason)) end)))
    pure false

  accept : Moment → ActionRequest → Option ConfirmationRow → Tx Bool
  accept m request none = pure true
  accept m request (some row) = do
    use_up m.now row.id
    append_audit store m "confirmation.consumed" (
        field "confirmation_id" (text row.id)
          (field "confirmation_digest" (text (confirmation_digest x request)) end))
    pure true

  unfoldable pub conclude :
      Moment → ActionRequest → Subject → Option ConfirmationRow → Option RejectReason → Tx Bool
  unfolding reject accept
  conclude m request subject row (some reason) = reject m request subject reason
  conclude m request subject row none = accept m request row

  unfoldable pub consume_confirmation :
      Moment → ActionRequest → Subject → (token : String) (response : Option String) → Tx Bool
  unfolding confirmation_reject_reason is_pending
  consume_confirmation m request subject token response = do
    row ←
        select (λ db. newest (is_pending (confirmation_digest x request) subject) db.confirmations)
    reason ← lift (confirmation_reject_reason row (x.sha256 token) request response m.now)
    conclude m request subject row reason

  unfoldable pub cancel_found : Moment → String → Subject → Option ConfirmationRow → Tx Bool
  unfolding subject_json
  cancel_found m confirmation_id subject none = pure false
  cancel_found m confirmation_id subject (some row) = do
    use_up m.now confirmation_id
    append_audit store m "confirmation.cancelled" (
        field "confirmation_id" (text confirmation_id) (field "subject" (subject_json subject) end))
    pure true

  unfoldable pub cancel_confirmation : Moment → String → Subject → Tx Bool
  unfolding cancellable
  cancel_confirmation m confirmation_id subject = do
    found ← select (cancellable confirmation_id subject)
    cancel_found m confirmation_id subject found
