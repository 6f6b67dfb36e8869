-- ===== src/Store/Audit.antt =====
-- The hash-chained audit log of apps/broker/src/deckhand/store.py: `_chain_hash`, `_append_audit`,
-- `verify_audit_chain`, `list_audit_events`.
pub mod Chain
pub mod Tamper
use deckhand.Base.{
  ℕ, ◌+◌, String, Bool, true, false, not, ◌&&◌, Option, none, some, List, [], ◌∷◌, ◌++◌, same, join,
  is_ascii, ltb, take, min, if◌then◌else◌, keep,
}
use deckhand.Json.{Object, object}
use deckhand.Result
use deckhand.Result.{Result, ok, err, type_error, constraint_failed}
use deckhand.External.{External}
use deckhand.Store.Rows.{AuditRow, Db, has_hash}
use deckhand.Store.Tx.{Tx, ◌>>=◌, ◌>>◌, pure, select, write, require}

-- `class Store`: the audit key that it was built with, and the library functions that it calls.
pub record Store : Type 0 where
  pub external : External
  pub audit_hmac_key : Option String

-- What a call reads from its surroundings: the time at its start; for the audit event with a given
-- sequence number, the time at which it is appended and the placeholder of its hash.
pub record Moment : Type 0 where
  pub now : ℕ
  pub audit_at : ℕ → ℕ
  pub placeholder : ℕ → String

-- `"0" * 64`
abbrev pub genesis : String
genesis = "0000000000000000000000000000000000000000000000000000000000000000"

-- `hmac.compare_digest` on two `str`: it accepts ASCII only.
unfoldable pub compare_digest : String → String → Result Bool
compare_digest a b = if is_ascii a && is_ascii b then ok (same a b) else err type_error

-- `previous["event_hash"] if previous else "0" * 64`
unfoldable pub last_hash : String → List AuditRow → String
last_hash hash [] = hash
last_hash hash (r ∷ rs) = last_hash r.event_hash rs

module _ (store : Store) where
  open store use {external as x}

  -- The text that is signed.
  unfoldable pub material :
      (sequence : ℕ) (previous_hash occurred_at event_type payload_json : String) → String
  material sequence previous_hash occurred_at event_type payload_json =
      join "\u{1f}"
        (x.str_int sequence ∷ previous_hash ∷ occurred_at ∷ event_type ∷ payload_json ∷ [])

  -- With a key the digest is keyed; without one it is a plain hash.
  unfoldable pub sign : Option String → String → String
  sign none text = x.sha256 text
  sign (some key) text = x.hmac_sha256 key text

  unfoldable pub chain_hash :
      (sequence : ℕ) (previous_hash occurred_at event_type payload_json : String) → String
  unfolding sign
  chain_hash sequence previous_hash occurred_at event_type payload_json =
      sign store.audit_hmac_key
        (material sequence previous_hash occurred_at event_type payload_json)

  -- The row that `_append_audit` leaves: the INSERT with a placeholder for the hash, and the UPDATE of
  -- the hash.
  unfoldable pub sealed : Moment → ℕ → String → String → Object → AuditRow
  sealed m sequence previous_hash event_type payload =
      let occurred_at = x.isoformat (m.audit_at sequence) in
      let payload_json = x.dumps (object payload) in
      record {
        sequence = sequence;
        occurred_at = occurred_at;
        event_type = event_type;
        payload_json = payload_json;
        previous_hash = previous_hash;
        event_hash = chain_hash sequence previous_hash occurred_at event_type payload_json;
      }

  unfoldable pub append_audit : Moment → String → Object → Tx Unit
  append_audit m event_type payload db =
      let sequence = db.last_sequence + 1 in
      let row = sealed m sequence (last_hash genesis db.audit_events) event_type payload in
      if has_hash (m.placeholder sequence) db.audit_events
      then err constraint_failed
      else if has_hash row.event_hash db.audit_events
      then err constraint_failed
      else ok
          (tt, record db { audit_events = db.audit_events ++ row ∷ []; last_sequence = sequence })

  -- The loop of `verify_audit_chain`.
  unfoldable pub verify_rows : String → List AuditRow → Result Bool
  verify_rows previous_hash [] = ok true
  verify_rows previous_hash (row ∷ rows) =
      let rest = verify_rows row.event_hash rows in
      let expected =
        chain_hash row.sequence previous_hash row.occurred_at row.event_type row.payload_json in
      if not (same row.previous_hash previous_hash)
      then ok false
      else Result.◌>>=◌ (compare_digest expected row.event_hash)
          λ equal. if not equal then ok false else rest

  unfoldable pub verify_audit_chain : Db → Result Bool
  verify_audit_chain db = verify_rows genesis db.audit_events

-- `SELECT * FROM audit_events WHERE sequence > ? ORDER BY sequence LIMIT ?`
unfoldable pub list_audit_events : ℕ → ℕ → Db → List AuditRow
list_audit_events after_sequence limit db =
    take (min limit 1000) (keep (λ row. ltb after_sequence row.sequence) db.audit_events)
