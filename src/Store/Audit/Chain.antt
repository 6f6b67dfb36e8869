-- ===== src/Store/Audit/Chain.antt =====
-- The audit log keeps verifying: what `_append_audit` adds is what `verify_audit_chain` accepts.
use deckhand.Base.{
  ℕ, ◌+◌, String, ◌≡◌, true, Option, none, some, List, [], ◌∷◌, ◌++◌, same_refl, is_ascii, arith,
}
use deckhand.Json.{Object}
use deckhand.Result.{ok}
use deckhand.Store.Rows.{AuditRow, Db}
use deckhand.Store.Audit.{
  Store, Moment, genesis, compare_digest, last_hash, sign, chain_hash, sealed, append_audit,
  verify_rows, verify_audit_chain,
}

-- `hexdigest()` returns hexadecimal digits, which are ASCII.
pub record IsHex (store : Store) : Type 0 where
  pub sha256 : (text : String) → is_ascii (store.external.sha256 text) ≡ true
  pub hmac_sha256 : (key text : String) → is_ascii (store.external.hmac_sha256 key text) ≡ true

-- What a successful `_append_audit` leaves: one more row, and every other table as it was.
pub record Appends (store : Store) (m : Moment) (event_type : String) (payload : Object)
    (db db' : Db) : Type 0 where
  pub log :
      db'.audit_events
      ≡ db.audit_events
        ++ sealed store m
            (db.last_sequence + 1)
            (last_hash genesis db.audit_events)
            event_type
            payload
          ∷ []
  pub last_sequence : db'.last_sequence ≡ db.last_sequence + 1
  pub jobs : db'.jobs ≡ db.jobs
  pub confirmations : db'.confirmations ≡ db.confirmations

pub append_audit-Appends :
    (store : Store) (m : Moment) (event_type : String) (payload : Object) (db db' : Db)
    → append_audit store m event_type payload db ≡ ok (tt, db')
    → Appends store m event_type payload db db'
unfolding append_audit
append_audit-Appends store m event_type payload db db' e = ground arith

module _ (store : Store) (hex : IsHex store) where
  is_ascii-sign : (key : Option String) (text : String) → is_ascii (sign store key text) ≡ true
  unfolding sign
  is_ascii-sign none text = hex.sha256 text
  is_ascii-sign (some key) text = hex.hmac_sha256 key text

  compare_digest-sealed :
      (s : ℕ) (p o e j : String)
      → compare_digest (chain_hash store s p o e j) (chain_hash store s p o e j) ≡ ok true
  unfolding compare_digest chain_hash
  compare_digest-sealed s p o e j = simp (is_ascii-sign, same_refl)

  verify_rows-sealed :
      (m : Moment) (s : ℕ) (hash event_type : String) (payload : Object)
      → verify_rows store hash (sealed store m s hash event_type payload ∷ []) ≡ ok true
  unfolding verify_rows sealed
  verify_rows-sealed m s hash event_type payload = simp (same_refl, compare_digest-sealed)

  verify_rows-append :
      (m : Moment) (s : ℕ) (event_type : String) (payload : Object) (hash : String)
      (rows : List AuditRow)
      → verify_rows store hash rows ≡ ok true
      → verify_rows store hash
          (rows ++ sealed store m s (last_hash hash rows) event_type payload ∷ [])
        ≡ ok true
  unfolding verify_rows last_hash
  verify_rows-append m s event_type payload hash [] h =
      verify_rows-sealed m s hash event_type payload
  verify_rows-append m s event_type payload hash (row ∷ rows) h =
      ground (arith, verify_rows-append m s event_type payload row.event_hash rows)

  -- Appending an event to a log that verifies leaves a log that verifies.
  pub append_audit-verifies :
      (m : Moment) (event_type : String) (payload : Object) (db db' : Db)
      → verify_audit_chain store db ≡ ok true
      → append_audit store m event_type payload db ≡ ok (tt, db')
      → verify_audit_chain store db' ≡ ok true
  unfolding append_audit verify_audit_chain
  append_audit-verifies m event_type payload db db' h e = ground (
    arith,
    verify_rows-append m (db.last_sequence + 1) event_type payload genesis db.audit_events,
  )
