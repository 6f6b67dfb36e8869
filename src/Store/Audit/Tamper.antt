-- ===== src/Store/Audit/Tamper.antt =====
-- The audit log shows tampering: `verify_audit_chain` accepts one log of a given length and last hash.
use deckhand.Base.{String, ℕ, ◌≡◌, refl, All, true, List, [], ◌∷◌, length, same_iff, arith}
use deckhand.Base.Separators.{separators, join_five}
use deckhand.Result.{ok}
use deckhand.Store.Rows.{AuditRow, Db}
use deckhand.Store.Audit.{
  Store, genesis, compare_digest, last_hash, sign, material, chain_hash, verify_rows,
  verify_audit_chain,
}

-- What is relied on: the digest does not collide, and `str` of an integer determines it.
pub record IsBinding (store : Store) : Type 0 where
  pub digest :
      (a b : String) → sign store store.audit_hmac_key a ≡ sign store store.audit_hmac_key b → a ≡ b
  pub ints : (m n : ℕ) → store.external.str_int m ≡ store.external.str_int n → m ≡ n

-- No signed part of a row holds the separator U+001F.
pub record IsClean (store : Store) (row : AuditRow) : Type 0 where
  pub sequence : separators (store.external.str_int row.sequence) ≡ 0
  pub previous_hash : separators row.previous_hash ≡ 0
  pub occurred_at : separators row.occurred_at ≡ 0
  pub event_type : separators row.event_type ≡ 0
  pub payload_json : separators row.payload_json ≡ 0

module _ (store : Store) (b : IsBinding store) where
  -- Rows with one event hash, of which the first holds no separator, agree in all that was signed.
  signed_alike :
      (r s : AuditRow)
      → IsClean store r
      → chain_hash store r.sequence r.previous_hash r.occurred_at r.event_type r.payload_json
        ≡ chain_hash store s.sequence s.previous_hash s.occurred_at s.event_type s.payload_json
      → r.event_hash ≡ s.event_hash
      → (r ≡ s) × (r.previous_hash ≡ s.previous_hash)
  unfolding chain_hash material
  signed_alike r s clean e hashes =
      let parts =
        join_five _ r.previous_hash r.occurred_at r.event_type r.payload_json _ _ _ _ _
          (omega arith) (b.digest _ _ e) in
      let ids = b.ints r.sequence s.sequence parts.first in (ground arith, parts.second)

  verified_row :
      (hash : String) (r : AuditRow) (rs : List AuditRow)
      → verify_rows store hash (r ∷ rs) ≡ ok true
      → (r.previous_hash ≡ hash)
        × (chain_hash store r.sequence hash r.occurred_at r.event_type r.payload_json
            ≡ r.event_hash)
        × (verify_rows store r.event_hash rs ≡ ok true)
  unfolding verify_rows compare_digest
  verified_row hash r rs h = ground (
    arith,
    same_iff r.previous_hash hash,
    same_iff (chain_hash store r.sequence hash r.occurred_at r.event_type r.payload_json)
        r.event_hash,
  )

  verified_alike :
      (p q : String) (rs ss : List AuditRow)
      → All (IsClean store) rs
      → verify_rows store p rs ≡ ok true
      → verify_rows store q ss ≡ ok true
      → length rs ≡ length ss
      → last_hash p rs ≡ last_hash q ss
      → (p ≡ q) × (rs ≡ ss)
  unfolding last_hash
  verified_alike p q [] [] clean h k len e = (e, refl)
  verified_alike p q [] (s ∷ ss) clean h k len e = absurd (omega arith)
  verified_alike p q (r ∷ rs) [] clean h k len e = absurd (omega arith)
  verified_alike p q (r ∷ rs) (s ∷ ss) clean h k len e =
      let vr = verified_row p r rs h in
      let vs = verified_row q s ss k in
      let (hashes, tails) =
        verified_alike r.event_hash s.event_hash rs ss clean.1 vr.2 vs.2 (omega arith) e in
      let (rows, previous) =
        signed_alike r s clean.0 (cc (vr.0, vr.1, vs.0, vs.1, hashes)) hashes in
      (cc (vr.0, vs.0, previous), cc (rows, tails))

  -- Where digests do not collide, a log of clean rows that verifies is the only verifying log of its
  -- length that ends in its last hash: every change of a row, every reordering and every exchange of
  -- rows is found.
  pub verify_audit_chain-binds :
      (db db' : Db)
      → All (IsClean store) db.audit_events
      → verify_audit_chain store db ≡ ok true
      → verify_audit_chain store db' ≡ ok true
      → length db.audit_events ≡ length db'.audit_events
      → last_hash genesis db.audit_events ≡ last_hash genesis db'.audit_events
      → db.audit_events ≡ db'.audit_events
  unfolding verify_audit_chain
  verify_audit_chain-binds db db' clean h k len e =
      (verified_alike genesis genesis db.audit_events db'.audit_events clean h k len e).1
