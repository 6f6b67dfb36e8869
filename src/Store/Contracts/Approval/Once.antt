-- ===== src/Store/Contracts/Approval/Once.antt =====
-- A confirmation's token approves once, whatever is done to the database in between.
use mathlib.Core.Path.{subst}
use deckhand.Base.{
  ℕ, String, ◌≡◌, ◌≢◌, sym, true, none, Option, List, [], ◌∷◌, ◌++◌, All, arith, same_iff,
}
use deckhand.Result.{ok}
use deckhand.Models.Request.{ActionRequest, Subject}
use deckhand.Store.Rows.{Db, ConfirmationRow, set_used}
use deckhand.Store.Audit.{Store, Moment}
use deckhand.Store.Audit.Chain.{append_audit-Appends}
use deckhand.Store.Confirmations.{consume_confirmation, new_confirmation}
use deckhand.Store.Growth.Rules.{IsClosed}
use deckhand.Store.Operation.{Operation, create_confirmation, run}
use deckhand.Store.Operation.Kept.{Inserts, run-R}
use deckhand.Store.Contracts.Approval.{newest-All, consume_confirmation-Consumed}

-- After `set_used`, every row under the identifier is used.
set_used-All :
    (now : ℕ) (id hash : String) (rs : List ConfirmationRow)
    → All (λ r. r.token_hash ≡ hash → r.id ≡ id) rs
    → All (λ r. r.token_hash ≡ hash → r.used_at ≢ none) (set_used now id rs)
unfolding set_used
set_used-All now id hash [] h = tt
set_used-All now id hash (r ∷ rs) h =
    (λ e u. ground (arith, h.0, same_iff r.id id), set_used-All now id hash rs h.1)

-- Every confirmation with this hash is used.
abbrev IsSpent : String → List ConfirmationRow → Type 0
IsSpent hash = All λ r. r.token_hash ≡ hash → r.used_at ≢ none

abbrev StaysSpent : String → Db → Db → Type 0
StaysSpent hash db db' = IsSpent hash db.confirmations → IsSpent hash db'.confirmations

set_used-IsSpent :
    (now : ℕ) (id hash : String) (rs : List ConfirmationRow)
    → IsSpent hash rs
    → IsSpent hash (set_used now id rs)
unfolding set_used
set_used-IsSpent now id hash [] h = tt
set_used-IsSpent now id hash (r ∷ rs) h =
    (λ e u. ground (arith, h.0), set_used-IsSpent now id hash rs h.1)

append-IsSpent :
    (hash : String) (rs : List ConfirmationRow) (r : ConfirmationRow)
    → r.token_hash ≢ hash
    → IsSpent hash rs
    → IsSpent hash (rs ++ r ∷ [])
append-IsSpent hash [] r other h = (λ e. absurd (other e), tt)
append-IsSpent hash (s ∷ rs) r other h = (h.0, append-IsSpent hash rs r other h.1)

StaysSpent-closed : (store : Store) (hash : String) → IsClosed store (StaysSpent hash)
StaysSpent-closed store hash = record {
  order = record { refl' = λ db h. h; trans = λ a b c h k s. k (h s) };
  audit = λ m event_type payload. record {
    at = λ db u db' e.
        subst (λ rs. IsSpent hash db.confirmations → IsSpent hash rs)
          (sym (append_audit-Appends store m event_type payload db db' e).confirmations) (λ h. h);
  };
  jobs = λ db jobs h. h;
  used = λ now id db. set_used-IsSpent now id hash db.confirmations;
}

module _ (store : Store) where
  open store use {external as x}

  -- A confirmation that is created has a token of its own, with a hash of its own.
  abbrev pub IsOther : String → Moment × Operation → Type 0
  IsOther token (m, create_confirmation id token' request subject mode prompt ttl) =
      x.sha256 token' ≢ x.sha256 token
  IsOther token _ = Unit

  StaysSpent-Inserts :
      (token : String) (m : Moment) (op : Operation)
      → IsOther token (m, op)
      → Inserts store (StaysSpent (x.sha256 token)) (m, op)
  unfolding new_confirmation
  StaysSpent-Inserts token m (create_confirmation id token' request subject mode prompt ttl) other =
      λ db. append-IsSpent (x.sha256 token) db.confirmations _ other
  StaysSpent-Inserts token m _ other = tt

  all-Inserts :
      (token : String) (ops : List (Moment × Operation))
      → All (IsOther token) ops
      → All (Inserts store (StaysSpent (x.sha256 token))) ops
  all-Inserts token [] h = tt
  all-Inserts token ((m, op) ∷ rest) h =
      (StaysSpent-Inserts token m op h.0, all-Inserts token rest h.1)

  -- A token approves once. Where the confirmations that hold its hash have one identifier, and a
  -- `consume_confirmation` with it has answered true, no later call with that token answers true, for any
  -- request, subject and response, whatever operations the processes run in between, at whatever moments,
  -- as long as the confirmations that these create have tokens of other hashes.
  pub consume_confirmation-once :
      (m m' : Moment) (request request' : ActionRequest) (subject subject' : Subject)
      (token id : String) (response response' : Option String) (ops : List (Moment × Operation))
      (db db' db'' : Db)
      → All (λ r. r.token_hash ≡ x.sha256 token → r.id ≡ id) db.confirmations
      → consume_confirmation store m request subject token response db ≡ ok (true, db')
      → All (IsOther token) ops
      → consume_confirmation store m' request' subject' token response' (run store ops db')
        ≢ ok (true, db'')
  consume_confirmation-once m m' request request' subject subject' token id response response' ops
        db db' db'' one h others again =
      let later = run store ops db' in
      let c = consume_confirmation-Consumed store m request subject token response db db' h in
      let d =
        consume_confirmation-Consumed store m' request' subject' token response' later db'' again in
      let same_id =
        newest-All (λ r. r.token_hash ≡ x.sha256 token → r.id ≡ id) _ db.confirmations c.row
          c.selected one c.approves.token_hash in
      let used = set_used-All m.now c.row.id (x.sha256 token) db.confirmations (
        subst (λ j. All (λ r. r.token_hash ≡ x.sha256 token → r.id ≡ j) db.confirmations)
          (sym same_id) one) in
      let spent = subst (IsSpent (x.sha256 token)) (sym c.confirmations) used in
      let still =
        run-R store (StaysSpent-closed store (x.sha256 token)) ops db'
          (all-Inserts token ops others) spent in
      newest-All (λ r. r.token_hash ≡ x.sha256 token → r.used_at ≢ none) _ later.confirmations d.row
        d.selected still d.approves.token_hash d.approves.unused
