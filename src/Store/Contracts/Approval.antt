-- ===== src/Store/Contracts/Approval.antt =====
-- Confirmations: what an approval needs.
pub mod Once
use deckhand.Base.{
  ℕ, ◌<◌, ◌≡◌, ◌≢◌, refl, sym, ap, ◌∙◌, String, Bool, true, false, Option, none, some, List, [],
  ◌∷◌, same_iff, same_option_iff, arith, inl, inr, ◌⊎◌, All,
}
use mathlib.Core.Path.{subst}
use deckhand.Result.{Result, ok, err}
use deckhand.Models.Request.{ActionRequest, Subject}
use deckhand.Digests.{confirmation_digest}
use deckhand.Store.Rows.{ConfirmationRow, Db, newest, set_used}
use deckhand.Store.Tx.{pure, lift}
use deckhand.Store.Audit.{Store, Moment, compare_digest, append_audit}
use deckhand.Store.Audit.Chain.{append_audit-Appends}
use deckhand.Store.Ensures.{bind-ok, never-returned}
use deckhand.Store.Confirmations.{
  RejectReason, response_text, confirmation_reject_reason, is_pending, conclude,
  consume_confirmation, use_up,
}

newest-holds :
    (p : ConfirmationRow → Bool) (rs : List ConfirmationRow) (r : ConfirmationRow)
    → newest p rs ≡ some r
    → p r ≡ true
unfolding newest
newest-holds p [] r h = cc
newest-holds p (s ∷ rs) r h = ground (arith, newest-holds p rs r, newest-holds p rs s)

-- What was checked of the confirmation that approves a request.
pub record Approves (store : Store) (now : ℕ) (request : ActionRequest) (subject : Subject)
    (token : String) (response : Option String) (row : ConfirmationRow) : Type 0 where
  pub digest : row.confirmation_digest ≡ confirmation_digest store.external request
  pub subject_name : row.subject_name ≡ subject.name
  pub subject_device : row.subject_device ≡ subject.device
  pub unused : row.used_at ≡ none
  pub token_hash : row.token_hash ≡ store.external.sha256 token
  pub fresh : now < row.expires_at
  pub control : row.control ≡ request.context.control
  pub typed_response :
      (expected : String)
      → row.expected_response ≡ some expected
      → expected ≡ response_text response

pending-means :
    (digest : String) (subject : Subject) (r : ConfirmationRow)
    → is_pending digest subject r ≡ true
    → (r.confirmation_digest ≡ digest)
      × (r.subject_name ≡ subject.name)
      × (r.subject_device ≡ subject.device)
      × (r.used_at ≡ none)
unfolding is_pending
pending-means digest subject r h = ground (
  arith,
  same_iff r.confirmation_digest digest,
  same_iff r.subject_name subject.name,
  same_iff r.subject_device subject.device,
)

accepted-means :
    (r : ConfirmationRow) (hash : String) (request : ActionRequest) (response : Option String)
    (now : ℕ)
    → confirmation_reject_reason (some r) hash request response now ≡ ok none
    → (r.token_hash ≡ hash)
      × (now < r.expires_at)
      × (r.control ≡ request.context.control)
      × ((expected : String)
          → r.expected_response ≡ some expected
          → expected ≡ response_text response)
unfolding confirmation_reject_reason compare_digest
accepted-means r hash request response now h = (
  ground (arith, same_iff r.token_hash hash),
  ground arith,
  (same_option_iff r.control request.context.control).0 (ground arith),
  λ expected e. ground (arith, same_iff expected (response_text response)),
)

newest-cons :
    (p : ConfirmationRow → Bool) (s : ConfirmationRow) (rs : List ConfirmationRow)
    (r : ConfirmationRow)
    → newest p (s ∷ rs) ≡ some r
    → (s ≡ r) ⊎ (newest p rs ≡ some r)
unfolding newest
newest-cons p s rs r h = ground arith

pub newest-All {ℓ} :
    (Q : ConfirmationRow → Type ℓ) (p : ConfirmationRow → Bool) (rs : List ConfirmationRow)
    (r : ConfirmationRow)
    → newest p rs ≡ some r
    → All Q rs
    → Q r
newest-All Q p [] r h q = unfold newest in cc
newest-All Q p (s ∷ rs) r h q = elim (newest-cons p s rs r h) [
  | inl e ↦ subst Q e q.0
  | inr rest ↦ newest-All Q p rs r rest q.1
]

lift-ok :
    {A : Type 0} (r : Result A) (db : Db) (a : A) (db' : Db)
    → lift r db ≡ ok (a, db')
    → (r ≡ ok a) × (db' ≡ db)
lift-ok (ok b) db a db' h = (cc, cc)
lift-ok (err e) db a db' h = absurd (never-returned e a db' h)

refused : (db db' : Db) → pure false db ≢ ok (true, db')
refused db db' h = cc

conclude-true :
    (store : Store) (m : Moment) (request : ActionRequest) (subject : Subject)
    (row : Option ConfirmationRow) (why : Option RejectReason) (db db' : Db)
    → conclude store m request subject row why db ≡ ok (true, db')
    → why ≡ none
unfolding conclude
conclude-true store m request subject row none db db' h = refl
conclude-true store m request subject row (some reason) db db' h =
    let (u, mid, ran, rest) = bind-ok (append_audit store m "confirmation.rejected" _) _ db h in
    absurd (refused mid db' rest)

conclude-some :
    (store : Store) (m : Moment) (request : ActionRequest) (subject : Subject)
    (row : ConfirmationRow) (db db' : Db)
    → conclude store m request subject (some row) none db ≡ ok (true, db')
    → (db'.confirmations ≡ set_used m.now row.id db.confirmations) × (db'.jobs ≡ db.jobs)
unfolding conclude use_up
conclude-some store m request subject row db db' h =
    let (u, mid, ran, rest) =
      bind-ok (append_audit store m "confirmation.consumed" _) (λ _. pure true)
        (record db { confirmations = set_used m.now row.id db.confirmations }) h in
    let a = append_audit-Appends store m "confirmation.consumed" _ _ mid ran in
    let same_mid : db' ≡ mid = ground arith in
    (
      ap (λ (d : Db). d.confirmations) same_mid ∙ a.confirmations,
      ap (λ (d : Db). d.jobs) same_mid ∙ a.jobs,
    )

module _ (store : Store) where
  open store use {external as x}

  -- A consumed confirmation: the newest pending one for the request, it approves, and its rows are used.
  pub record Consumed (m : Moment) (request : ActionRequest) (subject : Subject) (token : String)
      (response : Option String) (db db' : Db) : Type 0 where
    pub row : ConfirmationRow
    pub selected :
        newest (is_pending (confirmation_digest x request) subject) db.confirmations ≡ some row
    pub approves : Approves store m.now request subject token response row
    pub confirmations : db'.confirmations ≡ set_used m.now row.id db.confirmations
    pub jobs : db'.jobs ≡ db.jobs

  -- A `consume_confirmation` that answers true has found the newest unused confirmation of this request's
  -- digest for this subject and device; the token, the control and, for a typed confirmation, the
  -- response are those it was issued with, it has not expired, and it is now marked as used.
  pub consume_confirmation-Consumed :
      (m : Moment) (request : ActionRequest) (subject : Subject) (token : String)
      (response : Option String) (db db' : Db)
      → consume_confirmation store m request subject token response db ≡ ok (true, db')
      → Consumed m request subject token response db db'
  unfolding consume_confirmation
  consume_confirmation-Consumed m request subject token response db db' h =
      by_row (newest pending db.confirmations) refl
        (bind-ok (lift (reason (newest pending db.confirmations))) _ db h)
    where
      pending : ConfirmationRow → Bool
      pending = is_pending (confirmation_digest x request) subject

      reason : Option ConfirmationRow → Result (Option RejectReason)
      reason row = confirmation_reject_reason row (x.sha256 token) request response m.now

      by_row :
          (row : Option ConfirmationRow)
          → newest pending db.confirmations ≡ row
          → (why : Option RejectReason) × (mid : Db) × (lift (reason row) db ≡ ok (why, mid))
            × (conclude store m request subject row why mid ≡ ok (true, db'))
          → Consumed m request subject token response db db'
      by_row none e (why, mid, judged, concluded) =
          let refused = (lift-ok (reason none) db why mid judged).0 in
          let approved = conclude-true store m request subject none why mid db' concluded in
          absurd (unfold confirmation_reject_reason in cc (refused, approved))
      by_row (some row) e (why, mid, judged, concluded) =
          let (decided, same_mid) = lift-ok (reason (some row)) db why mid judged in
          let approved = conclude-true store m request subject (some row) why mid db' concluded in
          let accepted = decided ∙ ap (λ (w : Option RejectReason). ok w) approved in
          let (digest, name, device, unused) =
            pending-means _ subject row (newest-holds pending db.confirmations row e) in
          let (token_hash, fresh, control, typed) =
            accepted-means row (x.sha256 token) request response m.now accepted in
          let (confirmations, jobs) = conclude-some store m request subject row mid db' (
            subst (λ w. conclude store m request subject (some row) w mid ≡ ok (true, db')) approved
              concluded) in
          record {
            row = row;
            selected = e;
            approves = record {
              digest = digest;
              subject_name = name;
              subject_device = device;
              unused = unused;
              token_hash = token_hash;
              fresh = fresh;
              control = control;
              typed_response = typed;
            };
            confirmations =
                confirmations ∙ ap (λ (d : Db). set_used m.now row.id d.confirmations) same_mid;
            jobs = jobs ∙ ap (λ (d : Db). d.jobs) same_mid;
          }
