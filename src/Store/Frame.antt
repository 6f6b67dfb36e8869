-- ===== src/Store/Frame.antt =====
-- The operations on confirmations and the record of a denial leave the job table alone.
use deckhand.Base.{ℕ, String, ◌≡◌, refl, ◌∙◌, Option, none, some, arith}
use deckhand.Json.{Object}
use deckhand.Result.{Result}
use deckhand.Models.Request.{ActionRequest, Subject, ConfirmationMode}
use deckhand.Store.Rows.{Db, ConfirmationRow}
use deckhand.Store.Tx.{Tx, ◌>>=◌, pure, lift, select}
use deckhand.Store.Audit.{Store, Moment, append_audit}
use deckhand.Store.Jobs.{record_policy_denial}
use deckhand.Store.Confirmations.{
  RejectReason, insert_confirmation, use_up, create_confirmation, conclude, consume_confirmation,
  cancel_found, cancel_confirmation,
}
use deckhand.Store.Ensures.{
  Ensures, IsPreorder, Ensures-pure, Ensures-lift, Ensures-select, Ensures-bind, Ensures-write,
}

abbrev pub SameJobs : Db → Db → Type 0
SameJobs db db' = db'.jobs ≡ db.jobs

SameJobs-order : IsPreorder SameJobs
SameJobs-order = record { refl' = λ db. refl; trans = λ a b c h k. k ∙ h }

abbrev pub Framed : {A : Type 0} → Tx A → Type 0
Framed m = Ensures SameJobs m

Framed-pure : {A : Type 0} (a : A) → Framed (pure a)
Framed-pure a = Ensures-pure SameJobs-order a

Framed-lift : {A : Type 0} (r : Result A) → Framed (lift r)
Framed-lift r = Ensures-lift SameJobs-order r

Framed-select : {A : Type 0} (f : Db → A) → Framed (select f)
Framed-select f = Ensures-select SameJobs-order f

Framed-bind :
    {A B : Type 0} (m : Tx A) (f : A → Tx B)
    → Framed m
    → ((a : A) → Framed (f a))
    → Framed (m >>= f)
Framed-bind m f h k = Ensures-bind SameJobs-order m f h k

pub Framed-audit :
    (store : Store) (m : Moment) (event_type : String) (payload : Object)
    → Framed (append_audit store m event_type payload)
Framed-audit store m event_type payload = record {
  at = λ db u db' e. unfold append_audit in ground arith;
}

Framed-use_up : (now : ℕ) (id : String) → Framed (use_up now id)
unfolding use_up
Framed-use_up now id = Ensures-write SameJobs-order _ (λ db. refl)

Framed-insert : (row : ConfirmationRow) → Framed (insert_confirmation row)
Framed-insert row = record { at = λ db u db' e. unfold insert_confirmation in ground arith }

ruleset framed_rules = (
  Framed-pure, Framed-lift, Framed-select, Framed-bind, Framed-audit, Framed-use_up, Framed-insert,
)

module _ (store : Store) where
  pub create_confirmation-Framed :
      (m : Moment) (confirmation_id token : String) (request : ActionRequest) (subject : Subject)
      (mode : ConfirmationMode) (prompt : String) (ttl_seconds : ℕ)
      → Framed (
          create_confirmation store m confirmation_id token request subject mode prompt ttl_seconds)
  create_confirmation-Framed m confirmation_id token request subject mode prompt ttl_seconds =
      unfold create_confirmation in search framed_rules

  conclude-Framed :
      (m : Moment) (request : ActionRequest) (subject : Subject) (row : Option ConfirmationRow)
      (reason : Option RejectReason)
      → Framed (conclude store m request subject row reason)
  unfolding conclude
  conclude-Framed m request subject row (some reason) = search framed_rules
  conclude-Framed m request subject none none = search framed_rules
  conclude-Framed m request subject (some row) none = search framed_rules depth 8

  pub consume_confirmation-Framed :
      (m : Moment) (request : ActionRequest) (subject : Subject) (token : String)
      (response : Option String)
      → Framed (consume_confirmation store m request subject token response)
  unfolding consume_confirmation
  consume_confirmation-Framed m request subject token response =
      search (framed_rules, conclude-Framed) depth 8

  cancel_found-Framed :
      (m : Moment) (confirmation_id : String) (subject : Subject) (row : Option ConfirmationRow)
      → Framed (cancel_found store m confirmation_id subject row)
  unfolding cancel_found
  cancel_found-Framed m confirmation_id subject none = search framed_rules
  cancel_found-Framed m confirmation_id subject (some row) = search framed_rules depth 8

  pub cancel_confirmation-Framed :
      (m : Moment) (confirmation_id : String) (subject : Subject)
      → Framed (cancel_confirmation store m confirmation_id subject)
  cancel_confirmation-Framed m confirmation_id subject =
      unfold cancel_confirmation in search (framed_rules, cancel_found-Framed)

  pub record_policy_denial-Framed :
      (m : Moment) (request : ActionRequest) (subject : Subject) (phase reason : String)
      → Framed (record_policy_denial store m request subject phase reason)
  unfolding record_policy_denial
  record_policy_denial-Framed m request subject phase reason = search framed_rules
