-- ===== src/Store/Growth.antt =====
-- What no operation undoes: the audit log is appended to and keeps verifying, and a confirmation that
-- is used stays used.
pub mod Rules
pub mod Calls
use deckhand.Base.{ℕ, String, ◌≡◌, ap, sym, ◌∙◌, true, none, List, [], ◌∷◌, ◌++◌, arith}
use mathlib.Core.Path.{subst}
use mathlib.Core.List.{append-nil, append_assoc}
use deckhand.Json.{Object}
use deckhand.Result.{ok}
use deckhand.Store.Rows.{Db, AuditRow, JobRow, ConfirmationRow, set_used}
use deckhand.Store.Audit.{Store, Moment, append_audit, verify_audit_chain}
use deckhand.Store.Audit.Chain.{IsHex, append_audit-Appends, append_audit-verifies}
use deckhand.Store.Ensures.{Ensures, IsPreorder}

-- Row by row: one confirmation later. Only `used_at` may change, and only where it was null.
pub record Lasts (r s : ConfirmationRow) : Type 0 where
  pub id : s.id ≡ r.id
  pub token_hash : s.token_hash ≡ r.token_hash
  pub confirmation_digest : s.confirmation_digest ≡ r.confirmation_digest
  pub expires_at : s.expires_at ≡ r.expires_at
  pub used : s.used_at ≡ none → r.used_at ≡ none

-- The later table has the rows of the earlier one, in their places, and perhaps more.
abbrev pub Keeps : List ConfirmationRow → List ConfirmationRow → Type 0
Keeps [] later = Unit
Keeps (r ∷ rs) [] = ⊥
Keeps (r ∷ rs) (s ∷ ss) = Lasts r s × Keeps rs ss

Lasts-refl : (r : ConfirmationRow) → Lasts r r
Lasts-refl r = ground arith

Lasts-trans : (a b c : ConfirmationRow) → Lasts a b → Lasts b c → Lasts a c
Lasts-trans a b c h k = record {
  id = k.id ∙ h.id;
  token_hash = k.token_hash ∙ h.token_hash;
  confirmation_digest = k.confirmation_digest ∙ h.confirmation_digest;
  expires_at = k.expires_at ∙ h.expires_at;
  used = λ e. h.used (k.used e);
}

pub Keeps-refl : (rs : List ConfirmationRow) → Keeps rs rs
Keeps-refl [] = tt
Keeps-refl (r ∷ rs) = (Lasts-refl r, Keeps-refl rs)

Keeps-trans : (xs ys zs : List ConfirmationRow) → Keeps xs ys → Keeps ys zs → Keeps xs zs
Keeps-trans [] ys zs h k = tt
Keeps-trans (a ∷ xs) [] zs h k = absurd h
Keeps-trans (a ∷ xs) (b ∷ ys) [] h k = absurd k
Keeps-trans (a ∷ xs) (b ∷ ys) (c ∷ zs) h k =
    (Lasts-trans a b c h.0 k.0, Keeps-trans xs ys zs h.1 k.1)

pub Keeps-append : (rs : List ConfirmationRow) (r : ConfirmationRow) → Keeps rs (rs ++ r ∷ [])
Keeps-append [] r = tt
Keeps-append (s ∷ rs) r = (Lasts-refl s, Keeps-append rs r)

pub Keeps-set_used :
    (now : ℕ) (id : String) (rs : List ConfirmationRow) → Keeps rs (set_used now id rs)
unfolding set_used
Keeps-set_used now id [] = tt
Keeps-set_used now id (r ∷ rs) = (ground arith, Keeps-set_used now id rs)

module _ (store : Store) where
  -- What any call leaves of the log and of the confirmations.
  pub record Grows (db db' : Db) : Type 0 where
    pub verifies : verify_audit_chain store db ≡ ok true → verify_audit_chain store db' ≡ ok true
    pub appended : List AuditRow
    pub log : db'.audit_events ≡ db.audit_events ++ appended
    pub confirmations : Keeps db.confirmations db'.confirmations

  pub Grows-order : IsPreorder Grows
  Grows-order = record {
    refl' = λ db. record {
      verifies = λ h. h;
      appended = [];
      log = sym (append-nil db.audit_events);
      confirmations = Keeps-refl db.confirmations;
    };
    trans = λ a b c h k. record {
      verifies = λ v. k.verifies (h.verifies v);
      appended = h.appended ++ k.appended;
      log =
          k.log
          ∙ ap (λ l. l ++ k.appended) h.log
          ∙ append_assoc a.audit_events h.appended k.appended;
      confirmations =
          Keeps-trans a.confirmations b.confirmations c.confirmations h.confirmations
            k.confirmations;
    };
  }

  pub Ensures-append_audit :
      IsHex store
      → (m : Moment) (event_type : String) (payload : Object)
      → Ensures Grows (append_audit store m event_type payload)
  Ensures-append_audit hex m event_type payload = record {
    at = λ db u db' e.
        let a = append_audit-Appends store m event_type payload db db' e in
        record {
          verifies = λ v. append_audit-verifies store hex m event_type payload db db' v e;
          appended = _;
          log = a.log;
          confirmations =
              subst (Keeps db.confirmations) (sym a.confirmations) (Keeps-refl db.confirmations);
        };
  }

  -- A write to the job table.
  pub Grows-jobs : (db : Db) (jobs : List JobRow) → Grows db (record db { jobs = jobs })
  Grows-jobs db jobs = record {
    verifies = unfold verify_audit_chain in λ v. v;
    appended = [];
    log = sym (append-nil db.audit_events);
    confirmations = Keeps-refl db.confirmations;
  }

  -- A write to the confirmations.
  pub Grows-confirmations :
      (db : Db) (rows : List ConfirmationRow)
      → Keeps db.confirmations rows
      → Grows db (record db { confirmations = rows })
  Grows-confirmations db rows h = record {
    verifies = unfold verify_audit_chain in λ v. v;
    appended = [];
    log = sym (append-nil db.audit_events);
    confirmations = h;
  }
