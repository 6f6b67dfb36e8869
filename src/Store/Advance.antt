-- ===== src/Store/Advance.antt =====
-- The invariant of the job table, and how one update of a row keeps it and moves the row's job along
-- the state machine.
pub mod Steps
pub mod Rows
pub mod Loops
pub mod Everywhere
pub mod Calls
pub mod Sweep
pub mod Expiry
use mathlib.Core.Path.{subst}
use deckhand.Base.{
  ◌≡◌, ◌≢◌, refl, sym, String, Bool, false, Option, none, some, List, [], ◌∷◌, ◌++◌, All,
  All-append, arith,
}
use deckhand.Models.State.{JobState, running, verifying, unknown_outcome, queued, expired}
use deckhand.StateMachine.{require_transition}
use deckhand.StateMachine.Reach.{◌⟶◌, ◌⟶*◌, here, next}
use deckhand.Store.Rows.{JobRow, Db, find_job, update_job}
use deckhand.Store.Audit.{Moment}
use deckhand.Store.Updates.{is_active, moved, leased, released, expire_released, counted, renewed}
use deckhand.Store.Table.{
  IsKeyed, Becomes, Moves, Moves-refl, Moves-trans, Moves-update, All-update, IsKeyed-update,
  IsKeyed-append, Moves-append,
}

-- A job that runs has an owner, a fencing token and an expiry; one that neither runs nor verifies has
-- none of them; and no lease has a token without an expiry, or an expiry without a token.
pub record IsLeaseSound (r : JobRow) : Type 0 where
  pub held :
      r.state ≡ running
      → (r.lease_owner ≢ none) × (r.lease_token ≢ none) × (r.lease_expires_at ≢ none)
  pub idle :
      is_active r.state ≡ false
      → (r.lease_owner ≡ none) × (r.lease_token ≡ none) × (r.lease_expires_at ≡ none)
  pub token : r.lease_token ≡ none → r.lease_expires_at ≡ none
  pub expiry : r.lease_expires_at ≡ none → r.lease_token ≡ none

pub record IsWellFormed (rows : List JobRow) : Type 0 where
  pub keyed : IsKeyed rows
  pub leases : All IsLeaseSound rows

-- From a well-formed table to a well-formed one, each job along the state machine.
pub record Advances (rows rows' : List JobRow) : Type 0 where
  pub well_formed : IsWellFormed rows → IsWellFormed rows'
  pub moves : IsWellFormed rows → Moves rows rows'

pub Advances-refl : (rows : List JobRow) → Advances rows rows
Advances-refl rows = record { well_formed = λ h. h; moves = λ h. Moves-refl rows }

pub Advances-trans : (a b c : List JobRow) → Advances a b → Advances b c → Advances a c
Advances-trans a b c h k = record {
  well_formed = λ w. k.well_formed (h.well_formed w);
  moves = λ w. Moves-trans a b c (h.moves w) (k.moves (h.well_formed w));
}

-- An update that a sound row may have: it keeps what identifies the job, follows an accepted
-- transition or none, and leaves a sound lease.
pub record IsStep (row : JobRow) (f : JobRow → JobRow) : Type 0 where
  pub keeps_id : (r : JobRow) → (f r).id ≡ r.id
  pub becomes : Becomes row (f row)
  pub sound : IsLeaseSound row → IsLeaseSound (f row)

pub Advances-update :
    (rows : List JobRow) (id : String) (f : JobRow → JobRow) (row : JobRow)
    → (IsKeyed rows → find_job id rows ≡ some row)
    → IsStep row f
    → Advances rows (update_job id f rows)
Advances-update rows id f row found s = record {
  well_formed = λ w. record {
    keyed = IsKeyed-update id f s.keeps_id rows w.keyed;
    leases = All-update id f IsLeaseSound rows row w.keyed (found w.keyed) s.sound w.leases;
  };
  moves = λ w. Moves-update id f rows row w.keyed (found w.keyed) s.becomes;
}

-- A job inserted as `queued`, without a lease, under a new identifier.
pub Advances-append :
    (rows : List JobRow) (row : JobRow)
    → find_job row.id rows ≡ none
    → row.state ≡ queued
    → IsLeaseSound row
    → Advances rows (rows ++ row ∷ [])
Advances-append rows row new e sound = record {
  well_formed = λ w. record {
    keyed = IsKeyed-append rows row w.keyed new;
    leases = All-append IsLeaseSound rows (row ∷ []) w.leases (sound, tt);
  };
  moves = λ w. Moves-append rows row e;
}
