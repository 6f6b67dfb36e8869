-- ===== src/Store/Rows.antt =====
-- The tables of `SCHEMA` in apps/broker/src/deckhand/store.py, and what its SQL does with their rows.
-- A table is the list of its rows in the order of insertion. A time is a number of microseconds; the
-- columns hold its ISO text, and SQL's order of these texts, all in UTC, is the order of the times.
use deckhand.Base.{
  ℕ, String, Bool, false, ◌||◌, Option, none, some, List, [], ◌∷◌, same, ltb, leb, if◌then◌else◌,
}
use deckhand.Models.State.{JobState}
use deckhand.Models.Request.{ConfirmationMode}

pub record JobRow : Type 0 where
  pub id : String
  pub idempotency_key : String
  pub request_json : String
  pub request_digest : String
  pub subject_json : String
  pub state : JobState
  pub lease_owner : Option String
  pub lease_token : Option String
  pub lease_expires_at : Option ℕ
  pub reconcile_attempts : ℕ
  pub result_json : Option String
  pub error : Option String
  pub created_at : ℕ
  pub updated_at : ℕ

pub record ConfirmationRow : Type 0 where
  pub id : String
  pub token_hash : String
  pub confirmation_digest : String
  pub subject_name : String
  pub subject_device : String
  pub control : Option String
  pub mode : ConfirmationMode
  pub expected_response : Option String
  pub expires_at : ℕ
  pub used_at : Option ℕ
  pub created_at : ℕ

pub record AuditRow : Type 0 where
  pub sequence : ℕ
  pub occurred_at : String
  pub event_type : String
  pub payload_json : String
  pub previous_hash : String
  pub event_hash : String

-- The database. Audit rows are inserted with growing sequence numbers and never deleted, so their
-- order of insertion is their order by sequence; `last_sequence` is the AUTOINCREMENT counter.
pub record Db : Type 0 where
  pub jobs : List JobRow
  pub confirmations : List ConfirmationRow
  pub audit_events : List AuditRow
  pub last_sequence : ℕ

-- `SELECT * FROM jobs WHERE id = ?`
unfoldable pub find_job : String → List JobRow → Option JobRow
find_job id [] = none
find_job id (r ∷ rs) = if same r.id id then some r else find_job id rs

-- `SELECT * FROM jobs WHERE idempotency_key = ?`
unfoldable pub find_key : String → List JobRow → Option JobRow
find_key key [] = none
find_key key (r ∷ rs) = if same r.idempotency_key key then some r else find_key key rs

-- `UPDATE jobs SET … WHERE id = ?`
unfoldable pub update_job : String → (JobRow → JobRow) → List JobRow → List JobRow
update_job id f [] = []
update_job id f (r ∷ rs) = (if same r.id id then f r else r) ∷ update_job id f rs

abbrev pub earlier : JobRow → Option JobRow → JobRow
earlier r none = r
earlier r (some s) = if leb r.created_at s.created_at then r else s

-- `SELECT * FROM jobs WHERE … ORDER BY created_at LIMIT 1`, of equal times the one inserted first
unfoldable pub oldest : (JobRow → Bool) → List JobRow → Option JobRow
oldest p [] = none
oldest p (r ∷ rs) = let rest = oldest p rs in if p r then some (earlier r rest) else rest

-- `ORDER BY updated_at`, with equal times in the order of insertion
insert_by_updated_at : JobRow → List JobRow → List JobRow
insert_by_updated_at r [] = r ∷ []
insert_by_updated_at r (s ∷ rs) =
    if leb r.updated_at s.updated_at then r ∷ s ∷ rs else s ∷ insert_by_updated_at r rs

unfoldable pub order_by_updated_at : List JobRow → List JobRow
unfolding insert_by_updated_at
order_by_updated_at [] = []
order_by_updated_at (r ∷ rs) = insert_by_updated_at r (order_by_updated_at rs)

-- `SELECT * FROM confirmations WHERE … ORDER BY created_at DESC LIMIT 1`, of equal times the one
-- inserted first
abbrev pub later : ConfirmationRow → Option ConfirmationRow → ConfirmationRow
later r none = r
later r (some s) = if ltb r.created_at s.created_at then s else r

unfoldable pub newest : (ConfirmationRow → Bool) → List ConfirmationRow → Option ConfirmationRow
newest p [] = none
newest p (r ∷ rs) = let rest = newest p rs in if p r then some (later r rest) else rest

-- `SELECT … FROM confirmations WHERE id = ?`
unfoldable pub find_confirmation : String → List ConfirmationRow → Option ConfirmationRow
find_confirmation id [] = none
find_confirmation id (r ∷ rs) = if same r.id id then some r else find_confirmation id rs

-- `UPDATE confirmations SET used_at = ? WHERE id = ?`
unfoldable pub set_used : ℕ → String → List ConfirmationRow → List ConfirmationRow
set_used now id [] = []
set_used now id (r ∷ rs) =
    (if same r.id id then record r { used_at = some now } else r) ∷ set_used now id rs

-- Whether an audit row has this hash already: the column is UNIQUE.
unfoldable pub has_hash : String → List AuditRow → Bool
has_hash hash [] = false
has_hash hash (r ∷ rs) = same r.event_hash hash || has_hash hash rs
