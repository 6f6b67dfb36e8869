-- ===== src/Tests/Toy.antt =====
-- Concrete requests, rows and moments, and two instances of the library functions: one whose digests
-- do not collide, and one whose digests are ASCII.
use package.text.Mathlib.TextLemmas.{length-cons}
use Prim.Native.String.{String, [], ◌∷◌, count}
use deckhand.Base.{ℕ, zero, suc, ◌≡◌, refl, sym, ap, ◌∙◌, none, some, true, false, is_ascii, arith}
use mathlib.Core.List
use deckhand.Json.{Json, end, field, number, text, object}
use deckhand.Models.State.{JobState}
use deckhand.Models.Request.{ActionRequest, Subject, confirm}
use deckhand.External.{External}
use deckhand.Store.Rows.{JobRow, ConfirmationRow, Db}
use deckhand.Store.Audit.{Store, Moment}
use deckhand.Store.Audit.Chain.{IsHex}
use deckhand.Store.Updates.{lease_expired}

abbrev pub request : ActionRequest
request = record {
  action_id = "light.toggle";
  action_version = 1;
  target = record { type = "light"; id = "desk" };
  parameters = end;
  context = record { profile = none; frontmost_app = none; client = "deck"; control = some "k1" };
  idempotency_key = "key-1";
  dry_run = false;
  confirmation_token = none;
  confirmation_response = none;
}

abbrev pub other_request : ActionRequest
other_request = record request { action_id = "light.dim" }

abbrev pub subject : Subject
subject = record { name = "ann"; device = "deck-1"; channel = "http" }

-- A text of `n` digits.
unfoldable pub unary : ℕ → String
unary zero = []
unary (suc n) = "1" ∷ unary n

count-unary : (n : ℕ) → count (unary n) ≡ n
unfolding unary
count-unary zero = refl
count-unary (suc n) = length-cons _ (unary n) ∙ ap suc (count-unary n)

pub unary-injective : (m n : ℕ) → unary m ≡ unary n → m ≡ n
unary-injective m n e = sym (count-unary m) ∙ ap count e ∙ count-unary n

pub is_ascii-unary : (n : ℕ) → is_ascii (unary n) ≡ true
unfolding unary is_ascii
is_ascii-unary zero = ground arith
is_ascii-unary (suc n) = ground (arith, is_ascii-unary n)

unfoldable pub dumped : Json → String
dumped (text s) = s
dumped (number s) = s
dumped (object (field key value rest)) = dumped value
dumped _ = "{}"

abbrev pub library : (String → String) → External
library digest = record {
  str_int = unary;
  isoformat = unary;
  dumps = dumped;
  dumps_result = λ o. "{}";
  loads_result = λ s. some end;
  sha256 = digest;
  hmac_sha256 = λ key t. digest t;
  dump_request = λ r. r.action_id;
  validate_request = λ s. some (record request { action_id = s });
  dump_subject = λ s. s.name;
  validate_subject = λ s. some subject;
  dump_error = λ e. e.code;
  validate_error = λ s. some lease_expired;
  dump_datetime = unary;
  repr = λ s. s;
  validate_execution = λ o. none;
}

-- Digests that do not collide.
abbrev pub plain : Store
plain = record { external = library (λ t. t); audit_hmac_key = none }

-- Digests that are ASCII.
abbrev pub ascii : Store
ascii = record { external = library (λ t. unary (count t)); audit_hmac_key = some "key" }

pub ascii-IsHex : IsHex ascii
ascii-IsHex = record {
  sha256 = λ t. is_ascii-unary (count t);
  hmac_sha256 = λ key t. is_ascii-unary (count t);
}

abbrev pub at : ℕ → Moment
at now = record { now = now; audit_at = λ n. now; placeholder = λ n. "pending" }

abbrev pub empty : Db
empty = record {
  jobs = List.[];
  confirmations = List.[];
  audit_events = List.[];
  last_sequence = 0;
}

-- A job in a state, without a lease.
abbrev pub job : JobState → JobRow
job state = record {
  id = "job-1";
  idempotency_key = "key-1";
  request_json = "light.toggle";
  request_digest = "light.toggle";
  subject_json = "ann";
  state = state;
  lease_owner = none;
  lease_token = none;
  lease_expires_at = none;
  reconcile_attempts = 0;
  result_json = none;
  error = none;
  created_at = 1;
  updated_at = 1;
}

abbrev pub with_job : JobRow → Db
with_job row = record empty { jobs = List.◌∷◌ row List.[] }

abbrev pub confirmation : ConfirmationRow
confirmation = record {
  id = "conf-1";
  token_hash = "secret";
  confirmation_digest = "light.toggle";
  subject_name = "ann";
  subject_device = "deck-1";
  control = some "k1";
  mode = confirm;
  expected_response = none;
  expires_at = 9;
  used_at = none;
  created_at = 1;
}

abbrev pub with_confirmation : Db
with_confirmation = record empty { confirmations = List.◌∷◌ confirmation List.[] }
