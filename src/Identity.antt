-- ===== src/Identity.antt =====
-- Identity tokens: mint_token and verify_token of apps/broker/src/deckhand/identity.py. The keys' files are read by the cryptography library.
pub mod Base64
pub mod Accepts
pub mod Issuer
pub mod RoundTrip
use deckhand.Base.{
  ℕ, ◌+◌, ◌*◌, String, Bool, true, false, not, ◌&&◌, ◌||◌, Option, none, some, List, [], ◌∷◌, ◌++◌,
  same, ltb, if◌then◌else◌,
}
use deckhand.Json.{Json, Object, null, text, object, end, field, get}
use deckhand.Models.Request.{Subject}
use deckhand.Base.{Bytes}
use deckhand.Identity.Base64.{b64u_encode, b64u_decode}

-- What the modules take from Python's library and from the cryptography library.
pub record Crypto : Type 1 where
  pub PrivateKey : Type 0
  pub PublicKey : Type 0
  pub sign : PrivateKey → Bytes → Bytes
  -- whether `verify(signature, data)` raises no `InvalidSignature`
  pub verifies : PublicKey → (signature data' : Bytes) → Bool
  -- `base64.urlsafe_b64encode`, as a text; `base64.urlsafe_b64decode`, with `none` for a `ValueError`
  pub b64encode : Bytes → String
  pub b64decode : String → Option Bytes
  -- `json.dumps(value, separators=(",", ":")).encode()`, with and without `sort_keys=True`
  pub dumps : Object → Bytes
  pub dumps_sorted : Object → Bytes
  -- `json.loads(data)`, with `none` for a `ValueError`
  pub loads : Bytes → Option Json
  -- `isoformat()` of a time in UTC; `datetime.fromisoformat(text)`, with `none` for a `ValueError`, as a
  -- time and whether it has a time zone
  pub isoformat : ℕ → String
  pub fromisoformat : String → Option (ℕ × Bool)

-- `IdentityError`, by the place that raises it.
pub data IdentityError : Type 0 where
  unknown_channel missing_claims invalid_ttl : IdentityError
  not_decodable malformed missing_fields empty_fields : IdentityError
  malformed_timestamps naive_timestamps invalid_signature : IdentityError
  not_yet_valid expired lifetime_exceeded : IdentityError

pub data Checked (A : Type 0) : Type 0 where
  accepted : A → Checked A
  rejected : IdentityError → Checked A

infixl 5 ◌>>=◌ ◌>>◌
abbrev pub ◌>>=◌ : {A B : Type 0} → Checked A → (A → Checked B) → Checked B
accepted a >>= f = f a
rejected e >>= f = rejected e

abbrev pub ◌>>◌ : {A B : Type 0} → Checked A → Checked B → Checked B
m >> k = m >>= λ _. k

abbrev pub pure : {A : Type 0} → A → Checked A
pure a = accepted a

abbrev pub require : Bool → IdentityError → Checked (Unit {0})
require true e = accepted tt
require false e = rejected e

abbrev pub or_reject : {A : Type 0} → Option A → IdentityError → Checked A
or_reject none e = rejected e
or_reject (some a) e = accepted a

-- `_ALLOWED_CHANNELS`
abbrev pub allowed_channel : String → Bool
allowed_channel channel = same channel "tailscale" || same channel "mgmt-mtls" || same channel "mcp"

abbrev pub seconds : ℕ → ℕ
seconds n = n * 1000000

abbrev pub max_ttl : ℕ
max_ttl = 300

abbrev pub max_clock_skew : ℕ
max_clock_skew = 30

-- `_DOMAIN + b"\x1f"`
abbrev pub domain : Bytes
domain =
    100 ∷ 101 ∷ 99 ∷ 107 ∷ 104 ∷ 97 ∷ 110 ∷ 100 ∷ 45 ∷ 105 ∷ 100 ∷ 101 ∷ 110 ∷ 116 ∷ 105 ∷ 116 ∷ 121
    ∷ 45 ∷ 118 ∷ 49 ∷ 31 ∷ []

pub record IdentityClaims : Type 0 where
  pub subject : String
  pub device : String
  pub channel : String
  pub issued_at : ℕ
  pub expires_at : ℕ
  pub nonce : String

unfoldable pub to_subject : IdentityClaims → Subject
to_subject claims = record {
  name = claims.subject;
  device = claims.device;
  channel = claims.channel;
}

abbrev pub is_present : String → Bool
is_present t = not (same t "")

-- A JSON value that is a non-empty text.
abbrev pub present_text : Json → Option String
present_text (text t) = if is_present t then some t else none
present_text v = none

module _ (x : Crypto) where
  open x use {
    PrivateKey, PublicKey, sign, verifies, dumps, dumps_sorted, loads, isoformat, fromisoformat,
  }

  -- The claims as the fields of a dict, before those of `rest`.
  unfoldable pub claims_object : IdentityClaims → Object → Object
  claims_object c rest = field "subject" (text c.subject) (
      field "device" (text c.device) (
        field "channel" (text c.channel) (
          field "issued_at" (text (isoformat c.issued_at)) (
            field "expires_at" (text (isoformat c.expires_at))
              (field "nonce" (text c.nonce) rest)))))

  unfoldable pub canonical_claims : IdentityClaims → Bytes
  unfolding claims_object
  canonical_claims c = domain ++ dumps_sorted (claims_object c end)

  -- The claims with their signature, in the token's form.
  unfoldable pub token_of : PrivateKey → IdentityClaims → String
  unfolding claims_object canonical_claims b64u_encode
  token_of key c = b64u_encode x.b64encode (
      dumps (
        claims_object c
          (field "sig" (text (b64u_encode x.b64encode (sign key (canonical_claims c)))) end)))

  -- `ttl_seconds` is not negative here.
  unfoldable pub mint_token :
      PrivateKey → (subject device channel nonce : String) → (ttl_seconds now : ℕ) → Checked String
  unfolding token_of
  mint_token key subject device channel nonce ttl_seconds now = do
    require (allowed_channel channel) unknown_channel
    require (is_present subject && is_present device && is_present nonce) missing_claims
    require (ltb 0 ttl_seconds && not (ltb max_ttl ttl_seconds)) invalid_ttl
    pure (
        token_of key (record {
          subject = subject;
          device = device;
          channel = channel;
          issued_at = now;
          expires_at = now + seconds ttl_seconds;
          nonce = nonce;
        }))

  abbrev pub dict_of : Json → Checked Object
  dict_of (object o) = accepted o
  dict_of v = rejected malformed

  -- `_b64u_decode(envelope["sig"])`
  abbrev pub signature_of : Json → Option Bytes
  signature_of (text t) = b64u_decode x.b64decode t
  signature_of v = none

  -- `datetime.fromisoformat(value)`
  abbrev pub time_of : Json → Option (ℕ × Bool)
  time_of (text t) = fromisoformat t
  time_of v = none

  -- The claims of the envelope and the signature, before they are checked against each other.
  unfoldable pub read_envelope : Object → Checked (IdentityClaims × Bytes)
  unfolding get b64u_decode
  read_envelope envelope = do
    subject ← or_reject (get "subject" envelope) missing_fields
    device ← or_reject (get "device" envelope) missing_fields
    channel ← or_reject (get "channel" envelope) missing_fields
    issued_at_raw ← or_reject (get "issued_at" envelope) missing_fields
    expires_at_raw ← or_reject (get "expires_at" envelope) missing_fields
    nonce ← or_reject (get "nonce" envelope) missing_fields
    sig ← or_reject (get "sig" envelope) missing_fields
    signature ← or_reject (signature_of sig) missing_fields
    subject_text ← or_reject (present_text subject) empty_fields
    device_text ← or_reject (present_text device) empty_fields
    channel_text ← or_reject (present_text channel) empty_fields
    nonce_text ← or_reject (present_text nonce) empty_fields
    require (allowed_channel channel_text) unknown_channel
    issued ← or_reject (time_of issued_at_raw) malformed_timestamps
    expires ← or_reject (time_of expires_at_raw) malformed_timestamps
    require (issued.1 && expires.1) naive_timestamps
    pure (
      record {
        subject = subject_text;
        device = device_text;
        channel = channel_text;
        issued_at = issued.0;
        expires_at = expires.0;
        nonce = nonce_text;
      },
      signature,
    )

  -- The signature, and the time: a difference `a - b > c` of times is tested as `b + c < a`.
  unfoldable pub check_claims :
      PublicKey → (now : ℕ) → IdentityClaims × Bytes → Checked IdentityClaims
  unfolding canonical_claims
  check_claims key now (c, signature) = do
    require (verifies key signature (canonical_claims c)) invalid_signature
    require (not (ltb (now + seconds max_clock_skew) c.issued_at)) not_yet_valid
    require (not (ltb (c.expires_at + seconds max_clock_skew) now)) expired
    require (not (ltb (c.issued_at + (seconds max_ttl + seconds max_clock_skew)) c.expires_at))
        lifetime_exceeded
    pure c

  unfoldable pub read_token : (token : String) → Checked (IdentityClaims × Bytes)
  unfolding read_envelope b64u_decode
  read_token token = do
    data' ← or_reject (b64u_decode x.b64decode token) not_decodable
    value ← or_reject (loads data') not_decodable
    envelope ← dict_of value
    read_envelope envelope

  unfoldable pub verify_token : PublicKey → (token : String) → (now : ℕ) → Checked IdentityClaims
  unfolding read_token check_claims
  verify_token key token now = read_token token >>= check_claims key now
