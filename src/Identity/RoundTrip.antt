-- ===== src/Identity/RoundTrip.antt =====
-- What mint_token of apps/broker/src/deckhand/identity.py makes, verify_token accepts, and so it does what
-- apps/macos-agent/src/deckhand_macos/issuer.py mints.
use deckhand.Base.{
  ◌≡◌, ◌≢◌, refl, sym, ℕ, ◌+◌, ◌≤◌, String, Bool, true, false, not, ◌&&◌, some, ltb, same, same_iff,
  arith,
}
use mathlib.Core.Path.{subst}
use deckhand.Json.{Object, text, object, end, field, get, put}
use deckhand.Identity.Base64.{IsBase64, b64u_encode, b64u_decode-b64u_encode}
use deckhand.Identity.Issuer.{IssuerSettings, issuer_claims, b64u, mint}
use deckhand.Identity.Accepts.{require-accepted}
use deckhand.Identity.{
  Crypto, accepted, IdentityClaims, allowed_channel, is_present, seconds, claims_object,
  canonical_claims, token_of, mint_token, read_envelope, read_token, check_claims, verify_token,
  to_subject,
}

-- The envelope that carries some claims.
unfoldable pub envelope_of : (x : Crypto) → x.PrivateKey → IdentityClaims → Object
envelope_of x key c =
    claims_object x c
      (field "sig" (text (b64u_encode x.b64encode (x.sign key (canonical_claims x c)))) end)

-- What the libraries document of the texts in which these claims are signed and sent: the signature
-- verifies under its key, base64 and JSON that were written are read back, and so are the ISO texts of
-- the two times in UTC, which have their time zone.
pub record IsFaithful (x : Crypto) (key : x.PrivateKey) (public : x.PublicKey) (c : IdentityClaims)
    : Type 0 where
  pub signature64 : IsBase64 x.b64encode x.b64decode (x.sign key (canonical_claims x c))
  pub envelope64 : IsBase64 x.b64encode x.b64decode (x.dumps (envelope_of x key c))
  pub verifies-sign :
      x.verifies public (x.sign key (canonical_claims x c)) (canonical_claims x c) ≡ true
  pub loads-dumps : x.loads (x.dumps (envelope_of x key c)) ≡ some (object (envelope_of x key c))
  pub issued_text : x.fromisoformat (x.isoformat c.issued_at) ≡ some (c.issued_at, true)
  pub expires_text : x.fromisoformat (x.isoformat c.expires_at) ≡ some (c.expires_at, true)

-- Claims that a token may carry: an allowed channel, and no empty text.
abbrev pub IsComplete : IdentityClaims → Type 0
IsComplete c =
    (allowed_channel c.channel ≡ true)
    × (is_present c.subject ≡ true)
    × (is_present c.device ≡ true)
    × (is_present c.channel ≡ true)
    × (is_present c.nonce ≡ true)

module _ (x : Crypto) (key : x.PrivateKey) (public : x.PublicKey) (c : IdentityClaims)
    (law : IsFaithful x key public c) where
  read_envelope-envelope_of :
      IsComplete c
      → read_envelope x (envelope_of x key c) ≡ accepted (c, x.sign key (canonical_claims x c))
  unfolding read_envelope envelope_of claims_object get same
  read_envelope-envelope_of (allowed, subject, device, channel, nonce) =
      rw
        (b64u_decode-b64u_encode x.b64encode x.b64decode (x.sign key (canonical_claims x c))
          law.signature64)
        (rw (subject, device, channel, nonce)
          (rw (allowed, law.issued_text, law.expires_text) refl))

  read_token-token_of :
      IsComplete c
      → read_token x (token_of x key c) ≡ accepted (c, x.sign key (canonical_claims x c))
  unfolding read_token token_of envelope_of
  read_token-token_of h =
      rw
        (b64u_decode-b64u_encode x.b64encode x.b64decode (x.dumps (envelope_of x key c))
          law.envelope64)
        (rw law.loads-dumps (read_envelope-envelope_of h))

  not_more : (a b : ℕ) → a ≤ b → not (ltb b a) ≡ true
  not_more a b h = ground arith

  check_claims-signed :
      (now : ℕ)
      → c.issued_at ≤ now + seconds 30
      → now ≤ c.expires_at + seconds 30
      → c.expires_at ≤ c.issued_at + seconds 330
      → check_claims x public now (c, x.sign key (canonical_claims x c)) ≡ accepted c
  unfolding check_claims
  check_claims-signed now begun current short = rw law.verifies-sign (
      rw (not_more c.issued_at (now + seconds 30) begun) (
        rw (not_more now (c.expires_at + seconds 30) current)
          (rw (not_more c.expires_at (c.issued_at + seconds 330) short) refl)))

  verify_token-token_of :
      (now : ℕ)
      → IsComplete c
      → c.issued_at ≤ now + seconds 30
      → now ≤ c.expires_at + seconds 30
      → c.expires_at ≤ c.issued_at + seconds 330
      → verify_token x public (token_of x key c) now ≡ accepted c
  unfolding verify_token
  verify_token-token_of now h begun current short =
      rw (read_token-token_of h) (check_claims-signed now begun current short)

no_empty : allowed_channel "" ≢ true
unfolding same
no_empty h = cc h

all_present : (a b c : Bool) → (a && b && c) ≡ true → (a ≡ true) × (b ≡ true) × (c ≡ true)
all_present a b c h = ground arith

in_bounds : (n : ℕ) → (ltb 0 n && not (ltb 300 n)) ≡ true → n ≤ 300
in_bounds n h = ground arith

allowed_channel-is_present :
    (channel : String) → allowed_channel channel ≡ true → is_present channel ≡ true
allowed_channel-is_present channel h = by_test (same channel "") refl
  where
    by_test : (b : Bool) → same channel "" ≡ b → not b ≡ true
    by_test false e = refl
    by_test true e =
        absurd (
          no_empty (subst (λ (t : String). allowed_channel t ≡ true) ((same_iff channel "").0 e) h))

same_token : (t token : String) → accepted t ≡ accepted token → t ≡ token
same_token t token h = cc h

within_policy : (ttl now : ℕ) → ttl ≤ 300 → now + seconds ttl ≤ now + seconds 330
within_policy ttl now h = omega arith

abbrev pub minted : (subject device channel nonce : String) (ttl_seconds now : ℕ) → IdentityClaims
minted subject device channel nonce ttl_seconds now = record {
  subject = subject;
  device = device;
  channel = channel;
  issued_at = now;
  expires_at = now + seconds ttl_seconds;
  nonce = nonce;
}

-- Where signatures, base64, JSON and ISO times are faithful, a token that mint_token makes is accepted, and
-- has the claims it was made for, from 30 seconds before it is issued until 30 seconds after it expires.
pub verify_token-mint_token :
    (x : Crypto) (key : x.PrivateKey) (public : x.PublicKey) (subject device channel nonce : String)
    (ttl_seconds now later : ℕ) (token : String)
    → IsFaithful x key public (minted subject device channel nonce ttl_seconds now)
    → mint_token x key subject device channel nonce ttl_seconds now ≡ accepted token
    → now ≤ later + seconds 30
    → later ≤ now + seconds ttl_seconds + seconds 30
    → verify_token x public token later
      ≡ accepted (minted subject device channel nonce ttl_seconds now)
unfolding mint_token
verify_token-mint_token x key public subject device channel nonce ttl now later token law h begun
      current =
    let (allowed, h1) = require-accepted (allowed_channel channel) _ _ token h in
    let (present, h2) =
      require-accepted (is_present subject && is_present device && is_present nonce) _ _ token h1 in
    let (bounded, h3) = require-accepted (ltb 0 ttl && not (ltb 300 ttl)) _ _ token h2 in
    let (s, d, n) = all_present _ _ _ present in
    let short = in_bounds ttl bounded in
    let c = minted subject device channel nonce ttl now in
    subst (λ (t : String). verify_token x public t later ≡ accepted c) (same_token _ token h3)
      (verify_token-token_of x key public c law later
        (allowed, s, d, allowed_channel-is_present channel allowed, n) begun current
        (within_policy ttl now short))

-- The claims that the issuer signs.
abbrev pub issued_by : IssuerSettings → (nonce : String) → (now : ℕ) → IdentityClaims
issued_by settings nonce now =
    minted settings.subject settings.device settings.channel nonce settings.token_ttl_seconds now

-- The issuer's wire format is the broker's.
mint-token_of :
    (x : Crypto) (key : x.PrivateKey) (settings : IssuerSettings) (nonce : String) (now : ℕ)
    → (mint x key settings nonce now).0 ≡ token_of x key (issued_by settings nonce now)
unfolding mint token_of put issuer_claims claims_object canonical_claims b64u b64u_encode same
mint-token_of x key settings nonce now = refl

-- Where signatures, base64, JSON and ISO times are faithful, a token that the issuer mints, with a nonce
-- that is not empty and under settings with an allowed channel, a subject and a device that are not empty,
-- and at most 300 seconds, is accepted by the broker from 30 seconds before it is issued until 30 seconds
-- after it expires, as the subject of the settings.
pub verify_token-mint :
    (x : Crypto) (key : x.PrivateKey) (public : x.PublicKey) (settings : IssuerSettings)
    (nonce : String) (now later : ℕ)
    → IsFaithful x key public (issued_by settings nonce now)
    → allowed_channel settings.channel ≡ true
    → is_present settings.subject ≡ true
    → is_present settings.device ≡ true
    → is_present nonce ≡ true
    → settings.token_ttl_seconds ≤ 300
    → now ≤ later + seconds 30
    → later ≤ now + seconds settings.token_ttl_seconds + seconds 30
    → (c : IdentityClaims) × (verify_token x public (mint x key settings nonce now).0 later
        ≡ accepted c)
      × (to_subject c ≡ record {
        name = settings.subject;
        device = settings.device;
        channel = settings.channel;
      })
unfolding to_subject
verify_token-mint x key public settings nonce now later law allowed s d n short begun current =
    let c = issued_by settings nonce now in
    (
      c,
      subst (λ (t : String). verify_token x public t later ≡ accepted c)
          (sym (mint-token_of x key settings nonce now))
          (verify_token-token_of x key public c law later
            (allowed, s, d, allowed_channel-is_present settings.channel allowed, n) begun current
            (within_policy settings.token_ttl_seconds now short)),
      refl,
    )
