-- ===== src/Identity/Accepts.antt =====
-- What verify_token of apps/broker/src/deckhand/identity.py has established of the claims it returns.
use deckhand.Base.{
  ◌≡◌, refl, sym, ap, ◌∙◌, ℕ, ◌+◌, ◌≤◌, String, Bool, true, false, not, ◌&&◌, ltb, arith,
}
use deckhand.Json.{Object, get}
use mathlib.Core.Path.{subst}
use deckhand.Base.{Bytes}
use deckhand.Identity.Base64.{b64u_decode}
use deckhand.Identity.{
  Crypto, Checked, accepted, rejected, IdentityError, IdentityClaims, require, ◌>>=◌, ◌>>◌, pure,
  or_reject, canonical_claims, check_claims, read_envelope, verify_token, read_token, seconds,
  allowed_channel, present_text, signature_of, time_of, dict_of, not_decodable,
}

module _ {A : Type 0} where
  -- A check that was passed.
  pub require-accepted :
      (b : Bool) (e : IdentityError) (k : Checked A) (a : A)
      → (require b e >> k) ≡ accepted a
      → (b ≡ true) × (k ≡ accepted a)
  require-accepted true e k a h = (refl, h)
  require-accepted false e k a h = absurd (cc h)

  pub bind-accepted :
      {B : Type 0} (m : Checked B) (f : B → Checked A) (a : A)
      → (m >>= f) ≡ accepted a
      → (b : B) × (m ≡ accepted b) × (f b ≡ accepted a)
  bind-accepted (accepted b) f a h = (b, refl, h)
  bind-accepted (rejected e) f a h = absurd (cc h)

-- The key signed these very claims, they name a channel that is allowed and nobody empty, and the times
-- fit.
pub record IsVouched (x : Crypto) (key : x.PublicKey) (now : ℕ) (c : IdentityClaims) : Type 0 where
  pub signature : Bytes
  pub signed : x.verifies key signature (canonical_claims x c) ≡ true
  pub allowed : allowed_channel c.channel ≡ true
  pub begun : c.issued_at ≤ now + seconds 30
  pub current : now ≤ c.expires_at + seconds 30
  pub short : c.expires_at ≤ c.issued_at + seconds 330

module _ (x : Crypto) where
  not_less : (a b : ℕ) → not (ltb a b) ≡ true → b ≤ a
  not_less a b h = ground arith

  same_claims : {A : Type 0} (c' c : A) → pure c' ≡ accepted c → c' ≡ c
  same_claims c' c h = cc h

  read_envelope-allowed :
      (envelope : Object) (r : IdentityClaims × Bytes)
      → read_envelope x envelope ≡ accepted r
      → allowed_channel r.0.channel ≡ true
  unfolding read_envelope
  read_envelope-allowed envelope r h =
      let (subject, _, h1) = bind-accepted (or_reject (get "subject" envelope) _) _ r h in
      let (device, _, h2) = bind-accepted (or_reject (get "device" envelope) _) _ r h1 in
      let (channel, _, h3) = bind-accepted (or_reject (get "channel" envelope) _) _ r h2 in
      let (issued_raw, _, h4) = bind-accepted (or_reject (get "issued_at" envelope) _) _ r h3 in
      let (expires_raw, _, h5) = bind-accepted (or_reject (get "expires_at" envelope) _) _ r h4 in
      let (nonce, _, h6) = bind-accepted (or_reject (get "nonce" envelope) _) _ r h5 in
      let (sig, _, h7) = bind-accepted (or_reject (get "sig" envelope) _) _ r h6 in
      let (signature, _, h8) = bind-accepted (or_reject (signature_of x sig) _) _ r h7 in
      let (a, _, h9) = bind-accepted (or_reject (present_text subject) _) _ r h8 in
      let (b, _, h10) = bind-accepted (or_reject (present_text device) _) _ r h9 in
      let (c, _, h11) = bind-accepted (or_reject (present_text channel) _) _ r h10 in
      let (n, _, h12) = bind-accepted (or_reject (present_text nonce) _) _ r h11 in
      let (allowed, h13) = require-accepted (allowed_channel c) _ _ r h12 in
      let (issued, _, h14) = bind-accepted (or_reject (time_of x issued_raw) _) _ r h13 in
      let (expires, _, h15) = bind-accepted (or_reject (time_of x expires_raw) _) _ r h14 in
      let (aware, h16) = require-accepted (issued.1 && expires.1) _ _ r h15 in
      subst (λ (r : IdentityClaims × Bytes). allowed_channel r.0.channel ≡ true)
        (same_claims _ r h16) allowed

  -- What check_claims has tested, and that it returns what it was given.
  check_claims-accepted :
      (key : x.PublicKey) (now : ℕ) (r : IdentityClaims × Bytes) (c : IdentityClaims)
      → allowed_channel r.0.channel ≡ true
      → check_claims x key now r ≡ accepted c
      → (r.0 ≡ c) × IsVouched x key now r.0
  unfolding check_claims
  check_claims-accepted key now (c', signature) c allowed h =
      let (signed, h1) =
        require-accepted (x.verifies key signature (canonical_claims x c')) _ _ c h in
      let (begun, h2) = require-accepted (not (ltb (now + seconds 30) c'.issued_at)) _ _ c h1 in
      let (current, h3) = require-accepted (not (ltb (c'.expires_at + seconds 30) now)) _ _ c h2 in
      let (short, h4) =
        require-accepted (not (ltb (c'.issued_at + (seconds 300 + seconds 30)) c'.expires_at)) _ _ c
          h3 in
      (
        same_claims c' c h4,
        record {
          signature = signature;
          signed = signed;
          allowed = allowed;
          begun = not_less _ _ begun;
          current = not_less _ _ current;
          short = not_less _ _ short;
        },
      )

  read_token-allowed :
      (token : String) (r : IdentityClaims × Bytes)
      → read_token x token ≡ accepted r
      → allowed_channel r.0.channel ≡ true
  unfolding read_token
  read_token-allowed token r h =
      let (d, e1, h1) =
        bind-accepted (or_reject (b64u_decode x.b64decode token) not_decodable) _ r h in
      let (value, e2, h2) = bind-accepted (or_reject (x.loads d) not_decodable) _ r h1 in
      let (envelope, e3, h3) = bind-accepted (dict_of x value) _ r h2 in
      read_envelope-allowed envelope r h3

  -- The claims that are returned are those that the token holds, whenever it is checked.
  verify_token-reads :
      (key : x.PublicKey) (token : String) (now : ℕ) (c : IdentityClaims)
      → verify_token x key token now ≡ accepted c
      → (r : IdentityClaims × Bytes) × (read_token x token ≡ accepted r)
        × (r.0 ≡ c)
        × IsVouched x key now r.0
  unfolding verify_token
  verify_token-reads key token now c h =
      let (r, e, h1) = bind-accepted (read_token x token) (check_claims x key now) c h in
      let (same_as, vouched) =
        check_claims-accepted key now r c (read_token-allowed token r e) h1 in
      (r, e, same_as, vouched)

-- A token that is accepted at some time has claims that the key signed, for a channel that is allowed; it
-- was issued at most 30 seconds after that time, expired at most 30 seconds before it, and lives at most
-- 330 seconds.
pub verify_token-IsVouched :
    (x : Crypto) (key : x.PublicKey) (token : String) (now : ℕ) (c : IdentityClaims)
    → verify_token x key token now ≡ accepted c
    → IsVouched x key now c
verify_token-IsVouched x key token now c h =
    let (r, e, same_as, vouched) = verify_token-reads x key token now c h in
    subst (IsVouched x key now) same_as vouched

within :
    (x : Crypto) (key key' : x.PublicKey) (now later : ℕ) (c : IdentityClaims)
    → IsVouched x key now c
    → IsVouched x key' later c
    → later ≤ now + seconds 390
within x key key' now later c v v' =
    let a = v.begun in let b = v.short in let d = v'.current in omega arith

-- Two times at which one token is accepted, by whatever keys, are at most 390 seconds apart, and the
-- claims are the same.
pub verify_token-bounded :
    (x : Crypto) (key key' : x.PublicKey) (token : String) (now later : ℕ) (c c' : IdentityClaims)
    → verify_token x key token now ≡ accepted c
    → verify_token x key' token later ≡ accepted c'
    → (c ≡ c') × (later ≤ now + seconds 390)
verify_token-bounded x key key' token now later c c' h h' =
    let (r, e, same_as, v) = verify_token-reads x key token now c h in
    let (r', e', same_as', v') = verify_token-reads x key' token later c' h' in
    let same_r = ap (λ (p : IdentityClaims × Bytes). p.0) (same_claims x r r' (sym e ∙ e')) in
    let same_c = sym same_as ∙ same_r ∙ same_as' in
    (
      same_c,
      within x key key' now later c' (subst (IsVouched x key now) (same_r ∙ same_as') v)
          (subst (IsVouched x key' later) same_as' v'),
    )
