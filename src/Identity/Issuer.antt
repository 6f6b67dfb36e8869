-- ===== src/Identity/Issuer.antt =====
-- `mint` of apps/macos-agent/src/deckhand_macos/issuer.py, which is written without the broker's package.
use deckhand.Base.{ℕ, ◌+◌, String, ◌++◌}
use deckhand.Json.{Object, text, end, field, put}
use deckhand.Base.{Bytes}
use deckhand.Identity.Base64.{rstrip}
use deckhand.Identity.{Crypto, domain, seconds}

-- Without its addresses and files.
pub record IssuerSettings : Type 0 where
  pub subject : String
  pub device : String
  pub channel : String
  pub token_ttl_seconds : ℕ

module _ (x : Crypto) where
  open x use {PrivateKey, sign, b64encode, dumps, dumps_sorted, isoformat}

  -- The dict `claims`; `nonce` is the fresh UUID.
  unfoldable pub issuer_claims : IssuerSettings → (nonce : String) → (issued : ℕ) → Object
  issuer_claims settings nonce issued = field "subject" (text settings.subject) (
      field "device" (text settings.device) (
        field "channel" (text settings.channel) (
          field "issued_at" (text (isoformat issued)) (
            field "expires_at" (text (isoformat (issued + seconds settings.token_ttl_seconds)))
              (field "nonce" (text nonce) end)))))

  -- `_b64u`
  unfoldable pub b64u : Bytes → String
  unfolding rstrip
  b64u raw = rstrip (b64encode raw)

  -- The token, and the text of its expiry.
  unfoldable pub mint :
      PrivateKey → IssuerSettings → (nonce : String) → (issued : ℕ) → String × String
  unfolding issuer_claims b64u put
  mint key settings nonce issued =
      let claims = issuer_claims settings nonce issued in
      let signature = sign key (domain ++ dumps_sorted claims) in
      let envelope = put "sig" (text (b64u signature)) claims in
      (b64u (dumps envelope), isoformat (issued + seconds settings.token_ttl_seconds))
