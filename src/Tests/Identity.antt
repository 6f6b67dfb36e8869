-- ===== src/Tests/Identity.antt =====
-- A token of one minute, with toy signatures and texts.
use deckhand.Identity.Base64.{b64u_encode, has_no_pad, pads}
use deckhand.Base.{
  ◌≡◌, refl, ℕ, ◌+◌, ◌≤◌, String, Bool, true, Option, none, some, [], ◌∷◌, same, if◌then◌else◌,
  ◌==◌, arith,
}
use deckhand.Json.{Object, object}
use deckhand.Base.{Bytes}
use deckhand.Identity.{
  Crypto, accepted, IdentityClaims, seconds, to_subject, mint_token, verify_token, claims_object,
}
use deckhand.Identity.Issuer.{IssuerSettings, mint}
use deckhand.Identity.Accepts.{IsVouched, verify_token-IsVouched, verify_token-bounded}
use deckhand.Identity.RoundTrip.{
  IsFaithful, minted, verify_token-mint_token, verify_token-mint, envelope_of,
}
use deckhand.Json.{text, field, end}

abbrev start : ℕ
start = 100000000

abbrev claims : IdentityClaims
claims = minted "bjoern" "deck" "mgmt-mtls" "n1" 60 start

abbrev toy_encode : Bytes → String
toy_encode [] = ""
toy_encode (n ∷ rest) = if n == 1 then "AQ==" else "Bw=="

abbrev toy_decode : String → Option Bytes
toy_decode t =
    if same t "AQ==" then some (1 ∷ []) else if same t "Bw==" then some (7 ∷ []) else none

abbrev toy_isoformat : ℕ → String
toy_isoformat t = if t == start then "1970-01-01T00:01:40+00:00" else "1970-01-01T00:02:40+00:00"

abbrev toy_fromisoformat : String → Option (ℕ × Bool)
toy_fromisoformat t =
    if same t "1970-01-01T00:01:40+00:00"
    then some (start, true)
    else some (start + seconds 60, true)

abbrev toy_envelope : Object
toy_envelope = field "subject" (text "bjoern") (
    field "device" (text "deck") (
      field "channel" (text "mgmt-mtls") (
        field "issued_at" (text "1970-01-01T00:01:40+00:00") (
          field "expires_at" (text "1970-01-01T00:02:40+00:00")
            (field "nonce" (text "n1") (field "sig" (text "Bw") end))))))

abbrev toy : Crypto
toy = record {
  PrivateKey = Unit {0};
  PublicKey = Unit {0};
  sign = λ key data'. 7 ∷ [];
  verifies = λ key signature data'. true;
  b64encode = toy_encode;
  b64decode = toy_decode;
  dumps = λ o. 1 ∷ [];
  dumps_sorted = λ o. 2 ∷ [];
  loads = λ data'. some (object toy_envelope);
  isoformat = toy_isoformat;
  fromisoformat = toy_fromisoformat;
}

toy-IsFaithful : IsFaithful toy tt tt claims
unfolding has_no_pad pads same envelope_of claims_object b64u_encode
toy-IsFaithful = record {
  signature64 = record { body = "Bw"; plain = refl; padded = refl; decodes = refl };
  envelope64 = record { body = "AQ"; plain = refl; padded = refl; decodes = refl };
  verifies-sign = refl;
  loads-dumps = refl;
  issued_text = refl;
  expires_text = refl;
}

token_is_minted : mint_token toy tt "bjoern" "deck" "mgmt-mtls" "n1" 60 start ≡ accepted "AQ"
unfolding mint_token same
token_is_minted = refl

verify_token-mint_token_example : verify_token toy tt "AQ" (start + seconds 20) ≡ accepted claims
verify_token-mint_token_example =
    verify_token-mint_token toy tt tt "bjoern" "deck" "mgmt-mtls" "n1" 60 start (start + seconds 20)
      "AQ" toy-IsFaithful token_is_minted (omega arith) (omega arith)

abbrev settings : IssuerSettings
settings = record {
  subject = "bjoern";
  device = "deck";
  channel = "mgmt-mtls";
  token_ttl_seconds = 60;
}

verify_token-mint_example :
    (c : IdentityClaims) × (verify_token toy tt
        (mint toy tt settings "n1" start).0
        (start + seconds 20)
      ≡ accepted c)
    × (to_subject c ≡ record { name = "bjoern"; device = "deck"; channel = "mgmt-mtls" })
unfolding same
verify_token-mint_example =
    verify_token-mint toy tt tt settings "n1" start (start + seconds 20) toy-IsFaithful refl refl
      refl refl (omega arith) (omega arith) (omega arith)

accepted_early : verify_token toy tt "AQ" (start + seconds 20) ≡ accepted claims
unfolding verify_token same
accepted_early = refl

verify_token-IsVouched_example : IsVouched toy tt (start + seconds 20) claims
verify_token-IsVouched_example =
    verify_token-IsVouched toy tt "AQ" (start + seconds 20) claims accepted_early

accepted_late : verify_token toy tt "AQ" (start + seconds 90) ≡ accepted claims
unfolding verify_token same
accepted_late = refl

verify_token-bounded_example :
    (claims ≡ claims) × (start + seconds 90 ≤ (start + seconds 20) + seconds 390)
verify_token-bounded_example =
    verify_token-bounded toy tt tt "AQ" (start + seconds 20) (start + seconds 90) claims claims
      accepted_early accepted_late
