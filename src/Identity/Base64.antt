-- ===== src/Identity/Base64.antt =====
-- `_b64u_encode` and `_b64u_decode` of apps/broker/src/deckhand/identity.py, around the base64 of Python's
-- library, which pads to a multiple of four characters.
use Prim.Native.Char.{code}
use Prim.Native.String.{[] as no_text, ◌∷◌ as ◌∷ᵗ◌, ◌++◌ as ◌++ᵗ◌, count}
use Prim.Native.String.append as clauses
use Prim.Native.Nat.{◌%◌}
use deckhand.Base.{
  Bytes, ◌≡◌, refl, ap, ◌∙◌, ℕ, zero, suc, ◌-◌, String, Bool, true, false, not, ◌&&◌, Option, some,
  if◌then◌else◌, ◌==◌, arith,
}
use deckhand.Base.Append.{append}

abbrev pub is_empty : String → Bool
is_empty no_text = true
is_empty (c ∷ᵗ s) = false

-- `text.rstrip("=")`
unfoldable pub rstrip : String → String
rstrip no_text = no_text
rstrip (c ∷ᵗ s) =
    let rest = rstrip s in if is_empty rest && (code c == 61) then no_text else c ∷ᵗ rest

-- `"=" * n`
unfoldable pub pads : ℕ → String
pads zero = no_text
pads (suc n) = "=" ∷ᵗ pads n

unfoldable pub b64u_encode : (b64encode : Bytes → String) → Bytes → String
unfolding rstrip
b64u_encode b64encode raw = rstrip (b64encode raw)

-- `-len(text) % 4`
abbrev pub missing : ℕ → ℕ
missing n = (4 - n % 4) % 4

unfoldable pub b64u_decode : (b64decode : String → Option Bytes) → String → Option Bytes
unfolding pads
b64u_decode b64decode t = b64decode (append t (pads (missing (count t))))

unfoldable pub has_no_pad : String → Bool
has_no_pad no_text = true
has_no_pad (c ∷ᵗ s) = not (code c == 61) && has_no_pad s

-- What base64 documents of the text that encodes some bytes: no `=` but the padding to the next multiple of
-- four characters, and it decodes to the bytes.
pub record IsBase64 (b64encode : Bytes → String) (b64decode : String → Option Bytes) (raw : Bytes)
    : Type 0 where
  pub body : String
  pub plain : has_no_pad body ≡ true
  pub padded : b64encode raw ≡ append body (pads (missing (count body)))
  pub decodes : b64decode (b64encode raw) ≡ some raw

rstrip-pads : (n : ℕ) → rstrip (pads n) ≡ no_text
unfolding rstrip pads
rstrip-pads zero = refl
rstrip-pads (suc n) = rw (rstrip-pads n) refl

both : (a b : Bool) → (a && b) ≡ true → (a ≡ true) × (b ≡ true)
both a b h = ground arith

not_both : (p q : Bool) (a b : String) → not q ≡ true → (if p && q then a else b) ≡ b
not_both p true a b h = absurd (cc h)
not_both true false a b h = refl
not_both false false a b h = refl

rstrip-append : (s : String) (n : ℕ) → has_no_pad s ≡ true → rstrip (s ++ᵗ pads n) ≡ s
unfolding rstrip has_no_pad
rstrip-append no_text n h = ap rstrip (clauses.nil (pads n)) ∙ rstrip-pads n
rstrip-append (c ∷ᵗ s) n h =
    ap rstrip (clauses.cons c s (pads n)) ∙ kept (s ++ᵗ pads n) (rstrip-append s n (both _ _ h).1)
  where
    kept : (t : String) → rstrip t ≡ s → rstrip (c ∷ᵗ t) ≡ c ∷ᵗ s
    kept t e = rw e (not_both (is_empty s) (code c == 61) no_text (c ∷ᵗ s) (both _ _ h).0)

pub b64u_decode-b64u_encode :
    (b64encode : Bytes → String) (b64decode : String → Option Bytes) (raw : Bytes)
    → IsBase64 b64encode b64decode raw
    → b64u_decode b64decode (b64u_encode b64encode raw) ≡ some raw
unfolding b64u_decode b64u_encode
b64u_decode-b64u_encode b64encode b64decode raw law =
    ap b64decode (
      rw law.padded (
        ap (λ t. append t (pads (missing (count t))))
          (rstrip-append law.body (missing (count law.body)) law.plain)))
    ∙ law.decodes
