-- ===== src/Base/Separators.antt =====
-- When a text that was joined by a separator determines its parts.
use Prim.Native.Char.{Char, code}
use Prim.Native.String.{String, [], ◌∷◌, ◌++◌}
use Prim.Native.Nat.{ℕ, ◌+◌}
use mathlib.Core.Path.{◌≡◌, refl, ap, sym, ◌∙◌}
use mathlib.Core.Logic.{◌≢◌}
use native.Mathlib.Omega.{arith}
use text.Mathlib.TextLemmas.{nil-append, cons-append, cons-eq-cons, append_cancel_left}
use mathlib.Core.List
use deckhand.Base.Texts.{join}
use deckhand.Base.Tests.{◌==◌, if◌then◌else◌}

-- How often the character U+001F occurs.
unfoldable pub separators : String → ℕ
separators [] = 0
separators (c ∷ s) = (if code c == 31 then 1 else 0) + separators s

abbrev pub separator : String
separator = "\u{1f}"

pub separators-append : (s t : String) → separators (s ++ t) ≡ separators s + separators t
unfolding separators
separators-append [] t = rw nil-append (omega arith)
separators-append (c ∷ s) t = rw cons-append (omega (arith, separators-append s t))

pub separators-separator : separators separator ≡ 1
unfolding separators
separators-separator = refl

head_code : String → ℕ
head_code [] = 0
head_code (c ∷ s) = code c

head_code-cons : (c : Char) (s t : String) → head_code ((c ∷ s) ++ t) ≡ code c
unfolding head_code
head_code-cons c s t = rw cons-append

head_code-separator : (t : String) → head_code (separator ++ t) ≡ 31
head_code-separator t = head_code-cons _ [] t

-- A part that holds no separator does not begin with one.
starts_apart :
    (b : String) (x : Char) (c d : String)
    → separators (x ∷ c) ≡ 0
    → separator ++ b ≢ (x ∷ c) ++ (separator ++ d)
unfolding separators
starts_apart b x c d k e =
    ground (arith, ap head_code e, head_code-separator b, head_code-cons x c (separator ++ d))

tail_clean : (x : Char) (a : String) → separators (x ∷ a) ≡ 0 → separators a ≡ 0
unfolding separators
tail_clean x a h = omega arith

-- The first separator ends the first part.
pub split_at_separator :
    (a b c d : String)
    → separators a ≡ 0
    → separators c ≡ 0
    → a ++ (separator ++ b) ≡ c ++ (separator ++ d)
    → (a ≡ c) × (b ≡ d)
split_at_separator [] b [] d h k e =
    (refl, append_cancel_left separator b d (sym (nil-append _) ∙ e ∙ nil-append _))
split_at_separator [] b (x ∷ c) d h k e = absurd (starts_apart b x c d k (sym (nil-append _) ∙ e))
split_at_separator (x ∷ a) b [] d h k e =
    absurd (starts_apart d x a b h (sym (nil-append _) ∙ sym e))
split_at_separator (x ∷ a) b (y ∷ c) d h k e =
    let (heads, tails) = cons-eq-cons.0 (sym (cons-append x a _) ∙ e ∙ cons-append y c _) in
    let (same_a, same_b) = split_at_separator a b c d (tail_clean x a h) (tail_clean y c k) tails in
    (λ i. heads i ∷ same_a i, same_b)

separators-part :
    (a b : String) → separators (a ++ (separator ++ b)) ≡ separators a + separators b + 1
separators-part a b = omega (
  arith,
  separators-append a (separator ++ b),
  separators-append separator b,
  separators-separator,
)

abbrev joined : (a b c d e : String) → String
joined a b c d e =
    a ++ (separator ++ (b ++ (separator ++ (c ++ (separator ++ (d ++ (separator ++ e)))))))

separators-joined :
    (a b c d e : String)
    → separators (joined a b c d e)
      ≡ separators a + separators b + separators c + separators d + separators e + 4
separators-joined a b c d e = omega (
  arith,
  separators-part a (b ++ (separator ++ (c ++ (separator ++ (d ++ (separator ++ e)))))),
  separators-part b (c ++ (separator ++ (d ++ (separator ++ e)))),
  separators-part c (d ++ (separator ++ e)),
  separators-part d e,
)

abbrev pub parts : (a b c d e : String) → List.List String
parts a b c d e = List.◌∷◌ a (List.◌∷◌ b (List.◌∷◌ c (List.◌∷◌ d (List.◌∷◌ e List.[]))))

pub record AreEqual (a b c d e a' b' c' d' e' : String) : Type 0 where
  pub first : a ≡ a'
  pub second : b ≡ b'
  pub third : c ≡ c'
  pub fourth : d ≡ d'
  pub fifth : e ≡ e'

-- Five parts without a separator are the only five that join to their text.
pub join_five :
    (a b c d e a' b' c' d' e' : String)
    → separators a + separators b + separators c + separators d + separators e ≡ 0
    → join separator (parts a b c d e) ≡ join separator (parts a' b' c' d' e')
    → AreEqual a b c d e a' b' c' d' e'
unfolding join
join_five a b c d e a' b' c' d' e' clean h =
    let total : separators (joined a b c d e) ≡ separators (joined a' b' c' d' e') =
      ap separators h in
    let clean' : separators a' + separators b' + separators c' + separators d' + separators e' ≡ 0 =
      omega (arith, separators-joined a b c d e, separators-joined a' b' c' d' e') in
    let (p, h₁) = split_at_separator a _ a' _ (omega arith) (omega arith) h in
    let (q, h₂) = split_at_separator b _ b' _ (omega arith) (omega arith) h₁ in
    let (r, h₃) = split_at_separator c _ c' _ (omega arith) (omega arith) h₂ in
    let (s, t) = split_at_separator d e d' e' (omega arith) (omega arith) h₃ in
    record { first = p; second = q; third = r; fourth = s; fifth = t }
