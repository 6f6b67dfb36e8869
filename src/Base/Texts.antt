-- ===== src/Base/Texts.antt =====
-- Equality of texts, which every module compares through `same`: it stays shut in proofs.
use Prim.Native.Char.{code}
use Prim.Native.String.{String, [], ◌∷◌, ◌++◌}
use mathlib.Core.Path.{◌≡◌}
use mathlib.Core.Logic.{◌↔◌}
use mathlib.Core.Bool.{Bool, true, false, ◌&&◌}
use mathlib.Core.List
use mathlib.Core.Option.{Option, none, some}
use native.Mathlib.Omega.{arith}
use text.Mathlib.Text.{◌==◌}
use deckhand.Base.Tests.{ltb}
use text.Mathlib.TextEquality.{eq_iff}
use text.Mathlib.TextPositions.{eq_refl}

-- `a == b` on two `str`, and `hmac.compare_digest`, which differs from it in its timing alone.
unfoldable pub same : String → String → Bool
same a b = a == b

pub same_iff : (a b : String) → (same a b ≡ true) ↔ (a ≡ b)
unfolding same
same_iff a b = eq_iff a b

pub same_refl : (a : String) → same a a ≡ true
unfolding same
same_refl a = eq_refl a

-- `a == b` on two `str | None`.
abbrev pub same_option : Option String → Option String → Bool
same_option none none = true
same_option (some a) (some b) = same a b
same_option _ _ = false

pub same_option_iff : (a b : Option String) → (same_option a b ≡ true) ↔ (a ≡ b)
same_option_iff none none = ground arith
same_option_iff none (some b) = ground arith
same_option_iff (some a) none = ground arith
same_option_iff (some a) (some b) = ground (arith, same_iff a b)

-- `separator.join(parts)`
unfoldable pub join : String → List.List String → String
join separator List.[] = ""
join separator (List.◌∷◌ part List.[]) = part
join separator (List.◌∷◌ part (List.◌∷◌ next rest)) =
    part ++ (separator ++ join separator (List.◌∷◌ next rest))

-- `text.isascii()`
unfoldable pub is_ascii : String → Bool
is_ascii [] = true
is_ascii (c ∷ s) = ltb (code c) 128 && is_ascii s
