-- ===== src/WasmHost/PublicJson/Bounds.antt =====
-- How deep a JSON value that was validated is, and which keys it has.
use Prim.Native.Nat.{max}
use Prim.Native.String.{count}
use deckhand.Base.{◌≡◌, ℕ, suc, ◌+◌, ◌≤◌, String, Bool, true, false, not, ◌&&◌, ltb, arith}
use deckhand.Json.{
  Json, Items, Object, null, boolean, number, text, array, object, nil, item, end, field,
}
use deckhand.WasmHost.PublicJson.{
  any_occurs, sensitive_key_parts, valid_key, validate_public_json, validate_items, validate_fields,
}

-- How many containers stand around the innermost value.
unfoldable mutual
  pub nesting : Json → ℕ
  nesting null = 0
  nesting (boolean b) = 0
  nesting (number literal) = 0
  nesting (text s) = 0
  nesting (array xs) = nesting_of_items xs
  nesting (object o) = nesting_of_fields o

  pub nesting_of_items : Items → ℕ
  nesting_of_items nil = 0
  nesting_of_items (item v rest) = max (suc (nesting v)) (nesting_of_items rest)

  pub nesting_of_fields : Object → ℕ
  nesting_of_fields end = 0
  nesting_of_fields (field k v rest) = max (suc (nesting v)) (nesting_of_fields rest)

-- Of every key, at every depth.
unfoldable mutual
  pub EveryKey : (String → Type 0) → Json → Type 0
  EveryKey P null = Unit
  EveryKey P (boolean b) = Unit
  EveryKey P (number literal) = Unit
  EveryKey P (text s) = Unit
  EveryKey P (array xs) = EveryKeyOfItems P xs
  EveryKey P (object o) = EveryKeyOfFields P o

  pub EveryKeyOfItems : (String → Type 0) → Items → Type 0
  EveryKeyOfItems P nil = Unit
  EveryKeyOfItems P (item v rest) = EveryKey P v × EveryKeyOfItems P rest

  pub EveryKeyOfFields : (String → Type 0) → Object → Type 0
  EveryKeyOfFields P end = Unit
  EveryKeyOfFields P (field k v rest) = P k × EveryKey P v × EveryKeyOfFields P rest

-- A key that is short and says nothing that is sensitive.
abbrev pub IsHarmless : (lower : String → String) → String → Type 0
IsHarmless lower key = (count key ≤ 128) × (any_occurs sensitive_key_parts (lower key) ≡ false)

two : (a b : Bool) → (a && b) ≡ true → (a ≡ true) × (b ≡ true)
two a b h = ground arith

three : (a b c : Bool) → (a && b && c) ≡ true → (a ≡ true) × (b ≡ true) × (c ≡ true)
three a b c h = ground arith

shallow : (d : ℕ) → not (ltb 8 d) ≡ true → d ≤ 8
shallow d h = ground arith

deeper : (d n m : ℕ) → d + n ≤ 8 → d + m ≤ 9 → d + max (suc n) m ≤ 9
deeper d n m h k = omega arith

module _ (lower : String → String) (is_finite : String → Bool) where
  harmless : (key : String) → valid_key lower is_finite key ≡ true → IsHarmless lower key
  unfolding valid_key
  harmless key h = ground arith

  mutual
    unfolding validate_public_json nesting EveryKey

    validate_public_json-Bounded :
        (d : ℕ) (v : Json)
        → validate_public_json lower is_finite d v ≡ true
        → (d + nesting v ≤ 8) × EveryKey (IsHarmless lower) v
    validate_public_json-Bounded d null h = let s = shallow d h in (omega arith, tt)
    validate_public_json-Bounded d (boolean b) h = let s = shallow d h in (omega arith, tt)
    validate_public_json-Bounded d (number literal) h =
        let s = shallow d (two _ _ h).0 in (omega arith, tt)
    validate_public_json-Bounded d (text t) h = let s = shallow d (two _ _ h).0 in (omega arith, tt)
    validate_public_json-Bounded d (array xs) h =
        let (s, few, rest) = three _ _ _ h in
        let low = shallow d s in
        let (bound, keys) = validate_items-Bounded (suc d) xs (omega arith) rest in
        (omega arith, keys)
    validate_public_json-Bounded d (object o) h =
        let (s, few, rest) = three _ _ _ h in
        let low = shallow d s in
        let (bound, keys) = validate_fields-Bounded (suc d) o (omega arith) rest in
        (omega arith, keys)

    validate_items-Bounded :
        (d : ℕ) (xs : Items)
        → d ≤ 9
        → validate_items lower is_finite d xs ≡ true
        → (d + nesting_of_items xs ≤ 9) × EveryKeyOfItems (IsHarmless lower) xs
    validate_items-Bounded d nil low h = (omega arith, tt)
    validate_items-Bounded d (item v rest) low h =
        let (first, others) = two _ _ h in
        let (bound, keys) = validate_public_json-Bounded d v first in
        let (bound', keys') = validate_items-Bounded d rest low others in
        (deeper d (nesting v) (nesting_of_items rest) bound bound', (keys, keys'))

    validate_fields-Bounded :
        (d : ℕ) (o : Object)
        → d ≤ 9
        → validate_fields lower is_finite d o ≡ true
        → (d + nesting_of_fields o ≤ 9) × EveryKeyOfFields (IsHarmless lower) o
    validate_fields-Bounded d end low h = (omega arith, tt)
    validate_fields-Bounded d (field key v rest) low h =
        let (good, first, others) = three _ _ _ h in
        let (bound, keys) = validate_public_json-Bounded d v first in
        let (bound', keys') = validate_fields-Bounded d rest low others in
        (
          deeper d (nesting v) (nesting_of_fields rest) bound bound',
          (harmless key good, keys, keys'),
        )

-- A JSON value that was validated has at most eight containers around any value, and no key of it, at any
-- depth, is longer than 128 characters or, in lower case, contains a sensitive word.
pub validate_public_json-IsHarmless :
    (lower : String → String) (is_finite : String → Bool) (v : Json)
    → validate_public_json lower is_finite 0 v ≡ true
    → (nesting v ≤ 8) × EveryKey (IsHarmless lower) v
validate_public_json-IsHarmless lower is_finite v h =
    let (bound, keys) = validate_public_json-Bounded lower is_finite 0 v h in (omega arith, keys)
