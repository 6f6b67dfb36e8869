-- ===== src/WasmHost/PublicJson.antt =====
-- `_validate_public_json` of apps/broker/src/deckhand/wasm_host_transport.py: `true` where it returns,
-- `false` where it raises. A JSON text has no other values and no other keys than these.
pub mod Bounds
use Prim.Native.Char.{Char, code}
use Prim.Native.String.{[] as no_text, ◌∷◌ as ◌∷ᵗ◌, count}
use deckhand.Base.{
  ℕ, suc, ◌+◌, String, Bool, true, false, not, ◌&&◌, ◌||◌, List, [], ◌∷◌, ltb, ◌==◌, if◌then◌else◌,
}
use deckhand.Json.{
  Json, Items, Object, null, boolean, number, text, array, object, nil, item, end, field,
}

abbrev pub max_public_depth : ℕ
max_public_depth = 8

abbrev pub max_public_items : ℕ
max_public_items = 256

abbrev pub max_public_string : ℕ
max_public_string = 8192

abbrev pub sensitive_key_parts : List String
sensitive_key_parts =
    "authorization" ∷ "cookie" ∷ "credential" ∷ "password" ∷ "passwd" ∷ "private_key" ∷ "secret"
    ∷ "token" ∷ []

-- `text.startswith(part)`
unfoldable pub starts_with : (part text : String) → Bool
starts_with no_text t = true
starts_with (c ∷ᵗ p) no_text = false
starts_with (c ∷ᵗ p) (d ∷ᵗ t) = code c == code d && starts_with p t

-- `part in text`
unfoldable pub occurs_in : (part text : String) → Bool
unfolding starts_with
occurs_in part no_text = starts_with part no_text
occurs_in part (d ∷ᵗ t) = starts_with part (d ∷ᵗ t) || occurs_in part t

-- `any(part in lowered for part in parts)`
unfoldable pub any_occurs : List String → String → Bool
unfolding occurs_in
any_occurs [] lowered = false
any_occurs (part ∷ parts) lowered = occurs_in part lowered || any_occurs parts lowered

unfoldable pub count_items : Items → ℕ
count_items nil = 0
count_items (item v rest) = suc (count_items rest)

unfoldable pub count_fields : Object → ℕ
count_fields end = 0
count_fields (field k v rest) = suc (count_fields rest)

-- `lower` is `str.lower`; `is_finite` says of a number's literal that it is an integer or a finite float.
module _ (lower : String → String) (is_finite : String → Bool) where
  unfoldable pub valid_key : String → Bool
  unfolding any_occurs
  valid_key key = not (ltb 128 (count key)) && not (any_occurs sensitive_key_parts (lower key))

  unfoldable mutual
    unfolding count_items count_fields valid_key

    pub validate_public_json : (depth : ℕ) → Json → Bool
    validate_public_json depth null = not (ltb max_public_depth depth)
    validate_public_json depth (boolean b) = not (ltb max_public_depth depth)
    validate_public_json depth (number literal) =
        not (ltb max_public_depth depth) && is_finite literal
    validate_public_json depth (text s) =
        not (ltb max_public_depth depth) && not (ltb max_public_string (count s))
    validate_public_json depth (array xs) =
        not (ltb max_public_depth depth)
        && not (ltb max_public_items (count_items xs))
        && validate_items (suc depth) xs
    validate_public_json depth (object o) =
        not (ltb max_public_depth depth)
        && not (ltb max_public_items (count_fields o))
        && validate_fields (suc depth) o

    pub validate_items : (depth : ℕ) → Items → Bool
    validate_items depth nil = true
    validate_items depth (item v rest) = validate_public_json depth v && validate_items depth rest

    pub validate_fields : (depth : ℕ) → Object → Bool
    validate_fields depth end = true
    validate_fields depth (field key v rest) =
        valid_key key && validate_public_json depth v && validate_fields depth rest
