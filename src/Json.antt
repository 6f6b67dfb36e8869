-- ===== src/Json.antt =====
-- JSON values, as `dict[str, Any]` fields and the columns of the database hold them. An object keeps
-- the order of its keys, as a Python dict does; a number is kept as its literal.
use deckhand.Base.{String, Bool, same, if◌then◌else◌, Option, none, some}

mutual
  pub data Json : Type 0 where
    null : Json
    boolean : Bool → Json
    number : String → Json
    text : String → Json
    array : Items → Json
    object : Object → Json

  pub data Items : Type 0 where
    nil : Items
    item : Json → Items → Items

  pub data Object : Type 0 where
    end : Object
    field : String → Json → Object → Object

-- `d.get(key)`
unfoldable pub get : String → Object → Option Json
get key end = none
get key (field k v rest) = if same k key then some v else get key rest

-- `{**d, key: value}`
unfoldable pub put : String → Json → Object → Object
put key value end = field key value end
put key value (field k v rest) =
    if same k key then field k value rest else field k v (put key value rest)

abbrev pub optional_text : Option String → Json
optional_text none = null
optional_text (some s) = text s

-- `{**a, **b}`
unfoldable pub merge : Object → Object → Object
merge a end = a
merge a (field k v rest) = merge (put k v a) rest
