-- ===== src/Tests/WasmHost.antt =====
-- A frame of two bytes, received a byte at a time.
use deckhand.Base.{◌≡◌, ◌≤◌, true, false, refl, ℕ, Option, some, [], ◌∷◌, ◌++◌, Bytes}
use deckhand.Json.{Json, end, object, field, text, array, item, nil, number, null}
use deckhand.WasmHost.PublicJson.{validate_public_json}
use deckhand.WasmHost.PublicJson.Bounds.{
  nesting, EveryKey, IsHarmless, validate_public_json-IsHarmless,
}
use deckhand.WasmHost.Frames.{encode_frame, read_frame_sync}
use deckhand.WasmHost.Frames.RoundTrip.{
  IsRead, read_frame_sync-encode_frame, read_frame_sync-IsRead,
}

abbrev payload : Bytes
payload = 123 ∷ 125 ∷ []

abbrev frame : Bytes
frame = 0 ∷ 0 ∷ 0 ∷ 2 ∷ 123 ∷ 125 ∷ []

abbrev next : Bytes
next = 0 ∷ 0 ∷ []

abbrev loads : Bytes → Option Json
loads data' = some (object end)

encodes : encode_frame payload 4096 ≡ some frame
unfolding encode_frame
encodes = refl

read_frame_sync-encode_frame_example :
    (last : ℕ) × (read_frame_sync (λ n. 0) loads 4096 0 (frame ++ next) ≡ some (end, next, last))
read_frame_sync-encode_frame_example =
    read_frame_sync-encode_frame (λ n. 0) loads 4096 0 payload frame next end encodes refl

reads : read_frame_sync (λ n. 0) loads 4096 0 (frame ++ next) ≡ some (end, next, 6)
unfolding read_frame_sync
reads = refl

read_frame_sync-IsRead_example : IsRead loads 4096 (frame ++ next) end next
read_frame_sync-IsRead_example =
    read_frame_sync-IsRead (λ n. 0) loads 4096 0 (frame ++ next) end next 6 reads

-- A light's state, with an array in an object.
abbrev answer : Json
answer =
    object
      (field "state" (text "on") (field "scenes" (array (item (number "1") (item null nil))) end))

is_public : validate_public_json (λ key. key) (λ literal. true) 0 answer ≡ true
unfolding validate_public_json
is_public = refl

validate_public_json-IsHarmless_example :
    (nesting answer ≤ 8) × EveryKey (IsHarmless (λ key. key)) answer
validate_public_json-IsHarmless_example =
    validate_public_json-IsHarmless (λ key. key) (λ literal. true) answer is_public

-- A token is not passed on, however deep it stands.
withholds_token :
    validate_public_json
      (λ key. key)
      (λ literal. true)
      0
      (array (item (object (field "access_token" (text "x") end)) nil))
    ≡ false
unfolding validate_public_json
withholds_token = refl
