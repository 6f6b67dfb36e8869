-- ===== src/WasmHost/Frames.antt =====
-- `_encode_frame`, `_recv_exact` and `_read_frame_sync` of apps/broker/src/deckhand/wasm_host_transport.py.
-- An error is `none`: a frame of a wrong size, a peer that closes too early, a text that is no JSON object.
pub mod Delivery
pub mod RoundTrip
use Prim.Native.Nat.{◌/◌, ◌%◌}
use deckhand.Base.{
  ℕ, zero, suc, ◌+◌, ◌-◌, ◌*◌, min, Bool, true, false, ◌||◌, Option, none, some, List, [], ◌∷◌,
  ◌++◌, length, take, ltb, ◌==◌, if◌then◌else◌, Bytes,
}
use deckhand.Json.{Json, Object, object}

-- `struct.pack(">I", n)`, which is an error from 2 ** 32 on
unfoldable pub pack : ℕ → Option Bytes
pack n =
    if ltb n 4294967296
    then some (n / 16777216 ∷ n / 65536 % 256 ∷ n / 256 % 256 ∷ n % 256 ∷ [])
    else none

-- `struct.unpack(">I", header)[0]`
unfoldable pub unpack : Bytes → Option ℕ
unpack (a ∷ b ∷ c ∷ d ∷ []) = some (((a * 256 + b) * 256 + c) * 256 + d)
unpack _ = none

-- A size that a frame may not have.
abbrev pub bad_size : (max_bytes size : ℕ) → Bool
bad_size max_bytes size = size == 0 || ltb max_bytes size

abbrev pub with_header : Option Bytes → Bytes → Option Bytes
with_header none payload = none
with_header (some header) payload = some (header ++ payload)

-- `_encode_frame`, of the UTF-8 text of the model's JSON
unfoldable pub encode_frame : (payload : Bytes) → (max_bytes : ℕ) → Option Bytes
unfolding pack
encode_frame payload max_bytes =
    if bad_size max_bytes (length payload)
    then none
    else with_header (pack (length payload)) payload

unfoldable pub drop : ℕ → Bytes → Bytes
drop zero s = s
drop (suc n) [] = []
drop (suc n) (b ∷ s) = drop n s

abbrev pub after_chunk : Bytes → Option (Bytes × Bytes × ℕ) → Option (Bytes × Bytes × ℕ)
after_chunk chunk none = none
after_chunk chunk (some (data', rest, call)) = some (chunk ++ data', rest, call)

abbrev pub as_object : Option Json → Option Object
as_object (some (object o)) = some o
as_object value = none

infixl 5 ◌>>=◌
abbrev pub ◌>>=◌ : {A B : Type 0} → Option A → (A → Option B) → Option B
◌>>=◌ none f = none
◌>>=◌ (some a) f = f a

abbrev pub require_size : (max_bytes size : ℕ) → Option (Unit {0})
require_size max_bytes size = if bad_size max_bytes size then none else some tt

-- A peer that has some bytes left to give and then closes: its `call`-th `recv(remaining)` gives
-- `suc (extra call)` bytes, or as many as are asked for or left.
module _ (extra : ℕ → ℕ) where
  abbrev pub chunk_size : (call remaining : ℕ) → ℕ
  chunk_size call remaining = min remaining (suc (extra call))

  -- The loop of `_recv_exact`: the bytes, what is left, and the number of the next call.
  unfoldable pub recv_loop : (fuel remaining call : ℕ) → Bytes → Option (Bytes × Bytes × ℕ)
  unfolding drop
  recv_loop fuel zero call s = some ([], s, call)
  recv_loop zero (suc n) call s = none
  recv_loop (suc fuel) (suc n) call [] = none
  recv_loop (suc fuel) (suc n) call (b ∷ s) =
      let k = chunk_size call (suc n) in
      let chunk = take k (b ∷ s) in
      after_chunk chunk (recv_loop fuel (suc n - length chunk) (suc call) (drop k (b ∷ s)))

  -- Each call gives a byte at least, so `size` calls are enough.
  unfoldable pub recv_exact : (size call : ℕ) → Bytes → Option (Bytes × Bytes × ℕ)
  unfolding recv_loop
  recv_exact size call s = recv_loop size size call s

  -- `_read_frame_sync`: the value, what is left, and the number of the next call
  unfoldable pub read_frame_sync :
      (loads : Bytes → Option Json)
      → (max_bytes : ℕ) → (call : ℕ) → Bytes
      → Option (Object × Bytes × ℕ)
  unfolding recv_exact unpack
  read_frame_sync loads max_bytes call s = do
    (header, s1, call1) ← recv_exact 4 call s
    size ← unpack header
    ok_size ← require_size max_bytes size
    (payload, s2, call2) ← recv_exact size call1 s1
    value ← as_object (loads payload)
    some (value, s2, call2)
