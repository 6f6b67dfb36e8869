-- ===== src/WasmHost/Frames/RoundTrip.antt =====
-- Encoding and reading a frame, by `_encode_frame` and `_read_frame_sync` of
-- apps/broker/src/deckhand/wasm_host_transport.py.
use deckhand.Base.{
  ◌≡◌, refl, sym, ap, ◌∙◌, ℕ, ◌≤◌, Bool, true, false, Option, none, some, ◌++◌, length,
  if◌then◌else◌, arith, Bytes,
}
use deckhand.Json.{Json, Object, null, boolean, number, text, array, object}
use deckhand.WasmHost.Frames.{
  pack, unpack, encode_frame, recv_exact, read_frame_sync, bad_size, with_header, require_size,
  as_object, ◌>>=◌,
}
use deckhand.WasmHost.Frames.Delivery.{
  unpack-pack, length-pack, recv_loop-append, recv_loop-some, append_assoc,
}

-- What a frame is made of.
record IsFrame (payload : Bytes) (max_bytes : ℕ) (frame : Bytes) : Type 0 where
  sized : bad_size max_bytes (length payload) ≡ false
  header : Bytes
  packed : pack (length payload) ≡ some header
  whole : frame ≡ header ++ payload

same_value : {A : Type 0} (a b : A) → some a ≡ some b → a ≡ b
same_value a b h = cc h

same_frame : (a b : Bytes) → some a ≡ some b → a ≡ b
same_frame a b h = cc h

encode_frame-IsFrame :
    (payload : Bytes) (max_bytes : ℕ) (frame : Bytes)
    → encode_frame payload max_bytes ≡ some frame
    → IsFrame payload max_bytes frame
unfolding encode_frame
encode_frame-IsFrame payload max_bytes frame h =
    of (bad_size max_bytes (length payload)) (pack (length payload)) refl refl h
  where
    of :
        (b : Bool) (o : Option Bytes)
        → bad_size max_bytes (length payload) ≡ b
        → pack (length payload) ≡ o
        → (if b then none else with_header o payload) ≡ some frame
        → IsFrame payload max_bytes frame
    of true o e p h = absurd (cc h)
    of false none e p h = absurd (cc h)
    of false (some header) e p h = record {
      sized = e;
      header = header;
      packed = p;
      whole = sym (same_frame (header ++ payload) frame h);
    }

-- A frame that was encoded is read back, and what follows it is left for the next one, however many bytes
-- each call of recv gives.
pub read_frame_sync-encode_frame :
    (extra : ℕ → ℕ) (loads : Bytes → Option Json) (max_bytes call : ℕ) (payload frame rest : Bytes)
    (value : Object)
    → encode_frame payload max_bytes ≡ some frame
    → loads payload ≡ some (object value)
    → (last : ℕ) × (read_frame_sync extra loads max_bytes call (frame ++ rest)
        ≡ some (value, rest, last))
unfolding read_frame_sync recv_exact
read_frame_sync-encode_frame extra loads max_bytes call payload frame rest value h parses =
    let f = encode_frame-IsFrame payload max_bytes frame h in
    let (call1, first) =
      recv_loop-append extra 4 4 call f.header (payload ++ rest)
        (length-pack (length payload) f.header f.packed) (omega arith) in
    let (call2, second) =
      recv_loop-append extra (length payload) (length payload) call1 payload rest refl
        (omega arith) in
    (
      call2,
      ap (read_frame_sync extra loads max_bytes call)
            (ap (λ t. t ++ rest) f.whole ∙ append_assoc f.header payload rest)
          ∙ rw first (
              rw (unpack-pack (length payload) f.header f.packed)
                (rw f.sized (rw second (rw parses refl)))),
    )

bind-some :
    {A B : Type 0} (m : Option A) (f : A → Option B) (b : B)
    → (m >>= f) ≡ some b
    → (a : A) × (m ≡ some a) × (f a ≡ some b)
bind-some none f b h = absurd (cc h)
bind-some (some a) f b h = (a, refl, h)

require_size-some :
    (max_bytes size : ℕ) (u : Unit {0})
    → require_size max_bytes size ≡ some u
    → (1 ≤ size) × (size ≤ max_bytes)
require_size-some max_bytes size u h = of (bad_size max_bytes size) refl h
  where
    of :
        (b : Bool)
        → bad_size max_bytes size ≡ b
        → (if b then none else some tt) ≡ some u
        → (1 ≤ size) × (size ≤ max_bytes)
    of true e h = absurd (cc h)
    of false e h = ground arith

as_object-some :
    (v : Option Json) (value : Object) → as_object v ≡ some value → v ≡ some (object value)
as_object-some (some (object o)) value h = ap (λ o. some (object o)) (same_value o value h)
as_object-some none value h = absurd (cc h)
as_object-some (some null) value h = absurd (cc h)
as_object-some (some (boolean b)) value h = absurd (cc h)
as_object-some (some (number n)) value h = absurd (cc h)
as_object-some (some (text t)) value h = absurd (cc h)
as_object-some (some (array xs)) value h = absurd (cc h)

-- A whole frame: a header that says the payload's size, which is between 1 and the limit, and the payload,
-- whose text is an object.
pub record IsRead (loads : Bytes → Option Json) (max_bytes : ℕ) (s : Bytes) (value : Object)
    (rest : Bytes) : Type 0 where
  pub header : Bytes
  pub payload : Bytes
  pub whole : s ≡ header ++ (payload ++ rest)
  pub header_length : length header ≡ 4
  pub says : unpack header ≡ some (length payload)
  pub holds_something : 1 ≤ length payload
  pub bounded : length payload ≤ max_bytes
  pub parsed : loads payload ≡ some (object value)

made-IsRead :
    (loads : Bytes → Option Json) (max_bytes size : ℕ) (s header s1 payload s2 rest : Bytes)
    (v value : Object) (call2 last : ℕ)
    → (s ≡ header ++ s1) × (length header ≡ 4)
    → unpack header ≡ some size
    → (1 ≤ size) × (size ≤ max_bytes)
    → (s1 ≡ payload ++ s2) × (length payload ≡ size)
    → loads payload ≡ some (object v)
    → ◌≡◌ {A = Option (Object × Bytes × ℕ)} (some (v, s2, call2)) (some (value, rest, last))
    → IsRead loads max_bytes s value rest
made-IsRead loads max_bytes size s header s1 payload s2 rest v value call2 last (split, four) says
      (some_bytes, bounded) (split', counted) parsed h =
    let e = same_value (v, s2, call2) (value, rest, last) h in
    record {
      header = header;
      payload = payload;
      whole =
          split
          ∙ ap (λ t. header ++ t) (split' ∙ ap (λ (r : Object × Bytes × ℕ). payload ++ r.1) e);
      header_length = four;
      says = says ∙ ap some (sym counted);
      holds_something = rw counted some_bytes;
      bounded = rw counted bounded;
      parsed = parsed ∙ ap (λ (r : Object × Bytes × ℕ). some (object r.0)) e;
    }

-- A value that is read is that of a whole frame, however the peer cuts it: four bytes that say the size, which
-- is between 1 and the limit, and as many bytes, whose text is that object; what follows is left unread.
pub read_frame_sync-IsRead :
    (extra : ℕ → ℕ) (loads : Bytes → Option Json) (max_bytes call : ℕ) (s : Bytes) (value : Object)
    (rest : Bytes) (last : ℕ)
    → read_frame_sync extra loads max_bytes call s ≡ some (value, rest, last)
    → IsRead loads max_bytes s value rest
unfolding read_frame_sync recv_exact
read_frame_sync-IsRead extra loads max_bytes call s value rest last h =
    let ((header, s1, call1), got_header, h1) = bind-some (recv_exact extra 4 call s) _ _ h in
    let (size, says, h2) = bind-some (unpack header) _ _ h1 in
    let (u, good, h3) = bind-some (require_size max_bytes size) _ _ h2 in
    let ((payload, s2, call2), got_payload, h4) =
      bind-some (recv_exact extra size call1 s1) _ _ h3 in
    let (v, parsed, h5) = bind-some (as_object (loads payload)) _ _ h4 in
    made-IsRead loads max_bytes size s header s1 payload s2 rest v value call2 last
      (recv_loop-some extra 4 4 call s header s1 call1 got_header) says
      (require_size-some max_bytes size u good)
      (recv_loop-some extra size size call1 s1 payload s2 call2 got_payload)
      (as_object-some (loads payload) v parsed) h5
