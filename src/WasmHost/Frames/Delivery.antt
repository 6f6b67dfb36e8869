-- ===== src/WasmHost/Frames/Delivery.antt =====
-- A frame arrives whole, however the peer cuts it.
use Prim.Native.Nat.{◌/◌, ◌%◌}
use deckhand.Base.{
  ◌≡◌, refl, sym, ap, ◌∙◌, ℕ, zero, suc, ◌+◌, ◌-◌, ◌≤◌, Bool, true, false, Option, none, some, [],
  ◌∷◌, ◌++◌, length, take, ltb, if◌then◌else◌, arith, Bytes,
}
use deckhand.WasmHost.Frames.{pack, unpack, drop, recv_loop, chunk_size, after_chunk}

same_bytes : (a b : Bytes) → some a ≡ some b → a ≡ b
same_bytes a b h = cc h

abbrev packed : ℕ → Bytes
packed n = n / 16777216 ∷ n / 65536 % 256 ∷ n / 256 % 256 ∷ n % 256 ∷ []

pack-some : (n : ℕ) (header : Bytes) → pack n ≡ some header → packed n ≡ header
unfolding pack
pack-some n header h = of (ltb n 4294967296) h
  where
    of : (b : Bool) → (if b then some (packed n) else none) ≡ some header → packed n ≡ header
    of true h = same_bytes (packed n) header h
    of false h = absurd (cc h)

pub unpack-pack : (n : ℕ) (header : Bytes) → pack n ≡ some header → unpack header ≡ some n
unfolding unpack
unpack-pack n header h = ap unpack (sym (pack-some n header h)) ∙ ap some (omega arith)

pub length-pack : (n : ℕ) (header : Bytes) → pack n ≡ some header → length header ≡ 4
length-pack n header h = ap length (sym (pack-some n header h))

take-zero : (a : Bytes) → take 0 a ≡ []
take-zero [] = refl
take-zero (x ∷ a) = refl

take-append : (k : ℕ) (a b : Bytes) → k ≤ length a → take k (a ++ b) ≡ take k a
take-append zero a b h = take-zero (a ++ b) ∙ sym (take-zero a)
take-append (suc k) [] b h = absurd (omega arith)
take-append (suc k) (x ∷ a) b h = ap (λ s. x ∷ s) (take-append k a b (omega arith))

drop-append : (k : ℕ) (a b : Bytes) → k ≤ length a → drop k (a ++ b) ≡ drop k a ++ b
unfolding drop
drop-append zero a b h = refl
drop-append (suc k) [] b h = absurd (omega arith)
drop-append (suc k) (x ∷ a) b h = drop-append k a b (omega arith)

take-drop : (k : ℕ) (a : Bytes) → take k a ++ drop k a ≡ a
unfolding drop
take-drop zero a = ap (λ s. s ++ a) (take-zero a)
take-drop (suc k) [] = refl
take-drop (suc k) (x ∷ a) = ap (λ s. x ∷ s) (take-drop k a)

length-take_of : (k : ℕ) (a : Bytes) → k ≤ length a → length (take k a) ≡ k
length-take_of zero a h = ap length (take-zero a)
length-take_of (suc k) [] h = absurd (omega arith)
length-take_of (suc k) (x ∷ a) h = ap suc (length-take_of k a (omega arith))

length-take_le : (k : ℕ) (a : Bytes) → length (take k a) ≤ k
length-take_le k [] = omega arith
length-take_le zero (x ∷ a) = omega arith
length-take_le (suc k) (x ∷ a) = let ih = length-take_le k a in omega arith

pub append_assoc : (a b c : Bytes) → (a ++ b) ++ c ≡ a ++ (b ++ c)
append_assoc [] b c = refl
append_assoc (x ∷ a) b c = ap (λ s. x ∷ s) (append_assoc a b c)

pub length-append : (a b : Bytes) → length (a ++ b) ≡ length a + length b
length-append [] b = omega arith
length-append (x ∷ a) b = let ih = length-append a b in omega arith

length-drop : (k : ℕ) (a : Bytes) → k ≤ length a → length (drop k a) ≡ length a - k
unfolding drop
length-drop zero a h = omega arith
length-drop (suc k) [] h = absurd (omega arith)
length-drop (suc k) (x ∷ a) h = length-drop k a (omega arith) ∙ omega arith

same_triple : (a b : Bytes × Bytes × ℕ) → some a ≡ some b → a ≡ b
same_triple a b h = cc h

triple :
    (d d' r r' : Bytes) (c c' : ℕ)
    → ◌≡◌ {A = Option (Bytes × Bytes × ℕ)} (some (d, r, c)) (some (d', r', c'))
    → (d ≡ d') × (r ≡ r') × (c ≡ c')
triple d d' r r' c c' h =
    let e = same_triple (d, r, c) (d', r', c') h in
    (
      ap (λ (t : Bytes × Bytes × ℕ). t.0) e,
      ap (λ (t : Bytes × Bytes × ℕ). t.1) e,
      ap (λ (t : Bytes × Bytes × ℕ). t.2) e,
    )

-- What `recv_exact` promises: the first `size` bytes, if there are as many.
module _ (extra : ℕ → ℕ) where
  chunk-fits :
      (call n : ℕ) (a : Bytes) → length a ≡ suc n → chunk_size extra call (suc n) ≤ length a
  chunk-fits call n a h = omega arith

  chunk-counts : (call n fuel : ℕ) → suc n ≤ suc fuel → suc n - chunk_size extra call (suc n) ≤ fuel
  chunk-counts call n fuel h = omega arith

  pub recv_loop-append :
      (fuel n call : ℕ) (a b : Bytes)
      → length a ≡ n
      → n ≤ fuel
      → (last : ℕ) × (recv_loop extra fuel n call (a ++ b) ≡ some (a, b, last))
  unfolding recv_loop
  recv_loop-append fuel zero call [] b h bound = (call, refl)
  recv_loop-append fuel zero call (x ∷ a) b h bound = absurd (omega arith)
  recv_loop-append fuel (suc n) call [] b h bound = absurd (omega arith)
  recv_loop-append zero (suc n) call (x ∷ a) b h bound = absurd (omega arith)
  recv_loop-append (suc fuel) (suc n) call (x ∷ a) b h bound =
      let k = chunk_size extra call (suc n) in
      let fits = chunk-fits call n (x ∷ a) h in
      let ih =
        recv_loop-append fuel (suc n - k) (suc call) (drop k (x ∷ a)) b
          (length-drop k (x ∷ a) fits ∙ ap (λ l. l - k) h) (chunk-counts call n fuel bound) in
      (
        ih.0,
        rw (take-append k (x ∷ a) b fits) (
            rw (drop-append k (x ∷ a) b fits) (
              rw (length-take_of k (x ∷ a) fits)
                (rw ih.1 (ap (λ s. some (s, b, ih.0)) (take-drop k (x ∷ a)))))),
      )

  counts : (a b n call : ℕ) → b ≡ suc n - a → a ≤ chunk_size extra call (suc n) → a + b ≡ suc n
  counts a b n call h bound = omega arith

  after_chunk-some :
      (chunk : Bytes) (r : Option (Bytes × Bytes × ℕ)) (d rest : Bytes) (last : ℕ)
      → after_chunk chunk r ≡ some (d, rest, last)
      → (d' : Bytes) × (r ≡ some (d', rest, last)) × (chunk ++ d' ≡ d)
  after_chunk-some chunk none d rest last h = absurd (cc h)
  after_chunk-some chunk (some (d', rest', last')) d rest last h =
      let e = triple (chunk ++ d') d rest' rest last' last h in (d', rw (e.1, e.2) refl, e.0)

  -- What is returned are the first bytes, as many as were asked for.
  pub recv_loop-some :
      (fuel n call : ℕ) (s d rest : Bytes) (last : ℕ)
      → recv_loop extra fuel n call s ≡ some (d, rest, last)
      → (s ≡ d ++ rest) × (length d ≡ n)
  unfolding recv_loop
  recv_loop-some fuel zero call s d rest last h =
      let e = triple [] d s rest call last h in (rw (sym e.0) e.1, ap length (sym e.0))
  recv_loop-some zero (suc n) call s d rest last h = absurd (cc h)
  recv_loop-some (suc fuel) (suc n) call [] d rest last h = absurd (cc h)
  recv_loop-some (suc fuel) (suc n) call (x ∷ s) d rest last h =
      let k = chunk_size extra call (suc n) in
      let chunk = take k (x ∷ s) in
      let (d', ran, joined) = after_chunk-some chunk _ d rest last h in
      let (split, counted) =
        recv_loop-some fuel (suc n - length chunk) (suc call) (drop k (x ∷ s)) d' rest last ran in
      let short = length-take_le k (x ∷ s) in
      (
        sym (take-drop k (x ∷ s))
            ∙ ap (λ t. chunk ++ t) split
            ∙ sym (append_assoc chunk d' rest)
            ∙ ap (λ t. t ++ rest) joined,
        ap length (sym joined)
            ∙ length-append chunk d'
            ∙ counts (length chunk) (length d') n call counted short,
      )
