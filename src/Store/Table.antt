-- ===== src/Store/Table.antt =====
-- The job table as a set of rows with distinct identifiers: lookups, updates and insertions.
use mathlib.Core.Path.{subst}
use deckhand.Base.{
  ◌≡◌, refl, sym, ◌∙◌, ◌⊎◌, inl, inr, String, true, false, none, some, List, [], ◌∷◌, ◌++◌, All,
  same, same_iff, arith, if◌then◌else◌,
}
use deckhand.StateMachine.Reach.{◌⟶*◌, here, ⟶*-trans}
use deckhand.Models.State.{queued}
use deckhand.Store.Rows.{JobRow, find_job, update_job}

-- The primary key: no two rows have one `id`.
abbrev pub IsKeyed : List JobRow → Type 0
IsKeyed [] = Unit
IsKeyed (r ∷ rs) = (find_job r.id rs ≡ none) × IsKeyed rs

-- One job, earlier and later: what identifies it stays, and its state has followed transitions that
-- the state machine accepts.
pub record Becomes (r s : JobRow) : Type 0 where
  pub id : s.id ≡ r.id
  pub idempotency_key : s.idempotency_key ≡ r.idempotency_key
  pub request_json : s.request_json ≡ r.request_json
  pub request_digest : s.request_digest ≡ r.request_digest
  pub subject_json : s.subject_json ≡ r.subject_json
  pub created_at : s.created_at ≡ r.created_at
  pub path : r.state ⟶* s.state

-- The later table has every job of the earlier one in its place; what it has more began as `queued`.
abbrev pub Moves : List JobRow → List JobRow → Type 0
Moves [] new = All (λ s. queued ⟶* s.state) new
Moves (r ∷ rs) [] = ⊥
Moves (r ∷ rs) (s ∷ ss) = Becomes r s × Moves rs ss

pub Becomes-refl : (r : JobRow) → Becomes r r
Becomes-refl r = record {
  id = refl;
  idempotency_key = refl;
  request_json = refl;
  request_digest = refl;
  subject_json = refl;
  created_at = refl;
  path = here;
}

pub Becomes-trans : (a b c : JobRow) → Becomes a b → Becomes b c → Becomes a c
Becomes-trans a b c h k = record {
  id = k.id ∙ h.id;
  idempotency_key = k.idempotency_key ∙ h.idempotency_key;
  request_json = k.request_json ∙ h.request_json;
  request_digest = k.request_digest ∙ h.request_digest;
  subject_json = k.subject_json ∙ h.subject_json;
  created_at = k.created_at ∙ h.created_at;
  path = ⟶*-trans h.path k.path;
}

pub Moves-refl : (rs : List JobRow) → Moves rs rs
Moves-refl [] = tt
Moves-refl (r ∷ rs) = (Becomes-refl r, Moves-refl rs)

new_moves :
    (ys zs : List JobRow)
    → All (λ s. queued ⟶* s.state) ys
    → Moves ys zs
    → All (λ s. queued ⟶* s.state) zs
new_moves [] zs h k = k
new_moves (y ∷ ys) [] h k = absurd k
new_moves (y ∷ ys) (z ∷ zs) h k = (⟶*-trans h.0 k.0.path, new_moves ys zs h.1 k.1)

pub Moves-trans : (xs ys zs : List JobRow) → Moves xs ys → Moves ys zs → Moves xs zs
Moves-trans [] ys zs h k = new_moves ys zs h k
Moves-trans (x ∷ xs) [] zs h k = absurd h
Moves-trans (x ∷ xs) (y ∷ ys) [] h k = absurd k
Moves-trans (x ∷ xs) (y ∷ ys) (z ∷ zs) h k =
    (Becomes-trans x y z h.0 k.0, Moves-trans xs ys zs h.1 k.1)

pub Moves-append : (rs : List JobRow) (r : JobRow) → r.state ≡ queued → Moves rs (rs ++ r ∷ [])
Moves-append [] r e = (subst (λ s. queued ⟶* s) (sym e) here, tt)
Moves-append (s ∷ rs) r e = (Becomes-refl s, Moves-append rs r e)

pub find_job-id :
    (id : String) (rs : List JobRow) (r : JobRow) → find_job id rs ≡ some r → r.id ≡ id
unfolding find_job
find_job-id id [] r h = cc
find_job-id id (s ∷ rs) r h = ground (arith, same_iff s.id id, find_job-id id rs r)

pub update_job-missing :
    (id : String) (f : JobRow → JobRow) (rs : List JobRow)
    → find_job id rs ≡ none
    → update_job id f rs ≡ rs
unfolding find_job update_job
update_job-missing id f [] h = refl
update_job-missing id f (r ∷ rs) h = ground (arith, update_job-missing id f rs)

pub find_job-append :
    (id : String) (rs : List JobRow) (r : JobRow)
    → find_job id (rs ++ r ∷ [])
      ≡ (elim (find_job id rs) [ some s ↦ some s | none ↦ if same r.id id then some r else none ])
unfolding find_job
find_job-append id [] r = refl
find_job-append id (s ∷ rs) r = ground (arith, find_job-append id rs r)

pub IsKeyed-append :
    (rs : List JobRow) (r : JobRow) → IsKeyed rs → find_job r.id rs ≡ none → IsKeyed (rs ++ r ∷ [])
unfolding find_job
IsKeyed-append [] r h e = (refl, tt)
IsKeyed-append (s ∷ rs) r h e = (
  ground (arith, find_job-append s.id rs r, same_iff r.id s.id, same_iff s.id r.id),
  IsKeyed-append rs r h.1 (ground arith),
)

module _ (id : String) (f : JobRow → JobRow) (keeps_id : (r : JobRow) → (f r).id ≡ r.id) where
  pub find_job-update_ne :
      (j : String) (rs : List JobRow)
      → same id j ≡ false
      → find_job j (update_job id f rs) ≡ find_job j rs
  unfolding find_job update_job
  find_job-update_ne j [] h = refl
  find_job-update_ne j (r ∷ rs) h = ground (
    arith,
    find_job-update_ne j rs h,
    keeps_id r,
    same_iff r.id id,
    same_iff r.id j,
    same_iff id j,
  )

  pub find_job-update_self :
      (rs : List JobRow) (r : JobRow)
      → find_job id rs ≡ some r
      → find_job id (update_job id f rs) ≡ some (f r)
  unfolding find_job update_job
  find_job-update_self [] r h = cc
  find_job-update_self (s ∷ rs) r h =
      ground (arith, find_job-update_self rs r, keeps_id s, same_iff s.id id)

  find_job-update_none :
      (j : String) (rs : List JobRow)
      → find_job j rs ≡ none
      → find_job j (update_job id f rs) ≡ none
  unfolding find_job update_job
  find_job-update_none j [] h = refl
  find_job-update_none j (r ∷ rs) h = ground (arith, find_job-update_none j rs, keeps_id r)

  pub IsKeyed-update : (rs : List JobRow) → IsKeyed rs → IsKeyed (update_job id f rs)
  unfolding update_job
  IsKeyed-update [] h = tt
  IsKeyed-update (r ∷ rs) h =
      (ground (arith, find_job-update_none r.id rs, keeps_id r), IsKeyed-update rs h.1)

find_job-cons :
    (id : String) (r : JobRow) (rs : List JobRow) (row : JobRow)
    → find_job id (r ∷ rs) ≡ some row
    → ((same r.id id ≡ true) × (r ≡ row)) ⊎ ((same r.id id ≡ false) × (find_job id rs ≡ some row))
unfolding find_job
find_job-cons id r rs row h = ground arith

update_job-here :
    (id : String) (f : JobRow → JobRow) (r : JobRow) (rs : List JobRow)
    → IsKeyed (r ∷ rs)
    → same r.id id ≡ true
    → update_job id f (r ∷ rs) ≡ f r ∷ rs
unfolding update_job
update_job-here id f r rs k e =
    let missing = subst (λ j. find_job j rs ≡ none) ((same_iff r.id id).0 e) k.0 in
    ground (arith, update_job-missing id f rs missing)

update_job-there :
    (id : String) (f : JobRow → JobRow) (r : JobRow) (rs : List JobRow)
    → same r.id id ≡ false
    → update_job id f (r ∷ rs) ≡ r ∷ update_job id f rs
unfolding update_job
update_job-there id f r rs e = ground arith

-- An update of a found row, and a property that it keeps: the other rows stay as they were.
module _ (id : String) (f : JobRow → JobRow) where
  pub Moves-update :
      (rs : List JobRow) (row : JobRow)
      → IsKeyed rs
      → find_job id rs ≡ some row
      → Becomes row (f row)
      → Moves rs (update_job id f rs)
  unfolding update_job
  Moves-update [] row k h b = tt
  Moves-update (r ∷ rs) row k h b = elim (find_job-cons id r rs row h) [
    | inl (e, found) ↦
        subst (Moves (r ∷ rs)) (sym (update_job-here id f r rs k e))
          (subst (λ s. Becomes s (f s)) (sym found) b, Moves-refl rs)
    | inr (e, rest) ↦
        subst (Moves (r ∷ rs)) (sym (update_job-there id f r rs e))
          (Becomes-refl r, Moves-update rs row k.1 rest b)
  ]

  pub All-update :
      (P : JobRow → Type 0) (rs : List JobRow) (row : JobRow)
      → IsKeyed rs
      → find_job id rs ≡ some row
      → (P row → P (f row))
      → All P rs
      → All P (update_job id f rs)
  unfolding update_job
  All-update P [] row k h b p = tt
  All-update P (r ∷ rs) row k h b p = elim (find_job-cons id r rs row h) [
    | inl (e, found) ↦
        subst (All P) (sym (update_job-here id f r rs k e))
          (subst (λ s. P s → P (f s)) (sym found) b p.0, p.1)
    | inr (e, rest) ↦
        subst (All P) (sym (update_job-there id f r rs e)) (p.0, All-update P rs row k.1 rest b p.1)
  ]

-- A job that the earlier table has is in the later one, further along.
pub Moves-find :
    (id : String) (xs ys : List JobRow) (r : JobRow)
    → Moves xs ys
    → find_job id xs ≡ some r
    → (s : JobRow) × (find_job id ys ≡ some s) × Becomes r s
unfolding find_job
Moves-find id [] ys r h e = cc
Moves-find id (x ∷ xs) [] r h e = absurd h
Moves-find id (x ∷ xs) (y ∷ ys) r h e = elim (find_job-cons id x xs r e) [
  | inl (here_it_is, x_is_r) ↦ (
    y,
    ground (arith, h.0.id, same_iff x.id id, same_iff y.id id),
    subst (λ t. Becomes t y) x_is_r h.0,
  )
  | inr (not_here, rest) ↦
      let (s, found, becomes) = Moves-find id xs ys r h.1 rest in
      (s, ground (arith, h.0.id, same_iff x.id id, same_iff y.id id), becomes)
]
