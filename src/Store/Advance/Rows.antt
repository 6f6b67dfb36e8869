-- ===== src/Store/Advance/Rows.antt =====
-- Rows that a `SELECT` has found in the table: they are the table's rows under their identifiers.
use mathlib.Core.Path.{subst}
use deckhand.Base.{
  ◌≡◌, ◌≤◌, refl, sym, ap, ◌∙◌, ◌⊎◌, inl, inr, String, Bool, true, false, none, some, List, [], ◌∷◌,
  All, same, same_iff, same_refl, keep, Bool-cases, Option-cases, All-map, arith,
}
use native.Mathlib.Nat.{le_trans}
use mathlib.Core.Bool.{false≢true}
use mathlib.Core.Option.{none-ne-some}
use deckhand.Store.Rows.{JobRow, find_job, update_job, oldest}
use deckhand.Store.Table.{IsKeyed, find_job-update_ne}

abbrev pub IsCurrent : List JobRow → List JobRow → Type 0
IsCurrent table rows = All (λ r. find_job r.id table ≡ some r) rows

-- Of two identifiers the table has one and lacks the other: they differ.
apart :
    (i j : String) (rs : List JobRow) (s : JobRow)
    → find_job i rs ≡ none
    → find_job j rs ≡ some s
    → same i j ≡ false
apart i j rs s missing found = elim (Bool-cases (same i j)) [
  | inl e ↦
      absurd (none-ne-some s (sym missing ∙ ap (λ k. find_job k rs) ((same_iff i j).0 e) ∙ found))
  | inr e ↦ e
]

-- A row that is found in the rest is found in the whole.
current-there :
    (r : JobRow) (rs : List JobRow) (s : JobRow)
    → find_job r.id rs ≡ none
    → find_job s.id rs ≡ some s
    → find_job s.id (r ∷ rs) ≡ some s
unfolding find_job
current-there r rs s missing found = ground (arith, apart r.id s.id rs s missing found)

current-here : (r : JobRow) (rs : List JobRow) → find_job r.id (r ∷ rs) ≡ some r
unfolding find_job
current-here r rs = ground (arith, same_refl r.id)

IsCurrent-wider :
    (r : JobRow) (rs rows : List JobRow)
    → find_job r.id rs ≡ none
    → IsCurrent rs rows
    → IsCurrent (r ∷ rs) rows
IsCurrent-wider r rs [] missing h = tt
IsCurrent-wider r rs (s ∷ rows) missing h =
    (current-there r rs s missing h.0, IsCurrent-wider r rs rows missing h.1)

-- What `SELECT … WHERE` returns is current, and has distinct identifiers.
pub keep-IsCurrent : (p : JobRow → Bool) (rs : List JobRow) → IsKeyed rs → IsCurrent rs (keep p rs)
unfolding keep
keep-IsCurrent p [] k = tt
keep-IsCurrent p (r ∷ rs) k =
    let rest = IsCurrent-wider r rs (keep p rs) k.0 (keep-IsCurrent p rs k.1) in
    elim (Bool-cases (p r)) [ inl e ↦ rw e (current-here r rs, rest) | inr e ↦ rw e rest ]

find_job-keep :
    (p : JobRow → Bool) (id : String) (rs : List JobRow)
    → find_job id rs ≡ none
    → find_job id (keep p rs) ≡ none
unfolding find_job keep
find_job-keep p id [] h = refl
find_job-keep p id (r ∷ rs) h = ground (arith, find_job-keep p id rs)

pub keep-IsKeyed : (p : JobRow → Bool) (rs : List JobRow) → IsKeyed rs → IsKeyed (keep p rs)
unfolding keep
keep-IsKeyed p [] k = tt
keep-IsKeyed p (r ∷ rs) k = elim (Bool-cases (p r)) [
  | inl e ↦ rw e (find_job-keep p r.id rs k.0, keep-IsKeyed p rs k.1)
  | inr e ↦ rw e (keep-IsKeyed p rs k.1)
]

-- An update of one row leaves the others current.
pub update-IsCurrent :
    (id : String) (f : JobRow → JobRow) (keeps_id : (r : JobRow) → (f r).id ≡ r.id)
    (table rows : List JobRow)
    → find_job id rows ≡ none
    → IsCurrent table rows
    → IsCurrent (update_job id f table) rows
unfolding find_job
update-IsCurrent id f keeps_id table [] missing h = tt
update-IsCurrent id f keeps_id table (s ∷ rows) missing h = elim (Bool-cases (same s.id id)) [
  | inl e ↦ absurd (none-ne-some s (sym missing ∙ (rw e)))
  | inr e ↦ (
    find_job-update_ne id f keeps_id s.id table (ground (arith, same_iff s.id id, same_iff id s.id))
        ∙ h.0,
    update-IsCurrent id f keeps_id table rows (sym (rw e) ∙ missing) h.1,
  )
]

oldest-cons :
    (p : JobRow → Bool) (s : JobRow) (rs : List JobRow) (r : JobRow)
    → oldest p (s ∷ rs) ≡ some r
    → (s ≡ r) ⊎ (oldest p rs ≡ some r)
unfolding oldest
oldest-cons p s rs r h = ground arith

pub oldest-holds :
    (p : JobRow → Bool) (rs : List JobRow) (r : JobRow) → oldest p rs ≡ some r → p r ≡ true
unfolding oldest
oldest-holds p [] r h = cc
oldest-holds p (s ∷ rs) r h = ground (arith, oldest-holds p rs r, oldest-holds p rs s)

-- The row that `ORDER BY created_at LIMIT 1` returns is the table's row under its identifier.
pub oldest-current :
    (p : JobRow → Bool) (rs : List JobRow) (r : JobRow)
    → IsKeyed rs
    → oldest p rs ≡ some r
    → find_job r.id rs ≡ some r
unfolding oldest
oldest-current p [] r k h = cc
oldest-current p (s ∷ rs) r k h = elim (oldest-cons p s rs r h) [
  | inl e ↦ subst (λ t. find_job t.id (s ∷ rs) ≡ some t) e (current-here s rs)
  | inr rest ↦ current-there s rs r k.0 (oldest-current p rs r k.1 rest)
]

oldest-none :
    (p : JobRow → Bool) (rs : List JobRow) → oldest p rs ≡ none → All (λ s. p s ≡ false) rs
unfolding oldest
oldest-none p [] h = tt
oldest-none p (s ∷ rs) h = (ground arith, oldest-none p rs (ground arith))

-- No row that the `WHERE` clause accepts was created earlier.
pub oldest-first :
    (p : JobRow → Bool) (rs : List JobRow) (r : JobRow)
    → oldest p rs ≡ some r
    → All (λ s. p s ≡ true → r.created_at ≤ s.created_at) rs
unfolding oldest
oldest-first p [] r h = tt
oldest-first p (s ∷ rs) r h = (
  λ e. ground (arith, oldest-holds p rs),
  elim (Option-cases (oldest p rs)) [
    | inl none_left ↦
        All-map _ _ (λ t out ok. absurd (false≢true (sym out ∙ ok))) rs (oldest-none p rs none_left)
    | inr (t, e) ↦
        let first : r.created_at ≤ t.created_at = ground arith in
        All-map _ _ (λ u le ok. le_trans first (le ok)) rs (oldest-first p rs t e)
  ],
)
