-- ===== src/Store/Advance/Sweep.antt =====
-- A sweep does to the table exactly what its WHERE clause says: the rows that it accepts are updated,
-- and the others stay as they are.
use mathlib.Core.Path.{subst}
use deckhand.Base.{
  ◌≡◌, refl, sym, ap, ◌∙◌, String, Bool, false, none, List, [], ◌∷◌, map, same, same_iff, same_refl,
  keep, arith, Bool-cases, inl, inr, if◌then◌else◌,
}
use deckhand.Result.{ok}
use deckhand.Store.Rows.{JobRow, Db, find_job, update_job}
use deckhand.Store.Tx.{Tx}
use deckhand.Store.Updates.{for_each}
use deckhand.Store.Ensures.{bind-ok}
use deckhand.Store.Table.{IsKeyed, update_job-missing}
use deckhand.Store.Advance.Loops.{Updates}

-- The updates of a loop, one after another.
update_each : List JobRow → (JobRow → JobRow) → List JobRow → List JobRow
update_each [] f table = table
update_each (row ∷ rows) f table = update_each rows f (update_job row.id f table)

for_each-jobs :
    (body : JobRow → Tx Unit) (f : JobRow → JobRow)
    → Updates body f
    → (rows : List JobRow) (db db' : Db) → for_each body rows db ≡ ok (tt, db')
    → db'.jobs ≡ update_each rows f db.jobs
unfolding for_each update_each
for_each-jobs body f step [] db db' h = ground arith
for_each-jobs body f step (row ∷ rows) db db' h =
    let (u, mid, e, rest) = bind-ok (body row) (λ _. for_each body rows) db h in
    for_each-jobs body f step rows mid db' rest ∙ ap (update_each rows f) (step row db mid e).0

-- Updates of other identifiers pass the first row by.
update_each-cons :
    (rows : List JobRow) (f : JobRow → JobRow) (r : JobRow) (table : List JobRow)
    → find_job r.id rows ≡ none
    → update_each rows f (r ∷ table) ≡ r ∷ update_each rows f table
unfolding update_each find_job update_job
update_each-cons [] f r table h = refl
update_each-cons (s ∷ rows) f r table h = elim (Bool-cases (same s.id r.id)) [
  | inl e ↦ absurd (ground arith)
  | inr e ↦
      let apart : same r.id s.id ≡ false = ground (arith, same_iff s.id r.id, same_iff r.id s.id) in
      ap (λ t. update_each rows f (t ∷ update_job s.id f table)) (rw apart)
      ∙ update_each-cons rows f r (update_job s.id f table) (ground arith)
]

abbrev pub choose : (JobRow → Bool) → (JobRow → JobRow) → JobRow → JobRow
choose p f r = if p r then f r else r

find_job-keep :
    (p : JobRow → Bool) (id : String) (rs : List JobRow)
    → find_job id rs ≡ none
    → find_job id (keep p rs) ≡ none
unfolding find_job keep
find_job-keep p id [] h = refl
find_job-keep p id (r ∷ rs) h = ground (arith, find_job-keep p id rs)

update_job-head :
    (f : JobRow → JobRow) (r : JobRow) (rs : List JobRow)
    → find_job r.id rs ≡ none
    → update_job r.id f (r ∷ rs) ≡ f r ∷ rs
unfolding update_job
update_job-head f r rs h = ground (arith, same_refl r.id, update_job-missing r.id f rs h)

update_each-keep :
    (p : JobRow → Bool) (f : JobRow → JobRow)
    → ((r : JobRow) → (f r).id ≡ r.id)
    → (table : List JobRow) → IsKeyed table
    → update_each (keep p table) f table ≡ map (choose p f) table
unfolding update_each keep
update_each-keep p f same_id [] k = refl
update_each-keep p f same_id (r ∷ rs) k =
    let rest = keep p rs in
    let missing = find_job-keep p r.id rs k.0 in
    let ih = update_each-keep p f same_id rs k.1 in
    elim (Bool-cases (p r)) [
      | inl e ↦ rw e (
          ap (update_each rest f) (update_job-head f r rs k.0)
          ∙ update_each-cons rest f (f r) rs
              (subst (λ j. find_job j rest ≡ none) (sym (same_id r)) missing)
          ∙ ap (λ t. f r ∷ t) ih)
      | inr e ↦ rw e (update_each-cons rest f r rs missing ∙ ap (λ t. r ∷ t) ih)
    ]

-- A loop over the selected rows that commits.
pub sweep-jobs :
    (body : JobRow → Tx Unit) (f : JobRow → JobRow)
    → Updates body f
    → ((r : JobRow) → (f r).id ≡ r.id)
    → (p : JobRow → Bool) (db db' : Db) → IsKeyed db.jobs
    → for_each body (keep p db.jobs) db ≡ ok (tt, db')
    → db'.jobs ≡ map (choose p f) db.jobs
sweep-jobs body f step same_id p db db' k h =
    for_each-jobs body f step (keep p db.jobs) db db' h ∙ update_each-keep p f same_id db.jobs k
