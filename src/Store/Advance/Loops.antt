-- ===== src/Store/Advance/Loops.antt =====
-- A loop over selected rows that updates each of them.
use mathlib.Core.Path.{subst}
use deckhand.Base.{◌≡◌, sym, List, [], ◌∷◌}
use deckhand.Result.{ok}
use deckhand.Store.Rows.{JobRow, Db, update_job}
use deckhand.Store.Tx.{Tx}
use deckhand.Store.Updates.{for_each}
use deckhand.Store.Ensures.{bind-ok, returned}
use deckhand.Store.Table.{IsKeyed}
use deckhand.Store.Advance.{IsStep, Advances, Advances-refl, Advances-trans, Advances-update}
use deckhand.Store.Advance.Rows.{IsCurrent, update-IsCurrent}

-- The body of a loop: where it commits it has updated its own row, by a step of that row.
abbrev pub Updates : (JobRow → Tx Unit) → (JobRow → JobRow) → Type 0
Updates body f =
    (row : JobRow) (db db' : Db)
    → body row db ≡ ok (tt, db')
    → (db'.jobs ≡ update_job row.id f db.jobs) × IsStep row f

unit_db : {db db' : Db} → returned tt db ≡ ok (tt, db') → db ≡ db'
unit_db h = cc

pub for_each-Advances :
    (body : JobRow → Tx Unit) (f : JobRow → JobRow)
    → Updates body f
    → (rows : List JobRow) (db db' : Db) → IsKeyed rows
    → IsCurrent db.jobs rows
    → for_each body rows db ≡ ok (tt, db')
    → Advances db.jobs db'.jobs
unfolding for_each
for_each-Advances body f step [] db db' k c h =
    subst (λ (d : Db). Advances db.jobs d.jobs) (unit_db h) (Advances-refl db.jobs)
for_each-Advances body f step (row ∷ rows) db db' k c h =
    let (u, mid, e, rest) = bind-ok (body row) (λ _. for_each body rows) db h in
    let (jobs, is_step) = step row db mid e in
    let first = Advances-update db.jobs row.id f row (λ _. c.0) is_step in
    let current = update-IsCurrent row.id f is_step.keeps_id db.jobs rows k.0 c.1 in
    Advances-trans db.jobs mid.jobs db'.jobs (subst (Advances db.jobs) (sym jobs) first) (
      for_each-Advances body f step rows mid db' k.1
        (subst (λ t. IsCurrent t rows) (sym jobs) current) rest)
