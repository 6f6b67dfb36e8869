-- ===== src/Store/Advance/Everywhere.antt =====
-- An update that is a step of every row it may touch: no lookup is needed.
use mathlib.Core.Path.{subst}
use deckhand.Base.{
  ◌≡◌, refl, sym, ap, String, Bool, true, false, none, List, [], ◌∷◌, All, map, same, arith,
  if◌then◌else◌,
}
use deckhand.Store.Rows.{JobRow, find_job, update_job}
use deckhand.Store.Table.{IsKeyed, Becomes, Becomes-refl, Moves}
use deckhand.Store.Advance.{IsLeaseSound, IsStep, Advances}

module _ (g : JobRow → JobRow) (keeps_id : (r : JobRow) → (g r).id ≡ r.id) where
  find_job-map :
      (id : String) (rs : List JobRow) → find_job id rs ≡ none → find_job id (map g rs) ≡ none
  unfolding find_job
  find_job-map id [] h = refl
  find_job-map id (r ∷ rs) h = ground (arith, find_job-map id rs, keeps_id r)

  IsKeyed-map : (rs : List JobRow) → IsKeyed rs → IsKeyed (map g rs)
  IsKeyed-map [] k = tt
  IsKeyed-map (r ∷ rs) k = (
    subst (λ j. find_job j (map g rs) ≡ none) (sym (keeps_id r)) (find_job-map r.id rs k.0),
    IsKeyed-map rs k.1,
  )

  pub Advances-map :
      (rows : List JobRow)
      → ((r : JobRow) → Becomes r (g r))
      → ((r : JobRow) → IsLeaseSound r → IsLeaseSound (g r))
      → Advances rows (map g rows)
  Advances-map rows becomes sound = record {
    well_formed = λ w. record { keyed = IsKeyed-map rows w.keyed; leases = leases rows w.leases };
    moves = λ w. moves rows;
  }
    where
      leases : (rs : List JobRow) → All IsLeaseSound rs → All IsLeaseSound (map g rs)
      leases [] h = tt
      leases (r ∷ rs) h = (sound r h.0, leases rs h.1)

      moves : (rs : List JobRow) → Moves rs (map g rs)
      moves [] = tt
      moves (r ∷ rs) = (becomes r, moves rs)

abbrev only : String → (JobRow → JobRow) → JobRow → JobRow
only id f r = if same r.id id then f r else r

update_job-map :
    (id : String) (f : JobRow → JobRow) (rs : List JobRow) → update_job id f rs ≡ map (only id f) rs
unfolding update_job
update_job-map id f [] = refl
update_job-map id f (r ∷ rs) = ap (λ t. only id f r ∷ t) (update_job-map id f rs)

-- By cases of a test, an update or none.
pub by_test {ℓ} :
    (P : JobRow → Type ℓ) (b : Bool) (r s : JobRow) → P r → P s → P (if b then s else r)
by_test P true r s h k = k
by_test P false r s h k = h

pub Advances-update_any :
    (rows : List JobRow) (id : String) (f : JobRow → JobRow)
    → ((r : JobRow) → IsStep r f)
    → Advances rows (update_job id f rows)
Advances-update_any rows id f step = subst (Advances rows) (sym (update_job-map id f rows)) (
    Advances-map (only id f)
      (λ r. by_test (λ s. s.id ≡ r.id) (same r.id id) r (f r) refl ((step r).keeps_id r)) rows
      (λ r. by_test (Becomes r) (same r.id id) r (f r) (Becomes-refl r) (step r).becomes)
      (λ r h. by_test IsLeaseSound (same r.id id) r (f r) h ((step r).sound h)))
