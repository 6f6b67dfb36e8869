-- ===== src/Process/Returns.antt =====
-- What a process that returned has done, and the world in which it did it.
use deckhand.Base.{◌≡◌, refl, sym, ap, ◌∙◌, suc, ℕ, ◌⊎◌, inl, inr, some}
use deckhand.Result.{Error, Result, ok, err}
use deckhand.Store.Rows.{Db}
use deckhand.Store.Tx.{Tx, transact, settle}
use deckhand.Store.Operation.{run}
use deckhand.Store.Audit.{Store, Moment}
use deckhand.Process.{
  Schedule, World, Process, pure, raise, lift, ◌>>=◌, handle, continue, rescue, commit, ask,
}

-- Of a chain of steps that returned, each returned, and the second began where the first ended.
pub bind-returns :
    {A B : Type 0} (m : Process A) (f : A → Process B) (w w' : World) (b : B)
    → (m >>= f) w ≡ (ok b, w')
    → (a : A) × (mid : World) × (m w ≡ (ok a, mid)) × (f a mid ≡ (ok b, w'))
bind-returns {A} {B} m f w w' b h = of (m w) h
  where
    of :
        (r : Result A × World)
        → continue r f ≡ (ok b, w')
        → (a : A) × (mid : World) × (r ≡ (ok a, mid)) × (f a mid ≡ (ok b, w'))
    of (ok a, mid) h = (a, mid, refl, h)
    of (err e, mid) h = absurd (cc h)

-- A step whose errors are raised again.
pub reraised-returns :
    {A : Type 0} (m : Process A) (f : Error → Error) (w w' : World) (a : A)
    → handle m (λ e. raise (f e)) w ≡ (ok a, w')
    → m w ≡ (ok a, w')
reraised-returns {A} m f w w' a h = of (m w) h
  where
    of : (r : Result A × World) → rescue r (λ e. raise (f e)) ≡ (ok a, w') → r ≡ (ok a, w')
    of (ok b, mid) h = h
    of (err e, mid) h = absurd (cc h)

-- A transaction that returned has committed, at the moment of its step and on what others had left.
pub commit-returns :
    {A : Type 0} (store : Store) (schedule : Schedule) (tx : Moment → Tx A) (w w' : World) (a : A)
    → commit store schedule tx w ≡ (ok a, w')
    → (tx (schedule.at w.turn) (run store (schedule.others w.turn) w.db) ≡ ok (a, w'.db))
      × (w'.turn ≡ suc w.turn)
unfolding commit transact
commit-returns {A} store schedule tx w w' a h = of (tx (schedule.at w.turn) mid) h
  where
    mid : Db
    mid = run store (schedule.others w.turn) w.db

    next : Result A × Db → Result A × World
    next (s, db) = (s, record { db = db; turn = suc w.turn })

    of :
        (r : Result (A × Db))
        → next (settle mid r) ≡ (ok a, w')
        → (r ≡ ok (a, w'.db)) × (w'.turn ≡ suc w.turn)
    of (ok (b, db')) h = (
      cc (h, ap (λ (q : Result A × World). q.1.db) h),
      sym (ap (λ (q : Result A × World). q.1.turn) h),
    )
    of (err e') h = absurd (cc h)

-- The world after a call of an adapter.
abbrev pub next : World → World
next w = record w { turn = suc w.turn }

-- A transaction that was committed in the step from `w` to `w'`, with this value.
abbrev pub Commits : {A : Type 0} → Store → Schedule → (Moment → Tx A) → World → A → World → Type 0
Commits store schedule tx w a w' =
    (tx (schedule.at w.turn) (run store (schedule.others w.turn) w.db) ≡ ok (a, w'.db))
    × (w'.turn ≡ suc w.turn)

pub ask-returns :
    {A B : Type 0} (call : ℕ → Result A) (f : A → Process B) (w w' : World) (b : B)
    → (ask call >>= f) w ≡ (ok b, w')
    → (a : A) × (call w.turn ≡ ok a) × (f a (next w) ≡ (ok b, w'))
unfolding ask
ask-returns {A} {B} call f w w' b h = of (call w.turn) h
  where
    of :
        (r : Result A)
        → continue (r, next w) f ≡ (ok b, w')
        → (a : A) × (r ≡ ok a) × (f a (next w) ≡ (ok b, w'))
    of (ok a) h = (a, refl, h)
    of (err e) h = absurd (cc h)

pub lift-returns :
    {A B : Type 0} (r : Result A) (f : A → Process B) (w w' : World) (b : B)
    → (lift r >>= f) w ≡ (ok b, w')
    → (a : A) × (r ≡ ok a) × (f a w ≡ (ok b, w'))
lift-returns (ok a) f w w' b h = (a, refl, h)
lift-returns (err e) f w w' b h = absurd (cc h)

-- A `try` that returned: its body did, or what handles the error that it raised.
pub handle-returns :
    {A : Type 0} (m : Process A) (f : Error → Process A) (w w' : World) (a : A)
    → handle m f w ≡ (ok a, w')
    → (m w ≡ (ok a, w'))
      ⊎ ((e : Error) × (mid : World) × (m w ≡ (err e, mid)) × (f e mid ≡ (ok a, w')))
handle-returns {A} m f w w' a h = of (m w) h
  where
    of :
        (r : Result A × World)
        → rescue r f ≡ (ok a, w')
        → (r ≡ (ok a, w'))
          ⊎ ((e : Error) × (mid : World) × (r ≡ (err e, mid)) × (f e mid ≡ (ok a, w')))
    of (ok b, mid) h = inl h
    of (err e, mid) h = inr (e, mid, refl, h)

some_view :
    {A : Type 0} (a b : A) (mid w' : World)
    → pure (some a) mid ≡ (ok (some b), w')
    → (a ≡ b) × (mid ≡ w')
some_view a b mid w' h = (cc h, cc h)

-- A transaction whose value is what the process returns.
pub commit_some-returns :
    {A : Type 0} (store : Store) (schedule : Schedule) (tx : Moment → Tx A) (w w' : World) (a : A)
    → (commit store schedule tx >>= λ v. pure (some v)) w ≡ (ok (some a), w')
    → Commits store schedule tx w a w'
commit_some-returns store schedule tx w w' a h =
    let (v, mid, ran, rest) =
      bind-returns (commit store schedule tx) (λ v. pure (some v)) w w' (some a) h in
    let (same_value, same_world) = some_view v a mid w' rest in
    commit-returns store schedule tx w w' a
      (ran ∙ ap (λ u. (ok u, mid)) same_value ∙ ap (λ x. (ok a, x)) same_world)

-- A transaction, and then what returned.
pub committed-returns :
    {A B : Type 0} (store : Store) (schedule : Schedule) (tx : Moment → Tx A) (f : A → Process B)
    (w w' : World) (b : B)
    → (commit store schedule tx >>= f) w ≡ (ok b, w')
    → (a : A) × (mid : World) × Commits store schedule tx w a mid × (f a mid ≡ (ok b, w'))
committed-returns store schedule tx f w w' b h =
    let (a, mid, ran, rest) = bind-returns (commit store schedule tx) f w w' b h in
    (a, mid, commit-returns store schedule tx w mid a ran, rest)
