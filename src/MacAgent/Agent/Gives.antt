-- ===== src/MacAgent/Agent/Gives.antt =====
-- Which commands a handler gives: one rule for each way to build a handler.
use deckhand.Base.{◌≡◌, refl, Bool, true, false, ℕ, suc, All, ◌∷◌}
use deckhand.MacAgent.Agent.{
  Command, Failure, Outcome, returned, raised, Machine, Agent, pure, raise, continue, ◌>>=◌, rescue,
  handle, give,
}

module _ (P : Command → Type 0) where
  -- Whatever was given before, every command given satisfies `P` if those before did.
  pub record Gives {A : Type 0} (m : Agent A) : Type 0 where
    pub at : (s : Machine) → All P s.given → All P (m s).1.given

  pub Gives-pure : {A : Type 0} (a : A) → Gives (pure a)
  Gives-pure a = record { at = λ s h. h }

  pub Gives-raise : {A : Type 0} (e : Failure) → Gives (raise {A = A} e)
  Gives-raise e = record { at = λ s h. h }

  continues :
      {A B : Type 0} (r : Outcome A × Machine) (f : A → Agent B)
      → All P r.1.given
      → ((a : A) → Gives (f a))
      → All P (continue r f).1.given
  continues (returned a, s) f h k = (k a).at s h
  continues (raised e, s) f h k = h

  pub Gives-bind :
      {A B : Type 0} (m : Agent A) (f : A → Agent B)
      → Gives m
      → ((a : A) → Gives (f a))
      → Gives (m >>= f)
  Gives-bind m f h k = record { at = λ s g. continues (m s) f (h.at s g) k }

  rescues :
      {A : Type 0} (r : Outcome A × Machine) (f : Failure → Agent A)
      → All P r.1.given
      → ((e : Failure) → Gives (f e))
      → All P (rescue r f).1.given
  rescues (returned a, s) f h k = h
  rescues (raised e, s) f h k = (k e).at s h

  pub Gives-handle :
      {A : Type 0} (m : Agent A) (f : Failure → Agent A)
      → Gives m
      → ((e : Failure) → Gives (f e))
      → Gives (handle m f)
  Gives-handle m f h k = record { at = λ s g. rescues (m s) f (h.at s g) k }

  pub Gives-give :
      {A : Type 0} (command : Command) (answer : ℕ → Outcome A)
      → P command
      → Gives (give command answer)
  unfolding give
  Gives-give command answer p = record { at = λ s h. (p, h) }

  answered :
      {A B : Type 0} (r : Outcome A) (f : A → Agent B) (s : Machine)
      → All P s.given
      → ((a : A) → r ≡ returned a → Gives (f a))
      → All P (continue (r, s) f).1.given
  answered (returned a) f s h k = (k a refl).at s h
  answered (raised e) f s h k = h

  -- What follows a command may use what was answered, and what follows a value that it is one.
  pub Gives-give_bind :
      {A B : Type 0} (command : Command) (answer : ℕ → Outcome A) (f : A → Agent B)
      → P command
      → ((at : ℕ) (a : A) → answer at ≡ returned a → Gives (f a))
      → Gives (give command answer >>= f)
  unfolding give
  Gives-give_bind command answer f p k = record {
    at = λ s h.
        answered (answer s.turn) f (record s { given = command ∷ s.given; turn = suc s.turn })
          (p, h) (k s.turn);
  }

  pub Gives-value_bind :
      {A B : Type 0} (r : Outcome A) (f : A → Agent B)
      → ((a : A) → r ≡ returned a → Gives (f a))
      → Gives ((λ s. (r, s)) >>= f)
  Gives-value_bind r f k = record { at = λ s h. answered r f s h k }

  pub Gives-elim :
      {A : Type 0} (b : Bool) (m n : Agent A)
      → (b ≡ true → Gives m)
      → (b ≡ false → Gives n)
      → Gives {A = A} (elim b as (λ _. Agent A) [ true ↦ m | false ↦ n ])
  Gives-elim true m n h k = h refl
  Gives-elim false m n h k = k refl
