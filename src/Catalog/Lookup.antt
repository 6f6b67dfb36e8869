-- ===== src/Catalog/Lookup.antt =====
-- What the catalog's look-ups return.
use mathlib.Core.Path.{subst}
use deckhand.Base.{
  ℕ, ◌≤◌, ◌+◌, String, false, ◌≡◌, refl, sym, ap, ◌∙◌, none, some, List, [], ◌∷◌, ◌++◌, same_iff,
  same_refl, ==_iff, length, All, All-map, arith,
}
use deckhand.Result.{ok}
use deckhand.Models.Request.{ActionDefinition}
use deckhand.Catalog.{
  has_key, set_action, set_actions, catalog, find_action, get_action, highest, latest, found,
  larger,
}

-- No two definitions have one ID and version.
abbrev pub IsDistinct : List ActionDefinition → Type 0
IsDistinct [] = Unit
IsDistinct (a ∷ rest) = (find_action a.id a.version rest ≡ none) × IsDistinct rest

append_nil : (xs : List ActionDefinition) → xs ++ [] ≡ xs
append_nil [] = refl
append_nil (x ∷ xs) = ap (λ l. x ∷ l) (append_nil xs)

append_one :
    (xs : List ActionDefinition) (a : ActionDefinition) (ys : List ActionDefinition)
    → (xs ++ a ∷ []) ++ ys ≡ xs ++ a ∷ ys
append_one [] a ys = refl
append_one (x ∷ xs) a ys = ap (λ l. x ∷ l) (append_one xs a ys)

set_action-length :
    (a : ActionDefinition) (actions : List ActionDefinition)
    → length (set_action a actions) ≤ length actions + 1
unfolding set_action
set_action-length a [] = omega arith
set_action-length a (b ∷ bs) = ground (arith, set_action-length a bs)

set_actions-length :
    (actions rest : List ActionDefinition)
    → length (set_actions actions rest) ≤ length actions + length rest
unfolding set_actions
set_actions-length actions [] = omega arith
set_actions-length actions (a ∷ rest) =
    omega (arith, set_actions-length (set_action a actions) rest, set_action-length a actions)

-- A definition that makes the dict longer has a new key, and comes last.
set_action-appends :
    (a : ActionDefinition) (actions : List ActionDefinition)
    → length (set_action a actions) ≡ length actions + 1
    → (set_action a actions ≡ actions ++ a ∷ []) × (find_action a.id a.version actions ≡ none)
unfolding set_action find_action
set_action-appends a [] h = (refl, refl)
set_action-appends a (b ∷ bs) h = ground (arith, set_action-appends a bs)

find_action-append :
    (id : String) (version : ℕ) (actions : List ActionDefinition) (a : ActionDefinition)
    → find_action id version actions ≡ none
    → has_key id version a ≡ false
    → find_action id version (actions ++ a ∷ []) ≡ none
unfolding find_action
find_action-append id version [] a h k = ground arith
find_action-append id version (b ∷ bs) a h k = ground (arith, find_action-append id version bs a)

IsDistinct-append :
    (actions : List ActionDefinition) (a : ActionDefinition)
    → IsDistinct actions
    → find_action a.id a.version actions ≡ none
    → IsDistinct (actions ++ a ∷ [])
unfolding find_action
IsDistinct-append [] a d h = (refl, tt)
IsDistinct-append (b ∷ bs) a d h = (
  find_action-append b.id b.version bs a d.0
      (ground (arith, same_iff a.id b.id, same_iff b.id a.id)),
  IsDistinct-append bs a d.1 (ground arith),
)

set_actions-IsDistinct :
    (actions rest : List ActionDefinition)
    → IsDistinct actions
    → length (set_actions actions rest) ≡ length actions + length rest
    → IsDistinct (set_actions actions rest) × (set_actions actions rest ≡ actions ++ rest)
unfolding set_actions
set_actions-IsDistinct actions [] d h = (d, sym (append_nil actions))
set_actions-IsDistinct actions (a ∷ rest) d h =
    let (last, new) = set_action-appends a actions (
      omega (arith, set_actions-length (set_action a actions) rest, set_action-length a actions)) in
    let (distinct, same_list) =
      set_actions-IsDistinct (set_action a actions) rest
        (subst IsDistinct (sym last) (IsDistinct-append actions a d new))
        (omega
          (arith, set_actions-length (set_action a actions) rest, set_action-length a actions)) in
    (distinct, same_list ∙ ap (λ l. l ++ rest) last ∙ append_one actions a rest)

finds_all :
    (actions more : List ActionDefinition)
    → IsDistinct actions
    → ((id : String) (version : ℕ) (a : ActionDefinition)
        → find_action id version actions ≡ some a
        → find_action id version more ≡ some a)
    → All (λ a. find_action a.id a.version more ≡ some a) actions
finds_all [] more d h = tt
finds_all (a ∷ rest) more d h = (
  h a.id a.version a (unfold find_action in ground (arith, same_refl a.id)),
  finds_all rest more d.1 (λ id version c e.
      h id version c
        (unfold find_action in ground (arith, same_iff a.id id, ==_iff a.version version))),
)

-- A catalog that is built has the definitions that it was given, in their order, no two of which have
-- one ID and version, and looking up the ID and version of each returns it.
pub catalog-finds :
    (actions dict : List ActionDefinition)
    → catalog actions ≡ ok dict
    → (dict ≡ actions)
      × IsDistinct actions
      × All (λ a. get_action dict a.id a.version ≡ ok a) actions
unfolding catalog get_action
catalog-finds actions dict h =
    let same_length : length (set_actions [] actions) ≡ length actions = ground arith in
    let (distinct, same_list) = set_actions-IsDistinct [] actions tt (omega arith) in
    let same_dict : dict ≡ actions = ground arith in
    let d = subst IsDistinct same_list distinct in
    (
      same_dict,
      d,
      subst (λ l. All (λ a. get_action l a.id a.version ≡ ok a) actions) (sym same_dict)
          (All-map (λ a. find_action a.id a.version actions ≡ some a)
            (λ a. get_action actions a.id a.version ≡ ok a) (λ a e. ap found e) actions
            (finds_all actions actions d (λ id v a e. e))),
    )

highest-bound :
    (id : String) (n : ℕ) (actions : List ActionDefinition)
    → ((c : ActionDefinition) → highest id actions ≡ some c → c.version ≤ n)
    → All (λ b. b.id ≡ id → b.version ≤ n) actions
unfolding highest
highest-bound id n [] h = tt
highest-bound id n (b ∷ rest) h = (
  λ e. ground (arith, same_iff b.id id, h (larger b (highest id rest))),
  highest-bound id n rest (λ c e. ground (arith, h (larger b (some c)), h c)),
)

highest-id :
    (id : String) (actions : List ActionDefinition) (a : ActionDefinition)
    → highest id actions ≡ some a
    → a.id ≡ id
unfolding highest
highest-id id [] a h = ground arith
highest-id id (b ∷ rest) a h = ground (arith, same_iff b.id id, highest-id id rest a)

-- The `latest` of an action has its ID, and no definition of that ID has a higher version.
pub latest-covers :
    (id : String) (actions : List ActionDefinition) (a : ActionDefinition)
    → latest actions id ≡ ok a
    → (a.id ≡ id) × All (λ b. b.id ≡ id → b.version ≤ a.version) actions
unfolding latest
latest-covers id actions a h =
    let e : highest id actions ≡ some a = ground arith in
    (highest-id id actions a e, highest-bound id a.version actions (λ c f. ground arith))
