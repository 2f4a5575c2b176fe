-- ===== src/Constraints/Xslt/Registry/Laws.antt =====
-- A registry as the function that it looks up.
use hyperkitty_constraint_ds.Prelude.{
  ℕ, ◌≡◌, refl, ap, ◌∙◌, Text, Option, none, some, List, [], ◌∷◌, text_eq, text_eq-eq, if_intro,
  if◌then◌else◌, All,
}
use hyperkitty_constraint_ds.Prelude.Maps.{text_key, HashMap, insert, lookup, lookup-insert}
use hyperkitty_constraint_ds.Constraints.Xslt.Registry.{
  Invariant, InvariantRegistry, new_registry, add_invariant, get_invariant,
}
use mathlib.Core.Path.{fun_ext}

unfoldable pub add_all : InvariantRegistry → List Invariant → InvariantRegistry
unfolding add_invariant
add_all r [] = r
add_all r (i ∷ is) = add_all (add_invariant r i) is

-- The abstract registry: the last invariant added of an id.
unfoldable pub last_added : (Text → Option Invariant) → List Invariant → Text → Option Invariant
last_added f [] = f
last_added f (i ∷ is) = last_added (λ id. if text_eq i.id id then some i else f id) is

get_invariant-add_invariant :
    (r : InvariantRegistry) (i : Invariant)
    → get_invariant (add_invariant r i)
      ≡ (λ id. if text_eq i.id id then some i else get_invariant r id)
unfolding get_invariant add_invariant
get_invariant-add_invariant r i = fun_ext (λ id. lookup-insert i.id i r.invariants id)

add_all-last_added :
    (r : InvariantRegistry) (is : List Invariant)
    → get_invariant (add_all r is) ≡ last_added (get_invariant r) is
unfolding add_all last_added
add_all-last_added r [] = refl
add_all-last_added r (i ∷ is) =
    add_all-last_added (add_invariant r i) is
    ∙ ap (λ f. last_added f is) (get_invariant-add_invariant r i)

-- Entries under the ids of their invariants.
abbrev pub IsById : HashMap Text Invariant → Type 0
IsById = All (λ e. e.0 ≡ e.1.id)

pub insert-IsById :
    (i : Invariant) (m : HashMap Text Invariant) → IsById m → IsById (insert i.id i m)
unfolding insert
insert-IsById i [] h = (refl, tt)
insert-IsById i (e ∷ m) h =
    if_intro IsById (text_eq e.0 i.id) (λ same. (text_eq-eq e.0 i.id same, h.1))
      (λ n. (h.0, insert-IsById i m h.1))

-- A registry that invariants are added to, from an empty one, looks up the last invariant added of
-- an id, and none where none was added.
pub get_invariant-add_all :
    (project organization order : Text) (multiplicity : ℕ) (is : List Invariant)
    → get_invariant (add_all (new_registry project organization order multiplicity) is)
      ≡ last_added (λ id. none) is
unfolding get_invariant new_registry lookup
get_invariant-add_all project organization order multiplicity is =
    add_all-last_added (new_registry project organization order multiplicity) is
