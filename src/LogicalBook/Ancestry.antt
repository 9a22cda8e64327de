-- ===== src/LogicalBook/Ancestry.antt =====
-- `isAncestor`: a depth-first walk over the parents of a change, with a shared set of the changes
-- that it has seen.
pub mod Reaches
mod Covered
use omnia_reader.Prelude.{
  ℕ, zero, suc, String, Bool, true, false, Option, none, some, List, [], ◌∷◌, ◌==◌, length,
  includes, if◌then◌else◌,
}
use omnia_reader.Prelude.JsMap.{JsMap, get}
use omnia_reader.LogicalBook.Types.{LogicalBookChange}

abbrev pub Changes : Type 0
Changes = JsMap LogicalBookChange

-- `changes.get(id)?.parents`, with no parents for a change that is not there
abbrev pub parents_of : Changes → String → List String
parents_of changes id = elim (get id changes) [ none ↦ [] | some change ↦ change.parents ]

-- `parents.some((parent) => parent === ancestor || walk(parent))`, which stops at the first hit.
-- `walk` returns its answer and the set `seen` as it leaves it.
unfoldable pub some_parent :
    (String → List String → Bool × List String)
    → String
    → List String
    → List String
    → Bool × List String
some_parent walk ancestor [] seen = (false, seen)
some_parent walk ancestor (parent ∷ parents) seen = elim (parent == ancestor) [
  | true ↦ (true, seen)
  | false ↦
      let visit = walk parent seen in
      elim visit.0 [ true ↦ visit | false ↦ some_parent walk ancestor parents visit.1 ]
]

-- The fuel bounds the depth of the recursion.
unfoldable pub walk : ℕ → Changes → String → String → List String → Bool × List String
walk zero changes ancestor descendant seen = (false, seen)
walk (suc fuel) changes ancestor descendant seen =
    if includes descendant seen
    then (false, seen)
    else some_parent (walk fuel changes ancestor) ancestor (parents_of changes descendant)
        (descendant ∷ seen)

-- Every call below the first enters a change that the map holds and that was not seen before, or
-- returns at once, so the depth is at most the number of changes and two.
unfoldable pub is_ancestor : String → String → Changes → Bool
unfolding walk some_parent
is_ancestor ancestor descendant changes =
    (walk (suc (suc (length changes))) changes ancestor descendant []).0
