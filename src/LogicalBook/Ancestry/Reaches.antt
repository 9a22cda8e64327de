-- ===== src/LogicalBook/Ancestry/Reaches.antt =====
-- `isAncestor` against the reachability relation that it computes.
use omnia_reader.Prelude.{
  ℕ, zero, suc, String, ◌≡◌, refl, ◌⊎◌, inl, inr, ◌↔◌, Bool, true, List, [], ◌∷◌, ◌==◌, eq_iff,
  eq_refl, length, includes, arith, Bool-cases,
}
use omnia_reader.LogicalBook.Ancestry.{Changes, parents_of, some_parent, walk, is_ancestor}
use omnia_reader.LogicalBook.Ancestry.Covered.{Closed, walk_complete, unseen-le-length}

-- A chain of parents leads from the descendant to the ancestor.
pub data Descends (changes : Changes) (ancestor : String) : String → Type 0 where
  direct :
      {d : String} → includes ancestor (parents_of changes d) ≡ true → Descends changes ancestor d
  through :
      {d : String} (p : String)
      → includes p (parents_of changes d) ≡ true
      → Descends changes ancestor p
      → Descends changes ancestor d

module _ (changes : Changes) (a : String) where
  some_parent_sound :
      (w : String → List String → Bool × List String) (ps seen : List String)
      → ((p : String) (s : List String) → (w p s).0 ≡ true → Descends changes a p)
      → (some_parent w a ps seen).0 ≡ true
      → (p : String) × (includes p ps ≡ true) × ((p ≡ a) ⊎ Descends changes a p)
  unfolding some_parent
  some_parent_sound w [] seen ih h = cc
  some_parent_sound w (p ∷ ps) seen ih h = elim (Bool-cases (p == a)) [
    | inl e ↦ (p, ground (arith, eq_refl p), inl ((eq_iff p a).0 e))
    | inr n ↦ elim (Bool-cases (w p seen).0) [
      | inl hit ↦ (p, ground (arith, eq_refl p), inr (ih p seen hit))
      | inr miss ↦
          let (q, listed, found) = some_parent_sound w ps (w p seen).1 ih (ground arith) in
          (q, ground arith, found)
    ]
  ]

  walk_sound :
      (fuel : ℕ) (d : String) (seen : List String)
      → (walk fuel changes a d seen).0 ≡ true
      → Descends changes a d
  unfolding walk
  walk_sound zero d seen h = cc
  walk_sound (suc fuel) d seen h = elim (Bool-cases (includes d seen)) [
    | inl old ↦ cc
    | inr new ↦
        let (p, listed, found) =
          some_parent_sound (walk fuel changes a) (parents_of changes d) (d ∷ seen)
            (walk_sound fuel) (ground arith) in
        elim found [ inl e ↦ direct (rw e at listed) | inr deeper ↦ through p listed deeper ]
  ]

  Closed-Descends :
      (t : List String) (d : String)
      → Closed changes a [] t
      → includes d t ≡ true
      → Descends changes a d
      → ⊥
  Closed-Descends t d closed there (direct h) = (closed d a there refl h).0 refl
  Closed-Descends t d closed there (through p h deeper) =
      Closed-Descends t p closed (closed d p there refl h).1 deeper

-- The walk answers true exactly when a chain of parents leads from the descendant to the ancestor:
-- the fuel is enough, also on maps whose parents form a cycle or are missing.
pub is_ancestor_iff :
    (changes : Changes) (a d : String) → (is_ancestor a d changes ≡ true) ↔ Descends changes a d
unfolding is_ancestor
is_ancestor_iff changes a d = (walk_sound changes a fuel d [], found)
  where
    fuel : ℕ
    fuel = suc (suc (length changes))

    found : Descends changes a d → (walk fuel changes a d []).0 ≡ true
    found r = elim (Bool-cases (walk fuel changes a d []).0) [
      | inl yes_ ↦ yes_
      | inr miss ↦
          let few = unseen-le-length changes [] in
          let v = walk_complete changes a fuel d [] (omega arith) miss in
          absurd (Closed-Descends changes a (walk fuel changes a d []).1 d v.closed v.there r)
    ]
