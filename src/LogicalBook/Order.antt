-- ===== src/LogicalBook/Order.antt =====
-- The order in which `orderChanges` puts concurrent changes.
use omnia_reader.Prelude.{◌≡◌, sym, ap, ◌∙◌, true, false, List, [], ◌∷◌, ◌⊎◌, inl, inr, arith}
use omnia_reader.Prelude.Collation.{Collation, Sign, negative, positive}
use omnia_reader.LogicalBook.Types.{LogicalBookChange}
use omnia_reader.LogicalBook.Ancestry.{Changes, is_ancestor}
use omnia_reader.LogicalBook.Apply.Change.{compare_changes}

module _ {A : Type 0} where
  abbrev pub Among : A → List A → Type 0
  Among a [] = ⊥
  Among a (x ∷ xs) = (a ≡ x) ⊎ Among a xs

  -- The comparator puts none of the list before the first argument.
  abbrev pub IsFirst : (A → A → Sign) → A → List A → Type 0
  IsFirst cmp x [] = Unit
  IsFirst cmp x (y ∷ ys) = ¬ (cmp x y ≡ positive) × IsFirst cmp x ys

  -- The comparator puts no element before an earlier one.
  abbrev pub IsOrdered : (A → A → Sign) → List A → Type 0
  IsOrdered cmp [] = Unit
  IsOrdered cmp (x ∷ xs) = IsFirst cmp x xs × IsOrdered cmp xs

  IsFirst-clash :
      (cmp : A → A → Sign) (a b : A) (x : A) (xs : List A)
      → cmp a b ≡ positive
      → ¬ (cmp a a ≡ positive)
      → a ≡ x
      → IsFirst cmp x xs
      → (b ≡ x) ⊎ Among b xs
      → ⊥
  IsFirst-clash cmp a b x xs above own e first (inl same) = own (ap (cmp a) (e ∙ sym same) ∙ above)
  IsFirst-clash cmp a b x [] above own e first (inr among) = among
  IsFirst-clash cmp a b x (y ∷ ys) above own e first (inr (inl same)) =
      first.0 (ap (λ u. cmp u y) (sym e) ∙ ap (cmp a) (sym same) ∙ above)
  IsFirst-clash cmp a b x (y ∷ ys) above own e first (inr (inr among)) =
      IsFirst-clash cmp a b x ys above own e first.1 (inr among)

  -- A list that has three elements of a cycle is in no order of the comparator.
  cycle-unordered :
      (cmp : A → A → Sign) (a b c : A)
      → ((x : A) → ¬ (cmp x x ≡ positive))
      → cmp a b ≡ positive
      → cmp b c ≡ positive
      → cmp c a ≡ positive
      → (l : List A) → Among a l
      → Among b l
      → Among c l
      → ¬ (IsOrdered cmp l)
  cycle-unordered cmp a b c own ab bc ca [] among_a among_b among_c ordered = among_a
  cycle-unordered cmp a b c own ab bc ca (x ∷ xs) (inl e) among_b among_c ordered =
      IsFirst-clash cmp a b x xs ab (own a) e ordered.0 among_b
  cycle-unordered cmp a b c own ab bc ca (x ∷ xs) (inr in_a) (inl e) among_c ordered =
      IsFirst-clash cmp b c x xs bc (own b) e ordered.0 among_c
  cycle-unordered cmp a b c own ab bc ca (x ∷ xs) (inr in_a) (inr in_b) (inl e) ordered =
      IsFirst-clash cmp c a x xs ca (own c) e ordered.0 (inr in_a)
  cycle-unordered cmp a b c own ab bc ca (x ∷ xs) (inr in_a) (inr in_b) (inr in_c) ordered =
      cycle-unordered cmp a b c own ab bc ca xs in_a in_b in_c ordered.1

-- The first change is an ancestor of the second, and not the other way round.
abbrev pub IsOlder : Changes → LogicalBookChange → LogicalBookChange → Type 0
IsOlder by_id x y =
    (is_ancestor x.change_id y.change_id by_id ≡ true)
    × (is_ancestor y.change_id x.change_id by_id ≡ false)

-- Neither of two changes is an ancestor of the other.
abbrev pub AreConcurrent : Changes → LogicalBookChange → LogicalBookChange → Type 0
AreConcurrent by_id x y =
    (is_ancestor x.change_id y.change_id by_id ≡ false)
    × (is_ancestor y.change_id x.change_id by_id ≡ false)

compare_changes-own :
    (coll : Collation) (by_id : Changes) (x : LogicalBookChange)
    → ¬ (compare_changes coll by_id x x ≡ positive)
unfolding compare_changes
compare_changes-own coll by_id x above = ground (arith, coll.compare_refl x.change_id)

compare_changes-younger :
    (coll : Collation) (by_id : Changes) (x y : LogicalBookChange)
    → IsOlder by_id x y
    → compare_changes coll by_id y x ≡ positive
unfolding compare_changes
compare_changes-younger coll by_id x y older = ground arith

compare_changes-above :
    (coll : Collation) (by_id : Changes) (x y : LogicalBookChange)
    → AreConcurrent by_id x y
    → coll.locale_compare x.change_id y.change_id ≡ negative
    → compare_changes coll by_id y x ≡ positive
unfolding compare_changes
compare_changes-above coll by_id x y apart below =
    ground (arith, coll.compare_flip x.change_id y.change_id)

-- Changes among which there are a parent, its child, and a change that is concurrent with both and
-- whose id collates above the child's and below the parent's can be put in no sequence that the
-- comparator calls ordered: in each, it puts some change before an earlier one.
pub compare_changes-unordered :
    (coll : Collation) (by_id : Changes) (parent child third : LogicalBookChange)
    (changes : List LogicalBookChange)
    → IsOlder by_id parent child
    → AreConcurrent by_id child third
    → AreConcurrent by_id third parent
    → coll.locale_compare child.change_id third.change_id ≡ negative
    → coll.locale_compare third.change_id parent.change_id ≡ negative
    → Among parent changes
    → Among child changes
    → Among third changes
    → ¬ (IsOrdered (compare_changes coll by_id) changes)
compare_changes-unordered coll by_id parent child third changes older apart apart' below above
      has_parent has_child has_third =
    cycle-unordered (compare_changes coll by_id) parent third child (compare_changes-own coll by_id)
      (compare_changes-above coll by_id third parent apart' above)
      (compare_changes-above coll by_id child third apart below)
      (compare_changes-younger coll by_id parent child older) changes has_parent has_third has_child
