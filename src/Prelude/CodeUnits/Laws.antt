-- ===== src/Prelude/CodeUnits/Laws.antt =====
-- The order by code units is a consistent comparator, so it is one collation.
use Prim.Native.Nat.{ℕ}
use mathlib.Core.Path.{◌≡◌, refl}
use mathlib.Core.List.{List, [], ◌∷◌}
use native.Mathlib.Omega.{arith}
use omnia_reader.Prelude.Collation.{Sign, same, flip, Collation}
use omnia_reader.Prelude.CodeUnits.{code_units, compare_units, compare_strings}

pub compare_units_refl : (xs : List ℕ) → compare_units xs xs ≡ same
compare_units_refl [] = refl
compare_units_refl (x ∷ xs) = ground (arith, compare_units_refl xs)

pub compare_units-flip : (xs ys : List ℕ) → compare_units ys xs ≡ flip (compare_units xs ys)
compare_units-flip [] [] = refl
compare_units-flip [] (y ∷ ys) = refl
compare_units-flip (x ∷ xs) [] = refl
compare_units-flip (x ∷ xs) (y ∷ ys) = ground (arith, compare_units-flip xs ys)

pub compare_units_trans :
    (xs ys zs : List ℕ) (s : Sign)
    → compare_units xs ys ≡ s
    → compare_units ys zs ≡ s
    → compare_units xs zs ≡ s
compare_units_trans [] [] [] s h k = h
compare_units_trans [] [] (z ∷ zs) s h k = k
compare_units_trans [] (y ∷ ys) [] s h k = cc
compare_units_trans [] (y ∷ ys) (z ∷ zs) s h k = h
compare_units_trans (x ∷ xs) [] [] s h k = h
compare_units_trans (x ∷ xs) [] (z ∷ zs) s h k = cc
compare_units_trans (x ∷ xs) (y ∷ ys) [] s h k = k
compare_units_trans (x ∷ xs) (y ∷ ys) (z ∷ zs) s h k =
    ground (arith, compare_units_trans xs ys zs s)

pub compare_units_same_left :
    (xs ys zs : List ℕ) → compare_units xs ys ≡ same → compare_units xs zs ≡ compare_units ys zs
compare_units_same_left [] [] zs h = refl
compare_units_same_left [] (y ∷ ys) zs h = cc
compare_units_same_left (x ∷ xs) [] zs h = cc
compare_units_same_left (x ∷ xs) (y ∷ ys) [] h = refl
compare_units_same_left (x ∷ xs) (y ∷ ys) (z ∷ zs) h =
    ground (arith, compare_units_same_left xs ys zs)

abbrev pub code_unit_collation : Collation
code_unit_collation = record {
  locale_compare = compare_strings;
  compare_refl = λ a. compare_units_refl (code_units a);
  compare_flip = λ a b. compare_units-flip (code_units a) (code_units b);
  compare_trans = λ a b c s. compare_units_trans (code_units a) (code_units b) (code_units c) s;
  compare_same_left = λ a b c. compare_units_same_left (code_units a) (code_units b) (code_units c);
}
