-- ===== src/Prelude/Collation.antt =====
-- `String.prototype.localeCompare`, and sorting by a comparator.
--
-- The order that localeCompare puts on strings depends on the host's locale data, so it is a
-- parameter. The laws are what the language's specification asks of it, a consistent comparator:
-- reflexive, antisymmetric in sign and transitive. Canonically equivalent texts compare as equal.
pub mod Orders
use Prim.Native.String.{String}
use mathlib.Core.Path.{◌≡◌}
use mathlib.Core.Bool.{Bool, true, false}
use mathlib.Core.List.{List, [], ◌∷◌}
use omnia_reader.Prelude.Tests.{if◌then◌else◌}

-- The sign of a comparator's result.
pub data Sign : Type 0 where
  negative same positive : Sign

abbrev pub flip : Sign → Sign
flip negative = positive
flip same = same
flip positive = negative

-- `a || b` on comparators' results
abbrev pub then_by : Sign → Sign → Sign
then_by negative s = negative
then_by same s = s
then_by positive s = positive

-- `c < 0`, `c > 0`
abbrev pub is_negative : Sign → Bool
is_negative negative = true
is_negative _ = false

abbrev pub is_positive : Sign → Bool
is_positive positive = true
is_positive _ = false

pub record Collation : Type 0 where
  pub locale_compare : String → String → Sign
  pub compare_refl : (a : String) → locale_compare a a ≡ same
  pub compare_flip : (a b : String) → locale_compare b a ≡ flip (locale_compare a b)
  pub compare_trans :
      (a b c : String) (s : Sign)
      → locale_compare a b ≡ s
      → locale_compare b c ≡ s
      → locale_compare a c ≡ s
  pub compare_same_left :
      (a b c : String) → locale_compare a b ≡ same → locale_compare a c ≡ locale_compare b c

-- `Array.prototype.sort` is stable, and a consistent comparator leaves one stable result.
module _ {ℓ} {A : Type ℓ} (cmp : A → A → Sign) where
  abbrev pub insert_sorted : A → List A → List A
  insert_sorted a [] = a ∷ []
  insert_sorted a (x ∷ xs) = if is_positive (cmp a x) then x ∷ insert_sorted a xs else a ∷ x ∷ xs

  abbrev pub sort : List A → List A
  sort [] = []
  sort (x ∷ xs) = insert_sorted x (sort xs)
