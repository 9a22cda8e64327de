-- ===== src/Prelude/CodeUnits.antt =====
-- The order of `<` on strings and of `sort()` without a comparator: by UTF-16 code units.
pub mod Laws
use Prim.Native.Nat.{ℕ, ◌+◌, ◌-◌, ◌/◌, ◌%◌, compare, Ordering}
use Prim.Native.Char.{code}
use Prim.Native.String.{String}
use mathlib.Core.List.{List, [], ◌∷◌}
use omnia_reader.Prelude.Tests.{ltb, if◌then◌else◌}
use omnia_reader.Prelude.Collation.{Sign, negative, same, positive, sort}

-- A code point above the first plane is two code units.
abbrev pub code_units_of : ℕ → List ℕ → List ℕ
code_units_of c rest =
    if ltb c 0x10000
    then c ∷ rest
    else (0xd800 + (c - 0x10000) / 1024) ∷ (0xdc00 + (c - 0x10000) % 1024) ∷ rest

abbrev pub code_units : String → List ℕ
code_units String.[] = []
code_units (String.◌∷◌ c s) = code_units_of (code c) (code_units s)

-- The code points that `for (const c of s)` goes through.
abbrev pub code_points : String → List ℕ
code_points String.[] = []
code_points (String.◌∷◌ c s) = code c ∷ code_points s

abbrev pub compare_units : List ℕ → List ℕ → Sign
compare_units [] [] = same
compare_units [] (y ∷ ys) = negative
compare_units (x ∷ xs) [] = positive
compare_units (x ∷ xs) (y ∷ ys) = elim (compare x y) [
  | Ordering.lt ↦ negative
  | Ordering.eq ↦ compare_units xs ys
  | Ordering.gt ↦ positive
]

abbrev pub compare_strings : String → String → Sign
compare_strings a b = compare_units (code_units a) (code_units b)

-- `xs.sort()`
unfoldable pub sort_strings : List String → List String
sort_strings xs = sort compare_strings xs
