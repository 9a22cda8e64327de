-- ===== src/Prelude/Lists.antt =====
-- Lists over the native numbers, Boolean quantifiers, and predicates on all elements.
use Prim.Native.Nat.{ℕ, suc}
use Prim.Native.String.{String}
use mathlib.Core.Bool.{Bool, true, false, ◌&&◌, ◌||◌}
use mathlib.Core.List.{List, [], ◌∷◌, ◌++◌}
use text.Mathlib.Text.{◌==◌}
use omnia_reader.Prelude.Tests.{if◌then◌else◌}

module _ {ℓ} {A : Type ℓ} where
  abbrev pub length : List A → ℕ
  length [] = 0
  length (x ∷ xs) = suc (length xs)

  -- `Array.prototype.every` and `Array.prototype.some`
  abbrev pub all : (A → Bool) → List A → Bool
  all p [] = true
  all p (x ∷ xs) = p x && all p xs

  abbrev pub any : (A → Bool) → List A → Bool
  any p [] = false
  any p (x ∷ xs) = p x || any p xs

  -- `Array.prototype.filter`
  abbrev pub keep : (A → Bool) → List A → List A
  keep p [] = []
  keep p (x ∷ xs) = if p x then x ∷ keep p xs else keep p xs

  -- `Array.prototype.flatMap`
  abbrev pub gather {κ} : {B : Type κ} → (A → List B) → List A → List B
  gather f [] = []
  gather f (x ∷ xs) = f x ++ gather f xs

  -- `xs.length === 0`
  abbrev pub is_empty : List A → Bool
  is_empty [] = true
  is_empty (x ∷ xs) = false

-- `Array.prototype.includes` and `Set.prototype.has` on strings
abbrev pub includes : String → List String → Bool
includes s [] = false
includes s (x ∷ xs) = x == s || includes s xs

-- The elements of `new Set(xs)`, in the order in which they were first added.
abbrev pub dedupe_onto : List String → List String → List String
dedupe_onto seen [] = seen
dedupe_onto seen (x ∷ xs) = dedupe_onto (if includes x seen then seen else seen ++ x ∷ []) xs

abbrev pub dedupe : List String → List String
dedupe xs = dedupe_onto [] xs

module _ {ℓ κ} {A : Type ℓ} (P : A → Type κ) where
  abbrev pub All : List A → Type κ
  All [] = Unit
  All (x ∷ xs) = P x × All xs

  pub All-append : (xs ys : List A) → All xs → All ys → All (xs ++ ys)
  All-append [] ys h k = k
  All-append (x ∷ xs) ys h k = (h.0, All-append xs ys h.1 k)
