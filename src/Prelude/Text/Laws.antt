-- ===== src/Prelude/Text/Laws.antt =====
-- Splitting what was joined, and the lengths of joined texts and bytes.
use Prim.Native.Nat.{ℕ, zero, suc, ◌+◌, ◌*◌, ◌≤◌}
use Prim.Native.Char.{Char, code}
use Prim.Native.String.{String}
use mathlib.Core.Path.{◌≡◌, refl, ap}
use mathlib.Core.Bool.{false}
use mathlib.Core.List.{List, [], ◌∷◌, ◌++◌}
use native.Mathlib.Omega.{arith}
use omnia_reader.Prelude.Lists.{length}
use omnia_reader.Prelude.CodeUnits.{code_units, code_units_of}
use omnia_reader.Prelude.Text.{concat, has_code, take_text, split, take, drop}

-- A text without the separator is one part.
pub split_free : (k : ℕ) (s : String) → has_code k s ≡ false → split k s ≡ s ∷ []
split_free k String.[] h = refl
split_free k (String.◌∷◌ c s) h = ground (arith, split_free k s)

-- Joined by the separator, a text without it is the first part.
pub split-concat :
    (k : ℕ) (s : String) (c : Char) (t : String)
    → has_code k s ≡ false
    → code c ≡ k
    → split k (concat s (String.◌∷◌ c t)) ≡ s ∷ split k t
split-concat k String.[] c t h e = ground arith
split-concat k (String.◌∷◌ d s) c t h e = ground (arith, split-concat k s c t)

pub length-append {ℓ} : {A : Type ℓ} (xs ys : List A) → length (xs ++ ys) ≡ length xs + length ys
length-append [] ys = omega arith
length-append (x ∷ xs) ys = ground (arith, length-append xs ys)

pub take-append {ℓ} : {A : Type ℓ} (xs ys : List A) → take (length xs) (xs ++ ys) ≡ xs
take-append [] ys = refl
take-append (x ∷ xs) ys = ap (λ r. x ∷ r) (take-append xs ys)

pub drop-append {ℓ} : {A : Type ℓ} (xs ys : List A) → drop (length xs) (xs ++ ys) ≡ ys
drop-append [] ys = refl
drop-append (x ∷ xs) ys = drop-append xs ys

length-code_units_of : (c : ℕ) (rest : List ℕ) → length (code_units_of c rest) ≤ 2 + length rest
length-code_units_of c rest = ground arith

length-code_units_of_add :
    (c : ℕ) (xs ys : List ℕ) (n : ℕ)
    → length xs ≡ length ys + n
    → length (code_units_of c xs) ≡ length (code_units_of c ys) + n
length-code_units_of_add c xs ys n h = ground arith

-- `(a + b).length`
pub length-concat :
    (s t : String)
    → length (code_units (concat s t)) ≡ length (code_units s) + length (code_units t)
length-concat String.[] t = omega arith
length-concat (String.◌∷◌ c s) t =
    length-code_units_of_add (code c) (code_units (concat s t)) (code_units s)
      (length (code_units t)) (length-concat s t)

pub length-take_text : (n : ℕ) (s : String) → length (code_units (take_text n s)) ≤ 2 * n
length-take_text zero s = omega arith
length-take_text (suc n) String.[] = omega arith
length-take_text (suc n) (String.◌∷◌ c s) =
    grind (arith, length-code_units_of (code c) (code_units (take_text n s)), length-take_text n s)

pub take_text_free :
    (k n : ℕ) (s : String) → has_code k s ≡ false → has_code k (take_text n s) ≡ false
take_text_free k zero s h = refl
take_text_free k (suc n) String.[] h = refl
take_text_free k (suc n) (String.◌∷◌ c s) h = ground (arith, take_text_free k n s)
