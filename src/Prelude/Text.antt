-- ===== src/Prelude/Text.antt =====
-- Texts and bytes: `+` and `split` on strings, `slice` on both, and the UTF-8 length of a text.
pub mod Laws
use Prim.Native.Nat.{ℕ, zero, suc, ◌+◌}
use Prim.Native.Char.{code}
use Prim.Native.String.{String}
use mathlib.Core.Bool.{Bool, true, false, ◌||◌}
use mathlib.Core.List.{List, [], ◌∷◌}
use omnia_reader.Prelude.Tests.{ltb, eqb, if◌then◌else◌}

-- `a + b`
abbrev pub concat : String → String → String
concat String.[] t = t
concat (String.◌∷◌ c s) t = String.◌∷◌ c (concat s t)

-- Whether a text has the character with that code point.
abbrev pub has_code : ℕ → String → Bool
has_code k String.[] = false
has_code k (String.◌∷◌ c s) = eqb (code c) k || has_code k s

-- `s.slice(0, n)`, for texts whose characters are one code unit each
abbrev pub take_text : ℕ → String → String
take_text zero s = String.[]
take_text (suc n) String.[] = String.[]
take_text (suc n) (String.◌∷◌ c s) = String.◌∷◌ c (take_text n s)

-- `s.split(c)` for a character with that code point
abbrev pub with_first : (String → String) → List String → List String
with_first f [] = []
with_first f (x ∷ xs) = f x ∷ xs

abbrev pub split : ℕ → String → List String
split k String.[] = String.[] ∷ []
split k (String.◌∷◌ c s) =
    let rest = split k s in
    if eqb (code c) k then String.[] ∷ rest else with_first (λ x. String.◌∷◌ c x) rest

abbrev pub utf8_size : ℕ → ℕ
utf8_size c = if ltb c 0x80 then 1 else if ltb c 0x800 then 2 else if ltb c 0x10000 then 3 else 4

-- `Buffer.byteLength(s, 'utf8')`
abbrev pub byte_length : String → ℕ
byte_length String.[] = 0
byte_length (String.◌∷◌ c s) = utf8_size (code c) + byte_length s

abbrev pub take {ℓ} : {A : Type ℓ} → ℕ → List A → List A
take zero xs = []
take (suc n) [] = []
take (suc n) (x ∷ xs) = x ∷ take n xs

abbrev pub drop {ℓ} : {A : Type ℓ} → ℕ → List A → List A
drop zero xs = xs
drop (suc n) [] = []
drop (suc n) (x ∷ xs) = drop n xs
