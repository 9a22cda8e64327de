-- ===== src/Prelude/Json.antt =====
-- Values that a program reads without knowing their types: JSON values, and the tests that the
-- checks of records put to them. An object's property that is not there is `none`, as `undefined`.
use Prim.Native.Nat.{ℕ, ◌-◌, ◌/◌, ◌%◌, ◌^◌}
use Prim.Native.String.{String}
use mathlib.Core.Path.{◌≡◌, refl}
use mathlib.Core.Bool.{Bool, true, false, ◌&&◌}
use native.Mathlib.Omega.{arith}
use mathlib.Core.Option.{Option, none, some}
use text.Mathlib.Text.{◌==◌}
use omnia_reader.Prelude.Tests.{ltb, leb, eqb, if◌then◌else◌}
use omnia_reader.Prelude.Lists.{length}
use omnia_reader.Prelude.CodeUnits.{code_units}

-- A finite double is a whole number of 2 ^ -1074; `finite true n` is negative or zero.
pub data Number : Type 0 where
  finite : Bool → ℕ → Number
  infinite : Bool → Number
  nan : Number

mutual
  pub data Json : Type 0 where
    null : Json
    boolean : Bool → Json
    number : Number → Json
    str : String → Json
    array : Items → Json
    object : Fields → Json

  pub data Items : Type 0 where
    nil : Items
    cons : Json → Items → Items

  pub data Fields : Type 0 where
    end : Fields
    field : String → Json → Fields → Fields

-- What the number 1 comes to.
unfoldable pub one : ℕ
one = 2 ^ 1074

abbrev pub max_safe_integer : ℕ
max_safe_integer = 2 ^ 53 - 1

abbrev pub member_of : String → Fields → Option Json
member_of key end = none
member_of key (field k v rest) = if k == key then some v else member_of key rest

-- `value[key]`
abbrev pub member : String → Json → Option Json
member key (object fields) = member_of key fields
member key _ = none

-- `isRecord`
abbrev pub is_record : Json → Bool
is_record (object fields) = true
is_record _ = false

-- `s.length`
abbrev pub text_length : String → ℕ
text_length s = length (code_units s)

unfoldable pub is_bounded_text : String → ℕ → Bool
is_bounded_text s maximum = ltb 0 (text_length s) && leb (text_length s) maximum

-- `isBoundedString`
unfoldable pub is_bounded_string : Option Json → ℕ → Bool
is_bounded_string (some (str s)) maximum = is_bounded_text s maximum
is_bounded_string _ maximum = false

-- `isProgression`
unfoldable pub is_progression : Option Json → Bool
unfolding one
is_progression (some (number (finite true n))) = eqb n 0
is_progression (some (number (finite false n))) = leb n one
is_progression _ = false

-- `Number.isSafeInteger(position) && position >= 1`
unfoldable pub is_position : Option Json → Bool
unfolding one
is_position (some (number (finite false n))) =
    eqb (n % one) 0 && leb (n / one) max_safe_integer && ltb 0 (n / one)
is_position _ = false

-- The value seen at a type of the language.
abbrev pub text_of : Option Json → Option String
text_of (some (str s)) = some s
text_of _ = none

abbrev pub number_of : Option Json → Option Number
number_of (some (number n)) = some n
number_of _ = none

-- An optional property, read at its type.
abbrev pub optional {ℓ} : {A : Type ℓ} → (Option Json → Option A) → Option Json → Option (Option A)
optional read none = some none
optional read (some v) = elim (read (some v)) [ none ↦ none | some a ↦ some (some a) ]

infixl 5 ◌>>=◌
abbrev pub ◌>>=◌ {ℓ κ} : {A : Type ℓ} {B : Type κ} → Option A → (A → Option B) → Option B
none >>= f = none
some a >>= f = f a

-- There is a value to read.
abbrev pub Reads {ℓ} : {A : Type ℓ} → Option A → Type ℓ
Reads {A} o = (a : A) × (o ≡ some a)

pub bind-Reads {ℓ κ} :
    {A : Type ℓ} {B : Type κ} (o : Option A) (f : A → Option B)
    → Reads o
    → ((a : A) → o ≡ some a → Reads (f a))
    → Reads (o >>= f)
bind-Reads none f (a, e) next = absurd (cc)
bind-Reads (some a) f r next = next a refl

-- `v === undefined || check(v)`
abbrev pub absent_or : (Option Json → Bool) → Option Json → Bool
absent_or check none = true
absent_or check (some v) = check (some v)

pub optional-Reads {ℓ} :
    {A : Type ℓ} (check : Option Json → Bool) (read : Option Json → Option A)
    → ((v : Option Json) → check v ≡ true → Reads (read v))
    → (v : Option Json) → absent_or check v ≡ true
    → Reads (optional read v)
optional-Reads check read sound none h = (none, refl)
optional-Reads check read sound (some v) h =
    let (a, e) = sound (some v) h in (some a, rw (e, optional) refl)

pub and_left : (a b : Bool) → (a && b) ≡ true → a ≡ true
and_left a b h = ground arith

pub and_right : (a b : Bool) → (a && b) ≡ true → b ≡ true
and_right a b h = ground arith

pub bounded_string-Reads :
    (v : Option Json) (maximum : ℕ) → is_bounded_string v maximum ≡ true → Reads (text_of v)
unfolding is_bounded_string
bounded_string-Reads (some (str s)) maximum h = (s, refl)
bounded_string-Reads none maximum h = absurd (cc)
bounded_string-Reads (some null) maximum h = absurd (cc)
bounded_string-Reads (some (boolean b)) maximum h = absurd (cc)
bounded_string-Reads (some (number n)) maximum h = absurd (cc)
bounded_string-Reads (some (array i)) maximum h = absurd (cc)
bounded_string-Reads (some (object f)) maximum h = absurd (cc)
