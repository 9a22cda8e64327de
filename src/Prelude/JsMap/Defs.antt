-- ===== src/Prelude/JsMap/Defs.antt =====
-- The operations of `Map`, and the predicates that its laws speak of.
use Prim.Native.String.{String}
use mathlib.Core.Path.{◌≡◌}
use mathlib.Core.Logic.{◌⊎◌}
use mathlib.Core.Bool.{Bool}
use mathlib.Core.Option.{Option, none, some}
use mathlib.Core.List.{List, [], ◌∷◌}
use text.Mathlib.Text.{◌==◌}
use omnia_reader.Prelude.Tests.{if◌then◌else◌, is_some}

abbrev pub JsMap {ℓ} : Type ℓ → Type ℓ
JsMap V = List (String × V)

module _ {ℓ} {V : Type ℓ} where
  unfoldable pub get : String → JsMap V → Option V
  get k [] = none
  get k ((j, v) ∷ m) = if j == k then some v else get k m

  unfoldable pub has : String → JsMap V → Bool
  unfolding get
  has k m = is_some (get k m)

  -- `Map.prototype.set`: a key that is there keeps its place.
  unfoldable pub put : String → V → JsMap V → JsMap V
  put k v [] = (k, v) ∷ []
  put k v ((j, w) ∷ m) = if j == k then (j, v) ∷ m else (j, w) ∷ put k v m

  -- `Map.prototype.delete`
  unfoldable pub remove : String → JsMap V → JsMap V
  remove k [] = []
  remove k ((j, w) ∷ m) = if j == k then remove k m else (j, w) ∷ remove k m

  unfoldable pub values : JsMap V → List V
  values [] = []
  values ((k, v) ∷ m) = v ∷ values m

  unfoldable pub keys : JsMap V → List String
  keys [] = []
  keys ((k, v) ∷ m) = k ∷ keys m

  -- `new Map(xs.map((x) => [key(x), x]))`
  unfoldable pub index_onto : (V → String) → JsMap V → List V → JsMap V
  unfolding put
  index_onto key m [] = m
  index_onto key m (x ∷ xs) = index_onto key (put (key x) x m) xs

  unfoldable pub index : (V → String) → List V → JsMap V
  unfolding index_onto
  index key xs = index_onto key [] xs

  abbrev pub UniqueKeys : JsMap V → Type ℓ
  UniqueKeys [] = Unit
  UniqueKeys ((k, v) ∷ m) = (get k m ≡ none) × UniqueKeys m

  -- Each value stands at its own key.
  abbrev pub Keyed : (V → String) → JsMap V → Type 0
  Keyed key [] = Unit
  Keyed key ((k, v) ∷ m) = (key v ≡ k) × Keyed key m

  abbrev pub AllValues {κ} : (V → Type κ) → JsMap V → Type κ
  AllValues P [] = Unit
  AllValues P ((k, v) ∷ m) = P v × AllValues P m

-- No key stands in both maps.
abbrev pub Apart {ℓ κ} : {V : Type ℓ} {W : Type κ} → JsMap V → JsMap W → Type (ℓ ⊔ κ)
Apart m n = (id : String) → (get id m ≡ none) ⊎ (get id n ≡ none)
