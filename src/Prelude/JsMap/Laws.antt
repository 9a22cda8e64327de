-- ===== src/Prelude/JsMap/Laws.antt =====
-- The laws of `Map`.
use Prim.Native.String.{String}
use mathlib.Core.Path.{◌≡◌, refl, sym, ap, ◌∙◌}
use mathlib.Core.Logic.{◌≢◌, inl, inr}
use mathlib.Core.Bool.{Bool, false}
use mathlib.Core.Option.{none, some}
use mathlib.Core.List.{List, [], ◌∷◌, ◌++◌, append_assoc, append-nil}
use native.Mathlib.Omega.{arith}
use text.Mathlib.Text.{◌==◌}
use text.Mathlib.TextEquality.{eq_iff}
use text.Mathlib.TextPositions.{eq_refl}
use omnia_reader.Prelude.Tests.{if◌then◌else◌, Bool-cases}
use omnia_reader.Prelude.Lists.{any}
use omnia_reader.Prelude.JsMap.Defs.{
  JsMap, get, put, remove, values, index, index_onto, UniqueKeys, Keyed, Apart,
}

module _ {ℓ} {V : Type ℓ} where
  pub get-put :
      (k j : String) (v : V) (m : JsMap V)
      → get j (put k v m) ≡ (if k == j then some v else get j m)
  unfolding get put
  get-put k j v [] = refl
  get-put k j v ((i, w) ∷ m) = ground (arith, eq_iff k j, eq_iff i k, eq_iff i j, get-put k j v m)

  pub get-remove :
      (k j : String) (m : JsMap V) → get j (remove k m) ≡ (if k == j then none else get j m)
  unfolding get remove
  get-remove k j [] = ground arith
  get-remove k j ((i, w) ∷ m) = ground (arith, eq_iff k j, eq_iff i k, eq_iff i j, get-remove k j m)

  pub put-UniqueKeys : (k : String) (v : V) (m : JsMap V) → UniqueKeys m → UniqueKeys (put k v m)
  unfolding get put
  put-UniqueKeys k v [] h = ground arith
  put-UniqueKeys k v ((i, w) ∷ m) h =
      ground (arith, eq_iff i k, eq_iff k i, get-put k i v m, put-UniqueKeys k v m)

  pub remove-UniqueKeys : (k : String) (m : JsMap V) → UniqueKeys m → UniqueKeys (remove k m)
  unfolding get remove
  remove-UniqueKeys k [] h = h
  remove-UniqueKeys k ((i, w) ∷ m) h =
      ground (arith, eq_iff i k, eq_iff k i, get-remove k i m, remove-UniqueKeys k m)

  module _ (key : V → String) where
    pub put-Keyed : (v : V) (m : JsMap V) → Keyed key m → Keyed key (put (key v) v m)
    unfolding put
    put-Keyed v [] h = ground arith
    put-Keyed v ((i, w) ∷ m) h = ground (arith, eq_iff i (key v), put-Keyed v m)

    pub remove-Keyed : (k : String) (m : JsMap V) → Keyed key m → Keyed key (remove k m)
    unfolding remove
    remove-Keyed k [] h = h
    remove-Keyed k ((i, w) ∷ m) h = ground (arith, remove-Keyed k m)

    pub get-Keyed : (k : String) (v : V) (m : JsMap V) → Keyed key m → get k m ≡ some v → key v ≡ k
    unfolding get
    get-Keyed k v [] h e = ground arith
    get-Keyed k v ((i, w) ∷ m) h e = ground (arith, eq_iff i k, get-Keyed k v m)

  get-ne-none : (k : String) (v : V) (l m : JsMap V) → get k (l ++ (k, v) ∷ m) ≢ none
  unfolding get
  get-ne-none k v [] m h = ground (arith, eq_refl k)
  get-ne-none k v ((i, w) ∷ l) m h = ground (arith, get-ne-none k v l m)

  get-none_of_UniqueKeys :
      (k : String) (v : V) (l m : JsMap V) → UniqueKeys (l ++ (k, v) ∷ m) → get k l ≡ none
  unfolding get
  get-none_of_UniqueKeys k v [] m h = refl
  get-none_of_UniqueKeys k v ((i, w) ∷ l) m h = elim (Bool-cases (i == k)) [
    | inl e ↦ absurd (get-ne-none k v l m (rw ((eq_iff i k).0 e) at h.0))
    | inr n ↦ rw n (get-none_of_UniqueKeys k v l m h.1)
  ]

  put_fresh : (k : String) (v : V) (m : JsMap V) → get k m ≡ none → put k v m ≡ m ++ (k, v) ∷ []
  unfolding get put
  put_fresh k v [] h = refl
  put_fresh k v ((i, w) ∷ m) h = ground (arith, put_fresh k v m)

  module _ (key : V → String) where
    index_onto-values :
        (l m : JsMap V) → UniqueKeys (l ++ m) → Keyed key m → index_onto key l (values m) ≡ l ++ m
    unfolding index_onto values
    index_onto-values l [] u h = sym (append-nil l)
    index_onto-values l ((k, v) ∷ m) u h =
        let fresh = get-none_of_UniqueKeys k v l m u in
        ap (λ a. index_onto key a (values m)) (ap (λ j. put j v l) h.0 ∙ put_fresh k v l fresh)
        ∙ index_onto-values (l ++ (k, v) ∷ []) m (rw append_assoc u) h.1
        ∙ append_assoc l ((k, v) ∷ []) m

    -- Listing the values of a map and indexing them again gives the map back.
    pub index-values : (m : JsMap V) → UniqueKeys m → Keyed key m → index key (values m) ≡ m
    unfolding index
    index-values m u h = index_onto-values [] m u h

    index_onto-UniqueKeys :
        (m : JsMap V) (xs : List V) → UniqueKeys m → UniqueKeys (index_onto key m xs)
    unfolding index_onto
    index_onto-UniqueKeys m [] h = h
    index_onto-UniqueKeys m (x ∷ xs) h =
        index_onto-UniqueKeys (put (key x) x m) xs (put-UniqueKeys (key x) x m h)

    index_onto-Keyed : (m : JsMap V) (xs : List V) → Keyed key m → Keyed key (index_onto key m xs)
    unfolding index_onto
    index_onto-Keyed m [] h = h
    index_onto-Keyed m (x ∷ xs) h = index_onto-Keyed (put (key x) x m) xs (put-Keyed key x m h)

    pub index-UniqueKeys : (xs : List V) → UniqueKeys (index key xs)
    unfolding index
    index-UniqueKeys xs = index_onto-UniqueKeys [] xs tt

    pub index-Keyed : (xs : List V) → Keyed key (index key xs)
    unfolding index
    index-Keyed xs = index_onto-Keyed [] xs tt

  -- What no value satisfies, the value at a key does not satisfy.
  pub any-values-false :
      (p : V → Bool) (k : String) (v : V) (m : JsMap V)
      → any p (values m) ≡ false
      → get k m ≡ some v
      → p v ≡ false
  unfolding get values
  any-values-false p k v [] h e = cc
  any-values-false p k v ((i, w) ∷ m) h e = ground (arith, any-values-false p k v m)

module _ {ℓ κ} {V : Type ℓ} {W : Type κ} (k : String) (m : JsMap V) (n : JsMap W) where
  -- Moving a key from one map to the other keeps them apart.
  pub put-remove-Apart : (v : V) → Apart m n → Apart (put k v m) (remove k n)
  put-remove-Apart v h id = ground (arith, get-put k id v m, get-remove k id n, h id)

  pub remove-put-Apart : (w : W) → Apart m n → Apart (remove k m) (put k w n)
  remove-put-Apart w h id = ground (arith, get-put k id w n, get-remove k id m, h id)
