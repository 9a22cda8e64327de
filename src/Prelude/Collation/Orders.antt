-- ===== src/Prelude/Collation/Orders.antt =====
-- Comparators that are consistent, and how they are made of one another.
use mathlib.Core.Path.{◌≡◌, refl, sym, ap, ◌∙◌}
use mathlib.Core.Bool.{true, false}
use native.Mathlib.Omega.{arith}
use Prim.Native.String.{String}
use omnia_reader.Prelude.Collation.{
  Sign, negative, same, positive, flip, then_by, is_positive, Collation,
}

pub record IsOrder {ℓ} {A : Type ℓ} (cmp : A → A → Sign) : Type ℓ where
  pub order_refl : (a : A) → cmp a a ≡ same
  pub order_flip : (a b : A) → cmp b a ≡ flip (cmp a b)
  pub order_trans : (a b c : A) (s : Sign) → cmp a b ≡ s → cmp b c ≡ s → cmp a c ≡ s
  pub order_same_left : (a b c : A) → cmp a b ≡ same → cmp a c ≡ cmp b c

-- Comparing by a text that the values have.
pub by_text-IsOrder {ℓ} :
    {A : Type ℓ} (coll : Collation) (key : A → String)
    → IsOrder (λ a b. coll.locale_compare (key a) (key b))
by_text-IsOrder coll key = record {
  order_refl = λ a. coll.compare_refl (key a);
  order_flip = λ a b. coll.compare_flip (key a) (key b);
  order_trans = λ a b c s. coll.compare_trans (key a) (key b) (key c) s;
  order_same_left = λ a b c. coll.compare_same_left (key a) (key b) (key c);
}

module _ {ℓ} {A : Type ℓ} {cmp : A → A → Sign} (o : IsOrder cmp) where
  pub order_same_right : (a b c : A) → cmp b c ≡ same → cmp a b ≡ cmp a c
  order_same_right a b c e =
      o.order_flip b a ∙ ap flip (o.order_same_left b c a e) ∙ sym (o.order_flip c a)

  -- No later than, and no later than.
  pub not_after_trans :
      (a b c : A)
      → is_positive (cmp a b) ≡ false
      → is_positive (cmp b c) ≡ false
      → is_positive (cmp a c) ≡ false
  not_after_trans a b c h k = by_sign (cmp a b) (cmp b c) refl refl h k
    where
      by_sign :
          (s t : Sign)
          → cmp a b ≡ s
          → cmp b c ≡ t
          → is_positive s ≡ false
          → is_positive t ≡ false
          → is_positive (cmp a c) ≡ false
      by_sign same t e f h k = ap is_positive (o.order_same_left a b c e ∙ f) ∙ k
      by_sign negative negative e f h k = ap is_positive (o.order_trans a b c negative e f)
      by_sign negative same e f h k = ap is_positive (sym (order_same_right a b c f) ∙ e)
      by_sign negative positive e f h k = absurd (cc)
      by_sign positive t e f h k = absurd (cc)

  -- Not later one way, if later the other way.
  pub not_after_of_after : (a b : A) → is_positive (cmp a b) ≡ true → is_positive (cmp b a) ≡ false
  not_after_of_after a b h = ground (arith, o.order_flip a b)

  pub not_after_refl : (a : A) → is_positive (cmp a a) ≡ false
  not_after_refl a = ap is_positive (o.order_refl a)

module _ {ℓ} {A : Type ℓ} {first second : A → A → Sign} (p : IsOrder first)
    (q : IsOrder second) where
  abbrev both : A → A → Sign
  both a b = then_by (first a b) (second a b)

  both_trans : (a b c : A) (s : Sign) → both a b ≡ s → both b c ≡ s → both a c ≡ s
  both_trans a b c s e f = by_sign (first a b) (first b c) refl refl s e f
    where
      by_sign :
          (u v : Sign)
          → first a b ≡ u
          → first b c ≡ v
          → (s : Sign) → then_by u (second a b) ≡ s
          → then_by v (second b c) ≡ s
          → both a c ≡ s
      by_sign same v i j s e f =
          ap (λ x. then_by x (second a c)) (p.order_same_left a b c i ∙ j) ∙ rest v j f
        where
          rest :
              (v : Sign) → first b c ≡ v → then_by v (second b c) ≡ s → then_by v (second a c) ≡ s
          rest same j f = q.order_trans a b c s e f
          rest negative j f = f
          rest positive j f = f
      by_sign negative negative i j s e f =
          ap (λ x. then_by x (second a c)) (p.order_trans a b c negative i j) ∙ e
      by_sign positive positive i j s e f =
          ap (λ x. then_by x (second a c)) (p.order_trans a b c positive i j) ∙ e
      by_sign negative same i j s e f =
          ap (λ x. then_by x (second a c)) (sym (order_same_right p a b c j) ∙ i) ∙ e
      by_sign positive same i j s e f =
          ap (λ x. then_by x (second a c)) (sym (order_same_right p a b c j) ∙ i) ∙ e
      by_sign negative positive i j s e f = absurd (cc)
      by_sign positive negative i j s e f = absurd (cc)

  -- Comparing by the one, and among equals by the other.
  pub then_by-IsOrder : IsOrder (λ a b. then_by (first a b) (second a b))
  then_by-IsOrder = record {
    order_refl = λ a. ground (arith, p.order_refl a, q.order_refl a);
    order_flip = λ a b. ground (arith, p.order_flip a b, q.order_flip a b);
    order_trans = both_trans;
    order_same_left = λ a b c e. ground (arith, p.order_same_left a b c, q.order_same_left a b c);
  }
