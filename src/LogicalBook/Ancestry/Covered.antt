-- ===== src/LogicalBook/Ancestry/Covered.antt =====
-- The walk of `isAncestor` without a hit: what it has gone through, and how much fuel it takes.
use omnia_reader.Prelude.{
  ℕ, zero, suc, ◌≤◌, ◌<◌, String, ◌≡◌, ◌≢◌, refl, inl, inr, Bool, true, false, none, List, [], ◌∷◌,
  ◌==◌, eq_iff, eq_refl, length, includes, arith, Bool-cases, Option-cases, if◌then◌else◌,
}
use omnia_reader.Prelude.JsMap.{get}
use omnia_reader.LogicalBook.Ancestry.{Changes, parents_of, some_parent, walk}

abbrev pub Subset : List String → List String → Type 0
Subset s t = (x : String) → includes x s ≡ true → includes x t ≡ true

-- How many changes have not been seen: what the fuel has to exceed.
pub unseen : Changes → List String → ℕ
unseen [] seen = 0
unseen ((k, c) ∷ m) seen = let rest = unseen m seen in if includes k seen then rest else suc rest

unseen-le : (m : Changes) (s t : List String) → Subset s t → unseen m t ≤ unseen m s
unfolding unseen
unseen-le [] s t h = omega arith
unseen-le ((k, c) ∷ m) s t h = ground (arith, h k, unseen-le m s t h)

unseen-lt :
    (m : Changes) (d : String) (s : List String)
    → get d m ≢ none
    → includes d s ≡ false
    → unseen m (d ∷ s) < unseen m s
unfolding unseen get
unseen-lt [] d s h n = absurd (h refl)
unseen-lt ((k, c) ∷ m) d s h n =
    ground
      (arith, eq_iff k d, eq_iff d k, unseen-le m s (d ∷ s) (λ x e. ground arith), unseen-lt m d s)

pub unseen-le-length : (m : Changes) (s : List String) → unseen m s ≤ length m
unfolding unseen
unseen-le-length [] s = omega arith
unseen-le-length ((k, c) ∷ m) s = ground (arith, unseen-le-length m s)

module _ (changes : Changes) (a : String) where
  -- What the walk has gone through without a hit: every change that it added has its parents
  -- among the seen ones, and the ancestor is none of them.
  abbrev pub Closed : List String → List String → Type 0
  Closed s t =
      (x p : String)
      → includes x t ≡ true
      → includes x s ≡ false
      → includes p (parents_of changes x) ≡ true
      → (p ≢ a) × (includes p t ≡ true)

  record IsCovered (ps s t : List String) : Type 0 where
    grows : Subset s t
    listed : (p : String) → includes p ps ≡ true → (p ≢ a) × (includes p t ≡ true)
    pub closed : Closed s t

  pub record IsVisited (d : String) (s t : List String) : Type 0 where
    pub grows : Subset s t
    pub there : includes d t ≡ true
    pub closed : Closed s t

  IsCovered-cons :
      (p : String) (ps s t u : List String)
      → p ≢ a
      → IsVisited p s t
      → IsCovered ps t u
      → IsCovered (p ∷ ps) s u
  IsCovered-cons p ps s t u n v c = record {
    grows = λ x h. c.grows x (v.grows x h);
    listed = λ q h. elim (Bool-cases (p == q)) [
      | inl e ↦ rw (← (eq_iff p q).0 e) (n, c.grows p v.there)
      | inr other ↦ c.listed q (ground arith)
    ];
    closed = λ x q in_u not_s h. elim (Bool-cases (includes x t)) [
      | inl old ↦ let (apart, there) = v.closed x q old not_s h in (apart, c.grows q there)
      | inr new ↦ c.closed x q in_u new h
    ];
  }

  some_parent_complete :
      (fuel : ℕ) (w : String → List String → Bool × List String) (ps s : List String)
      → ((p : String) (t : List String)
          → unseen changes t < fuel
          → (w p t).0 ≡ false
          → IsVisited p t (w p t).1)
      → unseen changes s < fuel
      → (some_parent w a ps s).0 ≡ false
      → IsCovered ps s (some_parent w a ps s).1
  unfolding some_parent
  some_parent_complete fuel w [] s ih few h = record {
    grows = λ x e. e;
    listed = λ p e. cc;
    closed = λ x p e n. cc;
  }
  some_parent_complete fuel w (p ∷ ps) s ih few h = elim (Bool-cases (p == a)) [
    | inl e ↦ cc
    | inr n ↦ elim (Bool-cases (w p s).0) [
      | inl hit ↦ cc
      | inr miss ↦
          let v = ih p s few miss in
          let few' = unseen-le changes s (w p s).1 v.grows in
          let c = some_parent_complete fuel w ps (w p s).1 ih (omega arith) (ground arith) in
          rw (n, some_parent, miss)
            (IsCovered-cons p ps s (w p s).1 _ (λ e. ground (arith, eq_iff p a)) v c)
    ]
  ]

  IsVisited-old : (d : String) (s : List String) → includes d s ≡ true → IsVisited d s s
  IsVisited-old d s old = record { grows = λ x e. e; there = old; closed = λ x p e n. cc }

  -- A visit of a new change is the walk over its parents.
  IsVisited-new :
      (d : String) (s t : List String)
      → IsCovered (parents_of changes d) (d ∷ s) t
      → IsVisited d s t
  IsVisited-new d s t c = record {
    grows = λ x e. c.grows x (ground arith);
    there = c.grows d (ground (arith, eq_refl d));
    closed = λ x p in_t not_s h. elim (Bool-cases (d == x)) [
      | inl e ↦ c.listed p (rw ((eq_iff d x).0 e) h)
      | inr other ↦ c.closed x p in_t (ground arith) h
    ];
  }

  -- A change that the map does not hold has no parents to go through.
  IsCovered-none :
      (w : String → List String → Bool × List String) (ps s : List String)
      → ps ≡ []
      → IsCovered ps s (some_parent w a ps s).1
  unfolding some_parent
  IsCovered-none w ps s e =
      rw e (record { grows = λ x h. h; listed = λ p h. cc; closed = λ x p h n. cc })

  parents-IsCovered :
      (fuel : ℕ) (w : String → List String → Bool × List String) (d : String) (s : List String)
      → ((p : String) (t : List String)
          → unseen changes t < fuel
          → (w p t).0 ≡ false
          → IsVisited p t (w p t).1)
      → unseen changes s < suc fuel
      → includes d s ≡ false
      → (some_parent w a (parents_of changes d) (d ∷ s)).0 ≡ false
      → IsCovered (parents_of changes d) (d ∷ s) (some_parent w a (parents_of changes d) (d ∷ s)).1
  parents-IsCovered fuel w d s ih few new h = elim (Option-cases (get d changes)) [
    | inl missing ↦ IsCovered-none w (parents_of changes d) (d ∷ s) (ground arith)
    | inr (c, found) ↦
        let drop = unseen-lt changes d s (λ e. cc) new in
        some_parent_complete fuel w (parents_of changes d) (d ∷ s) ih (omega arith) h
  ]

  pub walk_complete :
      (fuel : ℕ) (d : String) (s : List String)
      → unseen changes s < fuel
      → (walk fuel changes a d s).0 ≡ false
      → IsVisited d s (walk fuel changes a d s).1
  unfolding walk
  walk_complete zero d s few h = absurd (omega arith)
  walk_complete (suc fuel) d s few h = elim (Bool-cases (includes d s)) [
    | inl old ↦ rw old (IsVisited-old d s old)
    | inr new ↦ rw new (
        IsVisited-new d s _ (
          parents-IsCovered fuel (walk fuel changes a) d s (walk_complete fuel) few new
            (ground arith)))
  ]
