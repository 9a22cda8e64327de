-- ===== src/Outbox/Pending.antt =====
-- What waits, before and after an acknowledgement.
use omnia_reader.Prelude.{
  String, Bool, ◌≡◌, refl, sym, ap, ◌∙◌, true, false, not, ◌==◌, ◌&&◌, ◌||◌, Option, none, some,
  List, [], ◌∷◌, ◌++◌, map, keep, any, includes, arith, eqb, eqb_iff, eq_iff, Bool-cases,
  Option-cases, inl, inr,
}
use Prim.Native.Char.{code}
use text.Mathlib.TextEquality.{Char-path}
use omnia_reader.Prelude.Collation.{Sign, sort, insert_sorted, Collation}
use omnia_reader.Prelude.JsMap.{JsMap, get, has, remove, values, Keyed, get-remove, remove-Keyed}
use omnia_reader.Prelude.Text.{concat}
use omnia_reader.LogicalBook.Types.{LogicalBookChange}
use omnia_reader.Gateway.Requests.{after_prefix}
use omnia_reader.Outbox.Journal.{
  Operation, Stores, outbox_operation_prefix, remove_all, acknowledge_changes,
  acknowledge_operations, outbox_operation, is_outbox_id, outbox_change_ids, compare_operations,
  compare_pending_changes, pending_operations, list_pending_changes, pending, acknowledge,
}

module _ {A : Type 0} (p : A → Bool) where
  any-append : (xs ys : List A) → any p (xs ++ ys) ≡ (any p xs || any p ys)
  any-append [] ys = refl
  any-append (x ∷ xs) ys = ground (arith, any-append xs ys)

  any-insert :
      (cmp : A → A → Sign) (x : A) (xs : List A) → any p (insert_sorted cmp x xs) ≡ any p (x ∷ xs)
  any-insert cmp x [] = refl
  any-insert cmp x (y ∷ ys) = ground (arith, any-insert cmp x ys)

  -- Sorting keeps the elements.
  any-sort : (cmp : A → A → Sign) (xs : List A) → any p (sort cmp xs) ≡ any p xs
  any-sort cmp [] = refl
  any-sort cmp (x ∷ xs) = any-insert cmp x (sort cmp xs) ∙ ground (arith, any-sort cmp xs)

any-map :
    {A B : Type 0} (p : B → Bool) (f : A → B) (xs : List A)
    → any p (map f xs) ≡ any (λ x. p (f x)) xs
any-map p f [] = refl
any-map p f (x ∷ xs) = ground (arith, any-map p f xs)

any-values :
    {A : Type 0} (key : A → String) (id : String) (m : JsMap A)
    → Keyed key m
    → any (λ x. key x == id) (values m) ≡ has id m
unfolding values has get
any-values key id [] h = refl
any-values key id ((k, v) ∷ m) h =
    ground (arith, any-values key id m, eq_iff (key v) id, eq_iff k id)

pub after_prefix-concat : (p s : String) → after_prefix p (concat p s) ≡ some s
unfolding after_prefix
after_prefix-concat String.[] s = refl
after_prefix-concat (String.◌∷◌ c p) s =
    ground (arith, after_prefix-concat p s, eqb_iff (code c) (code c))

prefix_sound : (p id d : String) → after_prefix p id ≡ some d → concat p d ≡ id
unfolding after_prefix
prefix_sound String.[] id d h = cc
prefix_sound (String.◌∷◌ c p) String.[] d h = absurd (cc)
prefix_sound (String.◌∷◌ c p) (String.◌∷◌ e s) d h = elim (Bool-cases (eqb (code c) (code e))) [
  | inl same ↦
      let rest : after_prefix p s ≡ some d = ground arith in
      let tail = prefix_sound p s d rest in
      let head = Char-path c e ((eqb_iff (code c) (code e)).0 same) in
      ap (λ x. String.◌∷◌ x (concat p d)) head ∙ ap (λ t. String.◌∷◌ e t) tail
  | inr other ↦ absurd (ground arith)
]

abbrev pub outbox_id : String → String
outbox_id c = concat outbox_operation_prefix c

-- The change that an id of the outbox names
abbrev pub outbox_part : String → Option String
outbox_part id = after_prefix outbox_operation_prefix id

abbrev pub names_change : String → Option String → Bool
names_change c none = false
names_change c (some d) = c == d

pub outbox_id-names : (c id : String) → (outbox_id c == id) ≡ names_change c (outbox_part id)
outbox_id-names c id = by_part (outbox_part id) refl
  where
    by_part :
        (o : Option String)
        → outbox_part id ≡ o
        → (outbox_id c == id) ≡ names_change c (outbox_part id)
    by_part none e = elim (Bool-cases (outbox_id c == id)) [
      | inl same ↦
          let known = after_prefix-concat outbox_operation_prefix c in
          absurd
            (none-ne-some (sym e ∙ ap outbox_part (sym ((eq_iff (outbox_id c) id).0 same)) ∙ known))
      | inr other ↦ rw (e, names_change) other
    ]
      where
        none-ne-some : {d : String} → none ≡ some d → ⊥
        none-ne-some h = cc
    by_part (some d) e =
        let from = prefix_sound outbox_operation_prefix id d e in
        let known = after_prefix-concat outbox_operation_prefix c in
        rw (e, names_change)
          (ground (arith, eq_iff (outbox_id c) id, eq_iff c d, ap outbox_part from))

-- The stores hold each entry at its key, and no operation's own id has the outbox's prefix.
pub record AreStores (s : Stores) : Type 0 where
  pub operations_keyed : Keyed (λ (o : Operation). o.id) s.operations
  pub outbox_keyed : Keyed (λ (c : LogicalBookChange). c.change_id) s.outbox
  pub apart : (id : String) → is_outbox_id id ≡ true → has id s.operations ≡ false

module _ (coll : Collation) where
  -- An operation with that id waits.
  abbrev pub waits : String → Stores → Bool
  waits id s = any (λ (o : Operation). o.id == id) (pending coll s)

  abbrev pub outbox_has : Option String → JsMap LogicalBookChange → Bool
  outbox_has none m = false
  outbox_has (some c) m = has c m

  any-outbox :
      (id : String) (m : JsMap LogicalBookChange)
      → Keyed (λ (c : LogicalBookChange). c.change_id) m
      → any (λ (c : LogicalBookChange). outbox_id c.change_id == id) (values m)
        ≡ outbox_has (outbox_part id) m
  unfolding values has get
  any-outbox id [] h = by_part (outbox_part id)
    where
      by_part : (o : Option String) → false ≡ outbox_has o []
      by_part none = refl
      by_part (some c) = refl
  any-outbox id ((k, c) ∷ m) h = by_part (outbox_part id) refl (any-outbox id m h.1)
    where
      by_part :
          (o : Option String)
          → outbox_part id ≡ o
          → any (λ (c : LogicalBookChange). outbox_id c.change_id == id) (values m)
            ≡ outbox_has (outbox_part id) m
          → (outbox_id c.change_id == id
              || any (λ (c : LogicalBookChange). outbox_id c.change_id == id) (values m))
            ≡ outbox_has (outbox_part id) ((k, c) ∷ m)
      by_part none e ih = rw (outbox_id-names c.change_id id, e, ih, e) refl
      by_part (some d) e ih =
          rw (outbox_id-names c.change_id id, e, ih, e)
            (ground (arith, eq_iff c.change_id d, eq_iff k d))

  -- What waits is what the one store has, or the other under the prefix.
  pub waits-eq :
      (s : Stores)
      → AreStores s
      → (id : String) → waits id s ≡ (has id s.operations || outbox_has (outbox_part id) s.outbox)
  unfolding pending pending_operations list_pending_changes
  waits-eq s sound id =
      let p = λ (o : Operation). o.id == id in
      let q = λ (c : LogicalBookChange). outbox_id c.change_id == id in
      let listed = list_pending_changes coll s in
      any-sort p (compare_operations coll)
        (pending_operations coll s ++ map outbox_operation listed)
      ∙ any-append p (pending_operations coll s) (map outbox_operation listed)
      ∙ ap (λ b. b || any p (map outbox_operation listed))
          (any-sort p (compare_operations coll) (values s.operations)
            ∙ any-values (λ (o : Operation). o.id) id s.operations sound.operations_keyed)
      ∙ ap (λ b. has id s.operations || b)
          (any-map p outbox_operation listed
            ∙ any-sort q (compare_pending_changes coll) (values s.outbox)
            ∙ any-outbox id s.outbox sound.outbox_keyed)

pub has-remove_all :
    {V : Type 0} (id : String) (ids : List String) (m : JsMap V)
    → has id (remove_all ids m) ≡ (has id m && not (includes id ids))
unfolding has
has-remove_all id [] m = ground arith
has-remove_all id (x ∷ xs) m = ground (arith, has-remove_all id xs (remove x m), get-remove x id m)

pub remove_all-Keyed :
    {V : Type 0} (key : V → String) (ids : List String) (m : JsMap V)
    → Keyed key m
    → Keyed key (remove_all ids m)
remove_all-Keyed key [] m h = h
remove_all-Keyed key (x ∷ xs) m h = remove_all-Keyed key xs (remove x m) (remove-Keyed key x m h)

includes-keep :
    (id : String) (ids : List String)
    → is_outbox_id id ≡ false
    → includes id (keep (λ x. not (is_outbox_id x)) ids) ≡ includes id ids
includes-keep id [] h = refl
includes-keep id (x ∷ xs) h = elim (Bool-cases (is_outbox_id x)) [
  | inl theirs ↦
      let other : (x == id) ≡ false = ground (arith, eq_iff x id) in
      rw (theirs, other) (includes-keep id xs h)
  | inr mine ↦ rw mine (ap (λ b. x == id || b) (includes-keep id xs h))
]

includes-changes :
    (id c : String) (ids : List String)
    → outbox_part id ≡ some c
    → includes c (outbox_change_ids ids) ≡ includes id ids
unfolding after_prefix
includes-changes id c [] h = refl
includes-changes id c (x ∷ xs) h = elim (Option-cases (outbox_part x)) [
  | inl e ↦
      let other : (x == id) ≡ false = ground (arith, eq_iff x id) in
      rw (e, other) (includes-changes id c xs h)
  | inr (d, e) ↦
      let from = prefix_sound outbox_operation_prefix id c h in
      let from_x = prefix_sound outbox_operation_prefix x d e in
      let alike : (d == c) ≡ (x == id) = ground (arith, eq_iff d c, eq_iff x id) in
      rw (e, alike) (ap (λ b. x == id || b) (includes-changes id c xs h))
]

pub acknowledge-AreStores :
    (ids : List String) (s : Stores) → AreStores s → AreStores (acknowledge ids s)
unfolding acknowledge acknowledge_changes acknowledge_operations
acknowledge-AreStores ids s sound = record {
  operations_keyed =
      remove_all-Keyed (λ (o : Operation). o.id) (keep (λ x. not (is_outbox_id x)) ids) s.operations
        sound.operations_keyed;
  outbox_keyed =
      remove_all-Keyed (λ (c : LogicalBookChange). c.change_id) (outbox_change_ids ids) s.outbox
        sound.outbox_keyed;
  apart = λ id theirs.
      has-remove_all id (keep (λ x. not (is_outbox_id x)) ids) s.operations
      ∙ rw (sound.apart id theirs) refl;
}

-- An acknowledgement takes from what waits the operations that it names, whichever store they are in,
-- and no other.
pub acknowledge-waits :
    (coll : Collation) (s : Stores) (ids : List String)
    → AreStores s
    → (id : String) → waits coll id (acknowledge ids s) ≡ (waits coll id s && not (includes id ids))
unfolding acknowledge acknowledge_changes acknowledge_operations
acknowledge-waits coll s ids sound id =
    waits-eq coll (acknowledge ids s) (acknowledge-AreStores ids s sound) id
    ∙ by_part (outbox_part id) refl
    ∙ ap (λ b. b && not (includes id ids)) (sym (waits-eq coll s sound id))
  where
    by_part :
        (o : Option String)
        → outbox_part id ≡ o
        → (has id (remove_all (keep (λ x. not (is_outbox_id x)) ids) s.operations)
            || outbox_has coll (outbox_part id) (remove_all (outbox_change_ids ids) s.outbox))
          ≡ ((has id s.operations || outbox_has coll (outbox_part id) s.outbox)
              && not (includes id ids))
    by_part none e = rw e (
        ground (
          arith,
          has-remove_all id (keep (λ x. not (is_outbox_id x)) ids) s.operations,
          includes-keep id ids (rw e refl),
        ))
    by_part (some c) e =
        let theirs : is_outbox_id id ≡ true = rw e refl in
        rw e (
          ground (
            arith,
            has-remove_all id (keep (λ x. not (is_outbox_id x)) ids) s.operations,
            has-remove_all c (outbox_change_ids ids) s.outbox,
            sound.apart id theirs,
            includes-changes id c ids e,
          ))
