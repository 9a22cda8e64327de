-- ===== src/LogicalBook/Invariant/Variants.antt =====
-- The variants and their tombstones, the preferences and the reconciliations.
use omnia_reader.Prelude.{
  String, ◌≡◌, refl, true, none, some, List, [], ◌∷◌, ◌==◌, eq_iff, eq_refl, includes, arith,
  Bool-cases, inl, inr, Option-cases, if◌then◌else◌,
}
use omnia_reader.Prelude.JsMap.{
  JsMap, UniqueKeys, Keyed, Apart, get, put, remove, put-UniqueKeys, remove-UniqueKeys, put-Keyed,
  remove-Keyed, put-remove-Apart, remove-put-Apart, get-Keyed,
}
use omnia_reader.Prelude.Collation.{Collation}
use omnia_reader.LogicalBook.Types.{
  BookRecord, LogicalBookChange, LogicalBookRecord, LogicalBookStateClock, LogicalVariantEffect,
  upsert, delete, LogicalPreferenceEffect, PreferenceEntry, VariantEntry, RemovedVariantEntry,
  ReconciliationEntry, variant_key, removed_variant_key, preference_key, reconciliation_key,
  BookEntry,
}
use omnia_reader.LogicalBook.Ancestry.{Changes}
use omnia_reader.LogicalBook.Apply.Books.{conflict_entry, open_conflict}
use omnia_reader.LogicalBook.Apply.Effects.{
  VariantMaps, perform, apply_variant, apply_variants, drop_inactive, apply_preference,
  apply_preferences, resolve_conflict, resolve_conflicts, resolved_entry,
}

-- Each entry stands at its key, once.
abbrev pub IsIndexed {ℓ} : {V : Type ℓ} → (V → String) → JsMap V → Type ℓ
IsIndexed key m = UniqueKeys m × Keyed key m

pub record VariantsAreSound (v : VariantMaps) : Type 0 where
  pub unique : UniqueKeys v.variants
  pub keyed : Keyed variant_key v.variants
  pub removed_unique : UniqueKeys v.removed
  pub removed_keyed : Keyed removed_variant_key v.removed
  pub apart : Apart v.variants v.removed

module _ (v : VariantMaps) where
  delete-VariantsAreSound :
      (e : RemovedVariantEntry)
      → VariantsAreSound v
      → VariantsAreSound (record v {
        variants = remove e.variant_id v.variants;
        removed = put e.variant_id e v.removed;
      })
  delete-VariantsAreSound e h = record {
    unique = remove-UniqueKeys e.variant_id v.variants h.unique;
    keyed = remove-Keyed variant_key e.variant_id v.variants h.keyed;
    removed_unique = put-UniqueKeys e.variant_id e v.removed h.removed_unique;
    removed_keyed = put-Keyed removed_variant_key e v.removed h.removed_keyed;
    apart = remove-put-Apart e.variant_id v.variants v.removed e h.apart;
  }

  upsert-VariantsAreSound :
      (e : VariantEntry)
      → VariantsAreSound v
      → VariantsAreSound (record v {
        variants = put e.variant.id e v.variants;
        removed = remove e.variant.id v.removed;
      })
  upsert-VariantsAreSound e h = record {
    unique = put-UniqueKeys e.variant.id e v.variants h.unique;
    keyed = put-Keyed variant_key e v.variants h.keyed;
    removed_unique = remove-UniqueKeys e.variant.id v.removed h.removed_unique;
    removed_keyed = remove-Keyed removed_variant_key e.variant.id v.removed h.removed_keyed;
    apart = put-remove-Apart e.variant.id v.variants v.removed e h.apart;
  }

module _ (coll : Collation) (object_path : BookRecord → String) (changes : Changes)
    (clock : LogicalBookStateClock) (active : List String) where
  perform-VariantsAreSound :
      (effect : LogicalVariantEffect) (v : VariantMaps)
      → VariantsAreSound v
      → VariantsAreSound (perform coll object_path changes clock active effect v)
  unfolding perform
  perform-VariantsAreSound (delete id format) v h =
      delete-VariantsAreSound v (record { variant_id = id; format = format; clock = clock }) h
  perform-VariantsAreSound (upsert variant path) v h =
      elim (Bool-cases (includes variant.id active)) [
        | inl e ↦ rw e (
            upsert-VariantsAreSound v
              (record { variant = variant; object_path = object_path variant; clock = clock }) h)
        | inr n ↦ rw n h
      ]

  apply_variant-VariantsAreSound :
      (effect : LogicalVariantEffect) (v : VariantMaps)
      → VariantsAreSound v
      → VariantsAreSound (apply_variant coll object_path changes clock active effect v)
  unfolding apply_variant
  apply_variant-VariantsAreSound effect v h = ground (arith, perform-VariantsAreSound effect v h)

  pub apply_variants-VariantsAreSound :
      (effects : List LogicalVariantEffect) (v : VariantMaps)
      → VariantsAreSound v
      → VariantsAreSound (apply_variants coll object_path changes clock active effects v)
  unfolding apply_variants
  apply_variants-VariantsAreSound [] v h = h
  apply_variants-VariantsAreSound (effect ∷ effects) v h =
      apply_variants-VariantsAreSound effects _ (apply_variant-VariantsAreSound effect v h)

module _ (active : List String) where
  pub get-drop_inactive :
      (id : String) (m : JsMap VariantEntry)
      → get id (drop_inactive active m) ≡ (if includes id active then get id m else none)
  unfolding get drop_inactive
  get-drop_inactive id [] = ground arith
  get-drop_inactive id ((j, e) ∷ m) = elim (Bool-cases (j == id)) [
    | inl same ↦ rw ((eq_iff j id).0 same) (ground (arith, eq_refl id, get-drop_inactive id m))
    | inr other ↦ ground (arith, get-drop_inactive id m)
  ]

  pub includes_of_drop_inactive :
      (id : String) (e : VariantEntry) (m : JsMap VariantEntry)
      → get id (drop_inactive active m) ≡ some e
      → includes id active ≡ true
  includes_of_drop_inactive id e m h = ground (arith, get-drop_inactive id m)

  drop_inactive-Keyed :
      (m : JsMap VariantEntry) → Keyed variant_key m → Keyed variant_key (drop_inactive active m)
  unfolding drop_inactive
  drop_inactive-Keyed [] h = h
  drop_inactive-Keyed ((j, e) ∷ m) h = ground (arith, drop_inactive-Keyed m)

  drop_inactive-UniqueKeys :
      (m : JsMap VariantEntry) → UniqueKeys m → UniqueKeys (drop_inactive active m)
  unfolding drop_inactive
  drop_inactive-UniqueKeys [] h = h
  drop_inactive-UniqueKeys ((j, e) ∷ m) h =
      ground (arith, get-drop_inactive j m, drop_inactive-UniqueKeys m)

  pub drop_inactive-VariantsAreSound :
      (v : VariantMaps)
      → VariantsAreSound v
      → VariantsAreSound (record v { variants = drop_inactive active v.variants })
  drop_inactive-VariantsAreSound v h = record {
    unique = drop_inactive-UniqueKeys v.variants h.unique;
    keyed = drop_inactive-Keyed v.variants h.keyed;
    removed_unique = h.removed_unique;
    removed_keyed = h.removed_keyed;
    apart = λ id. ground (arith, get-drop_inactive id v.variants, h.apart id);
  }

module _ (coll : Collation) (changes : Changes) (clock : LogicalBookStateClock) where
  pub apply_preferences-IsIndexed :
      (effects : List LogicalPreferenceEffect) (m : JsMap PreferenceEntry)
      → IsIndexed preference_key m
      → IsIndexed preference_key (apply_preferences coll changes clock effects m)
  unfolding apply_preferences
  apply_preferences-IsIndexed [] m h = h
  apply_preferences-IsIndexed (effect ∷ effects) m h =
      apply_preferences-IsIndexed effects _ (step effect)
    where
      entry : LogicalPreferenceEffect → PreferenceEntry
      entry effect = record {
        logical_book_id = effect.logical_book_id;
        preference = effect.preference;
        clock = clock;
      }

      step :
          (effect : LogicalPreferenceEffect)
          → IsIndexed preference_key (apply_preference coll changes clock effect m)
      step effect = ground (
        arith,
        put-UniqueKeys effect.logical_book_id (entry effect) m,
        put-Keyed preference_key (entry effect) m,
      )

  put-IsIndexed :
      (id : String) (e : ReconciliationEntry) (m : JsMap ReconciliationEntry)
      → reconciliation_key e ≡ id
      → IsIndexed reconciliation_key m
      → IsIndexed reconciliation_key (put id e m)
  put-IsIndexed id e m same h =
      (put-UniqueKeys id e m h.0, rw (← same) (put-Keyed reconciliation_key e m h.1))

  resolve_conflict-IsIndexed :
      (change_id id : String) (m : JsMap ReconciliationEntry)
      → IsIndexed reconciliation_key m
      → IsIndexed reconciliation_key (resolve_conflict coll changes clock change_id id m)
  unfolding resolve_conflict
  resolve_conflict-IsIndexed change_id id m h = elim (Option-cases (get id m)) [
    | inl missing ↦ rw (missing, resolve_conflict) h
    | inr (current, found) ↦
        rw (found, resolve_conflict)
          (ground (
            arith,
            put-IsIndexed id (resolved_entry coll changes clock change_id current) m
                (get-Keyed reconciliation_key id current m h.1 found) h,
          ))
  ]

  pub resolve_conflicts-IsIndexed :
      (change_id : String) (ids : List String) (m : JsMap ReconciliationEntry)
      → IsIndexed reconciliation_key m
      → IsIndexed reconciliation_key (resolve_conflicts coll changes clock change_id ids m)
  unfolding resolve_conflicts
  resolve_conflicts-IsIndexed change_id [] m h = h
  resolve_conflicts-IsIndexed change_id (id ∷ ids) m h =
      resolve_conflicts-IsIndexed change_id ids _ (resolve_conflict-IsIndexed change_id id m h)

pub open_conflict-IsIndexed :
    (coll : Collation) (changes : Changes) (change : LogicalBookChange)
    (clock : LogicalBookStateClock) (books : JsMap BookEntry) (competing : List LogicalBookRecord)
    (m : JsMap ReconciliationEntry)
    → IsIndexed reconciliation_key m
    → IsIndexed reconciliation_key (open_conflict coll changes change clock books competing m)
unfolding open_conflict
open_conflict-IsIndexed coll changes change clock books competing m h =
    let e = conflict_entry coll changes change clock books competing in
    ground (arith, put-IsIndexed coll changes clock (reconciliation_key e) e m refl h)
