-- ===== src/LogicalBook/Apply/Effects.antt =====
-- The preferences, the resolved conflicts and the variants that a change leaves.
use mathlib.Core.Option
use omnia_reader.Prelude.{
  String, Bool, true, false, not, Option, none, some, List, [], ◌∷◌, ◌||◌, gather, includes,
  if◌then◌else◌,
}
use omnia_reader.Prelude.JsMap.{JsMap, get, put, remove, values}
use omnia_reader.Prelude.Collation.{Collation}
use omnia_reader.LogicalBook.Types.{
  BookRecord, LogicalBookStateClock, LogicalPreferenceEffect, BookEntry, LogicalVariantEffect,
  upsert, delete, PreferenceEntry, VariantEntry, RemovedVariantEntry, ReconciliationEntry,
  variant_ids, resolved,
}
use omnia_reader.LogicalBook.Ancestry.{Changes}
use omnia_reader.LogicalBook.Clock.{clock_wins, tombstone_clock_wins}

abbrev pub is_null {ℓ} : {A : Type ℓ} → Option A → Bool
is_null none = true
is_null (some a) = false

-- `current?.preference === null`: false where there is no entry
abbrev pub has_null_preference : Option PreferenceEntry → Bool
has_null_preference none = false
has_null_preference (some e) = is_null e.preference

module _ (coll : Collation) (changes : Changes) (clock : LogicalBookStateClock) where
  unfoldable pub apply_preference :
      LogicalPreferenceEffect → JsMap PreferenceEntry → JsMap PreferenceEntry
  apply_preference effect preferences =
      let id = effect.logical_book_id in
      let current = get id preferences in
      if tombstone_clock_wins coll changes clock
        (Option.map (λ (e : PreferenceEntry). e.clock) current) (is_null effect.preference)
        (has_null_preference current)
      then put id (record { logical_book_id = id; preference = effect.preference; clock = clock })
          preferences
      else preferences

  -- the loop over `change.preferenceEffects`
  unfoldable pub apply_preferences :
      List LogicalPreferenceEffect → JsMap PreferenceEntry → JsMap PreferenceEntry
  unfolding apply_preference
  apply_preferences [] preferences = preferences
  apply_preferences (effect ∷ effects) preferences =
      apply_preferences effects (apply_preference effect preferences)

  abbrev pub resolved_entry : String → ReconciliationEntry → ReconciliationEntry
  resolved_entry change_id current = record {
    clock = clock;
    reconciliation = record (current.reconciliation) {
      status = resolved;
      resolved_by_change_id = some change_id;
    };
  }

  unfoldable pub resolve_conflict :
      String → String → JsMap ReconciliationEntry → JsMap ReconciliationEntry
  resolve_conflict change_id conflict_id reconciliations = elim (get conflict_id reconciliations) [
    | none ↦ reconciliations
    | some current ↦
        if clock_wins coll changes clock (some current.clock)
        then put conflict_id (resolved_entry change_id current) reconciliations
        else reconciliations
  ]

  -- the loop over `change.resolvesConflictIds`
  unfoldable pub resolve_conflicts :
      String → List String → JsMap ReconciliationEntry → JsMap ReconciliationEntry
  unfolding resolve_conflict
  resolve_conflicts change_id [] reconciliations = reconciliations
  resolve_conflicts change_id (id ∷ ids) reconciliations =
      resolve_conflicts change_id ids (resolve_conflict change_id id reconciliations)

-- `variants` and `removedVariants`
pub record VariantMaps : Type 0 where
  pub variants : JsMap VariantEntry
  pub removed : JsMap RemovedVariantEntry

abbrev pub effect_id : LogicalVariantEffect → String
effect_id (upsert variant path) = variant.id
effect_id (delete id format) = id

abbrev pub is_delete : LogicalVariantEffect → Bool
is_delete (upsert variant path) = false
is_delete (delete id format) = true

-- `activeVariantIds`
unfoldable pub active_variant_ids : JsMap BookEntry → List String
unfolding values
active_variant_ids books = gather (λ (e : BookEntry). variant_ids e.book.variants) (values books)

module _ (coll : Collation) (object_path : BookRecord → String) (changes : Changes)
    (clock : LogicalBookStateClock) (active : List String) where
  -- what an effect that wins its clocks does
  unfoldable pub perform : LogicalVariantEffect → VariantMaps → VariantMaps
  perform (delete id format) v = record v {
    variants = remove id v.variants;
    removed = put id (record { variant_id = id; format = format; clock = clock }) v.removed;
  }
  perform (upsert variant path) v =
      if includes variant.id active
      then record v {
        variants =
            put variant.id
              (record { variant = variant; object_path = object_path variant; clock = clock })
              v.variants;
        removed = remove variant.id v.removed;
      }
      else v

  unfoldable pub apply_variant : LogicalVariantEffect → VariantMaps → VariantMaps
  unfolding perform
  apply_variant effect v =
      let id = effect_id effect in
      let live = Option.map (λ (e : VariantEntry). e.clock) (get id v.variants) in
      let dead = Option.map (λ (e : RemovedVariantEntry). e.clock) (get id v.removed) in
      if not (tombstone_clock_wins coll changes clock live (is_delete effect) false)
        || not (tombstone_clock_wins coll changes clock dead (is_delete effect) true)
      then v
      else perform effect v

  -- the loop over `change.variantEffects`
  unfoldable pub apply_variants : List LogicalVariantEffect → VariantMaps → VariantMaps
  unfolding apply_variant
  apply_variants [] v = v
  apply_variants (effect ∷ effects) v = apply_variants effects (apply_variant effect v)

-- the loop that drops the variants no book has
unfoldable pub drop_inactive : List String → JsMap VariantEntry → JsMap VariantEntry
drop_inactive active [] = []
drop_inactive active ((id, e) ∷ m) =
    if includes id active then (id, e) ∷ drop_inactive active m else drop_inactive active m
