-- ===== src/LogicalBook/Apply/Change.antt =====
-- `applyChange`, `stateClocks`, `canonicalizeLogicalBookState`, `orderChanges` and the fold of
-- `mergeLogicalBookChangesIntoState` over the changes in their order.
use omnia_reader.Prelude.{String, List, [], ◌∷◌, ◌++◌, map, dedupe, is_empty, if◌then◌else◌}
use omnia_reader.Prelude.JsMap.{JsMap, values, index}
use omnia_reader.Prelude.Collation.{Collation, Sign, negative, positive, sort}
use omnia_reader.Prelude.CodeUnits.{sort_strings}
use omnia_reader.LogicalBook.Types.{
  BookRecord, LogicalBookChange, LogicalBookStateClock, BookEntry, RemovedBookEntry, VariantEntry,
  RemovedVariantEntry, PreferenceEntry, ReconciliationEntry, LogicalBookStateDocument, book_key,
  removed_book_key, variant_key, removed_variant_key, preference_key, reconciliation_key,
}
use omnia_reader.LogicalBook.Ancestry.{Changes, is_ancestor}
use omnia_reader.LogicalBook.Clock.{clock_of}
use omnia_reader.LogicalBook.Apply.Books.{Candidates, candidates, open_conflict}
use omnia_reader.LogicalBook.Apply.Effects.{
  apply_preferences, resolve_conflicts, active_variant_ids, apply_variants, drop_inactive,
}

-- The maps that `applyChange` works on.
pub record StateMaps : Type 0 where
  pub books : JsMap BookEntry
  pub removed_books : JsMap RemovedBookEntry
  pub variants : JsMap VariantEntry
  pub removed_variants : JsMap RemovedVariantEntry
  pub preferences : JsMap PreferenceEntry
  pub reconciliations : JsMap ReconciliationEntry

unfoldable pub maps_of : LogicalBookStateDocument → StateMaps
unfolding index
maps_of state = record {
  books = index book_key state.books;
  removed_books = index removed_book_key state.removed_books;
  variants = index variant_key state.variants;
  removed_variants = index removed_variant_key state.removed_variants;
  preferences = index preference_key state.preferences;
  reconciliations = index reconciliation_key state.reconciliations;
}

unfoldable pub state_clocks : LogicalBookStateDocument → List LogicalBookStateClock
state_clocks state =
    map (λ e. e.clock) state.books
    ++ (map (λ e. e.clock) state.removed_books
        ++ (map (λ e. e.clock) state.variants
            ++ (map (λ e. e.clock) state.removed_variants
                ++ (map (λ e. e.clock) state.preferences
                    ++ map (λ e. e.clock) state.reconciliations))))

abbrev pub with_heads : LogicalBookStateDocument → LogicalBookStateDocument
with_heads state = record state { heads = map (λ c. c.change_id) (state_clocks state) }

-- `next`, with its heads
unfoldable pub document_of : StateMaps → LogicalBookStateDocument
unfolding state_clocks values
document_of m = with_heads (record {
  heads = [];
  books = values m.books;
  removed_books = values m.removed_books;
  variants = values m.variants;
  removed_variants = values m.removed_variants;
  preferences = values m.preferences;
  reconciliations = values m.reconciliations;
})

module _ (coll : Collation) (object_path : BookRecord → String) where
  module _ (changes : Changes) (change : LogicalBookChange) where
    abbrev pub proposed_candidates : StateMaps → Candidates
    proposed_candidates m =
        candidates coll changes (clock_of change) m.books m.removed_books
          change.removed_logical_book_ids change.resulting_books

    -- A change with a conflict leaves the books and their tombstones as they were.
    unfoldable pub settle_books : StateMaps → StateMaps
    unfolding candidates open_conflict
    settle_books m =
        let c = proposed_candidates m in
        if is_empty c.competing
        then record m { books = c.books; removed_books = c.removed }
        else record m {
          reconciliations =
              open_conflict coll changes change (clock_of change) m.books c.competing
                m.reconciliations;
        }

    unfoldable pub settle_effects : StateMaps → StateMaps
    unfolding apply_preferences resolve_conflicts active_variant_ids apply_variants drop_inactive
    settle_effects m =
        let clock = clock_of change in
        let active = active_variant_ids m.books in
        let v =
          apply_variants coll object_path changes clock active change.variant_effects
            (record { variants = m.variants; removed = m.removed_variants }) in
        record m {
          variants = drop_inactive active v.variants;
          removed_variants = v.removed;
          preferences =
              apply_preferences coll changes clock change.preference_effects m.preferences;
          reconciliations =
              resolve_conflicts coll changes clock change.change_id change.resolves_conflict_ids
                m.reconciliations;
        }

    unfoldable pub apply_maps : StateMaps → StateMaps
    unfolding settle_books settle_effects
    apply_maps m = settle_effects (settle_books m)

    unfoldable pub apply_change : LogicalBookStateDocument → LogicalBookStateDocument
    unfolding apply_maps maps_of document_of
    apply_change state = document_of (apply_maps (maps_of state))

  -- the loop of `mergeLogicalBookChangesIntoState` over the ordered changes
  unfoldable pub apply_changes :
      Changes → List LogicalBookChange → LogicalBookStateDocument → LogicalBookStateDocument
  unfolding apply_change
  apply_changes changes [] state = state
  apply_changes changes (change ∷ rest) state =
      apply_changes changes rest (apply_change changes change state)

module _ (coll : Collation) where
  -- The comparator of `orderChanges`.
  unfoldable pub compare_changes : Changes → LogicalBookChange → LogicalBookChange → Sign
  compare_changes by_id left right =
      if is_ancestor left.change_id right.change_id by_id
      then negative
      else if is_ancestor right.change_id left.change_id by_id
      then positive
      else coll.locale_compare left.change_id right.change_id

  unfoldable pub canonicalize_logical_book_state :
      LogicalBookStateDocument → LogicalBookStateDocument
  unfolding state_clocks sort_strings
  canonicalize_logical_book_state state =
      let canonical = with_heads (record state {
        books = sort (λ l r. coll.locale_compare (book_key l) (book_key r)) state.books;
        removed_books =
            sort (λ l r. coll.locale_compare (removed_book_key l) (removed_book_key r))
              state.removed_books;
        variants = sort (λ l r. coll.locale_compare (variant_key l) (variant_key r)) state.variants;
        removed_variants =
            sort (λ l r. coll.locale_compare (removed_variant_key l) (removed_variant_key r))
              state.removed_variants;
        preferences =
            sort (λ l r. coll.locale_compare (preference_key l) (preference_key r))
              state.preferences;
        reconciliations =
            sort (λ l r. coll.locale_compare (reconciliation_key l) (reconciliation_key r))
              state.reconciliations;
      }) in
      record canonical { heads = sort_strings (dedupe canonical.heads) }
