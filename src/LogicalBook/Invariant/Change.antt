-- ===== src/LogicalBook/Invariant/Change.antt =====
-- The whole state, under one change and under any sequence of changes.
use mathlib.Core.Path.{subst}
use omnia_reader.Prelude.{
  String, ◌≡◌, refl, sym, true, some, List, [], ◌∷◌, includes, is_empty, Bool-cases, inl, inr,
}
use omnia_reader.Prelude.JsMap.{get, index-values}
use omnia_reader.Prelude.Collation.{Collation}
use omnia_reader.LogicalBook.Types.{
  BookRecord, LogicalBookChange, LogicalBookStateDocument, empty_logical_book_state, VariantEntry,
  book_key, removed_book_key, variant_key, removed_variant_key, preference_key, reconciliation_key,
}
use omnia_reader.LogicalBook.Ancestry.{Changes}
use omnia_reader.LogicalBook.Clock.{clock_of}
use omnia_reader.LogicalBook.Apply.Effects.{VariantMaps, active_variant_ids}
use omnia_reader.LogicalBook.Apply.Change.{
  StateMaps, maps_of, document_of, proposed_candidates, settle_books, settle_effects, apply_maps,
  apply_change, apply_changes,
}
use omnia_reader.LogicalBook.Invariant.Books.{BooksAreSound, candidates-IsSound}
use omnia_reader.LogicalBook.Invariant.Variants.{
  IsIndexed, VariantsAreSound, apply_variants-VariantsAreSound, includes_of_drop_inactive,
  drop_inactive-VariantsAreSound, apply_preferences-IsIndexed, resolve_conflicts-IsIndexed,
  open_conflict-IsIndexed,
}

abbrev pub variant_maps : StateMaps → VariantMaps
variant_maps m = record { variants = m.variants; removed = m.removed_variants }

-- The parts of the state, each sound by itself.
pub record PartsAreSound (m : StateMaps) : Type 0 where
  pub books : BooksAreSound m.books m.removed_books
  pub variants : VariantsAreSound (variant_maps m)
  pub preferences : IsIndexed preference_key m.preferences
  pub reconciliations : IsIndexed reconciliation_key m.reconciliations

-- Every variant that has a record belongs to a book.
abbrev pub VariantsAreActive : StateMaps → Type 0
VariantsAreActive m =
    (id : String) (e : VariantEntry)
    → get id m.variants ≡ some e
    → includes id (active_variant_ids m.books) ≡ true

pub record MapsAreSound (m : StateMaps) : Type 0 where
  pub parts : PartsAreSound m
  pub active : VariantsAreActive m

module _ (coll : Collation) (object_path : BookRecord → String) (changes : Changes)
    (change : LogicalBookChange) where
  settle_books-PartsAreSound :
      (m : StateMaps)
      → PartsAreSound m
      → PartsAreSound (settle_books coll object_path changes change m)
  unfolding settle_books
  settle_books-PartsAreSound m h =
      elim (Bool-cases
        (is_empty (proposed_candidates coll object_path changes change m).competing)) [
          | inl free ↦ rw free (record {
            books =
                candidates-IsSound coll changes (clock_of change) m.books m.removed_books
                  change.removed_logical_book_ids change.resulting_books h.books;
            variants = h.variants;
            preferences = h.preferences;
            reconciliations = h.reconciliations;
          })
          | inr competing ↦ rw competing (record {
            books = h.books;
            variants = h.variants;
            preferences = h.preferences;
            reconciliations =
                open_conflict-IsIndexed coll changes change (clock_of change) m.books
                  (proposed_candidates coll object_path changes change m).competing
                  m.reconciliations h.reconciliations;
          })
        ]

  settle_effects-MapsAreSound :
      (m : StateMaps)
      → PartsAreSound m
      → MapsAreSound (settle_effects coll object_path changes change m)
  unfolding settle_effects
  settle_effects-MapsAreSound m h = record {
    parts = record {
      books = h.books;
      variants = drop_inactive-VariantsAreSound (active_variant_ids m.books) _ (
          apply_variants-VariantsAreSound coll object_path changes (clock_of change)
            (active_variant_ids m.books) change.variant_effects (variant_maps m) h.variants);
      preferences =
          apply_preferences-IsIndexed coll changes (clock_of change) change.preference_effects
            m.preferences h.preferences;
      reconciliations =
          resolve_conflicts-IsIndexed coll changes (clock_of change) change.change_id
            change.resolves_conflict_ids m.reconciliations h.reconciliations;
    };
    active = λ id e got. includes_of_drop_inactive (active_variant_ids m.books) id e _ got;
  }

  pub apply_maps-MapsAreSound :
      (m : StateMaps)
      → PartsAreSound m
      → MapsAreSound (apply_maps coll object_path changes change m)
  unfolding apply_maps
  apply_maps-MapsAreSound m h = settle_effects-MapsAreSound _ (settle_books-PartsAreSound m h)

-- Writing the maps into a document and reading them again gives them back.
pub maps_of-document_of : (m : StateMaps) → PartsAreSound m → maps_of (document_of m) ≡ m
unfolding maps_of document_of
maps_of-document_of m h = λ i. record {
  books = index-values book_key m.books h.books.unique h.books.keyed i;
  removed_books =
      index-values removed_book_key m.removed_books h.books.removed_unique h.books.removed_keyed i;
  variants = index-values variant_key m.variants h.variants.unique h.variants.keyed i;
  removed_variants =
      index-values removed_variant_key m.removed_variants h.variants.removed_unique
        h.variants.removed_keyed i;
  preferences = index-values preference_key m.preferences h.preferences.0 h.preferences.1 i;
  reconciliations =
      index-values reconciliation_key m.reconciliations h.reconciliations.0 h.reconciliations.1 i;
}

-- The invariant of a state document: no two books hold one variant, no id is both alive and a
-- tombstone, and every recorded variant belongs to a book.
abbrev pub StateIsSound : LogicalBookStateDocument → Type 0
StateIsSound state = MapsAreSound (maps_of state)

empty-StateIsSound : StateIsSound empty_logical_book_state
unfolding maps_of get active_variant_ids
empty-StateIsSound = record {
  parts = record {
    books = record {
      unique = tt;
      keyed = tt;
      removed_unique = tt;
      removed_keyed = tt;
      exclusive = λ i j a b f v h. cc;
      apart = λ id. inl refl;
    };
    variants = record {
      unique = tt;
      keyed = tt;
      removed_unique = tt;
      removed_keyed = tt;
      apart = λ id. inl refl;
    };
    preferences = (tt, tt);
    reconciliations = (tt, tt);
  };
  active = λ id e h. cc;
}

module _ (coll : Collation) (object_path : BookRecord → String) where
  pub apply_change-StateIsSound :
      (changes : Changes) (change : LogicalBookChange) (state : LogicalBookStateDocument)
      → StateIsSound state
      → StateIsSound (apply_change coll object_path changes change state)
  unfolding apply_change
  apply_change-StateIsSound changes change state h =
      let next = apply_maps-MapsAreSound coll object_path changes change (maps_of state) h.parts in
      subst MapsAreSound (sym (maps_of-document_of _ next.parts)) next

  apply_changes-StateIsSound :
      (changes : Changes) (ordered : List LogicalBookChange) (state : LogicalBookStateDocument)
      → StateIsSound state
      → StateIsSound (apply_changes coll object_path changes ordered state)
  unfolding apply_changes
  apply_changes-StateIsSound changes [] state h = h
  apply_changes-StateIsSound changes (change ∷ rest) state h =
      apply_changes-StateIsSound changes rest _ (apply_change-StateIsSound changes change state h)

  -- Whatever changes are applied to the empty state, in whatever order, the invariant holds of the
  -- state that they give.
  pub reachable-StateIsSound :
      (changes : Changes) (ordered : List LogicalBookChange)
      → StateIsSound (apply_changes coll object_path changes ordered empty_logical_book_state)
  reachable-StateIsSound changes ordered =
      apply_changes-StateIsSound changes ordered empty_logical_book_state empty-StateIsSound
