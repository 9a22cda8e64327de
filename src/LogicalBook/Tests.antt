-- ===== src/LogicalBook/Tests.antt =====
-- A library of one book with an EPUB and a PDF, and the changes of two devices to it.
use omnia_reader.Prelude.{
  String, ◌≡◌, refl, ◌↔◌, inl, inr, true, false, not, Option, none, some, List, [], ◌∷◌,
}
use omnia_reader.Prelude.JsMap.{get, remove}
use omnia_reader.Prelude.CodeUnits.Laws.{code_unit_collation}
use omnia_reader.LogicalBook.Types.{
  PublicationFormat, epub, pdf, BookRecord, LogicalBookRecord, LogicalBookChange,
  LogicalBookChangeKind, bootstrap, metadata, delete_variant, upsert, LogicalBookStateDocument,
  empty_logical_book_state, available, BookEntry, VariantEntry,
}
use omnia_reader.LogicalBook.Ancestry.{Changes, is_ancestor}
use omnia_reader.LogicalBook.Ancestry.Reaches.{Descends, is_ancestor_iff}
use omnia_reader.LogicalBook.Clock.{clock_of, clock_wins, tombstone_clock_wins}
use omnia_reader.LogicalBook.Clock.Laws.{clock_wins_total}
use omnia_reader.LogicalBook.Apply.Change.{maps_of, apply_change, apply_changes, compare_changes}
use omnia_reader.LogicalBook.Invariant.Change.{StateIsSound, reachable-StateIsSound}
use omnia_reader.LogicalBook.Conflict.{membership_conflicts}
use omnia_reader.LogicalBook.Order.{IsOrdered, compare_changes-unordered}
use omnia_reader.LogicalBook.Schema.{is_consistent}
use omnia_reader.LogicalBook.Schema.Dangling.{deletion, deletion_inconsistent}

abbrev object_path : BookRecord → String
object_path variant = variant.id

abbrev variant : String → PublicationFormat → BookRecord
variant id format = record {
  id = id;
  format = format;
  file_name = "emma";
  media_type = "application/epub+zip";
  size = 100;
  title = "Emma";
  authors = "Jane Austen" ∷ [];
  language = none;
  publisher = none;
  identifier = none;
  imported_at = "2026-01-01T00:00:00.000Z";
  last_opened_at = none;
  cover_state = none;
}

abbrev emma : String → Option String → LogicalBookRecord
emma title pdf_id = record {
  id = "emma";
  title = title;
  authors = "Jane Austen" ∷ [];
  language = none;
  publisher = none;
  identifier = none;
  imported_at = "2026-01-01T00:00:00.000Z";
  updated_at = "2026-01-01T00:00:00.000Z";
  cover_state = available;
  variants = record { epub_id = some "e"; pdf_id = pdf_id };
}

abbrev change : String → LogicalBookChangeKind → List String → LogicalBookRecord → LogicalBookChange
change id kind parents book = record {
  change_id = id;
  kind = kind;
  parents = parents;
  resulting_books = book ∷ [];
  removed_logical_book_ids = [];
  variant_effects = [];
  preference_effects = [];
  resolves_conflict_ids = [];
  created_at = "2026-01-01T00:00:00.000Z";
  device_id = "tablet";
  app_version = "1";
}

abbrev imported : LogicalBookChange
imported = record (change "a" bootstrap [] (emma "Emma" (some "p"))) {
  variant_effects = upsert (variant "e" epub) "e" ∷ upsert (variant "p" pdf) "p" ∷ [];
}

abbrev renamed : LogicalBookChange
renamed = change "c" metadata ("a" ∷ []) (emma "Emma, a novel" (some "p"))

abbrev deleted : LogicalBookChange
deleted = change "b" delete_variant ("a" ∷ []) (emma "Emma" none)

abbrev by_id : Changes
by_id = ("a", imported) ∷ ("b", deleted) ∷ ("c", renamed) ∷ []

abbrev library : LogicalBookStateDocument
library =
    apply_changes code_unit_collation object_path by_id (imported ∷ renamed ∷ [])
      empty_logical_book_state

library-StateIsSound : StateIsSound library
library-StateIsSound =
    reachable-StateIsSound code_unit_collation object_path by_id (imported ∷ renamed ∷ [])

reachable-StateIsSound_example : StateIsSound (
    apply_changes code_unit_collation object_path by_id
      (deleted ∷ imported ∷ renamed ∷ [])
      empty_logical_book_state)
reachable-StateIsSound_example =
    reachable-StateIsSound code_unit_collation object_path by_id (deleted ∷ imported ∷ renamed ∷ [])

is_ancestor_iff_example : (is_ancestor "a" "c" by_id ≡ true) ↔ Descends by_id "a" "c"
is_ancestor_iff_example = is_ancestor_iff by_id "a" "c"

clock_wins_total_example :
    (clock_wins code_unit_collation by_id (clock_of deleted) (some (clock_of renamed))
      ≡ not (clock_wins code_unit_collation by_id (clock_of renamed) (some (clock_of deleted))))
    × (tombstone_clock_wins code_unit_collation by_id
          (clock_of deleted)
          (some (clock_of renamed))
          true
          false
        ≡ not (
            tombstone_clock_wins code_unit_collation by_id
              (clock_of renamed)
              (some (clock_of deleted))
              false
              true))
unfolding is_ancestor get
clock_wins_total_example =
    clock_wins_total code_unit_collation by_id (clock_of deleted) (clock_of renamed) true false
      (inl refl) (λ e. cc)

abbrev entry : BookEntry
entry = record { book = emma "Emma, a novel" (some "p"); clock = clock_of renamed }

abbrev recorded : VariantEntry
recorded = record { variant = variant "p" pdf; object_path = "p"; clock = clock_of imported }

deletion_inconsistent_example :
    let next =
      apply_change code_unit_collation object_path by_id
        (deletion code_unit_collation object_path by_id deleted (emma "Emma" none) "p" pdf)
        library in
    (get "emma" (maps_of next).books ≡ some entry)
    × (get "p" (maps_of next).variants ≡ none)
    × (is_consistent code_unit_collation next ≡ false)
unfolding apply_changes apply_change maps_of get is_ancestor clock_wins tombstone_clock_wins
    membership_conflicts remove
deletion_inconsistent_example =
    deletion_inconsistent code_unit_collation object_path by_id deleted (emma "Emma" none) "p" pdf
      entry recorded library library-StateIsSound refl refl refl refl refl refl

-- A change whose id is above that of its child, and a third one between them.
abbrev parent : LogicalBookChange
parent = change "z" metadata [] (emma "Emma" none)

abbrev child : LogicalBookChange
child = change "m" metadata ("z" ∷ []) (emma "Emma" none)

abbrev third : LogicalBookChange
third = change "q" metadata [] (emma "Emma" none)

abbrev family : Changes
family = ("z", parent) ∷ ("m", child) ∷ ("q", third) ∷ []

compare_changes-unordered_example :
    ¬ (IsOrdered (compare_changes code_unit_collation family) (child ∷ third ∷ parent ∷ []))
unfolding is_ancestor get
compare_changes-unordered_example =
    compare_changes-unordered code_unit_collation family parent child third
      (child ∷ third ∷ parent ∷ []) (refl, refl) (refl, refl) (refl, refl) refl refl
      (inr (inr (inl refl))) (inl refl) (inr (inl refl))
