-- ===== src/LogicalBook/Apply/Books.antt =====
-- The books and the tombstones of books that a change leaves, and the conflict that it opens.
use mathlib.Core.Option
use omnia_reader.Prelude.{
  String, Bool, true, false, not, Option, none, List, [], ◌∷◌, ◌++◌, map, ◌||◌, keep, any, gather,
  is_empty, ◌==◌, ◌&&◌, includes, dedupe, or_else, if◌then◌else◌,
}
use omnia_reader.Prelude.JsMap.{JsMap, get, put, remove, values}
use omnia_reader.Prelude.Collation.{Collation}
use omnia_reader.Prelude.CodeUnits.{sort_strings}
use omnia_reader.LogicalBook.Types.{
  LogicalBookRecord, LogicalBookChange, LogicalBookStateClock, MembershipTuple, BookEntry,
  RemovedBookEntry, ReconciliationEntry, variant_ids, unresolved, reconciliation_key,
}
use omnia_reader.LogicalBook.Ancestry.{Changes}
use omnia_reader.LogicalBook.Clock.{clock_wins, tombstone_clock_wins}
use omnia_reader.LogicalBook.Conflict.{memberships, membership_conflicts, deterministic_conflict_id}

-- `candidateBooks` and `candidateRemovedBooks`, with the books that were turned down so far.
pub record Candidates : Type 0 where
  pub books : JsMap BookEntry
  pub removed : JsMap RemovedBookEntry
  pub competing : List LogicalBookRecord

abbrev pub book_clock : String → JsMap BookEntry → Option LogicalBookStateClock
book_clock id books = Option.map (λ e. e.clock) (get id books)

abbrev pub removed_clock : String → JsMap RemovedBookEntry → Option LogicalBookStateClock
removed_clock id removed = Option.map (λ e. e.clock) (get id removed)

module _ (coll : Collation) (changes : Changes) (clock : LogicalBookStateClock)
    (books : JsMap BookEntry) (removed : JsMap RemovedBookEntry) where
  unfoldable pub remove_book : String → Candidates → Candidates
  remove_book id c =
      if not (tombstone_clock_wins coll changes clock (book_clock id books) true false)
        || not (clock_wins coll changes clock (removed_clock id removed))
      then c
      else record c {
        books = remove id c.books;
        removed = put id (record { logical_book_id = id; clock = clock }) c.removed;
      }

  -- the loop over `change.removedLogicalBookIds`
  unfoldable pub remove_books : List String → Candidates → Candidates
  remove_books [] c = c
  remove_books (id ∷ ids) c = remove_books ids (remove_book id c)

  unfoldable pub place_book : LogicalBookRecord → Candidates → Candidates
  place_book proposed c =
      if not (clock_wins coll changes clock (book_clock proposed.id books))
        || not
            (tombstone_clock_wins coll changes clock (removed_clock proposed.id removed) false true)
      then c
      else if not (is_empty (membership_conflicts proposed c.books))
      then record c { competing = c.competing ++ proposed ∷ [] }
      else record c {
        books = put proposed.id (record { book = proposed; clock = clock }) c.books;
        removed = remove proposed.id c.removed;
      }

  -- the loop over `change.resultingBooks`
  unfoldable pub place_books : List LogicalBookRecord → Candidates → Candidates
  place_books [] c = c
  place_books (proposed ∷ rest) c = place_books rest (place_book proposed c)

  unfoldable pub candidates : List String → List LogicalBookRecord → Candidates
  unfolding remove_books place_books remove_book place_book
  candidates ids proposed =
      place_books proposed
        (remove_books ids (record { books = books; removed = removed; competing = [] }))

module _ (coll : Collation) (changes : Changes) (change : LogicalBookChange) where
  abbrev holds_any : List String → BookEntry → Bool
  holds_any proposed_ids entry =
      any (λ id. not (id == "") && includes id proposed_ids) (variant_ids entry.book.variants)

  abbrev owner_change_id : JsMap BookEntry → MembershipTuple → String
  owner_change_id books entry =
      or_else (Option.map (λ c. c.change_id) (book_clock entry.logical_book_id books))
        "change:bootstrap"

  -- The reconciliation that the competing books open.
  unfoldable pub conflict_entry :
      LogicalBookStateClock → JsMap BookEntry → List LogicalBookRecord → ReconciliationEntry
  unfolding memberships values
  conflict_entry clock books competing =
      let rejected = gather (memberships coll) competing in
      let proposed_ids = map (λ (m : MembershipTuple). m.variant_id) rejected in
      let accepted =
        gather (λ (e : BookEntry). memberships coll e.book)
          (keep (holds_any proposed_ids) (values books)) in
      let change_ids = change.change_id ∷ map (owner_change_id books) accepted in
      let variant_ids =
        sort_strings
          (dedupe (map (λ (m : MembershipTuple). m.variant_id) (accepted ++ rejected))) in
      record {
        clock = clock;
        reconciliation = record {
          conflict_id = deterministic_conflict_id change_ids variant_ids;
          status = unresolved;
          conflicting_change_ids = sort_strings (dedupe change_ids);
          affected_variant_ids = variant_ids;
          accepted_membership = accepted;
          rejected_membership = rejected;
          resolved_by_change_id = none;
          detected_at = change.created_at;
        };
      }

  -- The reconciliations after the books: the branch of `competing.length > 0`.
  unfoldable pub open_conflict :
      LogicalBookStateClock
      → JsMap BookEntry
      → List LogicalBookRecord
      → JsMap ReconciliationEntry
      → JsMap ReconciliationEntry
  unfolding conflict_entry
  open_conflict clock books competing reconciliations =
      let entry = conflict_entry clock books competing in
      let id = reconciliation_key entry in
      if clock_wins coll changes clock
        (Option.map (λ (e : ReconciliationEntry). e.clock) (get id reconciliations))
      then put id entry reconciliations
      else reconciliations
