-- ===== src/LogicalBook/Invariant/Books.antt =====
-- The books and their tombstones.
use omnia_reader.Prelude.{String, ◌≡◌, true, List, [], ◌∷◌, is_empty, arith}
use omnia_reader.Prelude.JsMap.{
  JsMap, UniqueKeys, Keyed, Apart, put, remove, put-UniqueKeys, remove-UniqueKeys, put-Keyed,
  remove-Keyed, put-remove-Apart, remove-put-Apart,
}
use omnia_reader.Prelude.Collation.{Collation}
use omnia_reader.LogicalBook.Types.{
  LogicalBookRecord, LogicalBookStateClock, BookEntry, RemovedBookEntry, book_key, removed_book_key,
}
use omnia_reader.LogicalBook.Ancestry.{Changes}
use omnia_reader.LogicalBook.Conflict.{membership_conflicts}
use omnia_reader.LogicalBook.Conflict.Laws.{Exclusive, put-Exclusive, remove-Exclusive}
use omnia_reader.LogicalBook.Apply.Books.{
  Candidates, remove_book, remove_books, place_book, place_books, candidates,
}

-- Each book stands at its id, no two books hold one variant, and no id is both a book's and a
-- tombstone's.
pub record BooksAreSound (books : JsMap BookEntry) (removed : JsMap RemovedBookEntry) : Type 0 where
  pub unique : UniqueKeys books
  pub keyed : Keyed book_key books
  pub removed_unique : UniqueKeys removed
  pub removed_keyed : Keyed removed_book_key removed
  pub exclusive : Exclusive books
  pub apart : Apart books removed

module _ (books : JsMap BookEntry) (removed : JsMap RemovedBookEntry) where
  pub remove-BooksAreSound :
      (e : RemovedBookEntry)
      → BooksAreSound books removed
      → BooksAreSound (remove (removed_book_key e) books) (put (removed_book_key e) e removed)
  remove-BooksAreSound e h = record {
    unique = remove-UniqueKeys (removed_book_key e) books h.unique;
    keyed = remove-Keyed book_key (removed_book_key e) books h.keyed;
    removed_unique = put-UniqueKeys (removed_book_key e) e removed h.removed_unique;
    removed_keyed = put-Keyed removed_book_key e removed h.removed_keyed;
    exclusive = remove-Exclusive (removed_book_key e) books h.exclusive;
    apart = remove-put-Apart (removed_book_key e) books removed e h.apart;
  }

  pub put-BooksAreSound :
      (e : BookEntry)
      → is_empty (membership_conflicts e.book books) ≡ true
      → BooksAreSound books removed
      → BooksAreSound (put (book_key e) e books) (remove (book_key e) removed)
  put-BooksAreSound e free h = record {
    unique = put-UniqueKeys (book_key e) e books h.unique;
    keyed = put-Keyed book_key e books h.keyed;
    removed_unique = remove-UniqueKeys (book_key e) removed h.removed_unique;
    removed_keyed = remove-Keyed removed_book_key (book_key e) removed h.removed_keyed;
    exclusive = put-Exclusive e books h.keyed h.exclusive free;
    apart = put-remove-Apart (book_key e) books removed e h.apart;
  }

module _ (coll : Collation) (changes : Changes) (clock : LogicalBookStateClock)
    (books : JsMap BookEntry) (removed : JsMap RemovedBookEntry) where
  abbrev IsSound : Candidates → Type 0
  IsSound c = BooksAreSound c.books c.removed

  remove_book-IsSound :
      (id : String) (c : Candidates)
      → IsSound c
      → IsSound (remove_book coll changes clock books removed id c)
  unfolding remove_book
  remove_book-IsSound id c h = ground (
    arith,
    remove-BooksAreSound c.books c.removed (record { logical_book_id = id; clock = clock }) h,
  )

  remove_books-IsSound :
      (ids : List String) (c : Candidates)
      → IsSound c
      → IsSound (remove_books coll changes clock books removed ids c)
  unfolding remove_books
  remove_books-IsSound [] c h = h
  remove_books-IsSound (id ∷ ids) c h =
      remove_books-IsSound ids (remove_book coll changes clock books removed id c)
        (remove_book-IsSound id c h)

  place_book-IsSound :
      (proposed : LogicalBookRecord) (c : Candidates)
      → IsSound c
      → IsSound (place_book coll changes clock books removed proposed c)
  unfolding place_book
  place_book-IsSound proposed c h = ground (
    arith,
    λ (free : is_empty (membership_conflicts proposed c.books) ≡ true).
        put-BooksAreSound c.books c.removed (record { book = proposed; clock = clock }) free h,
  )

  place_books-IsSound :
      (proposed : List LogicalBookRecord) (c : Candidates)
      → IsSound c
      → IsSound (place_books coll changes clock books removed proposed c)
  unfolding place_books
  place_books-IsSound [] c h = h
  place_books-IsSound (p ∷ ps) c h =
      place_books-IsSound ps (place_book coll changes clock books removed p c)
        (place_book-IsSound p c h)

  pub candidates-IsSound :
      (ids : List String) (proposed : List LogicalBookRecord)
      → BooksAreSound books removed
      → IsSound (candidates coll changes clock books removed ids proposed)
  unfolding candidates
  candidates-IsSound ids proposed h = place_books-IsSound proposed _ (remove_books-IsSound ids _ h)
