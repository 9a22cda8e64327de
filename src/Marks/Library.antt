-- ===== src/Marks/Library.antt =====
-- The bookmarks of the library repository in
-- libs/library/data-access/src/lib/browser-library-repository.ts. The object store is a map by id; the
-- books' formats are a function, since nothing here changes a book. Its transactions succeed.
use omnia_reader.Prelude.{
  String, Bool, true, false, not, ◌==◌, ◌&&◌, Option, none, some, List, keep, if◌then◌else◌,
}
use omnia_reader.Prelude.Collation.{Sign, then_by, sort}
use omnia_reader.Prelude.JsMap.{JsMap, get, put, remove, values}
use omnia_reader.Prelude.Action.{Outcome, returned, thrown}
use omnia_reader.LogicalBook.Types.{PublicationFormat, epub, pdf}
use omnia_reader.Marks.Bookmark.{PublicationBookmark, MarkPort, is_publication_bookmark}

abbrev pub Bookmarks : Type 0
Bookmarks = JsMap PublicationBookmark

pub data LibraryError : Type 0 where
  invalid_bookmark unavailable_publication : LibraryError

abbrev pub same_format : PublicationFormat → PublicationFormat → Bool
same_format epub epub = true
same_format pdf pdf = true
same_format _ _ = false

module _ (port : MarkPort) (book_format : String → Option PublicationFormat) where
  -- `books.get(bookmark.bookId)?.format === bookmark.format`
  abbrev pub has_book : PublicationBookmark → Bool
  has_book b = elim (book_format b.book_id) [ none ↦ false | some f ↦ same_format f b.format ]

  abbrev pub is_readable : String → PublicationBookmark → Bool
  is_readable id b = is_publication_bookmark port b.source && b.id == id && has_book b

  -- A record that cannot be read goes to quarantine.
  unfoldable pub get_bookmark : String → Bookmarks → Option PublicationBookmark × Bookmarks
  get_bookmark id stored = elim (get id stored) [
    | none ↦ (none, stored)
    | some b ↦ if is_readable id b then (some b, stored) else (none, remove id stored)
  ]

  abbrev pub compare_listed : PublicationBookmark → PublicationBookmark → Sign
  compare_listed left right =
      then_by (port.coll.locale_compare right.created_at left.created_at)
        (port.coll.locale_compare right.id left.id)

  -- `listBookmarks(undefined, true)`, less the quarantine
  unfoldable pub list_bookmarks : Bookmarks → List PublicationBookmark
  list_bookmarks stored =
      sort compare_listed
        (keep (λ b. is_publication_bookmark port b.source && has_book b) (values stored))

  unfoldable pub save_bookmark : PublicationBookmark → Bookmarks → Outcome LibraryError Bookmarks
  save_bookmark b stored =
      if not (is_publication_bookmark port b.source)
      then thrown invalid_bookmark
      else if not (has_book b)
      then thrown unavailable_publication
      else returned (put b.id b stored)
