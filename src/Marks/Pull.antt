-- ===== src/Marks/Pull.antt =====
-- `BookmarkSyncService.pull`: the destination's bookmarks are taken into the library.
pub mod Maximum
use omnia_reader.Prelude.{
  ℕ, ◌+◌, String, Bool, not, ◌==◌, ◌&&◌, Option, none, some, List, [], ◌∷◌, if◌then◌else◌,
}
use omnia_reader.Prelude.Action.{Outcome, returned, thrown}
use omnia_reader.LogicalBook.Types.{PublicationFormat}
use omnia_reader.Progress.Push.{RemoteDocument}
use omnia_reader.Marks.Bookmark.{PublicationBookmark, prefers_incoming}
use omnia_reader.Marks.Library.{Bookmarks, LibraryError, has_book, get_bookmark, save_bookmark}
use omnia_reader.Marks.Documents.{DocumentPort, bookmark_document_path, parse_bookmark_document}

pub record Pulled : Type 0 where
  pub stored : Bookmarks
  pub pulled : ℕ
  pub rejected : ℕ

module _ (port : DocumentPort) (book_format : String → Option PublicationFormat) where
  -- The bookmark of a document that is not rejected.
  unfoldable pub incoming_bookmark : RemoteDocument → Option PublicationBookmark
  incoming_bookmark document = elim (parse_bookmark_document port document) [
    | none ↦ none
    | some b ↦
        if bookmark_document_path port b == document.path && has_book port.marks book_format b
        then some b
        else none
  ]

  -- `getBookmark`, `preferredBookmark` and `saveBookmark`
  unfoldable pub take_in : PublicationBookmark → Bookmarks → Outcome LibraryError Bookmarks
  take_in incoming stored =
      let (current, rest) = get_bookmark port.marks book_format incoming.id stored in
      if prefers_incoming port.marks current incoming
      then save_bookmark port.marks book_format incoming rest
      else returned rest

  unfoldable pub pull_document : RemoteDocument → Pulled → Outcome LibraryError Pulled
  unfolding incoming_bookmark take_in
  pull_document document p = elim (incoming_bookmark document) [
    | none ↦ returned (record p { rejected = p.rejected + 1 })
    | some incoming ↦ elim (take_in incoming p.stored) [
      | thrown e ↦ thrown e
      | returned stored ↦ returned (record p { stored = stored; pulled = p.pulled + 1 })
    ]
  ]

  unfoldable pub pull_onto : Pulled → List RemoteDocument → Outcome LibraryError Pulled
  pull_onto p [] = returned p
  pull_onto p (document ∷ documents) = elim (pull_document document p) [
    | thrown e ↦ thrown e
    | returned q ↦ pull_onto q documents
  ]

  unfoldable pub pull : List RemoteDocument → Bookmarks → Outcome LibraryError Pulled
  unfolding pull_onto
  pull documents stored = pull_onto (record { stored = stored; pulled = 0; rejected = 0 }) documents
