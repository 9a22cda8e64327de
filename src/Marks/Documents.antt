-- ===== src/Marks/Documents.antt =====
-- The documents of bookmarks at the destination, and the operations that wait to be written there.
use omnia_reader.Prelude.{
  ℕ, ◌+◌, String, Bool, true, false, not, ◌==◌, ◌&&◌, ◌||◌, Option, none, some, List, [], ◌∷◌, ◌++◌,
  eqb, if◌then◌else◌,
}
pub mod Coalesce
use text.Mathlib.Text.{starts_with}
use omnia_reader.Prelude.JsMap.{JsMap, get, put}
use omnia_reader.Prelude.Text.{concat}
use omnia_reader.Prelude.Json.{Json}
use omnia_reader.AutoSync.State.{SyncActivityKind, bookmark}
use omnia_reader.Workers.Types.{SyncOperation}
use omnia_reader.Progress.Push.{RemoteDocument}
use omnia_reader.Marks.Bookmark.{PublicationBookmark, MarkPort, guarded_bookmark, prefers_incoming}

-- `parse_json` is JSON.parse, and `pretty` is JSON.stringify with two spaces.
pub record DocumentPort : Type 0 where
  pub marks : MarkPort
  pub encode_uri_component : String → String
  pub parse_json : String → Option Json
  pub pretty : Json → String

-- `latestOperation` is not read.
pub record PendingBookmarkWrite : Type 0 where
  pub bookmark : PublicationBookmark
  pub operation_ids : List String
  pub create_candidate : Bool

pub record CoalescedBookmarks : Type 0 where
  pub documents : JsMap PendingBookmarkWrite
  pub accepted_operation_count : ℕ

abbrev pub bookmarks_root : String
bookmarks_root = ".omnia-reader/bookmarks"

abbrev pub drop_two : String → String
drop_two (String.◌∷◌ c (String.◌∷◌ d s)) = s
drop_two s = s

-- `replace(/%2F/gi, '%252F')`
abbrev pub double_all_slashes : String → String
double_all_slashes String.[] = ""
double_all_slashes (String.◌∷◌ c s) =
    let rest = double_all_slashes s in
    if (String.◌∷◌ c "" == "%") && (starts_with s "2F" || starts_with s "2f")
    then concat "%252F" (drop_two rest)
    else String.◌∷◌ c rest

module _ (port : DocumentPort) where
  unfoldable pub path_segment : String → String
  path_segment value = double_all_slashes (port.encode_uri_component value)

  unfoldable pub bookmark_document_path : PublicationBookmark → String
  unfolding path_segment
  bookmark_document_path b = concat bookmarks_root (
      concat "/"
        (concat (path_segment b.book_id) (concat "/" (concat (path_segment b.id) ".json"))))

  unfoldable pub parse_bookmark_document : RemoteDocument → Option PublicationBookmark
  parse_bookmark_document document = elim (port.parse_json document.content) [
    | none ↦ none
    | some value ↦ guarded_bookmark port.marks value
  ]

  abbrev pub serialize_bookmark : PublicationBookmark → String
  serialize_bookmark b = concat (port.pretty b.source) "\n"

  abbrev pub is_bookmark_entity : SyncOperation Json → Bool
  is_bookmark_entity operation = elim operation.entity [ bookmark ↦ true | _ ↦ false ]

  -- The bookmark of an operation that is taken.
  unfoldable pub accepted_bookmark : SyncOperation Json → Option PublicationBookmark
  accepted_bookmark operation =
      if not (is_bookmark_entity operation) || operation.is_delete
      then none
      else elim (guarded_bookmark port.marks operation.payload) [
        | none ↦ none
        | some b ↦ if operation.entity_id == b.id then some b else none
      ]

  abbrev pub newer_of : PublicationBookmark → PublicationBookmark → PublicationBookmark
  newer_of here incoming =
      if prefers_incoming port.marks (some here) incoming then incoming else here

  -- What an operation makes of the write that waits for its document.
  unfoldable pub join_operation :
      SyncOperation Json → PublicationBookmark → Option PendingBookmarkWrite → PendingBookmarkWrite
  join_operation operation b none = record {
    bookmark = b;
    operation_ids = operation.id ∷ [];
    create_candidate = eqb operation.revision 1;
  }
  join_operation operation b (some existing) = record {
    bookmark = newer_of existing.bookmark b;
    operation_ids = existing.operation_ids ++ operation.id ∷ [];
    create_candidate = existing.create_candidate || eqb operation.revision 1;
  }

  unfoldable pub coalesce_operation : SyncOperation Json → CoalescedBookmarks → CoalescedBookmarks
  unfolding join_operation
  coalesce_operation operation c = elim (accepted_bookmark operation) [
    | none ↦ c
    | some b ↦
        let path = bookmark_document_path b in
        record {
          documents = put path (join_operation operation b (get path c.documents)) c.documents;
          accepted_operation_count = c.accepted_operation_count + 1;
        }
  ]

  unfoldable pub coalesce_onto : CoalescedBookmarks → List (SyncOperation Json) → CoalescedBookmarks
  coalesce_onto c [] = c
  coalesce_onto c (operation ∷ operations) =
      coalesce_onto (coalesce_operation operation c) operations

  unfoldable pub coalesce_bookmark_operations : List (SyncOperation Json) → CoalescedBookmarks
  unfolding coalesce_onto
  coalesce_bookmark_operations =
      coalesce_onto (record { documents = []; accepted_operation_count = 0 })

  unfoldable pub join_snapshot :
      PublicationBookmark → Option PendingBookmarkWrite → PendingBookmarkWrite
  join_snapshot b none = record { bookmark = b; operation_ids = []; create_candidate = false }
  join_snapshot b (some existing) = record existing { bookmark = newer_of existing.bookmark b }

  unfoldable pub merge_snapshot :
      PublicationBookmark → JsMap PendingBookmarkWrite → JsMap PendingBookmarkWrite
  unfolding join_snapshot
  merge_snapshot b documents =
      let path = bookmark_document_path b in
      put path (join_snapshot b (get path documents)) documents
