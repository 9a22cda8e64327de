-- ===== src/Marks/Push.antt =====
-- `BookmarkSyncService.pushBookmark`: one document is written, and tried again while the destination
-- reports conflicts and retries are left. The answers of the remote and of the journal are any
-- function of the history; the library is a map.
pub mod Safety
use omnia_reader.Prelude.{
  ℕ, zero, suc, ◌+◌, ◌*◌, ◌^◌, String, Bool, true, false, not, ◌==◌, ◌||◌, Option, none, some, List,
  [], ◌∷◌, length, is_some, if◌then◌else◌,
}
use omnia_reader.Prelude.Text.{concat}
use omnia_reader.Prelude.Json.{Json}
use omnia_reader.Prelude.Action.{Outcome, Action, returned, thrown, pure, raise, ◌>>=◌, ◌>>◌}
use omnia_reader.LogicalBook.Types.{PublicationFormat}
use omnia_reader.Workers.Types.{SyncOperation}
use omnia_reader.Progress.Push.{RemoteDocument, DocumentWriteRequest, PushResult}
use omnia_reader.Marks.Bookmark.{PublicationBookmark, prefers_incoming}
use omnia_reader.Marks.Library.{Bookmarks, LibraryError, save_bookmark}
use omnia_reader.Marks.Documents.{
  DocumentPort, PendingBookmarkWrite, bookmark_document_path, parse_bookmark_document,
  serialize_bookmark,
}

-- `SyncConflictError`, an error of the library, and any other
pub data MarkError : Type 0 where
  conflict : MarkError
  library_error : LibraryError → MarkError
  other_error : String → MarkError

pub data MarkEvent : Type 0 where
  was_listed : Outcome MarkError (List RemoteDocument) → MarkEvent
  was_pending : Outcome MarkError (List (SyncOperation Json)) → MarkEvent
  was_read : String → Outcome MarkError (Option RemoteDocument) → MarkEvent
  was_written : DocumentWriteRequest → Outcome MarkError RemoteDocument → MarkEvent
  was_acknowledged : List String → Outcome MarkError Unit → MarkEvent
  waited : ℕ → MarkEvent

abbrev pub MarkHistory : Type 0
MarkHistory = List MarkEvent

pub record MarkPorts : Type 0 where
  pub documents : DocumentPort
  pub book_format : String → Option PublicationFormat
  pub list_remote : MarkHistory → Outcome MarkError (List RemoteDocument)
  pub journal_pending : MarkHistory → Outcome MarkError (List (SyncOperation Json))
  pub read_remote : String → MarkHistory → Outcome MarkError (Option RemoteDocument)
  pub write_remote : DocumentWriteRequest → MarkHistory → Outcome MarkError RemoteDocument
  pub acknowledge : List String → MarkHistory → Outcome MarkError Unit
  pub max_conflict_retries : ℕ
  pub retry_delay_ms : ℕ

-- The library's bookmarks, and what has happened, the last first
pub record MarkState : Type 0 where
  pub stored : Bookmarks
  pub history : MarkHistory

abbrev pub MarkAction : Type 0 → Type 0
MarkAction A = Action MarkError MarkState A

-- What one call writes down.
abbrev pub call :
    {A : Type 0}
    → (Outcome MarkError A → MarkEvent)
    → (MarkHistory → Outcome MarkError A)
    → MarkAction A
call event answer s =
    let given = answer s.history in
    (given, record { stored = s.stored; history = event given ∷ s.history })

abbrev pub revision_of : Option RemoteDocument → Option String
revision_of none = none
revision_of (some document) = some document.revision

module _ (ports : MarkPorts) where
  unfoldable pub save : PublicationBookmark → MarkAction Unit
  save b s = elim (save_bookmark ports.documents.marks ports.book_format b s.stored) [
    | thrown e ↦ (thrown (library_error e), s)
    | returned stored ↦ (returned tt, record { stored = stored; history = s.history })
  ]

  module _ (pending : PendingBookmarkWrite) where
    abbrev pub mark_path : String
    mark_path = bookmark_document_path ports.documents pending.bookmark

    abbrev pub mark_request : Option RemoteDocument → PublicationBookmark → DocumentWriteRequest
    mark_request current b = record {
      path = mark_path;
      content = serialize_bookmark ports.documents b;
      expected_revision = revision_of current;
      message =
          concat (if is_some b.deleted_at then "Delete" else "Update")
            (concat " bookmark for " b.book_id);
    }

    abbrev pub acknowledge_and_end : PushResult → MarkAction PushResult
    acknowledge_and_end result =
        call (was_acknowledged pending.operation_ids) (ports.acknowledge pending.operation_ids)
        >> pure result

    -- The `try` block.
    unfoldable pub write_mark :
        ℕ → Option RemoteDocument → PublicationBookmark → MarkAction PushResult
    write_mark conflicts current b =
        call (was_written (mark_request current b)) (ports.write_remote (mark_request current b))
        >> acknowledge_and_end (record { pushed = true; conflicts = conflicts; rejected = 0 })

    -- The `catch`; `next` is what a conflict leads to.
    abbrev pub caught :
        MarkAction PushResult
        → Outcome MarkError PushResult × MarkState
        → Outcome MarkError PushResult × MarkState
    caught next (thrown conflict, s) = next s
    caught next (thrown (library_error e), s) = (thrown (library_error e), s)
    caught next (thrown (other_error text), s) = (thrown (other_error text), s)
    caught next (returned result, s) = (returned result, s)

    abbrev pub is_settled_at : Option RemoteDocument → PublicationBookmark → Bool
    is_settled_at none b = false
    is_settled_at (some document) b = document.content == serialize_bookmark ports.documents b

    unfoldable pub push_version :
        ℕ
        → MarkAction PushResult
        → Option RemoteDocument
        → PublicationBookmark
        → MarkAction PushResult
    unfolding write_mark
    push_version conflicts next current b s =
        if is_settled_at current b
        then acknowledge_and_end (record { pushed = false; conflicts = conflicts; rejected = 0 }) s
        else caught next (write_mark conflicts current b s)

    abbrev pub is_other : PublicationBookmark → Bool
    is_other remote =
        not (remote.id == pending.bookmark.id) || not (remote.book_id == pending.bookmark.book_id)

    abbrev pub rejected_result : ℕ → PushResult
    rejected_result conflicts = record {
      pushed = false;
      conflicts = conflicts;
      rejected = length pending.operation_ids;
    }

    -- `bookmark === remoteBookmark` is that the version at the destination was preferred.
    unfoldable pub push_merged :
        ℕ → MarkAction PushResult → RemoteDocument → PublicationBookmark → MarkAction PushResult
    unfolding push_version
    push_merged conflicts next document remote =
        if prefers_incoming ports.documents.marks (some remote) pending.bookmark
        then push_version conflicts next (some document) pending.bookmark
        else (save remote >> push_version conflicts next (some document) remote)

    unfoldable pub push_current :
        ℕ → MarkAction PushResult → Option RemoteDocument → MarkAction PushResult
    unfolding push_version push_merged
    push_current conflicts next none = push_version conflicts next none pending.bookmark
    push_current conflicts next (some document) =
        elim (parse_bookmark_document ports.documents document) [
          | none ↦ pure (rejected_result conflicts)
          | some remote ↦
              if is_other remote
              then pure (rejected_result conflicts)
              else push_merged conflicts next document remote
        ]

    -- `undefined` is `none`, and `null` is `some none`.
    unfoldable pub push_turn :
        ℕ → MarkAction PushResult → Option (Option RemoteDocument) → MarkAction PushResult
    unfolding push_current
    push_turn conflicts next none =
        call (was_read mark_path) (ports.read_remote mark_path) >>= push_current conflicts next
    push_turn conflicts next (some current) = push_current conflicts next current

    abbrev pub wait_after : ℕ → MarkAction Unit
    wait_after attempt s = (
      returned tt,
      record {
        stored = s.stored;
        history = waited (ports.retry_delay_ms * 2 ^ attempt) ∷ s.history;
      },
    )

    -- The loop; the first number is the retries that are left.
    unfoldable pub push_loop : ℕ → ℕ → ℕ → Option (Option RemoteDocument) → MarkAction PushResult
    unfolding push_turn
    push_loop zero attempt conflicts initial = push_turn conflicts (raise conflict) initial
    push_loop (suc left) attempt conflicts initial =
        push_turn conflicts
          (wait_after attempt >> push_loop left (suc attempt) (conflicts + 1) none) initial

    unfoldable pub push_bookmark : Option (Option RemoteDocument) → MarkAction PushResult
    unfolding push_loop
    push_bookmark initial = push_loop ports.max_conflict_retries 0 0 initial
