-- ===== src/Marks/Synchronize.antt =====
-- The passes of `BookmarkSyncService` over all bookmarks.
pub mod Writes
use omnia_reader.Prelude.{
  ℕ, ◌+◌, ◌-◌, String, Bool, true, false, Option, none, some, List, [], ◌∷◌, length, keep,
  if◌then◌else◌,
}
use omnia_reader.Prelude.JsMap.{JsMap, get, values, index}
use omnia_reader.Prelude.Json.{Json}
use omnia_reader.Prelude.Action.{Outcome, returned, thrown, pure, raise, get_state, ◌>>=◌, ◌>>◌}
use omnia_reader.AutoSync.State.{SyncWorkerResult}
use omnia_reader.Workers.Types.{SyncOperation}
use omnia_reader.Progress.Push.{RemoteDocument, PushResult}
use omnia_reader.Marks.Bookmark.{PublicationBookmark, is_publication_bookmark}
use omnia_reader.Marks.Library.{Bookmarks, get_bookmark, list_bookmarks}
use omnia_reader.Marks.Documents.{
  PendingBookmarkWrite, CoalescedBookmarks, DocumentPort, is_bookmark_entity,
  coalesce_bookmark_operations, merge_snapshot, bookmark_document_path,
}
use omnia_reader.Marks.Pull.{Pulled, pull}
use omnia_reader.Marks.Push.{
  MarkPorts, MarkState, MarkAction, MarkHistory, library_error, was_listed, was_pending, call,
  push_bookmark,
}

abbrev pub worker_result : ℕ → ℕ → ℕ → ℕ → SyncWorkerResult
worker_result pulled pushed conflicts rejected = record {
  pulled = pulled;
  pushed = pushed;
  conflicts = conflicts;
  rejected = rejected;
  unchanged = false;
  maintenance_pending = false;
}

abbrev pub add_push : SyncWorkerResult → PushResult → SyncWorkerResult
add_push total result =
    worker_result 0 (if result.pushed then total.pushed + 1 else total.pushed)
      (total.conflicts + result.conflicts) (total.rejected + result.rejected)

module _ (port : DocumentPort) where
  unfoldable pub merge_snapshots :
      List PublicationBookmark → JsMap PendingBookmarkWrite → JsMap PendingBookmarkWrite
  merge_snapshots [] documents = documents
  merge_snapshots (b ∷ bs) documents = merge_snapshots bs (merge_snapshot port b documents)

  -- The snapshots that pass the check, in a pass over all of the library
  abbrev pub checked_snapshots : List PublicationBookmark → List PublicationBookmark
  checked_snapshots = keep (λ b. is_publication_bookmark port.marks b.source)

module _ (ports : MarkPorts) where
  abbrev pub read_library : String → MarkAction (Option PublicationBookmark)
  read_library id s =
      let (found, rest) = get_bookmark ports.documents.marks ports.book_format id s.stored in
      (returned found, record { stored = rest; history = s.history })

  -- The current version of each bookmark that waits joins its write. (An entry that this adds is
  -- visited by the source's loop as well, which then finds the same version again.)
  unfoldable pub merge_current :
      List PendingBookmarkWrite
      → JsMap PendingBookmarkWrite
      → MarkAction (JsMap PendingBookmarkWrite)
  merge_current [] documents = pure documents
  merge_current (write ∷ writes) documents = read_library write.bookmark.id >>= λ current.
      merge_current writes
        (elim current [ none ↦ documents | some b ↦ merge_snapshot ports.documents b documents ])

  unfoldable pub push_writes :
      (PendingBookmarkWrite → Option (Option RemoteDocument))
      → List PendingBookmarkWrite
      → SyncWorkerResult
      → MarkAction SyncWorkerResult
  push_writes initial [] total = pure total
  push_writes initial (write ∷ writes) total =
      push_bookmark ports write (initial write) >>= λ result.
      push_writes initial writes (add_push total result)

  abbrev pub bookmark_operations : List (SyncOperation Json) → List (SyncOperation Json)
  bookmark_operations = keep (is_bookmark_entity ports.documents)

  abbrev pub refused : List (SyncOperation Json) → CoalescedBookmarks → ℕ
  refused operations c = length operations - c.accepted_operation_count

  unfoldable pub synchronize_pending : List (SyncOperation Json) → MarkAction SyncWorkerResult
  unfolding merge_current push_writes
  synchronize_pending operations =
      let mine = bookmark_operations operations in
      let c = coalesce_bookmark_operations ports.documents mine in
      merge_current (values c.documents) c.documents >>= λ documents.
      push_writes (λ write. if write.create_candidate then some none else none) (values documents)
        (worker_result 0 0 0 (refused mine c))

  unfoldable pub pull_documents : List RemoteDocument → MarkAction SyncWorkerResult
  pull_documents documents s = elim (pull ports.documents ports.book_format documents s.stored) [
    | thrown e ↦ (thrown (library_error e), s)
    | returned p ↦ (
      returned (worker_result p.pulled 0 0 p.rejected),
      record { stored = p.stored; history = s.history },
    )
  ]

  -- The writes of a pass over all of the library
  unfoldable pub all_writes : List (SyncOperation Json) → Bookmarks → JsMap PendingBookmarkWrite
  unfolding merge_snapshots
  all_writes mine stored =
      merge_snapshots ports.documents
        (checked_snapshots ports.documents
          (list_bookmarks ports.documents.marks ports.book_format stored))
        (coalesce_bookmark_operations ports.documents mine).documents

  -- What is known of the document of a write; `knownDocuments` may be left out.
  abbrev pub known_document :
      Option (JsMap RemoteDocument) → PendingBookmarkWrite → Option (Option RemoteDocument)
  known_document none write = none
  known_document (some known) write =
      some (get (bookmark_document_path ports.documents write.bookmark) known)

  unfoldable pub push : Option (JsMap RemoteDocument) → MarkAction SyncWorkerResult
  unfolding all_writes push_writes
  push known = call was_pending ports.journal_pending >>= λ pending. get_state >>= λ s.
      let mine = bookmark_operations pending in
      push_writes (known_document known) (values (all_writes mine s.stored))
        (worker_result 0 0 0 (refused mine (coalesce_bookmark_operations ports.documents mine)))

  unfoldable pub run_synchronization : MarkAction SyncWorkerResult
  unfolding pull_documents push
  run_synchronization = call was_listed ports.list_remote >>= λ documents.
      pull_documents documents >>= λ pulled.
      push (some (index (λ (d : RemoteDocument). d.path) documents)) >>= λ pushed. pure (
        worker_result pulled.pulled pushed.pushed (pulled.conflicts + pushed.conflicts)
          (pulled.rejected + pushed.rejected))
