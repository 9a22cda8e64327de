-- ===== src/Marks/Synchronize/Writes.antt =====
-- The writes that wait stand at the paths of their documents.
use omnia_reader.Prelude.{
  String, ◌≡◌, refl, ap, ◌∙◌, Option, none, some, List, [], ◌∷◌, if-holds, Option-cases, Bool-cases,
  inl, inr, All, ◌==◌, eq_iff, eq_refl,
}
use mathlib.Core.Path.{subst}
use omnia_reader.Prelude.JsMap.{
  JsMap, get, put, UniqueKeys, Keyed, put-UniqueKeys, put-Keyed, get-Keyed, get-put,
}
use omnia_reader.Prelude.Json.{Json}
use omnia_reader.Workers.Types.{SyncOperation}
use omnia_reader.Marks.Bookmark.{PublicationBookmark, prefers_incoming}
use omnia_reader.Marks.Library.{Bookmarks, list_bookmarks}
use omnia_reader.Marks.Documents.{
  DocumentPort, PendingBookmarkWrite, CoalescedBookmarks, bookmark_document_path, accepted_bookmark,
  newer_of, join_operation, coalesce_operation, coalesce_onto, coalesce_bookmark_operations,
  join_snapshot, merge_snapshot,
}
use omnia_reader.Marks.Bookmark.Versions.{NotAfter, NotAfter-refl, NotAfter-trans}
use omnia_reader.Marks.Documents.Coalesce.{newer_of-NotAfter}
use omnia_reader.Marks.Push.{MarkPorts}
use omnia_reader.Marks.Synchronize.{merge_snapshots, checked_snapshots, all_writes}

module _ (port : DocumentPort) where
  abbrev pub path_of : PendingBookmarkWrite → String
  path_of w = bookmark_document_path port w.bookmark

  -- One write to a path, and each at the path of its own bookmark.
  abbrev pub IsByPath : JsMap PendingBookmarkWrite → Type 0
  IsByPath m = UniqueKeys m × Keyed path_of m

  newer-path :
      (here b : PublicationBookmark)
      → bookmark_document_path port here ≡ bookmark_document_path port b
      → bookmark_document_path port (newer_of port here b) ≡ bookmark_document_path port b
  newer-path here b e =
      if-holds (λ x. bookmark_document_path port x ≡ bookmark_document_path port b)
        (prefers_incoming port.marks (some here) b) b here (λ t. refl) (λ f. e)

  put-IsByPath :
      (w : PendingBookmarkWrite) (path : String) (m : JsMap PendingBookmarkWrite)
      → path_of w ≡ path
      → IsByPath m
      → IsByPath (put path w m)
  put-IsByPath w path m e (unique, keyed) = (
    put-UniqueKeys path w m unique,
    subst (λ p. Keyed path_of (put p w m)) e (put-Keyed path_of w m keyed),
  )

  merge_snapshot-IsByPath :
      (b : PublicationBookmark) (m : JsMap PendingBookmarkWrite)
      → IsByPath m
      → IsByPath (merge_snapshot port b m)
  unfolding merge_snapshot join_snapshot
  merge_snapshot-IsByPath b m h =
      let path = bookmark_document_path port b in
      put-IsByPath (join_snapshot port b (get path m)) path m (at_path (get path m) refl) h
    where
      at_path :
          (o : Option PendingBookmarkWrite)
          → get (bookmark_document_path port b) m ≡ o
          → path_of (join_snapshot port b o) ≡ bookmark_document_path port b
      at_path none e = refl
      at_path (some w) e =
          newer-path w.bookmark b (get-Keyed path_of (bookmark_document_path port b) w m h.1 e)

  operation-IsByPath :
      (operation : SyncOperation Json) (c : CoalescedBookmarks)
      → IsByPath c.documents
      → IsByPath (coalesce_operation port operation c).documents
  unfolding coalesce_operation join_operation
  operation-IsByPath operation c h = elim (Option-cases (accepted_bookmark port operation)) [
    | inl e ↦ rw (e, coalesce_operation) h
    | inr (b, e) ↦
        let path = bookmark_document_path port b in
        rw (e, coalesce_operation)
          (put-IsByPath (join_operation port operation b (get path c.documents)) path c.documents
            (at_path b (get path c.documents) refl) h)
  ]
    where
      at_path :
          (b : PublicationBookmark) (o : Option PendingBookmarkWrite)
          → get (bookmark_document_path port b) c.documents ≡ o
          → path_of (join_operation port operation b o) ≡ bookmark_document_path port b
      at_path b none e = refl
      at_path b (some w) e =
          newer-path w.bookmark b
            (get-Keyed path_of (bookmark_document_path port b) w c.documents h.1 e)

  onto-IsByPath :
      (operations : List (SyncOperation Json)) (c : CoalescedBookmarks)
      → IsByPath c.documents
      → IsByPath (coalesce_onto port c operations).documents
  unfolding coalesce_onto
  onto-IsByPath [] c h = h
  onto-IsByPath (operation ∷ operations) c h =
      onto-IsByPath operations (coalesce_operation port operation c)
        (operation-IsByPath operation c h)

  snapshots-IsByPath :
      (bookmarks : List PublicationBookmark) (m : JsMap PendingBookmarkWrite)
      → IsByPath m
      → IsByPath (merge_snapshots port bookmarks m)
  unfolding merge_snapshots
  snapshots-IsByPath [] m h = h
  snapshots-IsByPath (b ∷ bs) m h =
      snapshots-IsByPath bs (merge_snapshot port b m) (merge_snapshot-IsByPath b m h)

  -- A write has a version that is no earlier.
  abbrev pub IsLate : JsMap PendingBookmarkWrite → PublicationBookmark → Type 0
  IsLate m b =
      (w : PendingBookmarkWrite) × (get (bookmark_document_path port b) m ≡ some w)
      × NotAfter port.marks b w.bookmark

  join_snapshot-NotAfter :
      (b : PublicationBookmark) (o : Option PendingBookmarkWrite)
      → NotAfter port.marks b (join_snapshot port b o).bookmark
  unfolding join_snapshot
  join_snapshot-NotAfter b none = NotAfter-refl port.marks b
  join_snapshot-NotAfter b (some w) = (newer_of-NotAfter port w.bookmark b).1

  merge_snapshot-IsLate :
      (b : PublicationBookmark) (m : JsMap PendingBookmarkWrite)
      → IsLate (merge_snapshot port b m) b
  unfolding merge_snapshot
  merge_snapshot-IsLate b m =
      let path = bookmark_document_path port b in
      let w = join_snapshot port b (get path m) in
      (w, get-put path path w m ∙ rw (eq_refl path) refl, join_snapshot-NotAfter b (get path m))

  merge_snapshot_more-IsLate :
      (b : PublicationBookmark) (m : JsMap PendingBookmarkWrite) (a : PublicationBookmark)
      → IsLate m a
      → IsLate (merge_snapshot port b m) a
  unfolding merge_snapshot join_snapshot
  merge_snapshot_more-IsLate b m a (w, e, late) =
      let path = bookmark_document_path port b in
      let mine = bookmark_document_path port a in
      let next = join_snapshot port b (get path m) in
      elim (Bool-cases (path == mine)) [
        | inl same ↦
            let there : get path m ≡ some w = ap (λ k. get k m) ((eq_iff path mine).0 same) ∙ e in
            (
              join_snapshot port b (some w),
              get-put path mine next m ∙ rw (same, there) refl,
              NotAfter-trans port.marks a w.bookmark (newer_of port w.bookmark b) late
                  (newer_of-NotAfter port w.bookmark b).0,
            )
        | inr other ↦ (w, get-put path mine next m ∙ rw other e, late)
      ]

  snapshots_more-IsLate :
      (bookmarks : List PublicationBookmark) (m : JsMap PendingBookmarkWrite)
      (a : PublicationBookmark)
      → IsLate m a
      → IsLate (merge_snapshots port bookmarks m) a
  unfolding merge_snapshots
  snapshots_more-IsLate [] m a late = late
  snapshots_more-IsLate (b ∷ bs) m a late =
      snapshots_more-IsLate bs (merge_snapshot port b m) a (merge_snapshot_more-IsLate b m a late)

  snapshots-IsLate :
      (bookmarks : List PublicationBookmark) (m : JsMap PendingBookmarkWrite)
      → All (IsLate (merge_snapshots port bookmarks m)) bookmarks
  unfolding merge_snapshots
  snapshots-IsLate [] m = tt
  snapshots-IsLate (b ∷ bs) m = (
    snapshots_more-IsLate bs (merge_snapshot port b m) b (merge_snapshot-IsLate b m),
    snapshots-IsLate bs (merge_snapshot port b m),
  )

-- A pass over all of the library has one write to a document at most, which is found at the path that
-- it is pushed to; and each bookmark that the library lists has a write whose version is no earlier.
pub all_writes-IsByPath :
    (ports : MarkPorts) (operations : List (SyncOperation Json)) (stored : Bookmarks)
    → let writes = all_writes ports operations stored in
      IsByPath ports.documents writes
      × All (IsLate ports.documents writes) (
          checked_snapshots ports.documents
            (list_bookmarks ports.documents.marks ports.book_format stored))
unfolding all_writes coalesce_bookmark_operations
all_writes-IsByPath ports operations stored =
    let port = ports.documents in
    let snapshots = checked_snapshots port (list_bookmarks port.marks ports.book_format stored) in
    let start : CoalescedBookmarks = record { documents = []; accepted_operation_count = 0 } in
    (
      snapshots-IsByPath port snapshots _ (onto-IsByPath port operations start (tt, tt)),
      snapshots-IsLate port snapshots _,
    )
