-- ===== src/Marks/Documents/Coalesce.antt =====
-- What the writes that wait hold of the operations that they were made of.
use omnia_reader.Prelude.{
  ℕ, ◌+◌, String, ◌≡◌, refl, ap, ◌∙◌, true, ◌==◌, Option, none, some, List, [], ◌∷◌, ◌++◌, length,
  All, includes, arith, eq_iff, eq_refl, Bool-cases, inl, inr, Option-cases,
}
use omnia_reader.Prelude.JsMap.{JsMap, get, put, get-put}
use omnia_reader.Prelude.Text.Laws.{length-append}
use omnia_reader.Prelude.Json.{Json}
use omnia_reader.Workers.Types.{SyncOperation}
use omnia_reader.Marks.Bookmark.{PublicationBookmark, prefers_incoming, preferred_bookmark}
use omnia_reader.Marks.Bookmark.Versions.{
  NotAfter, NotAfter-refl, NotAfter-trans, preferred_bookmark-NotAfter,
}
use omnia_reader.Marks.Documents.{
  DocumentPort, PendingBookmarkWrite, CoalescedBookmarks, bookmark_document_path, accepted_bookmark,
  newer_of, join_operation, coalesce_operation, coalesce_onto, coalesce_bookmark_operations,
}

-- The number of operations in all the writes.
abbrev pub total_ids : JsMap PendingBookmarkWrite → ℕ
total_ids [] = 0
total_ids ((k, w) ∷ m) = length w.operation_ids + total_ids m

abbrev ids_in : Option PendingBookmarkWrite → ℕ
ids_in none = 0
ids_in (some w) = length w.operation_ids

total_ids-put :
    (k : String) (w : PendingBookmarkWrite) (m : JsMap PendingBookmarkWrite)
    → total_ids (put k w m) + ids_in (get k m) ≡ total_ids m + length w.operation_ids
unfolding get put
total_ids-put k w [] = omega arith
total_ids-put k w ((j, v) ∷ m) = ground (arith, total_ids-put k w m)

includes-append :
    (s : String) (xs ys : List String) → includes s xs ≡ true → includes s (xs ++ ys) ≡ true
includes-append s [] ys h = absurd (cc)
includes-append s (x ∷ xs) ys h = ground (arith, includes-append s xs ys)

includes-last : (s : String) (xs : List String) → includes s (xs ++ s ∷ []) ≡ true
includes-last s [] = ground (arith, eq_refl s)
includes-last s (x ∷ xs) = ground (arith, includes-last s xs)

module _ (port : DocumentPort) where
  pub newer_of-NotAfter :
      (a b : PublicationBookmark)
      → NotAfter port.marks a (newer_of port a b) × NotAfter port.marks b (newer_of port a b)
  unfolding prefers_incoming
  newer_of-NotAfter a b =
      let h = preferred_bookmark-NotAfter port.marks a b in unfold preferred_bookmark in h

  -- The write has the operation, and its version is no earlier than the operation's.
  abbrev pub Holds : String → PublicationBookmark → PendingBookmarkWrite → Type 0
  Holds id b w = (includes id w.operation_ids ≡ true) × NotAfter port.marks b w.bookmark

  abbrev Found : String → PublicationBookmark → JsMap PendingBookmarkWrite → Type 0
  Found id b m =
      (w : PendingBookmarkWrite) × (get (bookmark_document_path port b) m ≡ some w) × Holds id b w

  join-Holds :
      (operation : SyncOperation Json) (b : PublicationBookmark) (o : Option PendingBookmarkWrite)
      → Holds operation.id b (join_operation port operation b o)
  unfolding join_operation
  join-Holds operation b none = (ground (arith, eq_refl operation.id), NotAfter-refl port.marks b)
  join-Holds operation b (some w) =
      (includes-last operation.id w.operation_ids, (newer_of-NotAfter w.bookmark b).1)

  join_more-Holds :
      (operation : SyncOperation Json) (b : PublicationBookmark) (w : PendingBookmarkWrite)
      (id : String) (a : PublicationBookmark)
      → Holds id a w
      → Holds id a (join_operation port operation b (some w))
  unfolding join_operation
  join_more-Holds operation b w id a (has, late) = (
    includes-append id w.operation_ids (operation.id ∷ []) has,
    NotAfter-trans port.marks a w.bookmark (newer_of port w.bookmark b) late
        (newer_of-NotAfter w.bookmark b).0,
  )

  length-join :
      (operation : SyncOperation Json) (b : PublicationBookmark) (o : Option PendingBookmarkWrite)
      → length (join_operation port operation b o).operation_ids ≡ ids_in o + 1
  unfolding join_operation
  length-join operation b none = omega arith
  length-join operation b (some w) = length-append w.operation_ids (operation.id ∷ [])

  joined :
      SyncOperation Json
      → PublicationBookmark
      → JsMap PendingBookmarkWrite
      → JsMap PendingBookmarkWrite
  joined operation b m =
      let path = bookmark_document_path port b in
      put path (join_operation port operation b (get path m)) m

  joined-count :
      (operation : SyncOperation Json) (b : PublicationBookmark) (m : JsMap PendingBookmarkWrite)
      → total_ids (joined operation b m) ≡ total_ids m + 1
  unfolding joined
  joined-count operation b m =
      let path = bookmark_document_path port b in
      omega (
        arith,
        total_ids-put path (join_operation port operation b (get path m)) m,
        length-join operation b (get path m),
      )

  joined-Found :
      (operation : SyncOperation Json) (b : PublicationBookmark) (m : JsMap PendingBookmarkWrite)
      → Found operation.id b (joined operation b m)
  unfolding joined
  joined-Found operation b m =
      let path = bookmark_document_path port b in
      let w = join_operation port operation b (get path m) in
      (w, get-put path path w m ∙ rw (eq_refl path) refl, join-Holds operation b (get path m))

  joined_more-Found :
      (operation : SyncOperation Json) (b : PublicationBookmark) (m : JsMap PendingBookmarkWrite)
      (id : String) (a : PublicationBookmark)
      → Found id a m
      → Found id a (joined operation b m)
  unfolding joined
  joined_more-Found operation b m id a (w, e, holds) =
      let path = bookmark_document_path port b in
      let mine = bookmark_document_path port a in
      let next = join_operation port operation b (get path m) in
      elim (Bool-cases (path == mine)) [
        | inl same ↦
            let there : get path m ≡ some w = ap (λ k. get k m) ((eq_iff path mine).0 same) ∙ e in
            (
              join_operation port operation b (some w),
              get-put path mine next m ∙ rw (same, there) refl,
              join_more-Holds operation b w id a holds,
            )
        | inr other ↦ (w, get-put path mine next m ∙ rw other e, holds)
      ]

  abbrev pub IsHeld : JsMap PendingBookmarkWrite → SyncOperation Json → Type 0
  IsHeld m operation =
      (b : PublicationBookmark) → accepted_bookmark port operation ≡ some b → Found operation.id b m

  abbrev Counted : CoalescedBookmarks → Type 0
  Counted c = total_ids c.documents ≡ c.accepted_operation_count

  operation-keeps :
      (operation : SyncOperation Json) (c : CoalescedBookmarks) (id : String)
      (a : PublicationBookmark)
      → Found id a c.documents
      → Found id a (coalesce_operation port operation c).documents
  unfolding coalesce_operation joined
  operation-keeps operation c id a found = elim (Option-cases (accepted_bookmark port operation)) [
    | inl e ↦ rw (e, coalesce_operation) found
    | inr (b, e) ↦ rw (e, coalesce_operation) (joined_more-Found operation b c.documents id a found)
  ]

  operation-Counted :
      (operation : SyncOperation Json) (c : CoalescedBookmarks)
      → Counted c
      → Counted (coalesce_operation port operation c)
  unfolding coalesce_operation joined
  operation-Counted operation c h = elim (Option-cases (accepted_bookmark port operation)) [
    | inl e ↦ rw (e, coalesce_operation) h
    | inr (b, e) ↦
        let count = joined-count operation b c.documents in
        rw (e, coalesce_operation) (omega (arith, count))
  ]

  operation-IsHeld :
      (operation : SyncOperation Json) (c : CoalescedBookmarks)
      → IsHeld (coalesce_operation port operation c).documents operation
  unfolding coalesce_operation joined
  operation-IsHeld operation c b e =
      rw (e, coalesce_operation) (joined-Found operation b c.documents)

  onto-keeps :
      (operations : List (SyncOperation Json)) (c : CoalescedBookmarks) (id : String)
      (a : PublicationBookmark)
      → Found id a c.documents
      → Found id a (coalesce_onto port c operations).documents
  unfolding coalesce_onto
  onto-keeps [] c id a found = found
  onto-keeps (operation ∷ operations) c id a found =
      onto-keeps operations (coalesce_operation port operation c) id a
        (operation-keeps operation c id a found)

  onto-IsHeld :
      (operations : List (SyncOperation Json)) (c : CoalescedBookmarks)
      → Counted c
      → Counted (coalesce_onto port c operations)
        × All (IsHeld (coalesce_onto port c operations).documents) operations
  unfolding coalesce_onto
  onto-IsHeld [] c h = (h, tt)
  onto-IsHeld (operation ∷ operations) c h =
      let next = coalesce_operation port operation c in
      let (counted, held) = onto-IsHeld operations next (operation-Counted operation c h) in
      (
        counted,
        (λ b e. onto-keeps operations next operation.id b (operation-IsHeld operation c b e), held),
      )

-- Coalescing loses no operation: the writes that wait have as many operation ids together as
-- operations were accepted, and the write at the path of an accepted operation's bookmark has its id
-- and a version that is no earlier than the operation's.
pub coalesce_bookmark_operations-IsHeld :
    (port : DocumentPort) (operations : List (SyncOperation Json))
    → let c = coalesce_bookmark_operations port operations in
      (total_ids c.documents ≡ c.accepted_operation_count)
      × All (IsHeld port c.documents) operations
unfolding coalesce_bookmark_operations
coalesce_bookmark_operations-IsHeld port operations = onto-IsHeld port operations _ refl
