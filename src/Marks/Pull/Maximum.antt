-- ===== src/Marks/Pull/Maximum.antt =====
-- What a pull leaves in the library.
use omnia_reader.Prelude.{
  ℕ, ◌+◌, String, ◌≡◌, refl, ap, ◌∙◌, true, false, ◌==◌, Option, none, some, List, [], ◌∷◌, length,
  All, arith, eq_iff, eq_refl, if◌then◌else◌, Bool-cases, inl, inr, Option-cases, or_else, sym,
}
use mathlib.Core.Path.{fun_ext, subst}
use omnia_reader.Prelude.JsMap.{get, put, remove, get-put, get-remove}
use omnia_reader.Prelude.Action.{returned}
use omnia_reader.LogicalBook.Types.{PublicationFormat}
use omnia_reader.Progress.Push.{RemoteDocument}
use omnia_reader.Marks.Bookmark.{
  PublicationBookmark, guarded_bookmark, is_publication_bookmark, prefers_incoming,
  preferred_bookmark,
}
use omnia_reader.Marks.Bookmark.Guard.{guarded_bookmark-source}
use omnia_reader.Marks.Bookmark.Versions.{
  NotAfter, NotAfter-refl, NotAfter-trans, preferred_bookmark-NotAfter,
}
use omnia_reader.Marks.Library.{Bookmarks, has_book, get_bookmark, save_bookmark, is_readable}
use omnia_reader.Marks.Documents.{DocumentPort, parse_bookmark_document}
use omnia_reader.Marks.Pull.{Pulled, incoming_bookmark, take_in, pull_document, pull_onto, pull}

module _ (port : DocumentPort) (book_format : String → Option PublicationFormat) where
  -- The version of a bookmark that the library gives.
  abbrev pub visible : String → Bookmarks → Option PublicationBookmark
  visible id stored = (get_bookmark port.marks book_format id stored).0

  -- What one document makes of the version of a bookmark.
  abbrev pub step :
      String → Option PublicationBookmark → Option PublicationBookmark → Option PublicationBookmark
  step id here none = here
  step id here (some b) = if b.id == id then some (preferred_bookmark port.marks here b) else here

  -- The version that comes of one and of the documents that follow.
  abbrev pub newest :
      String → Option PublicationBookmark → List RemoteDocument → Option PublicationBookmark
  newest id here [] = here
  newest id here (document ∷ documents) =
      newest id (step id here (incoming_bookmark port book_format document)) documents

  incoming-valid :
      (document : RemoteDocument) (b : PublicationBookmark)
      → incoming_bookmark port book_format document ≡ some b
      → (is_publication_bookmark port.marks b.source ≡ true)
        × (has_book port.marks book_format b ≡ true)
  unfolding incoming_bookmark parse_bookmark_document
  incoming-valid document b h = elim (Option-cases (port.parse_json document.content)) [
    | inl e ↦ absurd (ground arith)
    | inr (v, e) ↦ elim (Option-cases (guarded_bookmark port.marks v)) [
      | inl f ↦ absurd (ground arith)
      | inr (c, f) ↦
          let same : c ≡ b = ground arith in
          (guarded_bookmark-source port.marks v b (f ∙ ap some same), ground arith)
    ]
  ]

  -- What the library gives of the record that stands at an id.
  abbrev seen : String → Option PublicationBookmark → Option PublicationBookmark
  seen id none = none
  seen id (some b) = if is_readable port.marks book_format id b then some b else none

  visible-eq-seen : (id : String) (stored : Bookmarks) → visible id stored ≡ seen id (get id stored)
  unfolding get_bookmark
  visible-eq-seen id stored = by_record (get id stored) refl
    where
      by_record :
          (o : Option PublicationBookmark)
          → get id stored ≡ o
          → visible id stored ≡ seen id (get id stored)
      by_record none e = ground arith
      by_record (some b) e = ground arith

  visible-put :
      (b : PublicationBookmark) (id : String) (stored : Bookmarks)
      → is_publication_bookmark port.marks b.source ≡ true
      → has_book port.marks book_format b ≡ true
      → visible id (put b.id b stored) ≡ (if b.id == id then some b else visible id stored)
  visible-put b id stored valid owned =
      visible-eq-seen id (put b.id b stored)
      ∙ ap (seen id) (get-put b.id id b stored)
      ∙ ground (arith, eq_iff b.id id, eq_refl b.id, visible-eq-seen id stored)

  -- Reading a bookmark changes none that can be read.
  visible-rest :
      (read id : String) (stored : Bookmarks)
      → visible id (get_bookmark port.marks book_format read stored).1 ≡ visible id stored
  unfolding get_bookmark
  visible-rest read id stored = by_record (get read stored) refl
    where
      by_record :
          (o : Option PublicationBookmark)
          → get read stored ≡ o
          → visible id (get_bookmark port.marks book_format read stored).1 ≡ visible id stored
      by_record none e = ground arith
      by_record (some b) e = ground (
        arith,
        visible-eq-seen id (remove read stored),
        visible-eq-seen id stored,
        get-remove read id stored,
        eq_iff read id,
      )

  abbrev Choice : PublicationBookmark → Bookmarks → Bookmarks → Type 0
  Choice b stored t =
      (id : String)
      → visible id t ≡ (
          if b.id == id
          then some (preferred_bookmark port.marks (visible id stored) b)
          else visible id stored)

  preferred_chosen :
      (here : Option PublicationBookmark) (b : PublicationBookmark)
      → preferred_bookmark port.marks here b
        ≡ (if prefers_incoming port.marks here b then b else or_else here b)
  unfolding preferred_bookmark prefers_incoming
  preferred_chosen none b = refl
  preferred_chosen (some here) b = refl

  prefers_absent : (b : PublicationBookmark) → prefers_incoming port.marks none b ≡ true
  unfolding prefers_incoming
  prefers_absent b = refl

  chosen :
      (b : PublicationBookmark) (stored : Bookmarks) (id : String)
      → prefers_incoming port.marks (visible b.id stored) b ≡ true
      → (if b.id == id then some b else visible id stored) ≡ (
          if b.id == id
          then some (preferred_bookmark port.marks (visible id stored) b)
          else visible id stored)
  chosen b stored id newer = elim (Bool-cases (b.id == id)) [
    | inl same ↦ rw same (
        ap some (
          sym (
            preferred_chosen (visible id stored) b
            ∙ rw (sym (ap (λ i. visible i stored) ((eq_iff b.id id).0 same)), newer) refl)))
    | inr other ↦ rw other refl
  ]

  kept :
      (b : PublicationBookmark) (stored : Bookmarks) (id : String)
      → prefers_incoming port.marks (visible b.id stored) b ≡ false
      → visible id stored ≡ (
          if b.id == id
          then some (preferred_bookmark port.marks (visible id stored) b)
          else visible id stored)
  kept b stored id older = elim (Bool-cases (b.id == id)) [
    | inl same ↦
        ground (arith, eq_iff b.id id, preferred_chosen (visible id stored) b, prefers_absent b)
    | inr other ↦ rw other refl
  ]

  take_in-returns :
      (b : PublicationBookmark) (stored : Bookmarks)
      → is_publication_bookmark port.marks b.source ≡ true
      → has_book port.marks book_format b ≡ true
      → (t : Bookmarks) × (take_in port book_format b stored ≡ returned t) × Choice b stored t
  unfolding take_in save_bookmark
  take_in-returns b stored valid owned =
      let rest = (get_bookmark port.marks book_format b.id stored).1 in
      elim (Bool-cases (prefers_incoming port.marks (visible b.id stored) b)) [
        | inl newer ↦ (
          put b.id b rest,
          ground arith,
          λ id.
              visible-put b id rest valid owned
              ∙ ap (λ v. if b.id == id then some b else v) (visible-rest b.id id stored)
              ∙ chosen b stored id newer,
        )
        | inr older ↦
            (rest, ground arith, λ id. visible-rest b.id id stored ∙ kept b stored id older)
      ]

  abbrev pub Later : Option PublicationBookmark → PublicationBookmark → Type 0
  Later found b = (c : PublicationBookmark) × (found ≡ some c) × NotAfter port.marks b c

  step-Later :
      (id : String) (b : PublicationBookmark) (o : Option PublicationBookmark)
      → Later (step id (some b) o) b
  step-Later id b none = (b, refl, NotAfter-refl port.marks b)
  step-Later id b (some d) = elim (Bool-cases (d.id == id)) [
    | inl mine ↦ (
      preferred_bookmark port.marks (some b) d,
      rw mine refl,
      (preferred_bookmark-NotAfter port.marks b d).0,
    )
    | inr other ↦ (b, rw other refl, NotAfter-refl port.marks b)
  ]

  -- A document with the id is no later than what it makes.
  step_self-Later :
      (here : Option PublicationBookmark) (b : PublicationBookmark)
      → Later (step b.id here (some b)) b
  unfolding preferred_bookmark
  step_self-Later none b = (b, rw (eq_refl b.id) refl, NotAfter-refl port.marks b)
  step_self-Later (some h) b = (
    preferred_bookmark port.marks (some h) b,
    rw (eq_refl b.id) refl,
    (preferred_bookmark-NotAfter port.marks h b).1,
  )

  newest-Later :
      (id : String) (found : Option PublicationBookmark) (b : PublicationBookmark)
      (documents : List RemoteDocument)
      → Later found b
      → Later (newest id found documents) b
  newest-Later id found b [] later = later
  newest-Later id found b (document ∷ documents) (c, e, k) =
      let (d, f, l) = step-Later id c (incoming_bookmark port book_format document) in
      newest-Later id (step id found (incoming_bookmark port book_format document)) b documents
        (d, rw e f, NotAfter-trans port.marks b c d k l)

  abbrev pub IsCovered : (String → Option PublicationBookmark) → RemoteDocument → Type 0
  IsCovered found document =
      (b : PublicationBookmark)
      → incoming_bookmark port book_format document ≡ some b
      → Later (found b.id) b

  newest-All :
      (here : String → Option PublicationBookmark) (documents : List RemoteDocument)
      → All (IsCovered (λ id. newest id (here id) documents)) documents
  newest-All here [] = tt
  newest-All here (document ∷ documents) = (
    λ b e.
        newest-Later b.id (step b.id (here b.id) (incoming_bookmark port book_format document)) b
          documents (rw e (step_self-Later (here b.id) b)),
    newest-All (λ id. step id (here id) (incoming_bookmark port book_format document)) documents,
  )

  abbrev pub count_of : Pulled → ℕ
  count_of p = p.pulled + p.rejected

  abbrev Steps : Pulled → RemoteDocument → Pulled → Type 0
  Steps p document q =
      ((id : String)
        → visible id q.stored
          ≡ step id (visible id p.stored) (incoming_bookmark port book_format document))
      × (count_of q ≡ count_of p + 1)

  pull_document-returns :
      (document : RemoteDocument) (p : Pulled)
      → (q : Pulled) × (pull_document port book_format document p ≡ returned q) × Steps p document q
  unfolding pull_document
  pull_document-returns document p =
      elim (Option-cases (incoming_bookmark port book_format document)) [
        | inl e ↦
            (record p { rejected = p.rejected + 1 }, ground arith, (λ id. rw e refl, omega arith))
        | inr (b, e) ↦
            let (valid, owned) = incoming-valid document b e in
            let (t, f, choice) = take_in-returns b p.stored valid owned in
            (
              record p { stored = t; pulled = p.pulled + 1 },
              ground arith,
              (λ id. rw e (choice id), omega arith),
            )
      ]

  pull_onto-returns :
      (p : Pulled) (documents : List RemoteDocument)
      → (q : Pulled) × (pull_onto port book_format p documents ≡ returned q)
        × ((id : String) → visible id q.stored ≡ newest id (visible id p.stored) documents)
        × (count_of q ≡ count_of p + length documents)
  unfolding pull_onto
  pull_onto-returns p [] = (p, refl, λ id. refl, omega arith)
  pull_onto-returns p (document ∷ documents) =
      let (q, e, (seen_q, counts_q)) = pull_document-returns document p in
      let (r, f, seen_r, counts_r) = pull_onto-returns q documents in
      (
        r,
        ground arith,
        λ id. seen_r id ∙ ap (λ here. newest id here documents) (seen_q id),
        omega arith,
      )

-- A pull throws nothing of its own. It counts every document as pulled or rejected; the version of
-- each bookmark that can be read is afterwards what `preferredBookmark` makes of the earlier one and
-- of the documents that were not rejected, in their order; and that is no earlier than any of these.
pub pull-newest :
    (port : DocumentPort) (book_format : String → Option PublicationFormat)
    (documents : List RemoteDocument) (stored : Bookmarks)
    → (p : Pulled) × (pull port book_format documents stored ≡ returned p)
      × (p.pulled + p.rejected ≡ length documents)
      × ((id : String)
          → visible port book_format id p.stored
            ≡ newest port book_format id (visible port book_format id stored) documents)
      × All (IsCovered port book_format (λ id. visible port book_format id p.stored)) documents
unfolding pull
pull-newest port book_format documents stored =
    let start : Pulled = record { stored = stored; pulled = 0; rejected = 0 } in
    let (p, e, same, counts) = pull_onto-returns port book_format start documents in
    (
      p,
      e,
      omega (arith, counts),
      same,
      subst (λ found. All (IsCovered port book_format found) documents)
          (fun_ext (λ (id : String). sym (same id)))
          (newest-All port book_format (λ id. visible port book_format id stored) documents),
    )
