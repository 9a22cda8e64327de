-- ===== src/Marks/Push/Safety.antt =====
-- What a push writes and acknowledges.
use omnia_reader.Prelude.{
  ℕ, zero, suc, ◌+◌, String, ◌≡◌, refl, sym, ap, ◌∙◌, true, false, Option, none, some, [], ◌∷◌,
  eq_iff, or_else, if-holds,
}
use mathlib.Core.Path.{subst}
use omnia_reader.Prelude.Action.{Outcome, returned, thrown, pure, raise, ◌>>=◌, ◌>>◌}
use omnia_reader.Progress.Push.{RemoteDocument, DocumentWriteRequest, PushResult}
use omnia_reader.Marks.Bookmark.{PublicationBookmark, MarkPort, prefers_incoming}
use omnia_reader.Marks.Bookmark.Versions.{
  NotAfter, NotAfter-refl, prefers_incoming-NotAfter, prefers_here-NotAfter,
}
use omnia_reader.Marks.Library.{Bookmarks, LibraryError, save_bookmark}
use omnia_reader.Marks.Documents.{PendingBookmarkWrite, parse_bookmark_document, serialize_bookmark}
use omnia_reader.Marks.Push.{
  MarkError, conflict, library_error, other_error, MarkEvent, was_read, was_written,
  was_acknowledged, MarkHistory, MarkPorts, MarkState, MarkAction, call, revision_of, save,
  mark_path, mark_request, acknowledge_and_end, write_mark, caught, is_settled_at, push_version,
  is_other, push_merged, push_current, push_turn, wait_after, push_loop, push_bookmark,
}

abbrev pub content_of : Option RemoteDocument → Option String
content_of none = none
content_of (some document) = some document.content

-- The document that was read last, or else the one that the push began with.
abbrev pub held : Option RemoteDocument → MarkHistory → Option RemoteDocument
held start [] = start
held start (was_read path (returned document) ∷ h) = document
held start (_ ∷ h) = held start h

-- The content that the destination has last shown, or taken.
abbrev pub settled : Option RemoteDocument → MarkHistory → Option String
settled start (was_written request (returned document) ∷ h) = some request.content
settled start h = content_of (held start h)

module _ (ports : MarkPorts) (pending : PendingBookmarkWrite) where
  abbrev pub serialized : PublicationBookmark → String
  serialized b = serialize_bookmark ports.documents b

  abbrev pub parsed : Option RemoteDocument → Option PublicationBookmark
  parsed none = none
  parsed (some document) = parse_bookmark_document ports.documents document

  -- No earlier than the version that waits, nor than that of the document.
  abbrev pub Covers : Option RemoteDocument → PublicationBookmark → Type 0
  Covers current b =
      NotAfter ports.documents.marks pending.bookmark b
      × ((r : PublicationBookmark) → parsed current ≡ some r → NotAfter ports.documents.marks r b)

  -- A write replaces only the document that was merged.
  abbrev pub Merges : Option RemoteDocument → DocumentWriteRequest → Type 0
  Merges current request =
      (b : PublicationBookmark) × (request.content ≡ serialized b)
      × (request.expected_revision ≡ revision_of current)
      × Covers current b

  -- The content is that of a version no earlier than the one that waits.
  abbrev pub IsSafeToForget : Option String → Type 0
  IsSafeToForget content =
      (b : PublicationBookmark) × (content ≡ some (serialized b))
      × NotAfter ports.documents.marks pending.bookmark b

  module _ (start : Option RemoteDocument) where
    abbrev pub IsSafe : MarkHistory → Type 0
    IsSafe [] = Unit
    IsSafe (was_written request o ∷ h) = Merges (held start h) request × IsSafe h
    IsSafe (was_acknowledged ids o ∷ h) = IsSafeToForget (settled start h) × IsSafe h
    IsSafe (_ ∷ h) = IsSafe h

    abbrev Safe : {A : Type 0} → Outcome MarkError A × MarkState → Type 0
    Safe r = IsSafe r.1.history

    -- The document is the one that a history ends with.
    abbrev At : Option RemoteDocument → MarkHistory → Type 0
    At current h = (held start h ≡ current) × (settled start h ≡ content_of current)

    -- The history after a call.
    abbrev after :
        {A : Type 0}
        → (Outcome MarkError A → MarkEvent)
        → Outcome MarkError A
        → MarkState
        → MarkState
    after event given s = record { stored = s.stored; history = event given ∷ s.history }

    -- A call, and what follows its answer.
    call-Safe :
        {A B : Type 0} (event : Outcome MarkError A → MarkEvent)
        (answer : MarkHistory → Outcome MarkError A) (f : A → MarkAction B) (s : MarkState)
        → ((e : MarkError) → IsSafe (event (thrown e) ∷ s.history))
        → ((a : A) → Safe (f a (after event (returned a) s)))
        → Safe ((call event answer >>= f) s)
    call-Safe {A} {B} event answer f s failed next = by_answer (answer s.history)
      where
        by_answer :
            (o : Outcome MarkError A)
            → let u = after event o s in
              Safe {A = B} (elim o [ returned a ↦ f a u | thrown e ↦ (thrown e, u) ])
        by_answer (returned a) = next a
        by_answer (thrown e) = failed e

    acknowledge-Safe :
        (result : PushResult) (s : MarkState)
        → IsSafeToForget (settled start s.history)
        → IsSafe s.history
        → Safe (acknowledge_and_end ports pending result s)
    acknowledge-Safe result s fits safe =
        call-Safe (was_acknowledged pending.operation_ids) (ports.acknowledge pending.operation_ids)
          (λ t. pure result) s (λ e. (fits, safe)) (λ t. (fits, safe))

    write-Safe :
        (conflicts : ℕ) (current : Option RemoteDocument) (b : PublicationBookmark) (s : MarkState)
        → held start s.history ≡ current
        → Covers current b
        → IsSafe s.history
        → Safe (write_mark ports pending conflicts current b s)
    unfolding write_mark
    write-Safe conflicts current b s at covers safe =
        let request = mark_request ports pending current b in
        let merges : Merges (held start s.history) request =
          (b, refl, ap revision_of (sym at), subst (λ x. Covers x b) (sym at) covers) in
        call-Safe (was_written request) (ports.write_remote request)
          (λ written.
            acknowledge_and_end ports pending
              (record { pushed = true; conflicts = conflicts; rejected = 0 }))
          s (λ e. (merges, safe))
          (λ written.
            acknowledge-Safe (record { pushed = true; conflicts = conflicts; rejected = 0 })
              (after (was_written request) (returned written) s) (b, refl, covers.0) (merges, safe))

    -- Saving leaves the history alone.
    save-Safe :
        {B : Type 0} (b : PublicationBookmark) (f : MarkAction B) (s : MarkState)
        → ((stored : Bookmarks) → Safe (f (record { stored = stored; history = s.history })))
        → IsSafe s.history
        → Safe ((save ports b >> f) s)
    unfolding save
    save-Safe {B} b f s next safe =
        by_end (save_bookmark ports.documents.marks ports.book_format b s.stored)
      where
        by_end :
            (o : Outcome LibraryError Bookmarks)
            → let saved : Outcome MarkError Unit × MarkState = elim o [
              | thrown e ↦ (thrown (library_error e), s)
              | returned stored ↦ (returned tt, record { stored = stored; history = s.history })
            ] in
              Safe {A = B}
                (elim saved.0 [ returned a ↦ f saved.1 | thrown e ↦ (thrown e, saved.1) ])
        by_end (returned stored) = next stored
        by_end (thrown e) = safe

    caught-Safe :
        (next : MarkAction PushResult) (r : Outcome MarkError PushResult × MarkState)
        → ((s : MarkState) → IsSafe s.history → Safe (next s))
        → Safe r
        → Safe (caught ports pending next r)
    caught-Safe next (thrown conflict, s) more safe = more s safe
    caught-Safe next (thrown (library_error e), s) more safe = safe
    caught-Safe next (thrown (other_error text), s) more safe = safe
    caught-Safe next (returned result, s) more safe = safe

    -- What the destination holds already need not be written.
    settled-content :
        (current : Option RemoteDocument) (b : PublicationBookmark)
        → is_settled_at ports pending current b ≡ true
        → content_of current ≡ some (serialized b)
    settled-content none b h = absurd (cc)
    settled-content (some document) b h = ap some ((eq_iff document.content (serialized b)).0 h)

    module _ (conflicts : ℕ) (next : MarkAction PushResult)
        (more : (s : MarkState) → IsSafe s.history → Safe (next s)) where
      version-Safe :
          (current : Option RemoteDocument) (b : PublicationBookmark) (s : MarkState)
          → At current s.history
          → Covers current b
          → IsSafe s.history
          → Safe (push_version ports pending conflicts next current b s)
      unfolding push_version
      version-Safe current b s (at, known) covers safe =
          if-holds Safe (is_settled_at ports pending current b) _ _
            (λ same.
              acknowledge-Safe (record { pushed = false; conflicts = conflicts; rejected = 0 }) s
                (b, known ∙ settled-content current b same, covers.0) safe)
            (λ new.
              caught-Safe next (write_mark ports pending conflicts current b s) more
                (write-Safe conflicts current b s at covers safe))

      merged-Safe :
          (document : RemoteDocument) (remote : PublicationBookmark) (s : MarkState)
          → parse_bookmark_document ports.documents document ≡ some remote
          → At (some document) s.history
          → IsSafe s.history
          → Safe (push_merged ports pending conflicts next document remote s)
      unfolding push_merged
      merged-Safe document remote s e at safe =
          if-holds (λ (m : MarkAction PushResult). Safe (m s))
            (prefers_incoming ports.documents.marks (some remote) pending.bookmark) _ _
            (λ newer.
              version-Safe (some document) pending.bookmark s at
                (
                  NotAfter-refl marks pending.bookmark,
                  λ r f.
                      subst (λ x. NotAfter marks x pending.bookmark) (found r f)
                        (prefers_incoming-NotAfter marks remote pending.bookmark newer),
                )
                safe)
            (λ older.
              save-Safe remote (push_version ports pending conflicts next (some document) remote) s
                (λ stored.
                  version-Safe (some document) remote
                    (record { stored = stored; history = s.history }) at
                    (
                      prefers_here-NotAfter marks remote pending.bookmark older,
                      λ r f.
                          subst (λ x. NotAfter marks x remote) (found r f)
                            (NotAfter-refl marks remote),
                    )
                    safe)
                safe)
        where
          marks : MarkPort
          marks = ports.documents.marks

          found :
              (r : PublicationBookmark)
              → parse_bookmark_document ports.documents document ≡ some r
              → remote ≡ r
          found r f = cc

      current-Safe :
          (current : Option RemoteDocument) (s : MarkState)
          → At current s.history
          → IsSafe s.history
          → Safe (push_current ports pending conflicts next current s)
      unfolding push_current
      current-Safe none s at safe =
          version-Safe none pending.bookmark s at
            (NotAfter-refl ports.documents.marks pending.bookmark, λ r f. absurd (cc)) safe
      current-Safe (some document) s at safe =
          by_parse (parse_bookmark_document ports.documents document) refl
        where
          by_parse :
              (o : Option PublicationBookmark)
              → parse_bookmark_document ports.documents document ≡ o
              → Safe (push_current ports pending conflicts next (some document) s)
          by_parse none e = rw (e, push_current) safe
          by_parse (some remote) e =
              rw (e, push_current)
                (if-holds (λ (m : MarkAction PushResult). Safe (m s))
                  (is_other ports pending remote) _ _ (λ other. safe)
                  (λ mine. merged-Safe document remote s e at safe))

      turn-Safe :
          (initial : Option (Option RemoteDocument)) (s : MarkState)
          → ((current : Option RemoteDocument) → initial ≡ some current → At current s.history)
          → IsSafe s.history
          → Safe (push_turn ports pending conflicts next initial s)
      unfolding push_turn
      turn-Safe none s at safe =
          let path = mark_path ports pending in
          call-Safe (was_read path) (ports.read_remote path)
            (push_current ports pending conflicts next) s (λ e. safe)
            (λ current.
              current-Safe current (after (was_read path) (returned current) s) (refl, refl) safe)
      turn-Safe (some current) s at safe = current-Safe current s (at current refl) safe

    loop-Safe :
        (left attempt conflicts : ℕ) (initial : Option (Option RemoteDocument)) (s : MarkState)
        → ((current : Option RemoteDocument) → initial ≡ some current → At current s.history)
        → IsSafe s.history
        → Safe (push_loop ports pending left attempt conflicts initial s)
    unfolding push_loop
    loop-Safe zero attempt conflicts initial s at safe =
        turn-Safe conflicts (raise conflict) (λ u k. k) initial s at safe
    loop-Safe (suc left) attempt conflicts initial s at safe =
        turn-Safe conflicts
          (wait_after ports pending attempt
            >> push_loop ports pending left (suc attempt) (conflicts + 1) none)
          (λ u k. loop-Safe left (suc attempt) (conflicts + 1) none _ (λ current e. absurd (cc)) k)
          initial s at safe

-- However a push ends, whatever the destination and the journal answer and others write meanwhile:
-- each write was conditional on the revision of the document that was read last, and its content a
-- version no earlier than the one that waits and than the one in that document; and operations were
-- acknowledged only when what the destination had shown or taken last was a version no earlier than
-- the one that waits.
pub push_bookmark-IsSafe :
    (ports : MarkPorts) (pending : PendingBookmarkWrite) (initial : Option (Option RemoteDocument))
    (stored : Bookmarks)
    → let begun : MarkState = record { stored = stored; history = [] } in
      IsSafe ports pending
        (or_else initial none)
        (push_bookmark ports pending initial begun).1.history
unfolding push_bookmark
push_bookmark-IsSafe ports pending initial stored =
    loop-Safe ports pending (or_else initial none) ports.max_conflict_retries 0 0 initial _
      (λ current e. by_initial initial current e) tt
  where
    by_initial :
        (initial : Option (Option RemoteDocument)) (current : Option RemoteDocument)
        → initial ≡ some current
        → (or_else initial none ≡ current)
          × (content_of (or_else initial none) ≡ content_of current)
    by_initial none current e = absurd (cc)
    by_initial (some other) current e =
        let same : other ≡ current = cc in (same, ap content_of same)
