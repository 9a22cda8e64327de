-- ===== src/Marks/Tests.antt =====
-- A bookmark that a tablet has set, as a value, as a document and as an operation.
use omnia_reader.Prelude.{
  ℕ, ◌+◌, String, ◌≡◌, refl, true, false, Option, none, some, List, [], ◌∷◌, All, length, ltb, ◌==◌,
  if◌then◌else◌,
}
use omnia_reader.Prelude.Action.{Outcome, returned, thrown}
use omnia_reader.Prelude.CodeUnits.Laws.{code_unit_collation}
use omnia_reader.Prelude.Json.{
  Json, number, str, object, end, field, finite, one, is_bounded_string, is_bounded_text,
}
use omnia_reader.AutoSync.State.{bookmark}
use omnia_reader.LogicalBook.Types.{PublicationFormat, epub}
use omnia_reader.Workers.Types.{SyncOperation}
use omnia_reader.Progress.Push.{RemoteDocument}
use omnia_reader.Marks.Locator.{is_publication_locator, locator_of}
use omnia_reader.Marks.Bookmark.{
  PublicationBookmark, MarkPort, is_publication_bookmark, bookmark_of, guarded_bookmark,
  prefers_incoming,
}
use omnia_reader.Marks.Bookmark.Guard.{IsBookmark, is_publication_bookmark-typed}
use omnia_reader.Marks.Library.{LibraryError, list_bookmarks, get_bookmark, save_bookmark}
use omnia_reader.Prelude.JsMap.{get, put}
use omnia_reader.Marks.Documents.{
  DocumentPort, PendingBookmarkWrite, coalesce_bookmark_operations, bookmark_document_path,
  parse_bookmark_document, accepted_bookmark, coalesce_operation,
}
use omnia_reader.Marks.Documents.Coalesce.{total_ids, IsHeld, coalesce_bookmark_operations-IsHeld}
use omnia_reader.Marks.Pull.{Pulled, pull_document, pull}
use omnia_reader.Marks.Pull.Maximum.{visible, newest, IsCovered, pull-newest}
use omnia_reader.Marks.Push.{MarkPorts, MarkState, conflict, push_bookmark}
use omnia_reader.Marks.Push.Safety.{IsSafe, push_bookmark-IsSafe}
use omnia_reader.Marks.Synchronize.{all_writes, checked_snapshots}
use omnia_reader.Marks.Synchronize.Writes.{IsByPath, IsLate, all_writes-IsByPath}

abbrev marks : MarkPort
marks = record { coll = code_unit_collation; iso_of = λ s. some s }

abbrev book_id : String
book_id = "sha256:00000000000000000000000000000000000000000000000000000000000000aa"

abbrev locator_value : Json
locator_value =
    object (field "href" (str "chapter-1.xhtml") (field "type" (str "application/xhtml+xml") end))

abbrev at_time : String → Json
at_time time = object (
    field "schemaVersion" (number (finite false one)) (
      field "id" (str "mark:1") (
        field "bookId" (str book_id) (
          field "format" (str "epub") (
            field "deviceId" (str "tablet") (
              field "locator" locator_value (
                field "label" (str "A bookmark") (
                  field "createdAt" (str "2026-01-01T08:00:00.000Z")
                    (field "updatedAt" (str time) end)))))))))

abbrev value : Json
value = at_time "2026-01-01T09:00:00.000Z"

value_passes : is_publication_bookmark marks value ≡ true
unfolding is_publication_bookmark is_publication_locator is_bounded_string is_bounded_text
value_passes = refl

-- No bookmark was updated before it was created.
value_of_past : is_publication_bookmark marks (at_time "2026-01-01T07:00:00.000Z") ≡ false
unfolding is_publication_bookmark is_publication_locator is_bounded_string is_bounded_text
value_of_past = refl

is_publication_bookmark-typed_example :
    (b : PublicationBookmark) × (bookmark_of value ≡ some b) × (b.source ≡ value) × IsBookmark b
is_publication_bookmark-typed_example = is_publication_bookmark-typed marks value value_passes

abbrev port : DocumentPort
port = record {
  marks = marks;
  encode_uri_component = λ s. s;
  parse_json =
      λ text. if text == "old\n" then some (at_time "2026-01-01T08:30:00.000Z") else some value;
  pretty = λ v. "new";
}

abbrev path : String
path =
    ".omnia-reader/bookmarks/sha256:00000000000000000000000000000000000000000000000000000000000000aa/mark:1.json"

abbrev document : RemoteDocument
document = record { path = path; content = "new\n"; revision = "r2" }

abbrev old_document : RemoteDocument
old_document = record { path = path; content = "old\n"; revision = "r1" }

abbrev book_format : String → Option PublicationFormat
book_format id = if id == book_id then some epub else none

abbrev counts : Outcome LibraryError Pulled → ℕ × ℕ
counts (returned p) = (p.pulled, p.rejected)
counts (thrown e) = (0, 0)

pull_runs :
    counts (pull port book_format (document ∷ record document { path = "elsewhere" } ∷ []) [])
    ≡ (1, 1)
unfolding pull bookmark_document_path parse_bookmark_document guarded_bookmark
    is_publication_bookmark is_publication_locator is_bounded_string is_bounded_text bookmark_of
    locator_of get_bookmark save_bookmark prefers_incoming pull_document get
pull_runs = refl

pull-newest_example :
    let documents = document ∷ old_document ∷ [] in
    (p : Pulled) × (pull port book_format documents [] ≡ returned p)
    × (p.pulled + p.rejected ≡ 2)
    × ((id : String)
        → visible port book_format id p.stored
          ≡ newest port book_format id (visible port book_format id []) documents)
    × All (IsCovered port book_format (λ id. visible port book_format id p.stored)) documents
pull-newest_example = pull-newest port book_format (document ∷ old_document ∷ []) []

abbrev operation : String → SyncOperation Json
operation id = record {
  id = id;
  entity = bookmark;
  entity_id = "mark:1";
  is_delete = false;
  revision = 1;
  created_at = "2026-01-01T09:00:00.000Z";
  payload = value;
}

abbrev two_operations : List (SyncOperation Json)
two_operations = operation "op:1" ∷ operation "op:2" ∷ []

coalesce_runs : total_ids (coalesce_bookmark_operations port two_operations).documents ≡ 2
unfolding coalesce_bookmark_operations accepted_bookmark bookmark_document_path guarded_bookmark
    is_publication_bookmark is_publication_locator is_bounded_string is_bounded_text bookmark_of
    locator_of prefers_incoming get put coalesce_operation
coalesce_runs = refl

coalesce_bookmark_operations-IsHeld_example :
    let c = coalesce_bookmark_operations port two_operations in
    (total_ids c.documents ≡ c.accepted_operation_count)
    × All (IsHeld port c.documents) two_operations
coalesce_bookmark_operations-IsHeld_example =
    coalesce_bookmark_operations-IsHeld port two_operations

-- Each read finds the old version, and the first write meets a conflict.
abbrev ports : MarkPorts
ports = record {
  documents = port;
  book_format = book_format;
  list_remote = λ h. returned (old_document ∷ []);
  journal_pending = λ h. returned two_operations;
  read_remote = λ p h. returned (some old_document);
  write_remote = λ request h. if ltb (length h) 2 then thrown conflict else returned document;
  acknowledge = λ ids h. returned tt;
  max_conflict_retries = 2;
  retry_delay_ms = 100;
}

abbrev waiting : PublicationBookmark → PendingBookmarkWrite
waiting b = record { bookmark = b; operation_ids = "op:1" ∷ "op:2" ∷ []; create_candidate = true }

abbrev mark : PublicationBookmark
mark = record {
  id = "mark:1";
  book_id = book_id;
  format = epub;
  device_id = "tablet";
  locator = record {
    href = "chapter-1.xhtml";
    media_type = "application/xhtml+xml";
    title = none;
    locations = none;
    text = none;
  };
  label = "A bookmark";
  created_at = "2026-01-01T08:00:00.000Z";
  updated_at = "2026-01-01T09:00:00.000Z";
  deleted_at = none;
  source = value;
}

abbrev begun : MarkState
begun = record { stored = []; history = [] }

-- A read, a write with a conflict, a wait, a read, a write and the acknowledgement
push_runs : length (push_bookmark ports (waiting mark) none begun).1.history ≡ 6
unfolding push_bookmark bookmark_document_path parse_bookmark_document guarded_bookmark
    is_publication_bookmark is_publication_locator is_bounded_string is_bounded_text bookmark_of
    locator_of prefers_incoming
push_runs = refl

push_bookmark-IsSafe_example :
    IsSafe ports (waiting mark) none (push_bookmark ports (waiting mark) none begun).1.history
push_bookmark-IsSafe_example = push_bookmark-IsSafe ports (waiting mark) none []

all_writes-IsByPath_example :
    let writes = all_writes ports two_operations (("mark:1", mark) ∷ []) in
    IsByPath port writes
    × All
        (IsLate port writes)
        (checked_snapshots port (list_bookmarks marks book_format (("mark:1", mark) ∷ [])))
all_writes-IsByPath_example = all_writes-IsByPath ports two_operations (("mark:1", mark) ∷ [])
