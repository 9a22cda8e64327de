-- ===== src/Marks/Bookmark/Guard.antt =====
-- What passes the check of a bookmark can be read as one, with times that fit each other.
use omnia_reader.Prelude.{
  ℕ, String, Bool, ◌≡◌, refl, ap, ◌∙◌, true, false, ◌==◌, ◌&&◌, Option, none, some, arith, eq_iff,
  ◌⊎◌, inl, inr, Bool-cases,
}
use omnia_reader.Prelude.Collation.{is_positive}
use omnia_reader.Prelude.CodeUnits.{compare_strings}
use omnia_reader.Prelude.Json.{
  Json, str, object, Fields, Reads, optional-Reads, optional, bounded_string-Reads,
  is_bounded_string, text_of, member, absent_or, is_bounded_text, and_left, and_right,
}
use omnia_reader.LogicalBook.Types.{epub, pdf}
use omnia_reader.Marks.Locator.{is_publication_locator}
use omnia_reader.Marks.Locator.Guard.{publication_locator-Reads}
use omnia_reader.Marks.Bookmark.{
  PublicationBookmark, MarkPort, is_mark_id, is_book_id, is_string_that, is_format, format_of,
  bookmark_of, is_canonical_timestamp, is_iso_text, is_not_after, is_same_text, are_times,
  is_publication_bookmark, is_schema_version, guarded_bookmark,
}

-- What the type says, and what the check adds to it.
pub record IsBookmark (b : PublicationBookmark) : Type 0 where
  pub named : is_mark_id b.id ≡ true
  pub owned : is_book_id b.book_id ≡ true
  pub labelled : is_bounded_text b.label 512 ≡ true
  pub ordered : is_positive (compare_strings b.created_at b.updated_at) ≡ false
  pub deleted_last : (b.deleted_at ≡ none) ⊎ (b.deleted_at ≡ some b.updated_at)

pub string-Reads :
    (test : String → Bool) (v : Option Json) → is_string_that test v ≡ true → Reads (text_of v)
string-Reads test (some (str s)) h = (s, refl)
string-Reads test _ h = absurd (cc)

pub string-test :
    (test : String → Bool) (v : Option Json) (s : String)
    → is_string_that test v ≡ true
    → text_of v ≡ some s
    → test s ≡ true
string-test test (some (str t)) s h e = ground arith
string-test test _ s h e = absurd (cc)

pub bounded-test :
    (v : Option Json) (maximum : ℕ) (s : String)
    → is_bounded_string v maximum ≡ true
    → text_of v ≡ some s
    → is_bounded_text s maximum ≡ true
unfolding is_bounded_string
bounded-test (some (str t)) maximum s h e = ground arith
bounded-test _ maximum s h e = absurd (cc)

pub format-Reads : (v : Option Json) → is_format v ≡ true → Reads (format_of v)
format-Reads (some (str s)) h = elim (Bool-cases (s == "epub")) [
  | inl e ↦ (epub, rw e refl)
  | inr n ↦ (pdf, ground arith)
]
format-Reads _ h = absurd (cc)

pub not_after-test :
    (v w : Option Json) (s t : String)
    → is_not_after v w ≡ true
    → text_of v ≡ some s
    → text_of w ≡ some t
    → is_positive (compare_strings s t) ≡ false
not_after-test (some (str a)) (some (str b)) s t h e f = ground arith
not_after-test _ _ s t h e f = absurd (cc)

pub all_four :
    (a b c d : Bool) → (a && b && c && d) ≡ true → (a ≡ true) × (b ≡ true) × (c ≡ true) × (d ≡ true)
all_four a b c d h = ground arith

module _ (port : MarkPort) where
  pub deleted-test :
      (v w : Option Json) (d : Option String) (t : String)
      → absent_or (λ deleted. is_canonical_timestamp port deleted && is_same_text deleted w) v
        ≡ true
      → optional text_of v ≡ some d
      → text_of w ≡ some t
      → (d ≡ none) ⊎ (d ≡ some t)
  deleted-test none w d t h e f = inl (cc)
  deleted-test (some (str a)) (some (str b)) d t h e f = inr (ground (arith, eq_iff a b))
  deleted-test (some (str a)) none d t h e f = absurd (cc)
  deleted-test (some v) w d t h e f = absurd (ground arith)

  pub deleted-Reads :
      (w v : Option Json)
      → (is_canonical_timestamp port v && is_same_text v w) ≡ true
      → Reads (text_of v)
  deleted-Reads w v h = string-Reads (is_iso_text port) v (ground arith)

  -- The conjuncts of the check, one by one.
  record Checked (v : Json) : Type 0 where
    id_checked : is_string_that is_mark_id (member "id" v) ≡ true
    book_id_checked : is_string_that is_book_id (member "bookId" v) ≡ true
    format_checked : is_format (member "format" v) ≡ true
    device_id_checked : is_bounded_string (member "deviceId" v) 128 ≡ true
    label_checked : is_bounded_string (member "label" v) 512 ≡ true
    locator_checked : is_publication_locator none (member "locator" v) (member "format" v) ≡ true
    created_at_checked : is_canonical_timestamp port (member "createdAt" v) ≡ true
    updated_at_checked : is_canonical_timestamp port (member "updatedAt" v) ≡ true
    order_checked : is_not_after (member "createdAt" v) (member "updatedAt" v) ≡ true
    deleted_at_checked :
        absent_or
          (λ deleted.
            is_canonical_timestamp port deleted && is_same_text deleted (member "updatedAt" v))
          (member "deletedAt" v)
        ≡ true

  pub times-Checked :
      (v : Json)
      → are_times port v ≡ true
      → (is_canonical_timestamp port (member "createdAt" v) ≡ true)
        × (is_canonical_timestamp port (member "updatedAt" v) ≡ true)
        × (is_not_after (member "createdAt" v) (member "updatedAt" v) ≡ true)
        × (absent_or
              (λ deleted.
                is_canonical_timestamp port deleted && is_same_text deleted (member "updatedAt" v))
              (member "deletedAt" v)
            ≡ true)
  unfolding are_times
  times-Checked v h =
      let c = member "createdAt" v in
      let u = member "updatedAt" v in
      all_four (is_canonical_timestamp port c) (is_canonical_timestamp port u) (is_not_after c u) _
        h

  fields-Checked :
      (fields : Fields)
      → is_publication_bookmark port (object fields) ≡ true
      → Checked (object fields)
  unfolding is_publication_bookmark
  fields-Checked fields h =
      let v = object fields in
      let located = is_publication_locator none (member "locator" v) (member "format" v) in
      let device = is_bounded_string (member "deviceId" v) 128 in
      let label = is_bounded_string (member "label" v) 512 in
      let format = is_format (member "format" v) in
      let named = is_string_that is_mark_id (member "id" v) in
      let owned = is_string_that is_book_id (member "bookId" v) in
      let schema = is_schema_version (member "schemaVersion" v) in
      let first = all_four (schema && named && owned && format && device) label located _ h in
      let five = first.0 in
      let first_four = and_left (schema && named && owned && format) device five in
      let rest = all_four schema named owned format first_four in
      let times = times-Checked v first.3 in
      record {
        id_checked = rest.1;
        book_id_checked = rest.2;
        format_checked = rest.3;
        device_id_checked = and_right (schema && named && owned && format) device five;
        label_checked = first.1;
        locator_checked = first.2;
        created_at_checked = times.0;
        updated_at_checked = times.1;
        order_checked = times.2;
        deleted_at_checked = times.3;
      }

  Checked-Reads :
      (v : Json)
      → Checked v
      → (b : PublicationBookmark) × (bookmark_of v ≡ some b) × (b.source ≡ v) × IsBookmark b
  unfolding bookmark_of
  Checked-Reads v k =
      let (i, ei) = string-Reads is_mark_id (member "id" v) k.id_checked in
      let (o, eo) = string-Reads is_book_id (member "bookId" v) k.book_id_checked in
      let (f, ef) = format-Reads (member "format" v) k.format_checked in
      let (d, ed) = bounded_string-Reads (member "deviceId" v) 128 k.device_id_checked in
      let (l, el) =
        publication_locator-Reads none (member "locator" v) (member "format" v) k.locator_checked in
      let (n, en) = bounded_string-Reads (member "label" v) 512 k.label_checked in
      let (c, ec) = string-Reads (is_iso_text port) (member "createdAt" v) k.created_at_checked in
      let (u, eu) = string-Reads (is_iso_text port) (member "updatedAt" v) k.updated_at_checked in
      let (x, ex) =
        optional-Reads _ text_of (deleted-Reads (member "updatedAt" v)) (member "deletedAt" v)
          k.deleted_at_checked in
      (
        record {
          id = i;
          book_id = o;
          format = f;
          device_id = d;
          locator = l;
          label = n;
          created_at = c;
          updated_at = u;
          deleted_at = x;
          source = v;
        },
        rw (ei, eo, ef, ed, el, en, ec, eu, ex) refl,
        refl,
        record {
          named = string-test is_mark_id (member "id" v) i k.id_checked ei;
          owned = string-test is_book_id (member "bookId" v) o k.book_id_checked eo;
          labelled = bounded-test (member "label" v) 512 n k.label_checked en;
          ordered =
              not_after-test (member "createdAt" v) (member "updatedAt" v) c u k.order_checked ec
                eu;
          deleted_last =
              deleted-test (member "deletedAt" v) (member "updatedAt" v) x u k.deleted_at_checked ex
                eu;
        },
      )

-- The type guard of bookmarks is sound: a value that passes has every property at its type, its
-- identifiers have their shape and its label its length, it was not created after it was updated, and
-- a deletion stands at the time of the last update.
pub is_publication_bookmark-typed :
    (port : MarkPort) (v : Json)
    → is_publication_bookmark port v ≡ true
    → (b : PublicationBookmark) × (bookmark_of v ≡ some b) × (b.source ≡ v) × IsBookmark b
unfolding is_publication_bookmark
is_publication_bookmark-typed port (object fields) h =
    Checked-Reads port (object fields) (fields-Checked port fields h)
is_publication_bookmark-typed port _ h = absurd (cc)

-- A bookmark that has passed the check still passes it.
pub guarded_bookmark-source :
    (port : MarkPort) (v : Json) (b : PublicationBookmark)
    → guarded_bookmark port v ≡ some b
    → is_publication_bookmark port b.source ≡ true
unfolding guarded_bookmark
guarded_bookmark-source port v b h = elim (Bool-cases (is_publication_bookmark port v)) [
  | inl passed ↦
      let (c, e, from, _) = is_publication_bookmark-typed port v passed in
      let same : b ≡ c = ground arith in
      ap (λ (x : PublicationBookmark). is_publication_bookmark port x.source) same
      ∙ ap (is_publication_bookmark port) from
      ∙ passed
  | inr refused ↦ absurd (ground arith)
]
