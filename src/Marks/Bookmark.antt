-- ===== src/Marks/Bookmark.antt =====
-- Bookmarks: their check on a value of unknown type, and the choice between two versions.
pub mod Guard
pub mod Versions
use text.Mathlib.Text.{starts_with}
use omnia_reader.Prelude.{
  ℕ, ◌+◌, String, Bool, true, false, not, ◌==◌, ◌&&◌, ◌||◌, Option, none, some, List, [], ◌∷◌, leb,
  eqb, length, all, if◌then◌else◌,
}
use omnia_reader.Prelude.Collation.{Sign, negative, same, positive, Collation, then_by, is_positive}
use omnia_reader.Prelude.CodeUnits.{code_units, compare_strings}
use omnia_reader.Prelude.Text.{drop}
use omnia_reader.Prelude.Json.{
  Json, null, boolean, number, str, array, object, Items, nil, cons, Number, finite, infinite, nan,
  member, is_bounded_string, text_of, optional, absent_or, one, ◌>>=◌,
}
use omnia_reader.LogicalBook.Types.{PublicationFormat, epub, pdf}
use omnia_reader.Marks.Locator.{PublicationLocator, is_publication_locator, locator_of}

-- `source` is the object that the record was read from, with properties that no field stands for.
pub record PublicationBookmark : Type 0 where
  pub id : String
  pub book_id : String
  pub format : PublicationFormat
  pub device_id : String
  pub locator : PublicationLocator
  pub label : String
  pub created_at : String
  pub updated_at : String
  pub deleted_at : Option String
  pub source : Json

-- `localeCompare`, and `new Date(Date.parse(s)).toISOString()` for a text that Date.parse reads.
pub record MarkPort : Type 0 where
  pub coll : Collation
  pub iso_of : String → Option String

abbrev pub is_digit_or : (ℕ → Bool) → ℕ → Bool
is_digit_or more c = leb b'0' c && leb c b'9' || more c

abbrev pub is_hex_unit : ℕ → Bool
is_hex_unit = is_digit_or (λ c. leb b'a' c && leb c b'f')

abbrev pub is_alphanumeric : ℕ → Bool
is_alphanumeric = is_digit_or (λ c. leb b'a' c && leb c b'z' || leb b'A' c && leb c b'Z')

abbrev pub is_id_unit : ℕ → Bool
is_id_unit c = is_alphanumeric c || eqb c b'.' || eqb c b'_' || eqb c b':' || eqb c b'-'

-- `/^sha256:[a-f0-9]{64}$/`
unfoldable pub is_book_id : String → Bool
is_book_id s =
    let hex = drop 7 (code_units s) in
    starts_with s "sha256:" && eqb (length hex) 64 && all is_hex_unit hex

abbrev pub is_id_text : List ℕ → Bool
is_id_text [] = false
is_id_text (c ∷ rest) = is_alphanumeric c && leb (length rest) 127 && all is_id_unit rest

-- `/^[a-zA-Z0-9][a-zA-Z0-9._:-]{0,127}$/`
unfoldable pub is_mark_id : String → Bool
is_mark_id s = is_id_text (code_units s)

abbrev pub is_schema_version : Option Json → Bool
is_schema_version (some (number (finite false n))) = eqb n one
is_schema_version _ = false

-- `typeof v === 'string' && test(v)`
abbrev pub is_string_that : (String → Bool) → Option Json → Bool
is_string_that test (some (str s)) = test s
is_string_that test _ = false

abbrev pub is_format : Option Json → Bool
is_format = is_string_that (λ s. s == "epub" || s == "pdf")

abbrev pub format_of : Option Json → Option PublicationFormat
format_of (some (str s)) = if s == "epub" then some epub else if s == "pdf" then some pdf else none
format_of _ = none

-- `createdAt <= updatedAt`
abbrev pub is_not_after : Option Json → Option Json → Bool
is_not_after (some (str s)) (some (str t)) = not (is_positive (compare_strings s t))
is_not_after _ _ = false

-- `deletedAt === updatedAt`
abbrev pub is_same_text : Option Json → Option Json → Bool
is_same_text (some (str s)) (some (str t)) = s == t
is_same_text _ _ = false

-- The value seen at the type of bookmarks.
unfoldable pub bookmark_of : Json → Option PublicationBookmark
bookmark_of v = do
  id ← text_of (member "id" v)
  book_id ← text_of (member "bookId" v)
  format ← format_of (member "format" v)
  device_id ← text_of (member "deviceId" v)
  locator ← locator_of (member "locator" v)
  label ← text_of (member "label" v)
  created_at ← text_of (member "createdAt" v)
  updated_at ← text_of (member "updatedAt" v)
  deleted_at ← optional text_of (member "deletedAt" v)
  some (record {
    id = id;
    book_id = book_id;
    format = format;
    device_id = device_id;
    locator = locator;
    label = label;
    created_at = created_at;
    updated_at = updated_at;
    deleted_at = deleted_at;
    source = v;
  })

module _ (port : MarkPort) where
  abbrev pub is_iso_text : String → Bool
  is_iso_text s = elim (port.iso_of s) [ none ↦ false | some t ↦ t == s ]

  abbrev pub is_canonical_timestamp : Option Json → Bool
  is_canonical_timestamp = is_string_that is_iso_text

  unfoldable pub are_times : Json → Bool
  are_times v =
      is_canonical_timestamp (member "createdAt" v)
      && is_canonical_timestamp (member "updatedAt" v)
      && is_not_after (member "createdAt" v) (member "updatedAt" v)
      && absent_or
          (λ deleted. is_canonical_timestamp deleted && is_same_text deleted (member "updatedAt" v))
          (member "deletedAt" v)

  unfoldable pub is_publication_bookmark : Json → Bool
  unfolding are_times is_book_id is_mark_id one
  is_publication_bookmark (object fields) =
      let value = object fields in
      is_schema_version (member "schemaVersion" value)
      && is_string_that is_mark_id (member "id" value)
      && is_string_that is_book_id (member "bookId" value)
      && is_format (member "format" value)
      && is_bounded_string (member "deviceId" value) 128
      && is_bounded_string (member "label" value) 512
      && is_publication_locator none (member "locator" value) (member "format" value)
      && are_times value
  is_publication_bookmark _ = false

  -- `isPublicationBookmark(value) ? value : null`
  unfoldable pub guarded_bookmark : Json → Option PublicationBookmark
  unfolding is_publication_bookmark bookmark_of
  guarded_bookmark v = if is_publication_bookmark v then bookmark_of v else none

  unfoldable pub compare_bookmarks : PublicationBookmark → PublicationBookmark → Sign
  compare_bookmarks left right =
      then_by (port.coll.locale_compare left.updated_at right.updated_at) (
        then_by (port.coll.locale_compare left.device_id right.device_id)
          (port.coll.locale_compare left.id right.id))

  -- `preferredBookmark(local, incoming) === incoming`
  unfoldable pub prefers_incoming : Option PublicationBookmark → PublicationBookmark → Bool
  unfolding compare_bookmarks
  prefers_incoming none incoming = true
  prefers_incoming (some here) incoming = is_positive (compare_bookmarks incoming here)

  unfoldable pub preferred_bookmark :
      Option PublicationBookmark → PublicationBookmark → PublicationBookmark
  unfolding compare_bookmarks
  preferred_bookmark none incoming = incoming
  preferred_bookmark (some here) incoming =
      if is_positive (compare_bookmarks incoming here) then incoming else here
