-- ===== src/Marks/Annotation/Tests.antt =====
-- An annotation with two decorations, as a value and in two versions.
use omnia_reader.Prelude.{String, ◌≡◌, refl, true, false, none, some}
use omnia_reader.Prelude.Collation.{same}
use omnia_reader.Prelude.CodeUnits.Laws.{code_unit_collation}
use omnia_reader.Prelude.Json.{
  Json, number, str, object, array, Items, nil, cons, end, field, finite, one, is_bounded_string,
  is_bounded_text,
}
use omnia_reader.LogicalBook.Types.{epub}
use omnia_reader.Marks.Locator.{is_publication_locator}
use omnia_reader.Marks.Bookmark.{MarkPort}
use omnia_reader.Marks.Annotation.{
  PublicationAnnotation, annotation_of, has_quote, is_annotation_color, are_decorations,
  is_publication_annotation, preferred_annotation, stable_json, color_hex,
}
use omnia_reader.Marks.Annotation.Guard.{IsAnnotation, is_publication_annotation-typed}
use omnia_reader.Marks.Annotation.Versions.{preferred_annotation-converges}

abbrev marks : MarkPort
marks = record { coll = code_unit_collation; iso_of = λ s. some s }

abbrev decoration : String → String → Json
decoration style color = object (field "style" (str style) (field "color" (str color) end))

abbrev decorated : Items → Json
decorated items = object (
    field "schemaVersion" (number (finite false one)) (
      field "id" (str "note-1") (
        field "bookId"
          (str "sha256:00000000000000000000000000000000000000000000000000000000000000aa")
          (field "format" (str "epub") (
            field "deviceId" (str "tablet") (
              field "locator"
                (object (
                  field "href" (str "chapter-1.xhtml") (
                    field "type" (str "application/xhtml+xml") (
                      field "text" (object (field "highlight" (str "Call me Ishmael.") end)) end))))
                (field "color" (str "yellow") (
                  field "decorations" (array items) (
                    field "createdAt" (str "2026-01-01T08:00:00.000Z")
                      (field "updatedAt" (str "2026-01-01T09:00:00.000Z") end))))))))))

abbrev value : Json
value =
    decorated (cons (decoration "highlight" "yellow") (cons (decoration "underline" "#1234Ef") nil))

value_passes : is_publication_annotation marks value ≡ true
unfolding is_publication_annotation is_publication_locator is_bounded_string is_bounded_text
    has_quote is_annotation_color are_decorations
value_passes = refl

-- One style twice, and no decoration without a note
twice_refused :
    is_publication_annotation marks
      (decorated (cons (decoration "underline" "red") (cons (decoration "underline" "blue") nil)))
    ≡ false
unfolding is_publication_annotation is_publication_locator is_bounded_string is_bounded_text
    has_quote is_annotation_color are_decorations
twice_refused = refl

bare_refused : is_publication_annotation marks (decorated nil) ≡ false
unfolding is_publication_annotation is_publication_locator is_bounded_string is_bounded_text
    has_quote is_annotation_color are_decorations
bare_refused = refl

is_publication_annotation-typed_example :
    (a : PublicationAnnotation) × (annotation_of value ≡ some a)
    × (a.source ≡ value)
    × IsAnnotation a
is_publication_annotation-typed_example = is_publication_annotation-typed marks value value_passes

abbrev leaf : Json → String
leaf (str s) = s
leaf v = "?"

-- The properties come in the order of their names.
stable_runs : stable_json leaf (decoration "underline" "red") ≡ "{color:red,style:underline}"
unfolding stable_json
stable_runs = refl

color_runs : color_hex (λ s. s) "sky-blue" ≡ "#56B4E9"
unfolding color_hex
color_runs = refl

abbrev version : String → PublicationAnnotation
version device = record {
  id = "note-1";
  book_id = "sha256:00000000000000000000000000000000000000000000000000000000000000aa";
  format = epub;
  device_id = device;
  locator = record {
    href = "chapter-1.xhtml";
    media_type = "application/xhtml+xml";
    title = none;
    locations = none;
    text = none;
  };
  color = "yellow";
  style = none;
  decorations = none;
  note = none;
  created_at = "2026-01-01T08:00:00.000Z";
  updated_at = "2026-01-01T09:00:00.000Z";
  deleted_at = none;
  source = value;
}

preferred_annotation-converges_example :
    let mine = preferred_annotation marks leaf (some (version "phone")) (version "tablet") in
    let theirs = preferred_annotation marks leaf (some (version "tablet")) (version "phone") in
    ((marks.coll.locale_compare mine.updated_at theirs.updated_at ≡ same)
      × (marks.coll.locale_compare mine.device_id theirs.device_id ≡ same)
      × (marks.coll.locale_compare (stable_json leaf mine.source) (stable_json leaf theirs.source)
          ≡ same))
    × (preferred_annotation marks leaf (some mine) (version "tablet") ≡ mine)
preferred_annotation-converges_example =
    preferred_annotation-converges marks leaf (version "phone") (version "tablet")
