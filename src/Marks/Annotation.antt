-- ===== src/Marks/Annotation.antt =====
-- Annotations: their decorations and colours, their check on a value of unknown type, and the choice
-- between two versions.
pub mod Guard
pub mod Versions
mod Tests
use text.Mathlib.Text.{starts_with}
use omnia_reader.Prelude.{
  ℕ, ◌+◌, String, Bool, true, false, not, ◌==◌, ◌&&◌, ◌||◌, Option, none, some, List, [], ◌∷◌, ◌++◌,
  map, leb, eqb, length, all, any, or_else, is_some, if◌then◌else◌,
}
use omnia_reader.Prelude.Collation.{
  Sign, negative, same, positive, Collation, then_by, is_positive, sort,
}
use omnia_reader.Prelude.CodeUnits.{code_units, compare_strings}
use omnia_reader.Prelude.Text.{concat, drop}
use omnia_reader.Prelude.Json.{
  Json, null, boolean, number, str, array, object, Items, nil, cons, Fields, end, field, member,
  is_bounded_string, text_of, optional, absent_or, one, text_length, ◌>>=◌,
}
use omnia_reader.LogicalBook.Types.{PublicationFormat, epub, pdf}
use omnia_reader.Marks.Locator.{PublicationLocator, is_publication_locator, locator_of, count_items}
use omnia_reader.Marks.Bookmark.{
  MarkPort, is_book_id, is_mark_id, is_digit_or, is_schema_version, is_string_that, is_format,
  format_of, are_times,
}

pub data AnnotationStyle : Type 0 where
  highlight underline strikethrough : AnnotationStyle

pub record AnnotationDecoration : Type 0 where
  pub style : AnnotationStyle
  pub color : String

pub record ColorOption : Type 0 where
  pub value : String
  pub label : String
  pub hex : String

-- `source` is the object that the record was read from, with properties that no field stands for.
pub record PublicationAnnotation : Type 0 where
  pub id : String
  pub book_id : String
  pub format : PublicationFormat
  pub device_id : String
  pub locator : PublicationLocator
  pub color : String
  pub style : Option AnnotationStyle
  pub decorations : Option (List AnnotationDecoration)
  pub note : Option String
  pub created_at : String
  pub updated_at : String
  pub deleted_at : Option String
  pub source : Json

abbrev pub color_option : String → String → String → ColorOption
color_option value label hex = record { value = value; label = label; hex = hex }

abbrev pub color_options : List ColorOption
color_options =
    color_option "orange" "Orange" "#E69F00"
    ∷ color_option "sky-blue" "Sky blue" "#56B4E9"
    ∷ color_option "bluish-green" "Bluish green" "#009E73"
    ∷ color_option "yellow" "Yellow" "#F0E442"
    ∷ color_option "dark-blue" "Dark blue" "#0072B2"
    ∷ color_option "vermilion" "Vermilion" "#D55E00"
    ∷ color_option "purple" "Purple" "#CC79A7"
    ∷ color_option "brown" "Brown" "#8C564B"
    ∷ color_option "gray" "Gray" "#7F7F7F"
    ∷ []

abbrev pub black_color_option : ColorOption
black_color_option = color_option "black" "Black" "#000000"

abbrev pub legacy_color_options : List ColorOption
legacy_color_options =
    color_option "green" "Green" "#15803d"
    ∷ color_option "red" "Red" "#b91c1c"
    ∷ color_option "blue" "Blue" "#1d4ed8"
    ∷ color_option "cyan" "Cyan" "#22d3ee"
    ∷ color_option "pink" "Pink" "#f472b6"
    ∷ []

abbrev pub supported_color_options : List ColorOption
supported_color_options = black_color_option ∷ (color_options ++ legacy_color_options)

abbrev pub find_color : String → List ColorOption → Option ColorOption
find_color color [] = none
find_color color (o ∷ os) = if o.value == color then some o else find_color color os

abbrev pub is_any_hex_unit : ℕ → Bool
is_any_hex_unit = is_digit_or (λ c. leb b'a' c && leb c b'f' || leb b'A' c && leb c b'F')

-- `/^#[0-9a-fA-F]{6}$/`
unfoldable pub is_custom_color : String → Bool
is_custom_color s =
    let hex = drop 1 (code_units s) in
    starts_with s "#" && eqb (length hex) 6 && all is_any_hex_unit hex

unfoldable pub is_annotation_color : String → Bool
unfolding is_custom_color
is_annotation_color s = is_some (find_color s supported_color_options) || is_custom_color s

-- `toLowerCase` and `toUpperCase` are parameters.
unfoldable pub color_hex : (String → String) → String → String
color_hex lower color = elim (find_color color supported_color_options) [
  | none ↦ lower color
  | some o ↦ o.hex
]

unfoldable pub color_label : (String → String) → String → String
color_label upper color = elim (find_color color supported_color_options) [
  | none ↦ upper color
  | some o ↦ o.label
]

abbrev pub same_style : AnnotationStyle → AnnotationStyle → Bool
same_style highlight highlight = true
same_style underline underline = true
same_style strikethrough strikethrough = true
same_style _ _ = false

unfoldable pub annotation_decorations : PublicationAnnotation → List AnnotationDecoration
annotation_decorations a =
    or_else a.decorations (record { style = or_else a.style highlight; color = a.color } ∷ [])

unfoldable pub annotation_has_style : PublicationAnnotation → AnnotationStyle → Bool
unfolding annotation_decorations
annotation_has_style a style =
    any (λ (d : AnnotationDecoration). same_style d.style style) (annotation_decorations a)

abbrev pub style_of : Option Json → Option AnnotationStyle
style_of (some (str s)) =
    if s == "highlight"
    then some highlight
    else if s == "underline"
    then some underline
    else if s == "strikethrough"
    then some strikethrough
    else none
style_of _ = none

-- `ANNOTATION_STYLES.includes(v)`
abbrev pub is_style : Option Json → Bool
is_style v = is_some (style_of v)

abbrev pub color_of : Option Json → Option String
color_of (some (str s)) = if is_annotation_color s then some s else none
color_of _ = none

abbrev pub has_style : AnnotationStyle → List AnnotationStyle → Bool
has_style style seen = any (λ s. same_style s style) seen

-- A decoration that is a record with a style and a colour
unfoldable pub decoration_of : Json → Option AnnotationDecoration
decoration_of v = do
  style ← style_of (member "style" v)
  color ← color_of (member "color" v)
  some (record { style = style; color = color })

abbrev pub decorations_from : Items → Option (List AnnotationDecoration)
decorations_from nil = some []
decorations_from (cons v vs) = decoration_of v >>= λ d. decorations_from vs >>= λ ds. some (d ∷ ds)

unfoldable pub decorations_of : Option Json → Option (List AnnotationDecoration)
unfolding decoration_of
decorations_of (some (array items)) = decorations_from items
decorations_of _ = none

-- The loop of `isAnnotationDecorations`, with the styles that it has seen
abbrev pub are_distinct : List AnnotationStyle → Items → Bool
are_distinct seen nil = true
are_distinct seen (cons v vs) = elim (decoration_of v) [
  | none ↦ false
  | some d ↦ not (has_style d.style seen) && are_distinct (d.style ∷ seen) vs
]

unfoldable pub are_decorations : Option Json → Option Json → Bool
unfolding decoration_of
are_decorations remark (some (array items)) =
    leb (count_items items) 3
    && (if eqb (count_items items) 0 then is_bounded_string remark 16384 else are_distinct [] items)
are_decorations remark _ = false

-- `isRecord(locator.text) && isBoundedString(locator.text['highlight'], 4096)`
unfoldable pub has_quote : Option Json → Bool
has_quote (some locator) = elim (member "text" locator) [
  | none ↦ false
  | some text ↦ is_bounded_string (member "highlight" text) 4096
]
has_quote none = false

-- The value seen at the type of annotations.
unfoldable pub annotation_of : Json → Option PublicationAnnotation
annotation_of v = do
  id ← text_of (member "id" v)
  book_id ← text_of (member "bookId" v)
  format ← format_of (member "format" v)
  device_id ← text_of (member "deviceId" v)
  locator ← locator_of (member "locator" v)
  color ← text_of (member "color" v)
  style ← optional style_of (member "style" v)
  decorations ← optional decorations_of (member "decorations" v)
  note ← optional text_of (member "note" v)
  created_at ← text_of (member "createdAt" v)
  updated_at ← text_of (member "updatedAt" v)
  deleted_at ← optional text_of (member "deletedAt" v)
  some (record {
    id = id;
    book_id = book_id;
    format = format;
    device_id = device_id;
    locator = locator;
    color = color;
    style = style;
    decorations = decorations;
    note = note;
    created_at = created_at;
    updated_at = updated_at;
    deleted_at = deleted_at;
    source = v;
  })

abbrev pub join_comma : List String → String
join_comma [] = ""
join_comma (s ∷ []) = s
join_comma (s ∷ (t ∷ ts)) = concat s (concat "," (join_comma (t ∷ ts)))

abbrev pub member_text : String × String → String
member_text (key, text) = concat key (concat ":" text)

-- `JSON.stringify` of a value that is no array or object, and of a key
module _ (leaf : Json → String) where
  unfoldable mutual
    pub stable_json : Json → String
    stable_json (array items) = concat "[" (concat (join_comma (stable_items items)) "]")
    stable_json (object fields) = concat "{" (
        concat
          (join_comma (
            map (λ (p : String × String). member_text (leaf (str p.0), p.1))
              (sort (λ (p q : String × String). compare_strings p.0 q.0) (stable_fields fields))))
          "}")
    stable_json v = leaf v

    pub stable_items : Items → List String
    stable_items nil = []
    stable_items (cons v vs) = stable_json v ∷ stable_items vs

    pub stable_fields : Fields → List (String × String)
    stable_fields end = []
    stable_fields (field k v rest) = (k, stable_json v) ∷ stable_fields rest

module _ (port : MarkPort) where
  unfoldable pub is_publication_annotation : Json → Bool
  unfolding are_times is_book_id is_mark_id one
  is_publication_annotation (object fields) =
      let value = object fields in
      is_schema_version (member "schemaVersion" value)
      && is_string_that is_mark_id (member "id" value)
      && is_string_that is_book_id (member "bookId" value)
      && is_format (member "format" value)
      && is_bounded_string (member "deviceId" value) 128
      && is_publication_locator (some 8192) (member "locator" value) (member "format" value)
      && has_quote (member "locator" value)
      && is_string_that is_annotation_color (member "color" value)
      && absent_or is_style (member "style" value)
      && absent_or (λ v. is_bounded_string v 16384) (member "note" value)
      && absent_or (are_decorations (member "note" value)) (member "decorations" value)
      && are_times port value
  is_publication_annotation _ = false

  module _ (leaf : Json → String) where
    unfoldable pub compare_annotations : PublicationAnnotation → PublicationAnnotation → Sign
    compare_annotations left right =
        then_by (port.coll.locale_compare left.updated_at right.updated_at) (
          then_by (port.coll.locale_compare left.device_id right.device_id) (
            port.coll.locale_compare (stable_json leaf left.source)
              (stable_json leaf right.source)))

    unfoldable pub preferred_annotation :
        Option PublicationAnnotation → PublicationAnnotation → PublicationAnnotation
    unfolding compare_annotations
    preferred_annotation none incoming = incoming
    preferred_annotation (some here) incoming =
        if is_positive (compare_annotations incoming here) then incoming else here
