-- ===== src/Marks/Annotation/Guard.antt =====
-- What passes the check of an annotation can be read as one, with one decoration of a style at most.
use omnia_reader.Prelude.{
  ℕ, ◌+◌, ◌≤◌, String, Bool, ◌≡◌, refl, sym, ap, ◌∙◌, true, false, ◌&&◌, Option, none, some, List,
  [], ◌∷◌, arith, if◌then◌else◌, ◌⊎◌, inl, inr, Bool-cases, Option-cases,
}
use omnia_reader.Prelude.Collation.{is_positive}
use omnia_reader.Prelude.CodeUnits.{compare_strings}
use omnia_reader.Prelude.Json.{
  Json, array, object, Items, nil, cons, Fields, Reads, optional-Reads, optional,
  bounded_string-Reads, is_bounded_string, text_of, member, absent_or, and_left, and_right,
}
use omnia_reader.Marks.Locator.{is_publication_locator}
use omnia_reader.Marks.Locator.Guard.{publication_locator-Reads}
use omnia_reader.Marks.Bookmark.{
  MarkPort, is_mark_id, is_book_id, is_string_that, is_format, is_iso_text, are_times,
  is_schema_version,
}
use omnia_reader.Marks.Bookmark.Guard.{
  string-Reads, string-test, format-Reads, not_after-test, deleted-test, deleted-Reads,
  times-Checked, all_four,
}
use omnia_reader.Marks.Annotation.{
  PublicationAnnotation, AnnotationStyle, highlight, underline, strikethrough, AnnotationDecoration,
  same_style, has_style, style_of, is_style, is_annotation_color, decoration_of, decorations_from,
  decorations_of, are_distinct, are_decorations, has_quote, annotation_of,
  is_publication_annotation,
}

-- How many decorations have a style.
abbrev pub count_style : AnnotationStyle → List AnnotationDecoration → ℕ
count_style style [] = 0
count_style style (d ∷ ds) =
    let rest = count_style style ds in if same_style d.style style then 1 + rest else rest

style-Reads : (v : Option Json) → is_style v ≡ true → Reads (style_of v)
style-Reads v h = elim (Option-cases (style_of v)) [
  | inl e ↦ absurd (ground arith)
  | inr found ↦ found
]

abbrev one_or_none : Bool → ℕ
one_or_none true = 0
one_or_none false = 1

same_style-eq : (a b : AnnotationStyle) → same_style a b ≡ true → a ≡ b
same_style-eq highlight highlight h = refl
same_style-eq underline underline h = refl
same_style-eq strikethrough strikethrough h = refl
same_style-eq _ _ h = absurd (cc)

count_style-cons :
    (style : AnnotationStyle) (d : AnnotationDecoration) (ds : List AnnotationDecoration)
    (seen : List AnnotationStyle)
    → has_style d.style seen ≡ false
    → count_style style ds ≤ one_or_none (has_style style (d.style ∷ seen))
    → count_style style (d ∷ ds) ≤ one_or_none (has_style style seen)
count_style-cons style d ds seen new few = elim (Bool-cases (same_style d.style style)) [
  | inl same ↦
      let unseen : has_style style seen ≡ false =
        ap (λ s. has_style s seen) (sym (same_style-eq d.style style same)) ∙ new in
      let none_yet : count_style style ds ≤ 0 = rw same at few in rw (same, unseen) (omega arith)
  | inr other ↦ rw other (rw other at few)
]

-- Of distinct decorations none has a style that was seen, and each style has one at most.
distinct-Reads :
    (seen : List AnnotationStyle) (items : Items)
    → are_distinct seen items ≡ true
    → (ds : List AnnotationDecoration) × (decorations_from items ≡ some ds)
      × ((style : AnnotationStyle) → count_style style ds ≤ one_or_none (has_style style seen))
distinct-Reads seen nil h = ([], refl, λ style. omega arith)
distinct-Reads seen (cons v vs) h = elim (Option-cases (decoration_of v)) [
  | inl e ↦ absurd (ground arith)
  | inr (d, e) ↦
      let distinct : (has_style d.style seen ≡ false) × (are_distinct (d.style ∷ seen) vs ≡ true) =
        ground arith in
      let (ds, f, few) = distinct-Reads (d.style ∷ seen) vs distinct.1 in
      (
        d ∷ ds,
        rw (e, f, decorations_from) refl,
        λ style. count_style-cons style d ds seen distinct.0 (few style),
      )
]

-- One decoration of a style at most, and a note where there is none.
abbrev pub AreDecorations : Option String → Option (List AnnotationDecoration) → Type 0
AreDecorations written none = Unit
AreDecorations written (some []) = (text : String) × (written ≡ some text)
AreDecorations written (some (d ∷ ds)) = (style : AnnotationStyle) → count_style style (d ∷ ds) ≤ 1

decorations-Reads :
    (remark v : Option Json) (written : Option String)
    → optional text_of remark ≡ some written
    → are_decorations remark v ≡ true
    → (ds : List AnnotationDecoration) × (decorations_of v ≡ some ds)
      × AreDecorations written (some ds)
unfolding are_decorations decorations_of
decorations-Reads remark (some (array nil)) written e h =
    let noted : is_bounded_string remark 16384 ≡ true = ground arith in
    let (text, f) = bounded_string-Reads remark 16384 noted in
    ([], refl, (text, optional-some remark text written f e))
  where
    optional-some :
        (v : Option Json) (text : String) (written : Option String)
        → text_of v ≡ some text
        → optional text_of v ≡ some written
        → written ≡ some text
    optional-some none text written f e = absurd (cc)
    optional-some (some v) text written f e = ground arith
decorations-Reads remark (some (array (cons v vs))) written e h =
    let distinct : are_distinct [] (cons v vs) ≡ true = ground arith in
    let (ds, f, few) = distinct-Reads [] (cons v vs) distinct in (ds, f, by_list ds f few)
  where
    by_list :
        (ds : List AnnotationDecoration)
        → decorations_from (cons v vs) ≡ some ds
        → ((style : AnnotationStyle) → count_style style ds ≤ 1)
        → AreDecorations written (some ds)
    by_list [] f few = absurd (ground arith)
    by_list (d ∷ ds) f few = few
decorations-Reads remark _ written e h = absurd (cc)

pub record IsAnnotation (a : PublicationAnnotation) : Type 0 where
  pub named : is_mark_id a.id ≡ true
  pub owned : is_book_id a.book_id ≡ true
  pub colored : is_annotation_color a.color ≡ true
  pub decorated : AreDecorations a.note a.decorations
  pub ordered : is_positive (compare_strings a.created_at a.updated_at) ≡ false
  pub deleted_last : (a.deleted_at ≡ none) ⊎ (a.deleted_at ≡ some a.updated_at)

module _ (port : MarkPort) where
  -- The conjuncts of the check, one by one.
  record Checked (v : Json) : Type 0 where
    id_checked : is_string_that is_mark_id (member "id" v) ≡ true
    book_id_checked : is_string_that is_book_id (member "bookId" v) ≡ true
    format_checked : is_format (member "format" v) ≡ true
    device_id_checked : is_bounded_string (member "deviceId" v) 128 ≡ true
    locator_checked :
        is_publication_locator (some 8192) (member "locator" v) (member "format" v) ≡ true
    color_checked : is_string_that is_annotation_color (member "color" v) ≡ true
    style_checked : absent_or is_style (member "style" v) ≡ true
    note_checked : absent_or (λ n. is_bounded_string n 16384) (member "note" v) ≡ true
    decorations_checked :
        absent_or (are_decorations (member "note" v)) (member "decorations" v) ≡ true
    times_checked : are_times port v ≡ true

  fields-Checked :
      (fields : Fields)
      → is_publication_annotation port (object fields) ≡ true
      → Checked (object fields)
  unfolding is_publication_annotation
  fields-Checked fields h =
      let v = object fields in
      let schema = is_schema_version (member "schemaVersion" v) in
      let named = is_string_that is_mark_id (member "id" v) in
      let owned = is_string_that is_book_id (member "bookId" v) in
      let format = is_format (member "format" v) in
      let device = is_bounded_string (member "deviceId" v) 128 in
      let located = is_publication_locator (some 8192) (member "locator" v) (member "format" v) in
      let quoted = has_quote (member "locator" v) in
      let color = is_string_that is_annotation_color (member "color" v) in
      let style = absent_or is_style (member "style" v) in
      let remark = absent_or (λ n. is_bounded_string n 16384) (member "note" v) in
      let decorated = absent_or (are_decorations (member "note" v)) (member "decorations" v) in
      let six = schema && named && owned && format && device && located in
      let outer = all_four (six && quoted && color && style) remark decorated _ h in
      let middle = all_four six quoted color style outer.0 in
      let inner = all_four (schema && named && owned) format device located middle.0 in
      let ids = and_left (schema && named) owned inner.0 in
      record {
        id_checked = and_right schema named ids;
        book_id_checked = and_right (schema && named) owned inner.0;
        format_checked = inner.1;
        device_id_checked = inner.2;
        locator_checked = inner.3;
        color_checked = middle.2;
        style_checked = middle.3;
        note_checked = outer.1;
        decorations_checked = outer.2;
        times_checked = outer.3;
      }

  optional_decorations-Reads :
      (remark v : Option Json) (written : Option String)
      → optional text_of remark ≡ some written
      → absent_or (are_decorations remark) v ≡ true
      → (ds : Option (List AnnotationDecoration)) × (optional decorations_of v ≡ some ds)
        × AreDecorations written ds
  optional_decorations-Reads remark none written e h = (none, refl, tt)
  optional_decorations-Reads remark (some v) written e h =
      let (ds, f, k) = decorations-Reads remark (some v) written e h in
      (some ds, rw (f, optional) refl, k)

  Checked-Reads :
      (v : Json)
      → Checked v
      → (a : PublicationAnnotation) × (annotation_of v ≡ some a) × (a.source ≡ v) × IsAnnotation a
  unfolding annotation_of
  Checked-Reads v k =
      let times = times-Checked port v k.times_checked in
      let (i, ei) = string-Reads is_mark_id (member "id" v) k.id_checked in
      let (o, eo) = string-Reads is_book_id (member "bookId" v) k.book_id_checked in
      let (f, ef) = format-Reads (member "format" v) k.format_checked in
      let (d, ed) = bounded_string-Reads (member "deviceId" v) 128 k.device_id_checked in
      let (l, el) =
        publication_locator-Reads (some 8192) (member "locator" v) (member "format" v)
          k.locator_checked in
      let (q, eq) = string-Reads is_annotation_color (member "color" v) k.color_checked in
      let (s, es) =
        optional-Reads is_style style_of style-Reads (member "style" v) k.style_checked in
      let (n, en) =
        optional-Reads (λ x. is_bounded_string x 16384) text_of (λ x. bounded_string-Reads x 16384)
          (member "note" v) k.note_checked in
      let (ds, eds, decorated) =
        optional_decorations-Reads (member "note" v) (member "decorations" v) n en
          k.decorations_checked in
      let (c, ec) = string-Reads (is_iso_text port) (member "createdAt" v) times.0 in
      let (u, eu) = string-Reads (is_iso_text port) (member "updatedAt" v) times.1 in
      let (x, ex) =
        optional-Reads _ text_of (deleted-Reads port (member "updatedAt" v)) (member "deletedAt" v)
          times.3 in
      (
        record {
          id = i;
          book_id = o;
          format = f;
          device_id = d;
          locator = l;
          color = q;
          style = s;
          decorations = ds;
          note = n;
          created_at = c;
          updated_at = u;
          deleted_at = x;
          source = v;
        },
        rw (ei, eo, ef, ed, el, eq, es, eds, en, ec, eu, ex) refl,
        refl,
        record {
          named = string-test is_mark_id (member "id" v) i k.id_checked ei;
          owned = string-test is_book_id (member "bookId" v) o k.book_id_checked eo;
          colored = string-test is_annotation_color (member "color" v) q k.color_checked eq;
          decorated = decorated;
          ordered = not_after-test (member "createdAt" v) (member "updatedAt" v) c u times.2 ec eu;
          deleted_last =
              deleted-test port (member "deletedAt" v) (member "updatedAt" v) x u times.3 ex eu;
        },
      )

-- The type guard of annotations is sound: a value that passes has every property at its type, its
-- identifiers and its colour have their shape, it has one decoration of a style at most, and a note
-- where its list of decorations is empty; it was not created after it was updated, and a deletion
-- stands at the time of the last update.
pub is_publication_annotation-typed :
    (port : MarkPort) (v : Json)
    → is_publication_annotation port v ≡ true
    → (a : PublicationAnnotation) × (annotation_of v ≡ some a) × (a.source ≡ v) × IsAnnotation a
unfolding is_publication_annotation
is_publication_annotation-typed port (object fields) h =
    Checked-Reads port (object fields) (fields-Checked port fields h)
is_publication_annotation-typed port _ h = absurd (cc)
