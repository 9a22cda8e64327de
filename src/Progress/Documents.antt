-- ===== src/Progress/Documents.antt =====
-- Progress documents, their paths and the merge of two versions of one. The furthest progression is a
-- whole number of thousandths. `encodeURIComponent` and `JSON.stringify` are parameters.
use omnia_reader.Prelude.{
  ℕ, String, not, ◌==◌, ◌&&◌, Option, none, some, List, [], ◌∷◌, max, if◌then◌else◌,
}
use omnia_reader.Prelude.Collation.{
  Sign, negative, same, positive, is_negative, Collation, sort, then_by,
}
use text.Mathlib.Text.{starts_with}
use omnia_reader.Prelude.Text.{concat}
use omnia_reader.LogicalBook.Types.{PublicationFormat}
use omnia_reader.Marks.Locator.{PublicationLocator}

pub record ReadingProgress : Type 0 where
  pub book_id : String
  pub format : PublicationFormat
  pub device_id : String
  pub locator : PublicationLocator
  pub furthest_total_progression : ℕ
  pub updated_at : String
  pub app_version : String

pub record ProgressMergeResult : Type 0 where
  pub current : Option ReadingProgress
  pub furthest : ℕ
  pub documents : List ReadingProgress

pub record ProgressPort : Type 0 where
  pub coll : Collation
  pub encode_uri_component : String → String
  pub stringify : ReadingProgress → String

abbrev pub progress_root : String
progress_root = ".omnia-reader/progress"

-- `replace(/%2F/g, '%252F')`: a `%` before `2F` becomes `%25`.
abbrev pub double_slashes : String → String
double_slashes String.[] = ""
double_slashes (String.◌∷◌ c s) =
    let rest = double_slashes s in
    if (String.◌∷◌ c "" == "%") && starts_with s "2F" then concat "%25" rest else String.◌∷◌ c rest

module _ (port : ProgressPort) where
  unfoldable pub encode_path_segment : String → String
  encode_path_segment value = double_slashes (port.encode_uri_component value)

  unfoldable pub progress_document_path : ReadingProgress → String
  unfolding encode_path_segment
  progress_document_path progress = concat progress_root (
      concat "/" (
        concat (encode_path_segment progress.book_id)
          (concat "/" (concat (encode_path_segment progress.device_id) ".json"))))

  unfoldable pub selected_progress : ReadingProgress → ReadingProgress → ReadingProgress
  selected_progress left right = elim (port.coll.locale_compare left.updated_at right.updated_at) [
    | positive ↦ left
    | negative ↦ right
    | same ↦
        if is_negative (port.coll.locale_compare (port.stringify left) (port.stringify right))
        then right
        else left
  ]

  abbrev pub with_furthest : ReadingProgress → ℕ → ReadingProgress
  with_furthest p furthest = record {
    book_id = p.book_id;
    format = p.format;
    device_id = p.device_id;
    locator = p.locator;
    furthest_total_progression = furthest;
    updated_at = p.updated_at;
    app_version = p.app_version;
  }

  -- `none` is the TypeError of documents with different paths.
  unfoldable pub merge_progress_document :
      ReadingProgress → ReadingProgress → Option ReadingProgress
  unfolding progress_document_path selected_progress
  merge_progress_document left right =
      if not (progress_document_path left == progress_document_path right)
      then none
      else some (
          with_furthest (selected_progress left right)
            (max left.furthest_total_progression right.furthest_total_progression))

  abbrev pub compare_device_progress : ReadingProgress → ReadingProgress → Sign
  compare_device_progress left right =
      then_by (port.coll.locale_compare right.updated_at left.updated_at)
        (port.coll.locale_compare right.device_id left.device_id)

  abbrev pub first_of : List ReadingProgress → Option ReadingProgress
  first_of [] = none
  first_of (p ∷ ps) = some p

  abbrev pub furthest_onto : ℕ → List ReadingProgress → ℕ
  furthest_onto maximum [] = maximum
  furthest_onto maximum (p ∷ ps) = furthest_onto (max maximum p.furthest_total_progression) ps

  -- `mergeDeviceProgress`, on documents that have passed `isReadingProgress`
  -- (`furthest` is `furthestTotalProgression`)
  unfoldable pub merge_device_progress : List ReadingProgress → ProgressMergeResult
  merge_device_progress documents = record {
    current = first_of (sort compare_device_progress documents);
    furthest = furthest_onto 0 documents;
    documents = documents;
  }
