-- ===== src/Progress/Merge.antt =====
-- Two versions of one progress document merge alike on both sides, and the furthest position stays.
use omnia_reader.Prelude.{ℕ, ◌≤◌, ◌≡◌, not, ◌==◌, some, max, arith, eq_iff, ap, ◌∙◌, if-holds}
use omnia_reader.Prelude.Collation.{same}
use omnia_reader.Progress.Documents.{
  ReadingProgress, ProgressPort, progress_document_path, selected_progress, with_furthest,
  merge_progress_document,
}

module _ (port : ProgressPort) (left right : ReadingProgress)
    (agree : port.coll.locale_compare left.updated_at right.updated_at ≡ same
      → port.coll.locale_compare (port.stringify left) (port.stringify right) ≡ same
      → left ≡ right) where
  selected_comm : selected_progress port left right ≡ selected_progress port right left
  unfolding selected_progress
  selected_comm = ground (
    arith,
    agree,
    port.coll.compare_flip left.updated_at right.updated_at,
    port.coll.compare_flip (port.stringify left) (port.stringify right),
  )

  max_comm : (a b : ℕ) → max a b ≡ max b a
  max_comm a b = omega arith

  merged_comm : merge_progress_document port left right ≡ merge_progress_document port right left
  unfolding merge_progress_document
  merged_comm =
      let l = progress_document_path port left in
      let r = progress_document_path port right in
      if-holds (λ o. o ≡ merge_progress_document port right left) (not (l == r)) _ _
        (λ different. ground (arith, eq_iff l r, eq_iff r l))
        (λ alike.
          ap
            (λ p. some (
              with_furthest port p
                (max left.furthest_total_progression right.furthest_total_progression)))
            selected_comm
          ∙ ground (
            arith,
            eq_iff l r,
            eq_iff r l,
            max_comm left.furthest_total_progression right.furthest_total_progression,
          ))

-- Two devices that merge each other's version of a progress document get the same document, or both
-- get the error, when versions of one time whose texts the collation does not tell apart are the same;
-- and the merged document is at least as far as each version.
pub merge_progress_document_comm :
    (port : ProgressPort) (left right : ReadingProgress)
    → (port.coll.locale_compare left.updated_at right.updated_at ≡ same
        → port.coll.locale_compare (port.stringify left) (port.stringify right) ≡ same
        → left ≡ right)
    → (merge_progress_document port left right ≡ merge_progress_document port right left)
      × ((merged : ReadingProgress)
          → merge_progress_document port left right ≡ some merged
          → max left.furthest_total_progression right.furthest_total_progression
            ≤ merged.furthest_total_progression)
unfolding merge_progress_document
merge_progress_document_comm port left right agree =
    (merged_comm port left right agree, λ merged e. ground arith)
