-- ===== src/LogicalBook/Schema.antt =====
-- The second half of `isLogicalBookStateDocument`: the checks between the parts of a state, which
-- `serializeLogicalBookState` and `parseLogicalBookState` make before they write or accept one.
pub mod Dangling
use mathlib.Core.Option
use Prim.Native.String
use omnia_reader.Prelude.{
  String, Bool, true, false, not, Option, none, some, List, [], ◌∷◌, ◌++◌, map, ◌==◌, ◌&&◌, ◌||◌,
  any, all, includes, dedupe, if◌then◌else◌,
}
use omnia_reader.Prelude.JsMap.{JsMap, get, values, keys}
use omnia_reader.Prelude.Collation.{Collation, is_positive, Sign, positive}
use omnia_reader.Prelude.CodeUnits.{sort_strings}
use omnia_reader.LogicalBook.Types.{
  PublicationFormat, epub, pdf, format_name, variant_entries, LogicalBookStateClock, BookEntry,
  VariantEntry, RemovedBookEntry, RemovedVariantEntry, LogicalBookStateDocument,
}
use omnia_reader.LogicalBook.Apply.Change.{maps_of, state_clocks}

abbrev pub same_format : PublicationFormat → PublicationFormat → Bool
same_format epub epub = true
same_format pdf pdf = true
same_format epub pdf = false
same_format pdf epub = false

-- `${format}:${id}`
abbrev pub membership_name : PublicationFormat × String → String
membership_name (format, id) = String.◌++◌ (format_name format) (String.◌++◌ ":" id)

-- One round of the inner loop: `none` stands for `return false`.
unfoldable pub check_membership :
    JsMap VariantEntry → PublicationFormat × String → List String → Option (List String)
check_membership variants (format, id) seen = elim (get id variants) [
  | none ↦ none
  | some entry ↦
      if not (same_format entry.variant.format format)
        || includes (membership_name (format, id)) seen
      then none
      else some (seen ++ membership_name (format, id) ∷ [])
]

unfoldable pub check_entries :
    JsMap VariantEntry → List (PublicationFormat × String) → List String → Option (List String)
unfolding check_membership
check_entries variants [] seen = some seen
check_entries variants (entry ∷ entries) seen = elim (check_membership variants entry seen) [
  | none ↦ none
  | some seen' ↦ check_entries variants entries seen'
]

-- The loop that collects `membershipsSeen`.
unfoldable pub check_books :
    JsMap VariantEntry → List BookEntry → List String → Option (List String)
unfolding check_entries
check_books variants [] seen = some seen
check_books variants (entry ∷ entries) seen =
    elim (check_entries variants (variant_entries entry.book.variants) seen) [
      | none ↦ none
      | some seen' ↦ check_books variants entries seen'
    ]

abbrev pub same_strings : List String → List String → Bool
same_strings [] [] = true
same_strings [] (y ∷ ys) = false
same_strings (x ∷ xs) [] = false
same_strings (x ∷ xs) (y ∷ ys) = x == y && same_strings xs ys

module _ (coll : Collation) where
  unfoldable pub compare_clocks : LogicalBookStateClock → Option LogicalBookStateClock → Sign
  compare_clocks left none = positive
  compare_clocks left (some right) = coll.locale_compare left.change_id right.change_id

  abbrev book_is_newer : JsMap RemovedBookEntry → BookEntry → Bool
  book_is_newer removed e = is_positive (
      compare_clocks e.clock
        (Option.map (λ (r : RemovedBookEntry). r.clock) (get e.book.id removed)))

  abbrev variant_is_newer : JsMap RemovedVariantEntry → VariantEntry → Bool
  variant_is_newer removed e = is_positive (
      compare_clocks e.clock
        (Option.map (λ (r : RemovedVariantEntry). r.clock) (get e.variant.id removed)))

  abbrev variant_is_member : List String → VariantEntry → Bool
  variant_is_member seen e = includes (membership_name (e.variant.format, e.variant.id)) seen

  unfoldable pub is_consistent : LogicalBookStateDocument → Bool
  unfolding maps_of check_books compare_clocks values state_clocks sort_strings
  is_consistent state =
      let m = maps_of state in
      elim (check_books m.variants (values m.books) []) [
        | none ↦ false
        | some seen ↦
            all (book_is_newer m.removed_books) (values m.books)
            && (all (variant_is_newer m.removed_variants) (values m.variants)
                && (all (variant_is_member seen) (values m.variants)
                    && same_strings state.heads
                        (sort_strings (dedupe (map (λ c. c.change_id) (state_clocks state))))))
      ]
