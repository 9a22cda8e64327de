-- ===== src/LogicalBook/Conflict.antt =====
-- Memberships, the conflicts between them, and the id of a conflict.
pub mod Laws
use Prim.Native.Nat.{bit_xor}
use Prim.Native.String
use omnia_reader.Prelude.{
  ℕ, zero, suc, ◌*◌, ◌/◌, ◌%◌, ◌^◌, String, Bool, false, not, Option, none, some, List, [], ◌∷◌,
  ◌++◌, map, ◌==◌, ◌&&◌, keep, gather,
}
use omnia_reader.Prelude.JsMap.{JsMap, values}
use omnia_reader.Prelude.Collation.{Collation, Sign, then_by, sort}
use omnia_reader.Prelude.CodeUnits.{sort_strings, code_points}
use omnia_reader.LogicalBook.Types.{
  PublicationFormat, format_name, variant_at, variant_entries, LogicalBookRecord, MembershipTuple,
  BookEntry,
}

module _ (coll : Collation) where
  abbrev pub compare_memberships : MembershipTuple → MembershipTuple → Sign
  compare_memberships left right =
      then_by (coll.locale_compare left.logical_book_id right.logical_book_id) (
        then_by (coll.locale_compare (format_name left.format) (format_name right.format))
          (coll.locale_compare left.variant_id right.variant_id))

  abbrev pub tuple_of : LogicalBookRecord → PublicationFormat × String → MembershipTuple
  tuple_of book (format, variant_id) = record {
    logical_book_id = book.id;
    format = format;
    variant_id = variant_id;
  }

  unfoldable pub memberships : LogicalBookRecord → List MembershipTuple
  memberships book = sort compare_memberships (map (tuple_of book) (variant_entries book.variants))

-- `value === id`, false on `undefined`
abbrev pub holds_id : Option String → String → Bool
holds_id none id = false
holds_id (some value) id = value == id

-- Whether another book than the proposed one has the variant at the format.
abbrev pub takes_variant : LogicalBookRecord → PublicationFormat → String → BookEntry → Bool
takes_variant proposed format variant_id current =
    not (current.book.id == proposed.id)
    && holds_id (variant_at format current.book.variants) variant_id

abbrev pub conflict_with :
    LogicalBookRecord → JsMap BookEntry → PublicationFormat × String → List MembershipTuple
conflict_with proposed books (format, variant_id) =
    map
      (λ (current : BookEntry). record {
        logical_book_id = current.book.id;
        format = format;
        variant_id = variant_id;
      })
      (keep (takes_variant proposed format variant_id) (values books))

unfoldable pub membership_conflicts : LogicalBookRecord → JsMap BookEntry → List MembershipTuple
unfolding values
membership_conflicts proposed books =
    gather (conflict_with proposed books) (variant_entries proposed.variants)

-- `ids.join('|')`
abbrev pub join_bar : List String → String
join_bar [] = ""
join_bar (id ∷ []) = id
join_bar (id ∷ ids) = String.◌++◌ id (String.◌++◌ "|" (join_bar ids))

-- One round of the hash, on 32-bit words: `hash ^= c; hash = Math.imul(hash, 16777619)`.
abbrev pub mix : ℕ → ℕ → ℕ
mix hash c = (bit_xor hash c * 16777619) % 2 ^ 32

abbrev pub hash_from : ℕ → List ℕ → ℕ
hash_from hash [] = hash
hash_from hash (c ∷ cs) = hash_from (mix hash c) cs

abbrev pub hex_digit : ℕ → List String → String
hex_digit n [] = ""
hex_digit zero (d ∷ ds) = d
hex_digit (suc n) (d ∷ ds) = hex_digit n ds

abbrev pub hex_digits : List String
hex_digits =
    "0" ∷ "1" ∷ "2" ∷ "3" ∷ "4" ∷ "5" ∷ "6" ∷ "7" ∷ "8" ∷ "9" ∷ "a" ∷ "b" ∷ "c" ∷ "d" ∷ "e" ∷ "f"
    ∷ []

-- `n.toString(16).padStart(digits, '0')` for a number of at most so many digits
abbrev pub hex : ℕ → ℕ → String
hex zero n = ""
hex (suc digits) n = String.◌++◌ (hex digits (n / 16)) (hex_digit (n % 16) hex_digits)

unfoldable pub deterministic_conflict_id : List String → List String → String
unfolding sort_strings
deterministic_conflict_id change_ids variant_ids =
    let input = join_bar (sort_strings (change_ids ++ variant_ids)) in
    String.◌++◌ "conflict:membership:" (hex 8 (hash_from 2166136261 (code_points input)))
