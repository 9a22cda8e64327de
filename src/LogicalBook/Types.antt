-- ===== src/LogicalBook/Types.antt =====
-- The records of libs/reader/domain/src/lib/logical-book.ts and publication.ts that the state of
-- the logical library is made of. An optional field is an `Option`, and a field that
-- holds one value only, such as `schemaVersion`, is left out.
use omnia_reader.Prelude.{ℕ, String, Option, none, some, List, [], ◌∷◌, map, gather}

pub data PublicationFormat : Type 0 where
  epub pdf : PublicationFormat

abbrev pub format_name : PublicationFormat → String
format_name epub = "epub"
format_name pdf = "pdf"

pub data CoverState : Type 0 where
  pending available unavailable : CoverState

pub data VariantCoverState : Type 0 where
  cover_available cover_unavailable : VariantCoverState

pub record BookRecord : Type 0 where
  pub id : String
  pub format : PublicationFormat
  pub file_name : String
  pub media_type : String
  pub size : ℕ
  pub title : String
  pub authors : List String
  pub language : Option String
  pub publisher : Option String
  pub identifier : Option String
  pub imported_at : String
  pub last_opened_at : Option String
  pub cover_state : Option VariantCoverState

-- `Partial<Record<PublicationFormat, string>>`
pub record Variants : Type 0 where
  pub epub_id : Option String
  pub pdf_id : Option String

-- `variants[format]`
abbrev pub variant_at : PublicationFormat → Variants → Option String
variant_at epub v = v.epub_id
variant_at pdf v = v.pdf_id

abbrev pub entry_of : PublicationFormat → Option String → List (PublicationFormat × String)
entry_of f none = []
entry_of f (some id) = (f, id) ∷ []

-- `Object.entries(variants)` and `Object.values(variants)`
abbrev pub variant_entries : Variants → List (PublicationFormat × String)
variant_entries v = gather (λ f. entry_of f (variant_at f v)) (epub ∷ pdf ∷ [])

abbrev pub variant_ids : Variants → List String
variant_ids v = map (λ e. e.1) (variant_entries v)

pub record LogicalBookRecord : Type 0 where
  pub id : String
  pub title : String
  pub authors : List String
  pub language : Option String
  pub publisher : Option String
  pub identifier : Option String
  pub imported_at : String
  pub updated_at : String
  pub cover_state : CoverState
  pub variants : Variants

pub record LogicalBookFormatPreference : Type 0 where
  pub logical_book_id : String
  pub preferred_format : PublicationFormat
  pub winning_change_id : String
  pub preference_heads : List String
  pub updated_at : String
  pub device_id : String

pub record MembershipTuple : Type 0 where
  pub logical_book_id : String
  pub format : PublicationFormat
  pub variant_id : String

pub data ReconciliationStatus : Type 0 where
  unresolved resolved : ReconciliationStatus

pub record MembershipReconciliation : Type 0 where
  pub conflict_id : String
  pub status : ReconciliationStatus
  pub conflicting_change_ids : List String
  pub affected_variant_ids : List String
  pub accepted_membership : List MembershipTuple
  pub rejected_membership : List MembershipTuple
  pub resolved_by_change_id : Option String
  pub detected_at : String

pub data LogicalBookChangeKind : Type 0 where
  bootstrap add_variant associate detach delete_variant delete_book : LogicalBookChangeKind
  metadata preference reconcile_membership : LogicalBookChangeKind

pub data LogicalVariantEffect : Type 0 where
  upsert : BookRecord → String → LogicalVariantEffect
  delete : String → PublicationFormat → LogicalVariantEffect

pub record LogicalPreferenceEffect : Type 0 where
  pub logical_book_id : String
  pub preference : Option LogicalBookFormatPreference

pub record LogicalBookChange : Type 0 where
  pub change_id : String
  pub kind : LogicalBookChangeKind
  pub parents : List String
  pub resulting_books : List LogicalBookRecord
  pub removed_logical_book_ids : List String
  pub variant_effects : List LogicalVariantEffect
  pub preference_effects : List LogicalPreferenceEffect
  pub resolves_conflict_ids : List String
  pub created_at : String
  pub device_id : String
  pub app_version : String

pub record LogicalBookStateClock : Type 0 where
  pub change_id : String
  pub created_at : String
  pub device_id : String

pub record BookEntry : Type 0 where
  pub book : LogicalBookRecord
  pub clock : LogicalBookStateClock

pub record RemovedBookEntry : Type 0 where
  pub logical_book_id : String
  pub clock : LogicalBookStateClock

pub record VariantEntry : Type 0 where
  pub variant : BookRecord
  pub object_path : String
  pub clock : LogicalBookStateClock

pub record RemovedVariantEntry : Type 0 where
  pub variant_id : String
  pub format : PublicationFormat
  pub clock : LogicalBookStateClock

pub record PreferenceEntry : Type 0 where
  pub logical_book_id : String
  pub preference : Option LogicalBookFormatPreference
  pub clock : LogicalBookStateClock

pub record ReconciliationEntry : Type 0 where
  pub reconciliation : MembershipReconciliation
  pub clock : LogicalBookStateClock

pub record LogicalBookStateDocument : Type 0 where
  pub heads : List String
  pub books : List BookEntry
  pub removed_books : List RemovedBookEntry
  pub variants : List VariantEntry
  pub removed_variants : List RemovedVariantEntry
  pub preferences : List PreferenceEntry
  pub reconciliations : List ReconciliationEntry

abbrev pub empty_logical_book_state : LogicalBookStateDocument
empty_logical_book_state = record {
  heads = [];
  books = [];
  removed_books = [];
  variants = [];
  removed_variants = [];
  preferences = [];
  reconciliations = [];
}

-- The keys of the maps that are built from a state.
abbrev pub book_key : BookEntry → String
book_key e = e.book.id

abbrev pub removed_book_key : RemovedBookEntry → String
removed_book_key e = e.logical_book_id

abbrev pub variant_key : VariantEntry → String
variant_key e = e.variant.id

abbrev pub removed_variant_key : RemovedVariantEntry → String
removed_variant_key e = e.variant_id

abbrev pub preference_key : PreferenceEntry → String
preference_key e = e.logical_book_id

abbrev pub reconciliation_key : ReconciliationEntry → String
reconciliation_key e = e.reconciliation.conflict_id
