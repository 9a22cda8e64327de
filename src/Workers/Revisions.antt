-- ===== src/Workers/Revisions.antt =====
-- Revisions of a destination: their scope, and which of them a checkpoint may hold.
use Prim.Native.Char.{code}
use omnia_reader.Prelude.{
  ℕ, String, Bool, true, false, not, ◌&&◌, Option, none, some, List, length, ltb, leb, eqb, all,
  is_empty, if◌then◌else◌,
}
use omnia_reader.Prelude.CodeUnits.{code_units}
use omnia_reader.Prelude.Text.{has_code}
use omnia_reader.AutoSync.State.{progress, bookmark, annotation, SyncActivityKind}
use omnia_reader.Workers.Types.{SyncOperation}

abbrev pub max_revision_length : ℕ
max_revision_length = 1024

unfoldable pub valid_revision : String → Bool
valid_revision value =
    let units = code_units value in
    ltb 0 (length units) && leb (length units) max_revision_length && not (has_code 0 value)

-- The part before the last character with that code point, if there is one.
unfoldable pub before_last : ℕ → String → Option String
before_last k String.[] = none
before_last k (String.◌∷◌ c s) = elim (before_last k s) [
  | none ↦ if eqb (code c) k then some String.[] else none
  | some p ↦ some (String.◌∷◌ c p)
]

unfoldable pub revision_scope : String → Option String
unfolding before_last
revision_scope revision = elim (before_last b':' revision) [
  | none ↦ none
  | some scope ↦ if ltb 0 (length (code_units scope)) then some scope else none
]

abbrev pub is_reading_state_entity : SyncActivityKind → Bool
is_reading_state_entity progress = true
is_reading_state_entity bookmark = true
is_reading_state_entity annotation = true
is_reading_state_entity _ = false

unfoldable pub is_reading_state_only : {P : Type 0} → List (SyncOperation P) → Bool
is_reading_state_only operations =
    not (is_empty operations) && all (λ o. is_reading_state_entity o.entity) operations
