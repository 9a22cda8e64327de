-- ===== src/Preferences/Tests.antt =====
-- The preference states of a tablet and a phone that share a theme.
use omnia_reader.Prelude.{◌≡◌, refl, String, true, none, some, chain, Option, ℕ}
use omnia_reader.Prelude.CodeUnits.Laws.{code_unit_collation}
use omnia_reader.Preferences.Values.{
  sepia, EpubReaderPreferences, PdfReaderPreferences, epub_in_range, pdf_in_range,
}
use omnia_reader.Preferences.State.{
  ReaderPreferenceRegister, ReaderPreferenceSyncState, is_reader_preference_sync_state,
  merge_reader_preference_sync_states, epub_from_sync_state, pdf_from_sync_state, register_ok,
}
use omnia_reader.Preferences.Laws.{StatesAgree}
use omnia_reader.Preferences.Merge.{
  merge_reader_preference_sync_states_valid, merge_reader_preference_sync_states_comm,
  merge_reader_preference_sync_states_assoc, from_sync_state_in_range,
}

abbrev written {ℓ} : {V : Type ℓ} → V → ℕ → String → Option (ReaderPreferenceRegister V)
written value revision device =
    some (record { value = value; revision = revision; device_id = device; change_id = "change-1" })

abbrev state :
    Option (ReaderPreferenceRegister ℕ)
    → Option (ReaderPreferenceRegister ℕ)
    → ReaderPreferenceSyncState
state font_size zoom = record {
  epub = record {
    theme = written sepia 3 "tablet";
    font_family = none;
    font_size_percent = font_size;
    line_height = none;
    paragraph_spacing_rem = none;
    margin_percent = none;
    max_line_width_rem = none;
    flow = none;
    spread = none;
  };
  pdf = record { zoom_mode = none; zoom_percent = zoom; rotation = none };
}

abbrev tablet : ReaderPreferenceSyncState
tablet = state (written 120000 4 "tablet") none

abbrev phone : ReaderPreferenceSyncState
phone = state none (written 150000 2 "phone")

abbrev desktop : ReaderPreferenceSyncState
desktop = state (written 90000 4 "desktop") none

merge_reader_preference_sync_states_valid_example :
    (m : ReaderPreferenceSyncState) × (merge_reader_preference_sync_states code_unit_collation
        tablet phone
      ≡ some m)
    × (is_reader_preference_sync_state m ≡ true)
unfolding is_reader_preference_sync_state register_ok
merge_reader_preference_sync_states_valid_example =
    merge_reader_preference_sync_states_valid code_unit_collation tablet phone refl refl

agree : StatesAgree code_unit_collation tablet phone
agree = record {
  theme = λ a b e f c. cc;
  font_family = λ a b e f c. cc;
  font_size_percent = λ a b e f c. cc;
  line_height = λ a b e f c. cc;
  paragraph_spacing_rem = λ a b e f c. cc;
  margin_percent = λ a b e f c. cc;
  max_line_width_rem = λ a b e f c. cc;
  flow = λ a b e f c. cc;
  spread = λ a b e f c. cc;
  zoom_mode = λ a b e f c. cc;
  zoom_percent = λ a b e f c. cc;
  rotation = λ a b e f c. cc;
}

merge_reader_preference_sync_states_comm_example :
    merge_reader_preference_sync_states code_unit_collation tablet phone
    ≡ merge_reader_preference_sync_states code_unit_collation phone tablet
unfolding is_reader_preference_sync_state register_ok
merge_reader_preference_sync_states_comm_example =
    merge_reader_preference_sync_states_comm code_unit_collation tablet phone agree refl refl

merge_reader_preference_sync_states_assoc_example :
    chain
      (merge_reader_preference_sync_states code_unit_collation tablet phone)
      (λ m. merge_reader_preference_sync_states code_unit_collation m desktop)
    ≡ chain
        (merge_reader_preference_sync_states code_unit_collation phone desktop)
        (λ m. merge_reader_preference_sync_states code_unit_collation tablet m)
unfolding is_reader_preference_sync_state register_ok
merge_reader_preference_sync_states_assoc_example =
    merge_reader_preference_sync_states_assoc code_unit_collation tablet phone desktop refl refl
      refl

from_sync_state_in_range_example :
    ((p : EpubReaderPreferences) × (epub_from_sync_state tablet ≡ some p)
      × (epub_in_range p ≡ true))
    × ((p : PdfReaderPreferences) × (pdf_from_sync_state tablet ≡ some p) × (pdf_in_range p ≡ true))
unfolding is_reader_preference_sync_state register_ok
from_sync_state_in_range_example = from_sync_state_in_range tablet refl
