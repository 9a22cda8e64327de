-- ===== src/Preferences/State.antt =====
-- Registers, their merge, and the preferences that a state of registers stands for.
use Prim.Native.Nat.{compare, Ordering}
use omnia_reader.Prelude.{
  ℕ, ◌^◌, ◌-◌, String, Bool, true, not, Option, none, some, length, ltb, leb, ◌&&◌, if◌then◌else◌,
}
use omnia_reader.Prelude.Collation.{Collation, Sign, negative, same, positive, then_by, is_positive}
use omnia_reader.Prelude.CodeUnits.{code_units}
use omnia_reader.Preferences.Values.{
  ReaderTheme, EpubFontFamily, EpubFlow, EpubSpread, PdfZoomMode, PdfRotation,
  EpubReaderPreferences, PdfReaderPreferences, default_epub_reader_preferences,
  default_pdf_reader_preferences, font_size_ok, line_height_ok, paragraph_spacing_ok, margin_ok,
  max_line_width_ok, zoom_percent_ok, any_value,
}

pub record ReaderPreferenceRegister {ℓ} (V : Type ℓ) : Type ℓ where
  pub value : V
  pub revision : ℕ
  pub device_id : String
  pub change_id : String

abbrev Register {ℓ} : Type ℓ → Type ℓ
Register V = Option (ReaderPreferenceRegister V)

pub record EpubRegisters : Type 0 where
  pub theme : Option (ReaderPreferenceRegister ReaderTheme)
  pub font_family : Option (ReaderPreferenceRegister EpubFontFamily)
  pub font_size_percent : Option (ReaderPreferenceRegister ℕ)
  pub line_height : Option (ReaderPreferenceRegister ℕ)
  pub paragraph_spacing_rem : Option (ReaderPreferenceRegister ℕ)
  pub margin_percent : Option (ReaderPreferenceRegister ℕ)
  pub max_line_width_rem : Option (ReaderPreferenceRegister ℕ)
  pub flow : Option (ReaderPreferenceRegister EpubFlow)
  pub spread : Option (ReaderPreferenceRegister EpubSpread)

pub record PdfRegisters : Type 0 where
  pub zoom_mode : Option (ReaderPreferenceRegister PdfZoomMode)
  pub zoom_percent : Option (ReaderPreferenceRegister ℕ)
  pub rotation : Option (ReaderPreferenceRegister PdfRotation)

pub record ReaderPreferenceSyncState : Type 0 where
  pub epub : EpubRegisters
  pub pdf : PdfRegisters

-- `left.revision - right.revision`, by its sign
abbrev pub compare_revisions : ℕ → ℕ → Sign
compare_revisions a b = elim (compare a b) [
  | Ordering.lt ↦ negative
  | Ordering.eq ↦ same
  | Ordering.gt ↦ positive
]

module _ {ℓ} {V : Type ℓ} (coll : Collation) where
  unfoldable pub compare_registers : ReaderPreferenceRegister V → ReaderPreferenceRegister V → Sign
  compare_registers left right = then_by (compare_revisions left.revision right.revision) (
      then_by (coll.locale_compare left.device_id right.device_id)
        (coll.locale_compare left.change_id right.change_id))

  unfoldable pub preferred_register :
      Option (ReaderPreferenceRegister V)
      → Option (ReaderPreferenceRegister V)
      → Option (ReaderPreferenceRegister V)
  preferred_register none right = right
  preferred_register (some left) none = some left
  preferred_register (some left) (some right) =
      if is_positive (compare_registers right left) then some right else some left

-- `mergeSections` over the fields of each format.
module _ (coll : Collation) where
  abbrev pub merge_epub : EpubRegisters → EpubRegisters → EpubRegisters
  merge_epub l r = record {
    theme = preferred_register coll l.theme r.theme;
    font_family = preferred_register coll l.font_family r.font_family;
    font_size_percent = preferred_register coll l.font_size_percent r.font_size_percent;
    line_height = preferred_register coll l.line_height r.line_height;
    paragraph_spacing_rem = preferred_register coll l.paragraph_spacing_rem r.paragraph_spacing_rem;
    margin_percent = preferred_register coll l.margin_percent r.margin_percent;
    max_line_width_rem = preferred_register coll l.max_line_width_rem r.max_line_width_rem;
    flow = preferred_register coll l.flow r.flow;
    spread = preferred_register coll l.spread r.spread;
  }

  abbrev pub merge_pdf : PdfRegisters → PdfRegisters → PdfRegisters
  merge_pdf l r = record {
    zoom_mode = preferred_register coll l.zoom_mode r.zoom_mode;
    zoom_percent = preferred_register coll l.zoom_percent r.zoom_percent;
    rotation = preferred_register coll l.rotation r.rotation;
  }

-- `isBoundedId`
abbrev pub is_bounded_id : String → Bool
is_bounded_id id = let n = length (code_units id) in ltb 0 n && leb n 256

-- `isPreferenceRegister` and `isPreferenceValue`; a revision is a safe integer.
unfoldable pub register_ok {ℓ} :
    {V : Type ℓ} → (V → Bool) → Option (ReaderPreferenceRegister V) → Bool
register_ok value_ok none = true
register_ok value_ok (some r) =
    leb r.revision (2 ^ 53 - 1)
    && (is_bounded_id r.device_id && (is_bounded_id r.change_id && value_ok r.value))

-- `isPreferenceSection` for each format
abbrev pub epub_ok : EpubRegisters → Bool
epub_ok r =
    register_ok any_value r.theme
    && (register_ok any_value r.font_family
        && (register_ok font_size_ok r.font_size_percent
            && (register_ok line_height_ok r.line_height
                && (register_ok paragraph_spacing_ok r.paragraph_spacing_rem
                    && (register_ok margin_ok r.margin_percent
                        && (register_ok max_line_width_ok r.max_line_width_rem
                            && (register_ok any_value r.flow
                                && register_ok any_value r.spread)))))))

abbrev pub pdf_ok : PdfRegisters → Bool
pdf_ok r =
    register_ok any_value r.zoom_mode
    && (register_ok zoom_percent_ok r.zoom_percent && register_ok any_value r.rotation)

unfoldable pub is_reader_preference_sync_state : ReaderPreferenceSyncState → Bool
is_reader_preference_sync_state state = epub_ok state.epub && pdf_ok state.pdf

-- `none` stands for the TypeError.
unfoldable pub merge_reader_preference_sync_states :
    Collation
    → ReaderPreferenceSyncState
    → ReaderPreferenceSyncState
    → Option ReaderPreferenceSyncState
merge_reader_preference_sync_states coll left right =
    if not (is_reader_preference_sync_state left)
    then none
    else if not (is_reader_preference_sync_state right)
    then none
    else some (record {
      epub = merge_epub coll left.epub right.epub;
      pdf = merge_pdf coll left.pdf right.pdf;
    })

abbrev pub value_or {ℓ} : {V : Type ℓ} → Option (ReaderPreferenceRegister V) → V → V
value_or none d = d
value_or (some r) d = r.value

-- `readerPreferencesFromSyncState` for each format; `none` stands for the TypeError.
abbrev pub epub_values : ReaderPreferenceSyncState → EpubReaderPreferences
epub_values state =
    let d = default_epub_reader_preferences in
    let r = state.epub in
    record {
      theme = value_or r.theme d.theme;
      font_family = value_or r.font_family d.font_family;
      font_size_percent = value_or r.font_size_percent d.font_size_percent;
      line_height = value_or r.line_height d.line_height;
      paragraph_spacing_rem = value_or r.paragraph_spacing_rem d.paragraph_spacing_rem;
      margin_percent = value_or r.margin_percent d.margin_percent;
      max_line_width_rem = value_or r.max_line_width_rem d.max_line_width_rem;
      flow = value_or r.flow d.flow;
      spread = value_or r.spread d.spread;
    }

unfoldable pub epub_from_sync_state : ReaderPreferenceSyncState → Option EpubReaderPreferences
epub_from_sync_state state =
    if not (is_reader_preference_sync_state state) then none else some (epub_values state)

abbrev pub pdf_values : ReaderPreferenceSyncState → PdfReaderPreferences
pdf_values state =
    let d = default_pdf_reader_preferences in
    let r = state.pdf in
    record {
      zoom_mode = value_or r.zoom_mode d.zoom_mode;
      zoom_percent = value_or r.zoom_percent d.zoom_percent;
      rotation = value_or r.rotation d.rotation;
    }

unfoldable pub pdf_from_sync_state : ReaderPreferenceSyncState → Option PdfReaderPreferences
pdf_from_sync_state state =
    if not (is_reader_preference_sync_state state) then none else some (pdf_values state)
