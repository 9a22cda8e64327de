-- ===== src/Preferences/Values.antt =====
-- The preferences of the reader and the ranges of their values. A number is a whole number of
-- thousandths: the code takes any finite number between the same bounds.
use omnia_reader.Prelude.{ℕ, Bool, true, ◌&&◌, leb}

pub data ReaderTheme : Type 0 where
  light sepia dark : ReaderTheme

pub data EpubFontFamily : Type 0 where
  serif sans_serif : EpubFontFamily

pub data EpubFlow : Type 0 where
  flow_auto paginated scrolled : EpubFlow

pub data EpubSpread : Type 0 where
  spread_none spread_auto : EpubSpread

pub data PdfZoomMode : Type 0 where
  fit_width fit_page custom : PdfZoomMode

pub data PdfRotation : Type 0 where
  degrees_0 degrees_90 degrees_180 degrees_270 : PdfRotation

pub record EpubReaderPreferences : Type 0 where
  pub theme : ReaderTheme
  pub font_family : EpubFontFamily
  pub font_size_percent : ℕ
  pub line_height : ℕ
  pub paragraph_spacing_rem : ℕ
  pub margin_percent : ℕ
  pub max_line_width_rem : ℕ
  pub flow : EpubFlow
  pub spread : EpubSpread

pub record PdfReaderPreferences : Type 0 where
  pub zoom_mode : PdfZoomMode
  pub zoom_percent : ℕ
  pub rotation : PdfRotation

abbrev pub default_epub_reader_preferences : EpubReaderPreferences
default_epub_reader_preferences = record {
  theme = light;
  font_family = serif;
  font_size_percent = 100000;
  line_height = 1550;
  paragraph_spacing_rem = 750;
  margin_percent = 5000;
  max_line_width_rem = 44000;
  flow = flow_auto;
  spread = spread_auto;
}

abbrev pub default_pdf_reader_preferences : PdfReaderPreferences
default_pdf_reader_preferences = record {
  zoom_mode = fit_width;
  zoom_percent = 100000;
  rotation = degrees_0;
}

abbrev pub is_number_in_range : ℕ → ℕ → ℕ → Bool
is_number_in_range value minimum maximum = leb minimum value && leb value maximum

-- `isPreferenceValue`, a test for each field that is a number; the other fields have no values
-- beside those of their types.
abbrev pub font_size_ok : ℕ → Bool
font_size_ok value = is_number_in_range value 50000 300000

abbrev pub line_height_ok : ℕ → Bool
line_height_ok value = is_number_in_range value 500 4000

abbrev pub paragraph_spacing_ok : ℕ → Bool
paragraph_spacing_ok value = is_number_in_range value 0 10000

abbrev pub margin_ok : ℕ → Bool
margin_ok value = is_number_in_range value 0 40000

abbrev pub max_line_width_ok : ℕ → Bool
max_line_width_ok value = is_number_in_range value 10000 200000

abbrev pub zoom_percent_ok : ℕ → Bool
zoom_percent_ok value = is_number_in_range value 10000 1000000

abbrev pub any_value {ℓ} : {A : Type ℓ} → A → Bool
any_value value = true

-- All the values of a set of preferences are in range.
abbrev pub epub_in_range : EpubReaderPreferences → Bool
epub_in_range p =
    font_size_ok p.font_size_percent
    && (line_height_ok p.line_height
        && (paragraph_spacing_ok p.paragraph_spacing_rem
            && (margin_ok p.margin_percent && max_line_width_ok p.max_line_width_rem)))

abbrev pub pdf_in_range : PdfReaderPreferences → Bool
pdf_in_range p = zoom_percent_ok p.zoom_percent
