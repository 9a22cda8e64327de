-- ===== src/Preferences/Laws.antt =====
-- Merging the preference states of devices, in any order and grouping.
use omnia_reader.Prelude.{◌≡◌, true, arith}
use omnia_reader.Prelude.Collation.{Collation}
use omnia_reader.Preferences.Values.{
  font_size_ok, line_height_ok, paragraph_spacing_ok, margin_ok, max_line_width_ok, zoom_percent_ok,
  any_value,
}
use omnia_reader.Preferences.State.{
  EpubRegisters, PdfRegisters, ReaderPreferenceSyncState, merge_epub, merge_pdf, epub_ok, pdf_ok,
}
use omnia_reader.Preferences.Register.{
  Agree, preferred_register_self, preferred_register_comm, preferred_register_assoc,
  preferred_register-ok,
}

-- Wherever two states have a register for a field, the registers are the same when the order of
-- registers says so: a change has one value.
pub record StatesAgree (coll : Collation) (l r : ReaderPreferenceSyncState) : Type 0 where
  pub theme : Agree coll l.epub.theme r.epub.theme
  pub font_family : Agree coll l.epub.font_family r.epub.font_family
  pub font_size_percent : Agree coll l.epub.font_size_percent r.epub.font_size_percent
  pub line_height : Agree coll l.epub.line_height r.epub.line_height
  pub paragraph_spacing_rem : Agree coll l.epub.paragraph_spacing_rem r.epub.paragraph_spacing_rem
  pub margin_percent : Agree coll l.epub.margin_percent r.epub.margin_percent
  pub max_line_width_rem : Agree coll l.epub.max_line_width_rem r.epub.max_line_width_rem
  pub flow : Agree coll l.epub.flow r.epub.flow
  pub spread : Agree coll l.epub.spread r.epub.spread
  pub zoom_mode : Agree coll l.pdf.zoom_mode r.pdf.zoom_mode
  pub zoom_percent : Agree coll l.pdf.zoom_percent r.pdf.zoom_percent
  pub rotation : Agree coll l.pdf.rotation r.pdf.rotation

module _ (coll : Collation) where
  abbrev pub merged :
      ReaderPreferenceSyncState → ReaderPreferenceSyncState → ReaderPreferenceSyncState
  merged l r = record { epub = merge_epub coll l.epub r.epub; pdf = merge_pdf coll l.pdf r.pdf }

  pub merged_self : (s : ReaderPreferenceSyncState) → merged s s ≡ s
  merged_self s = λ i. record { epub = epub i; pdf = pdf i }
    where
      epub : merge_epub coll s.epub s.epub ≡ s.epub
      epub = λ i. record {
        theme = preferred_register_self coll s.epub.theme i;
        font_family = preferred_register_self coll s.epub.font_family i;
        font_size_percent = preferred_register_self coll s.epub.font_size_percent i;
        line_height = preferred_register_self coll s.epub.line_height i;
        paragraph_spacing_rem = preferred_register_self coll s.epub.paragraph_spacing_rem i;
        margin_percent = preferred_register_self coll s.epub.margin_percent i;
        max_line_width_rem = preferred_register_self coll s.epub.max_line_width_rem i;
        flow = preferred_register_self coll s.epub.flow i;
        spread = preferred_register_self coll s.epub.spread i;
      }

      pdf : merge_pdf coll s.pdf s.pdf ≡ s.pdf
      pdf = λ i. record {
        zoom_mode = preferred_register_self coll s.pdf.zoom_mode i;
        zoom_percent = preferred_register_self coll s.pdf.zoom_percent i;
        rotation = preferred_register_self coll s.pdf.rotation i;
      }

  pub merged_comm :
      (l r : ReaderPreferenceSyncState) → StatesAgree coll l r → merged l r ≡ merged r l
  merged_comm l r h = λ i. record { epub = epub i; pdf = pdf i }
    where
      epub : merge_epub coll l.epub r.epub ≡ merge_epub coll r.epub l.epub
      epub = λ i. record {
        theme = preferred_register_comm coll l.epub.theme r.epub.theme h.theme i;
        font_family =
            preferred_register_comm coll l.epub.font_family r.epub.font_family h.font_family i;
        font_size_percent =
            preferred_register_comm coll l.epub.font_size_percent r.epub.font_size_percent
              h.font_size_percent i;
        line_height =
            preferred_register_comm coll l.epub.line_height r.epub.line_height h.line_height i;
        paragraph_spacing_rem =
            preferred_register_comm coll l.epub.paragraph_spacing_rem r.epub.paragraph_spacing_rem
              h.paragraph_spacing_rem i;
        margin_percent =
            preferred_register_comm coll l.epub.margin_percent r.epub.margin_percent
              h.margin_percent i;
        max_line_width_rem =
            preferred_register_comm coll l.epub.max_line_width_rem r.epub.max_line_width_rem
              h.max_line_width_rem i;
        flow = preferred_register_comm coll l.epub.flow r.epub.flow h.flow i;
        spread = preferred_register_comm coll l.epub.spread r.epub.spread h.spread i;
      }

      pdf : merge_pdf coll l.pdf r.pdf ≡ merge_pdf coll r.pdf l.pdf
      pdf = λ i. record {
        zoom_mode = preferred_register_comm coll l.pdf.zoom_mode r.pdf.zoom_mode h.zoom_mode i;
        zoom_percent =
            preferred_register_comm coll l.pdf.zoom_percent r.pdf.zoom_percent h.zoom_percent i;
        rotation = preferred_register_comm coll l.pdf.rotation r.pdf.rotation h.rotation i;
      }

  pub merged_assoc :
      (x y z : ReaderPreferenceSyncState) → merged (merged x y) z ≡ merged x (merged y z)
  merged_assoc x y z = λ i. record { epub = epub i; pdf = pdf i }
    where
      epub :
          merge_epub coll (merge_epub coll x.epub y.epub) z.epub
          ≡ merge_epub coll x.epub (merge_epub coll y.epub z.epub)
      epub = λ i. record {
        theme = preferred_register_assoc coll x.epub.theme y.epub.theme z.epub.theme i;
        font_family =
            preferred_register_assoc coll x.epub.font_family y.epub.font_family z.epub.font_family
              i;
        font_size_percent =
            preferred_register_assoc coll x.epub.font_size_percent y.epub.font_size_percent
              z.epub.font_size_percent i;
        line_height =
            preferred_register_assoc coll x.epub.line_height y.epub.line_height z.epub.line_height
              i;
        paragraph_spacing_rem =
            preferred_register_assoc coll x.epub.paragraph_spacing_rem y.epub.paragraph_spacing_rem
              z.epub.paragraph_spacing_rem i;
        margin_percent =
            preferred_register_assoc coll x.epub.margin_percent y.epub.margin_percent
              z.epub.margin_percent i;
        max_line_width_rem =
            preferred_register_assoc coll x.epub.max_line_width_rem y.epub.max_line_width_rem
              z.epub.max_line_width_rem i;
        flow = preferred_register_assoc coll x.epub.flow y.epub.flow z.epub.flow i;
        spread = preferred_register_assoc coll x.epub.spread y.epub.spread z.epub.spread i;
      }

      pdf :
          merge_pdf coll (merge_pdf coll x.pdf y.pdf) z.pdf
          ≡ merge_pdf coll x.pdf (merge_pdf coll y.pdf z.pdf)
      pdf = λ i. record {
        zoom_mode = preferred_register_assoc coll x.pdf.zoom_mode y.pdf.zoom_mode z.pdf.zoom_mode i;
        zoom_percent =
            preferred_register_assoc coll x.pdf.zoom_percent y.pdf.zoom_percent z.pdf.zoom_percent
              i;
        rotation = preferred_register_assoc coll x.pdf.rotation y.pdf.rotation z.pdf.rotation i;
      }

  pub epub-ok :
      (l r : EpubRegisters)
      → epub_ok l ≡ true
      → epub_ok r ≡ true
      → epub_ok (merge_epub coll l r) ≡ true
  epub-ok l r h k = ground (
    arith,
    preferred_register-ok coll any_value l.theme r.theme,
    preferred_register-ok coll any_value l.font_family r.font_family,
    preferred_register-ok coll font_size_ok l.font_size_percent r.font_size_percent,
    preferred_register-ok coll line_height_ok l.line_height r.line_height,
    preferred_register-ok coll paragraph_spacing_ok l.paragraph_spacing_rem r.paragraph_spacing_rem,
    preferred_register-ok coll margin_ok l.margin_percent r.margin_percent,
    preferred_register-ok coll max_line_width_ok l.max_line_width_rem r.max_line_width_rem,
    preferred_register-ok coll any_value l.flow r.flow,
    preferred_register-ok coll any_value l.spread r.spread,
  )

  pub pdf-ok :
      (l r : PdfRegisters) → pdf_ok l ≡ true → pdf_ok r ≡ true → pdf_ok (merge_pdf coll l r) ≡ true
  pdf-ok l r h k = ground (
    arith,
    preferred_register-ok coll any_value l.zoom_mode r.zoom_mode,
    preferred_register-ok coll zoom_percent_ok l.zoom_percent r.zoom_percent,
    preferred_register-ok coll any_value l.rotation r.rotation,
  )
