-- ===== src/Preferences/Merge.antt =====
-- `mergeReaderPreferenceSyncStates` joins states: order, grouping and repetition do not matter.
use omnia_reader.Prelude.{◌≡◌, refl, ap, sym, ◌∙◌, Bool, true, Option, none, some, arith, chain}
use omnia_reader.Prelude.Collation.{Collation}
use omnia_reader.Preferences.Values.{
  EpubReaderPreferences, PdfReaderPreferences, epub_in_range, pdf_in_range, font_size_ok,
  line_height_ok, paragraph_spacing_ok, margin_ok, max_line_width_ok, zoom_percent_ok,
  default_epub_reader_preferences, default_pdf_reader_preferences,
}
use omnia_reader.Preferences.State.{
  ReaderPreferenceSyncState, epub_ok, pdf_ok, register_ok, is_reader_preference_sync_state,
  merge_reader_preference_sync_states, ReaderPreferenceRegister, value_or, epub_values, pdf_values,
  epub_from_sync_state, pdf_from_sync_state,
}
use omnia_reader.Preferences.Laws.{
  StatesAgree, merged, merged_self, merged_comm, merged_assoc, epub-ok, pdf-ok,
}

module _ (coll : Collation) where
  merged-ok :
      (l r : ReaderPreferenceSyncState)
      → is_reader_preference_sync_state l ≡ true
      → is_reader_preference_sync_state r ≡ true
      → is_reader_preference_sync_state (merged coll l r) ≡ true
  unfolding is_reader_preference_sync_state
  merged-ok l r h k = ground (arith, epub-ok coll l.epub r.epub, pdf-ok coll l.pdf r.pdf)

  merge-merged :
      (l r : ReaderPreferenceSyncState)
      → is_reader_preference_sync_state l ≡ true
      → is_reader_preference_sync_state r ≡ true
      → merge_reader_preference_sync_states coll l r ≡ some (merged coll l r)
  unfolding merge_reader_preference_sync_states
  merge-merged l r h k = rw (h, k) refl

sections :
    (s : ReaderPreferenceSyncState)
    → is_reader_preference_sync_state s ≡ true
    → (epub_ok s.epub ≡ true) × (pdf_ok s.pdf ≡ true)
unfolding is_reader_preference_sync_state
sections s h = ground arith

-- Merging two valid states throws nothing and gives a valid state.
pub merge_reader_preference_sync_states_valid :
    (coll : Collation) (l r : ReaderPreferenceSyncState)
    → is_reader_preference_sync_state l ≡ true
    → is_reader_preference_sync_state r ≡ true
    → (m : ReaderPreferenceSyncState) × (merge_reader_preference_sync_states coll l r ≡ some m)
      × (is_reader_preference_sync_state m ≡ true)
merge_reader_preference_sync_states_valid coll l r h k =
    (merged coll l r, merge-merged coll l r h k, merged-ok coll l r h k)

-- Merging a valid state with itself gives it back.
pub merge_reader_preference_sync_states_self :
    (coll : Collation) (s : ReaderPreferenceSyncState)
    → is_reader_preference_sync_state s ≡ true
    → merge_reader_preference_sync_states coll s s ≡ some s
merge_reader_preference_sync_states_self coll s h =
    merge-merged coll s s h h ∙ ap (λ t. some t) (merged_self coll s)

-- Two devices that merge each other's valid states agree, when the registers that the order of
-- registers does not tell apart are the same.
pub merge_reader_preference_sync_states_comm :
    (coll : Collation) (l r : ReaderPreferenceSyncState)
    → StatesAgree coll l r
    → is_reader_preference_sync_state l ≡ true
    → is_reader_preference_sync_state r ≡ true
    → merge_reader_preference_sync_states coll l r ≡ merge_reader_preference_sync_states coll r l
merge_reader_preference_sync_states_comm coll l r agree h k =
    merge-merged coll l r h k
    ∙ ap (λ t. some t) (merged_comm coll l r agree)
    ∙ sym (merge-merged coll r l k h)

-- Three valid states merge to the same state in either grouping.
pub merge_reader_preference_sync_states_assoc :
    (coll : Collation) (x y z : ReaderPreferenceSyncState)
    → is_reader_preference_sync_state x ≡ true
    → is_reader_preference_sync_state y ≡ true
    → is_reader_preference_sync_state z ≡ true
    → chain
        (merge_reader_preference_sync_states coll x y)
        (λ m. merge_reader_preference_sync_states coll m z)
      ≡ chain
          (merge_reader_preference_sync_states coll y z)
          (λ m. merge_reader_preference_sync_states coll x m)
merge_reader_preference_sync_states_assoc coll x y z h k l =
    ap (λ o. chain o (λ m. merge_reader_preference_sync_states coll m z))
      (merge-merged coll x y h k)
    ∙ merge-merged coll (merged coll x y) z (merged-ok coll x y h k) l
    ∙ ap (λ t. some t) (merged_assoc coll x y z)
    ∙ sym (merge-merged coll x (merged coll y z) h (merged-ok coll y z k l))
    ∙ ap (λ o. chain o (λ m. merge_reader_preference_sync_states coll x m))
        (sym (merge-merged coll y z k l))

value_or-ok {ℓ} :
    {V : Type ℓ} (value_ok : V → Bool) (o : Option (ReaderPreferenceRegister V)) (d : V)
    → value_ok d ≡ true
    → register_ok value_ok o ≡ true
    → value_ok (value_or o d) ≡ true
unfolding register_ok
value_or-ok value_ok none d h k = h
value_or-ok value_ok (some r) d h k = ground arith

epub_values-in_range :
    (s : ReaderPreferenceSyncState) → epub_ok s.epub ≡ true → epub_in_range (epub_values s) ≡ true
epub_values-in_range s h =
    let d = default_epub_reader_preferences in
    let r = s.epub in
    ground (
      arith,
      value_or-ok font_size_ok r.font_size_percent d.font_size_percent refl,
      value_or-ok line_height_ok r.line_height d.line_height refl,
      value_or-ok paragraph_spacing_ok r.paragraph_spacing_rem d.paragraph_spacing_rem refl,
      value_or-ok margin_ok r.margin_percent d.margin_percent refl,
      value_or-ok max_line_width_ok r.max_line_width_rem d.max_line_width_rem refl,
    )

pdf_values-in_range :
    (s : ReaderPreferenceSyncState) → pdf_ok s.pdf ≡ true → pdf_in_range (pdf_values s) ≡ true
pdf_values-in_range s h =
    let d = default_pdf_reader_preferences in
    ground (arith, value_or-ok zoom_percent_ok s.pdf.zoom_percent d.zoom_percent refl)

-- A valid state stands for preferences of either format, with every number in its range, whichever
-- fields it has registers for.
pub from_sync_state_in_range :
    (s : ReaderPreferenceSyncState)
    → is_reader_preference_sync_state s ≡ true
    → ((p : EpubReaderPreferences) × (epub_from_sync_state s ≡ some p) × (epub_in_range p ≡ true))
      × ((p : PdfReaderPreferences) × (pdf_from_sync_state s ≡ some p) × (pdf_in_range p ≡ true))
unfolding epub_from_sync_state pdf_from_sync_state
from_sync_state_in_range s h = (
  (epub_values s, rw h refl, epub_values-in_range s (sections s h).0),
  (pdf_values s, rw h refl, pdf_values-in_range s (sections s h).1),
)
