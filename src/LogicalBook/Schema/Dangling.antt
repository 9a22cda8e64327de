-- ===== src/LogicalBook/Schema/Dangling.antt =====
-- A deleted variant whose book keeps it.
use mathlib.Core.Path.{subst}
use omnia_reader.Prelude.{
  String, ◌≡◌, refl, sym, ap, ◌∙◌, inl, inr, Bool, true, false, Option, none, some, List, [], ◌∷◌,
  ◌++◌, ◌==◌, eq_refl, includes, arith, Bool-cases, if◌then◌else◌, chain,
}
use omnia_reader.Prelude.JsMap.{JsMap, get, remove, values, get-remove}
use omnia_reader.Prelude.Collation.{Collation}
use omnia_reader.LogicalBook.Types.{
  BookRecord, PublicationFormat, epub, pdf, variant_at, variant_entries, entry_of,
  LogicalBookChange, LogicalBookRecord, LogicalBookStateDocument, BookEntry, VariantEntry, delete,
  Variants,
}
use omnia_reader.LogicalBook.Ancestry.{Changes}
use omnia_reader.LogicalBook.Clock.{clock_of, clock_wins, tombstone_clock_wins}
use omnia_reader.LogicalBook.Clock.Laws.{tombstone_clock_wins-none}
use omnia_reader.LogicalBook.Invariant.Variants.{get-drop_inactive}
use omnia_reader.LogicalBook.Apply.Books.{candidates, remove_books, place_books, place_book}
use omnia_reader.LogicalBook.Apply.Effects.{
  apply_variants, apply_variant, perform, active_variant_ids,
}
use omnia_reader.LogicalBook.Apply.Change.{
  StateMaps, maps_of, document_of, settle_books, settle_effects, apply_maps, apply_change,
}
use omnia_reader.LogicalBook.Invariant.Change.{
  StateIsSound, apply_maps-MapsAreSound, maps_of-document_of,
}
use omnia_reader.LogicalBook.Schema.{check_membership, check_entries, check_books, is_consistent}

chain-none {ℓ} :
    {A : Type ℓ} (o : Option A) (k : A → Option A) → ((a : A) → k a ≡ none) → chain o k ≡ none
chain-none none k h = refl
chain-none (some a) k h = h a

ite-none {ℓ} : {A : Type ℓ} (b : Bool) → ◌≡◌ {A = Option A} (if b then none else none) none
ite-none true = refl
ite-none false = refl

entries_split :
    (f : PublicationFormat) (vs : Variants) (v : String)
    → variant_at f vs ≡ some v
    → (before : List (PublicationFormat × String)) × (after : List (PublicationFormat × String))
      × (variant_entries vs ≡ before ++ (f, v) ∷ after)
entries_split epub vs v e = (
  [],
  entry_of pdf vs.pdf_id ++ [],
  ap (λ o. entry_of epub o ++ (entry_of pdf vs.pdf_id ++ [])) e,
)
entries_split pdf vs v e =
    (entry_of epub vs.epub_id, [], ap (λ o. entry_of epub vs.epub_id ++ (entry_of pdf o ++ [])) e)

module _ (variants : JsMap VariantEntry) (f : PublicationFormat) (v : String)
    (gone : get v variants ≡ none) where
  check_membership-none : (seen : List String) → check_membership variants (f, v) seen ≡ none
  unfolding check_membership
  check_membership-none seen = ground arith

  check_entries-append :
      (before after : List (PublicationFormat × String)) (seen : List String)
      → check_entries variants (before ++ (f, v) ∷ after) seen ≡ none
  unfolding check_entries
  check_entries-append [] after seen = ground (arith, check_membership-none seen)
  check_entries-append (x ∷ xs) after seen =
      chain-none (check_membership variants x seen) (check_entries variants (xs ++ (f, v) ∷ after))
        (check_entries-append xs after)

  check_variants :
      (vs : Variants) (seen : List String)
      → variant_at f vs ≡ some v
      → check_entries variants (variant_entries vs) seen ≡ none
  check_variants vs seen e =
      let (before, after, split) = entries_split f vs v e in
      subst (λ l. check_entries variants l seen ≡ none) (sym split)
        (check_entries-append before after seen)

  -- A book whose variant has no record fails the check, wherever it stands.
  check_books-none :
      (id : String) (entry : BookEntry) (books : JsMap BookEntry) (seen : List String)
      → get id books ≡ some entry
      → variant_at f entry.book.variants ≡ some v
      → check_books variants (values books) seen ≡ none
  unfolding check_books values get
  check_books-none id entry [] seen e h = cc
  check_books-none id entry ((j, w) ∷ m) seen e h = elim (Bool-cases (j == id)) [
    | inl here ↦
        let same : w ≡ entry = ground arith in
        let held : variant_at f w.book.variants ≡ some v =
          subst (λ b. variant_at f b.book.variants ≡ some v) (sym same) h in
        ap (continue m) (check_variants w.book.variants seen held)
    | inr later ↦
        chain-none (check_entries variants (variant_entries w.book.variants) seen)
          (check_books variants (values m)) (λ s. check_books-none id entry m s (ground arith) h)
  ]
    where
      continue : JsMap BookEntry → Option (List String) → Option (List String)
      continue m o = chain o (check_books variants (values m))

is_consistent-none :
    (coll : Collation) (state : LogicalBookStateDocument)
    → check_books (maps_of state).variants (values (maps_of state).books) [] ≡ none
    → is_consistent coll state ≡ false
unfolding is_consistent
is_consistent-none coll state h = ground arith

module _ (coll : Collation) (object_path : BookRecord → String) (changes : Changes) where
  -- The change that `deleteLogicalBookVariant` records for a book that keeps another variant.
  abbrev pub deletion :
      LogicalBookChange → LogicalBookRecord → String → PublicationFormat → LogicalBookChange
  deletion base updated v f = record base {
    resulting_books = updated ∷ [];
    removed_logical_book_ids = [];
    variant_effects = delete v f ∷ [];
  }

  module _ (base : LogicalBookChange) (updated : LogicalBookRecord) (v : String)
      (f : PublicationFormat) (entry : BookEntry) (variant : VariantEntry) (m : StateMaps)
      (book_there : get updated.id m.books ≡ some entry)
      (variant_there : get v m.variants ≡ some variant)
      (no_tombstone : get v m.removed_variants ≡ none)
      (book_lost : clock_wins coll changes (clock_of base) (some entry.clock) ≡ false)
      (variant_won : tombstone_clock_wins coll changes
          (clock_of base)
          (some variant.clock)
          true
          false
        ≡ true) where
    deletion-settled : settle_books coll object_path changes (deletion base updated v f) m ≡ m
    unfolding settle_books candidates place_books place_book remove_books
    deletion-settled = ground arith

    deletion-variants :
        (active : List String)
        → (apply_variant coll object_path changes
            (clock_of base)
            active
            (delete v f)
            (record { variants = m.variants; removed = m.removed_variants })).variants
          ≡ remove v m.variants
    unfolding apply_variant perform
    deletion-variants active =
        ground (arith, tombstone_clock_wins-none coll changes (clock_of base) true true)

    deletion-drops_variant :
        get v (settle_effects coll object_path changes (deletion base updated v f) m).variants
        ≡ none
    unfolding settle_effects apply_variants
    deletion-drops_variant =
        let active = active_variant_ids m.books in
        get-drop_inactive active v _
        ∙ ap (λ o. if includes v active then o else none)
            (ap (get v) (deletion-variants active)
              ∙ get-remove v v m.variants
              ∙ ap (λ b. if b then none else get v m.variants) (eq_refl v))
        ∙ ite-none (includes v active)

    deletion-keeps_book :
        (settle_effects coll object_path changes (deletion base updated v f) m).books ≡ m.books
    unfolding settle_effects
    deletion-keeps_book = refl

    deletion-next :
        let next = apply_maps coll object_path changes (deletion base updated v f) m in
        (next.books ≡ m.books) × (get v next.variants ≡ none)
    unfolding apply_maps
    deletion-next = rw deletion-settled (deletion-keeps_book, deletion-drops_variant)

  -- Take a sound state in which a book holds a variant that has a record and no tombstone, and a
  -- deletion of the variant whose clock loses against the book's and wins, as a tombstone, against
  -- the variant's. Applying it keeps the book with its variant and drops the variant's record, and
  -- the state that it gives fails the schema's check of one part against another.
  pub deletion_inconsistent :
      (base : LogicalBookChange) (updated : LogicalBookRecord) (v : String) (f : PublicationFormat)
      (entry : BookEntry) (variant : VariantEntry) (state : LogicalBookStateDocument)
      → StateIsSound state
      → get updated.id (maps_of state).books ≡ some entry
      → variant_at f entry.book.variants ≡ some v
      → get v (maps_of state).variants ≡ some variant
      → get v (maps_of state).removed_variants ≡ none
      → clock_wins coll changes (clock_of base) (some entry.clock) ≡ false
      → tombstone_clock_wins coll changes (clock_of base) (some variant.clock) true false ≡ true
      → let next = apply_change coll object_path changes (deletion base updated v f) state in
        (get updated.id (maps_of next).books ≡ some entry)
        × (get v (maps_of next).variants ≡ none)
        × (is_consistent coll next ≡ false)
  unfolding apply_change
  deletion_inconsistent base updated v f entry variant state h there held recorded untombed lost
        won =
      let m = maps_of state in
      let next = apply_maps coll object_path changes (deletion base updated v f) m in
      let sound =
        apply_maps-MapsAreSound coll object_path changes (deletion base updated v f) m h.parts in
      let back = maps_of-document_of next sound.parts in
      let (books, gone) =
        deletion-next base updated v f entry variant m there recorded untombed lost won in
      let kept : get updated.id (maps_of (document_of next)).books ≡ some entry =
        ap (λ (n : StateMaps). get updated.id n.books) back ∙ ap (get updated.id) books ∙ there in
      let dropped : get v (maps_of (document_of next)).variants ≡ none =
        ap (λ (n : StateMaps). get v n.variants) back ∙ gone in
      (
        kept,
        dropped,
        is_consistent-none coll (document_of next)
            (check_books-none _ f v dropped updated.id entry _ [] kept held),
      )
