-- ===== src/LogicalBook/Conflict/Laws.antt =====
-- What the search for conflicts finds, and when a set of books is free of them.
use mathlib.Core.Path.{subst}
use omnia_reader.Prelude.{
  String, ◌≡◌, refl, Bool, true, false, none, some, List, [], ◌∷◌, ◌++◌, map, keep, ◌&&◌, not,
  Option, gather, is_empty, ◌==◌, eq_iff, eq_refl, arith,
}
use omnia_reader.Prelude.JsMap.{
  JsMap, get, put, remove, values, Keyed, get-put, get-remove, get-Keyed,
}
use omnia_reader.LogicalBook.Types.{
  PublicationFormat, epub, pdf, variant_at, entry_of, book_key, LogicalBookRecord, BookEntry,
}
use omnia_reader.LogicalBook.Conflict.{takes_variant, holds_id, conflict_with, membership_conflicts}

module _ {ℓ} {A : Type ℓ} where
  is_empty-append :
      (xs ys : List A) → is_empty (xs ++ ys) ≡ true → (is_empty xs ≡ true) × (is_empty ys ≡ true)
  is_empty-append [] ys h = (refl, h)
  is_empty-append (x ∷ xs) ys h = cc

is_empty-map-keep {ℓ κ} :
    {A : Type ℓ} {V : Type κ} (f : V → A) (p : V → Bool) (k : String) (v : V) (m : JsMap V)
    → is_empty (map f (keep p (values m))) ≡ true
    → get k m ≡ some v
    → p v ≡ false
unfolding get values
is_empty-map-keep f p k v [] h e = cc
is_empty-map-keep f p k v ((i, w) ∷ m) h e = ground (arith, is_empty-map-keep f p k v m)

-- `variant_at` over the two fields
abbrev pick : PublicationFormat → Option String → Option String → Option String
pick epub o p = o
pick pdf o p = p

some_inj {ℓ} : {A : Type ℓ} {a b : A} → some a ≡ some b → a ≡ b
some_inj e = cc

module _ {ℓ} {A : Type ℓ} (g : PublicationFormat × String → List A) where
  gather-entries_epub :
      (o p : Option String) (v : String)
      → o ≡ some v
      → is_empty (gather g (gather (λ f. entry_of f (pick f o p)) (epub ∷ pdf ∷ []))) ≡ true
      → is_empty (g (epub, v)) ≡ true
  gather-entries_epub none p v e h = cc
  gather-entries_epub (some w) p v e h =
      let split = is_empty-append (g (epub, w)) _ h in
      subst (λ u. is_empty (g (epub, u)) ≡ true) (some_inj e) split.0

  gather-entries_pdf :
      (o p : Option String) (v : String)
      → p ≡ some v
      → is_empty (gather g (gather (λ f. entry_of f (pick f o p)) (epub ∷ pdf ∷ []))) ≡ true
      → is_empty (g (pdf, v)) ≡ true
  gather-entries_pdf o none v e h = cc
  gather-entries_pdf none (some w) v e h =
      let split = is_empty-append (g (pdf, w)) _ h in
      subst (λ u. is_empty (g (pdf, u)) ≡ true) (some_inj e) split.0
  gather-entries_pdf (some u) (some w) v e h =
      let split = is_empty-append (g (pdf, w)) _ (is_empty-append (g (epub, u)) _ h).1 in
      subst (λ u. is_empty (g (pdf, u)) ≡ true) (some_inj e) split.0

-- Every book of the map holds its variants alone.
abbrev pub Exclusive : JsMap BookEntry → Type 0
Exclusive books =
    (i j : String) (a b : BookEntry) (f : PublicationFormat) (v : String)
    → get i books ≡ some a
    → get j books ≡ some b
    → variant_at f a.book.variants ≡ some v
    → variant_at f b.book.variants ≡ some v
    → i ≡ j

module _ (proposed : LogicalBookRecord) (books : JsMap BookEntry) where
  conflict_with-empty :
      (f : PublicationFormat) (v : String)
      → is_empty (membership_conflicts proposed books) ≡ true
      → variant_at f proposed.variants ≡ some v
      → is_empty (conflict_with proposed books (f, v)) ≡ true
  unfolding membership_conflicts
  conflict_with-empty epub v h e =
      gather-entries_epub (conflict_with proposed books) proposed.variants.epub_id
        proposed.variants.pdf_id v e h
  conflict_with-empty pdf v h e =
      gather-entries_pdf (conflict_with proposed books) proposed.variants.epub_id
        proposed.variants.pdf_id v e h

  -- A proposed book without conflicts shares no variant with another book.
  pub no_conflict :
      (j : String) (b : BookEntry) (f : PublicationFormat) (v : String)
      → Keyed book_key books
      → is_empty (membership_conflicts proposed books) ≡ true
      → get j books ≡ some b
      → variant_at f proposed.variants ≡ some v
      → variant_at f b.book.variants ≡ some v
      → proposed.id ≡ j
  no_conflict j b f v keyed h got e e' =
      let untaken =
        is_empty-map-keep _ (takes_variant proposed f v) j b books (conflict_with-empty f v h e)
          got in
      let untaken' : (not (b.book.id == proposed.id) && (v == v)) ≡ false =
        subst (λ o. (not (b.book.id == proposed.id) && holds_id o v) ≡ false) e' untaken in
      ground
        (arith, eq_refl v, eq_iff b.book.id proposed.id, get-Keyed book_key j b books keyed got)

-- Setting a book that has no conflict keeps the books exclusive.
pub put-Exclusive :
    (e : BookEntry) (books : JsMap BookEntry)
    → Keyed book_key books
    → Exclusive books
    → is_empty (membership_conflicts e.book books) ≡ true
    → Exclusive (put e.book.id e books)
put-Exclusive e books keyed excl h i j a b f v got_a got_b va vb = ground (
  arith,
  get-put e.book.id i e books,
  get-put e.book.id j e books,
  eq_iff e.book.id i,
  eq_iff e.book.id j,
  excl i j a b f v,
  no_conflict e.book books i a f v keyed h,
  no_conflict e.book books j b f v keyed h,
)

pub remove-Exclusive :
    (k : String) (books : JsMap BookEntry) → Exclusive books → Exclusive (remove k books)
remove-Exclusive k books excl i j a b f v got_a got_b va vb =
    ground (arith, get-remove k i books, get-remove k j books, excl i j a b f v)
