-- ===== src/Marks/Annotation/Versions.antt =====
-- The order of the versions of an annotation.
use omnia_reader.Prelude.{String, ◌≡◌, some, arith}
use omnia_reader.Prelude.Json.{Json}
use omnia_reader.Prelude.Collation.{same}
use omnia_reader.Prelude.Collation.Orders.{IsOrder, by_text-IsOrder, then_by-IsOrder}
use omnia_reader.Marks.Bookmark.{MarkPort}
use omnia_reader.Marks.Annotation.{
  PublicationAnnotation, stable_json, compare_annotations, preferred_annotation,
}

module _ (port : MarkPort) (leaf : Json → String) where
  compare_annotations-IsOrder : IsOrder (compare_annotations port leaf)
  unfolding compare_annotations
  compare_annotations-IsOrder = then_by-IsOrder (by_text-IsOrder port.coll (λ a. a.updated_at)) (
      then_by-IsOrder (by_text-IsOrder port.coll (λ a. a.device_id))
        (by_text-IsOrder port.coll (λ a. stable_json leaf a.source)))

  -- Whichever of two versions a device had, it keeps one that the order does not tell apart.
  preferred-same :
      (a b : PublicationAnnotation)
      → compare_annotations port leaf
          (preferred_annotation port leaf (some a) b)
          (preferred_annotation port leaf (some b) a)
        ≡ same
  unfolding preferred_annotation
  preferred-same a b = ground (
    arith,
    compare_annotations-IsOrder.order_flip a b,
    compare_annotations-IsOrder.order_refl a,
    compare_annotations-IsOrder.order_refl b,
  )

  same-parts :
      (a b : PublicationAnnotation)
      → compare_annotations port leaf a b ≡ same
      → (port.coll.locale_compare a.updated_at b.updated_at ≡ same)
        × (port.coll.locale_compare a.device_id b.device_id ≡ same)
        × (port.coll.locale_compare (stable_json leaf a.source) (stable_json leaf b.source) ≡ same)
  unfolding compare_annotations
  same-parts a b h = ground arith

-- Two devices that take each other's version of an annotation then have versions of one time, of one
-- device and of one stable JSON text, as far as the collation tells texts apart; and to take the same
-- version again changes nothing.
pub preferred_annotation-converges :
    (port : MarkPort) (leaf : Json → String) (a b : PublicationAnnotation)
    → let mine = preferred_annotation port leaf (some a) b in
      let theirs = preferred_annotation port leaf (some b) a in
      ((port.coll.locale_compare mine.updated_at theirs.updated_at ≡ same)
        × (port.coll.locale_compare mine.device_id theirs.device_id ≡ same)
        × (port.coll.locale_compare (stable_json leaf mine.source) (stable_json leaf theirs.source)
            ≡ same))
      × (preferred_annotation port leaf (some mine) b ≡ mine)
unfolding preferred_annotation
preferred_annotation-converges port leaf a b = (
  same-parts port leaf (preferred_annotation port leaf (some a) b)
      (preferred_annotation port leaf (some b) a) (preferred-same port leaf a b),
  ground (arith, (compare_annotations-IsOrder port leaf).order_refl b),
)
