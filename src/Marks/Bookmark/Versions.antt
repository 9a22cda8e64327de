-- ===== src/Marks/Bookmark/Versions.antt =====
-- The order of the versions of a bookmark.
use omnia_reader.Prelude.{◌≡◌, true, false, some, arith}
use omnia_reader.Prelude.Collation.{is_positive}
use omnia_reader.Prelude.Collation.Orders.{
  IsOrder, by_text-IsOrder, then_by-IsOrder, not_after_of_after, not_after_refl, not_after_trans,
}
use omnia_reader.Marks.Bookmark.{
  PublicationBookmark, MarkPort, compare_bookmarks, prefers_incoming, preferred_bookmark,
}

module _ (port : MarkPort) where
  pub compare_bookmarks-IsOrder : IsOrder (compare_bookmarks port)
  unfolding compare_bookmarks
  compare_bookmarks-IsOrder = then_by-IsOrder (by_text-IsOrder port.coll (λ b. b.updated_at)) (
      then_by-IsOrder (by_text-IsOrder port.coll (λ b. b.device_id))
        (by_text-IsOrder port.coll (λ b. b.id)))

  -- The first is no later a version than the second.
  abbrev pub NotAfter : PublicationBookmark → PublicationBookmark → Type 0
  NotAfter a b = is_positive (compare_bookmarks port a b) ≡ false

  pub NotAfter-refl : (a : PublicationBookmark) → NotAfter a a
  NotAfter-refl a = not_after_refl compare_bookmarks-IsOrder a

  pub NotAfter-trans : (a b c : PublicationBookmark) → NotAfter a b → NotAfter b c → NotAfter a c
  NotAfter-trans a b c h k = not_after_trans compare_bookmarks-IsOrder a b c h k

  -- The version that is kept is no earlier than either.
  pub preferred_bookmark-NotAfter :
      (here incoming : PublicationBookmark)
      → NotAfter here (preferred_bookmark port (some here) incoming)
        × NotAfter incoming (preferred_bookmark port (some here) incoming)
  unfolding preferred_bookmark
  preferred_bookmark-NotAfter here incoming = ground (
    arith,
    NotAfter-refl here,
    NotAfter-refl incoming,
    not_after_of_after compare_bookmarks-IsOrder incoming here,
  )

  -- Of two versions the one that is not preferred is no later.
  pub prefers_incoming-NotAfter :
      (here incoming : PublicationBookmark)
      → prefers_incoming port (some here) incoming ≡ true
      → NotAfter here incoming
  unfolding prefers_incoming
  prefers_incoming-NotAfter here incoming h =
      not_after_of_after compare_bookmarks-IsOrder incoming here h

  pub prefers_here-NotAfter :
      (here incoming : PublicationBookmark)
      → prefers_incoming port (some here) incoming ≡ false
      → NotAfter incoming here
  unfolding prefers_incoming
  prefers_here-NotAfter here incoming h = h
