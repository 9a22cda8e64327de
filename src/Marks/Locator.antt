-- ===== src/Marks/Locator.antt =====
-- Locators, and their check on a value of unknown type. The two files have the check each; that of
-- annotations also bounds the length of the `href`.
pub mod Guard
use omnia_reader.Prelude.{
  ℕ, ◌+◌, String, Bool, true, false, not, ◌==◌, ◌&&◌, ◌||◌, Option, none, some, List, [], ◌∷◌, leb,
  length, if◌then◌else◌,
}
use omnia_reader.Prelude.Json.{
  Json, null, boolean, number, str, array, object, Items, nil, cons, Number, member, is_record,
  text_length, is_bounded_string, is_progression, is_position, text_of, number_of, optional,
  absent_or, ◌>>=◌,
}

pub record LocatorLocations : Type 0 where
  pub fragments : Option (List String)
  pub progression : Option Number
  pub position : Option Number
  pub total_progression : Option Number

pub record LocatorText : Type 0 where
  pub text_before : Option String
  pub highlight : Option String
  pub text_after : Option String

pub record PublicationLocator : Type 0 where
  pub href : String
  pub media_type : String
  pub title : Option String
  pub locations : Option LocatorLocations
  pub text : Option LocatorText

abbrev pub count_items : Items → ℕ
count_items nil = 0
count_items (cons v vs) = 1 + count_items vs

abbrev pub every_fragment : Items → Bool
every_fragment nil = true
every_fragment (cons v vs) = is_bounded_string (some v) 2048 && every_fragment vs

unfoldable pub are_fragments : Option Json → Bool
are_fragments (some (array items)) = leb (count_items items) 16 && every_fragment items
are_fragments _ = false

unfoldable pub are_locations : Option Json → Bool
unfolding are_fragments
are_locations (some (object fields)) =
    absent_or are_fragments (member "fragments" (object fields))
    && absent_or is_progression (member "progression" (object fields))
    && absent_or is_progression (member "totalProgression" (object fields))
    && absent_or is_position (member "position" (object fields))
are_locations _ = false

unfoldable pub is_text_part : Option Json → Bool
is_text_part (some (str s)) = leb (text_length s) 4096
is_text_part _ = false

unfoldable pub is_locator_text : Option Json → Bool
unfolding is_text_part
is_locator_text (some (object fields)) =
    absent_or is_text_part (member "before" (object fields))
    && absent_or is_text_part (member "highlight" (object fields))
    && absent_or is_text_part (member "after" (object fields))
is_locator_text _ = false

abbrev pub is_pdf : Option Json → Bool
is_pdf (some (str s)) = s == "pdf"
is_pdf _ = false

abbrev pub is_within : Option ℕ → ℕ → Bool
is_within none n = true
is_within (some limit) n = leb n limit

unfoldable pub is_href : Option ℕ → Option Json → Option Json → Bool
is_href limit (some (str s)) format =
    is_within limit (text_length s) && not (not (is_pdf format) && leb (text_length s) 0)
is_href limit _ format = false

unfoldable pub is_publication_locator : Option ℕ → Option Json → Option Json → Bool
unfolding is_href are_locations is_locator_text
is_publication_locator limit (some (object fields)) format =
    is_href limit (member "href" (object fields)) format
    && is_bounded_string (member "type" (object fields)) 256
    && absent_or (λ v. is_bounded_string v 512) (member "title" (object fields))
    && absent_or are_locations (member "locations" (object fields))
    && absent_or is_locator_text (member "text" (object fields))
is_publication_locator limit _ format = false

-- The value seen at the types above.
abbrev pub fragments_from : Items → Option (List String)
fragments_from nil = some []
fragments_from (cons (str s) vs) = elim (fragments_from vs) [
  | none ↦ none
  | some rest ↦ some (s ∷ rest)
]
fragments_from (cons _ vs) = none

unfoldable pub fragments_of : Option Json → Option (List String)
fragments_of (some (array items)) = fragments_from items
fragments_of _ = none

unfoldable pub locations_of : Option Json → Option LocatorLocations
unfolding fragments_of
locations_of (some (object fields)) = do
  fragments ← optional fragments_of (member "fragments" (object fields))
  progression ← optional number_of (member "progression" (object fields))
  position ← optional number_of (member "position" (object fields))
  total_progression ← optional number_of (member "totalProgression" (object fields))
  some (record {
    fragments = fragments;
    progression = progression;
    position = position;
    total_progression = total_progression;
  })
locations_of _ = none

unfoldable pub locator_text_of : Option Json → Option LocatorText
locator_text_of (some (object fields)) = do
  text_before ← optional text_of (member "before" (object fields))
  highlight ← optional text_of (member "highlight" (object fields))
  text_after ← optional text_of (member "after" (object fields))
  some (record { text_before = text_before; highlight = highlight; text_after = text_after })
locator_text_of _ = none

unfoldable pub locator_of : Option Json → Option PublicationLocator
unfolding locations_of locator_text_of
locator_of (some (object fields)) = do
  href ← text_of (member "href" (object fields))
  media_type ← text_of (member "type" (object fields))
  title ← optional text_of (member "title" (object fields))
  locations ← optional locations_of (member "locations" (object fields))
  text ← optional locator_text_of (member "text" (object fields))
  some (record {
    href = href;
    media_type = media_type;
    title = title;
    locations = locations;
    text = text;
  })
locator_of _ = none
