-- ===== src/Marks/Locator/Guard.antt =====
-- What passes the check of a locator can be read as one.
use omnia_reader.Prelude.{ℕ, ◌≡◌, refl, true, Option, some, [], ◌∷◌, arith}
use omnia_reader.Prelude.Json.{
  Json, number, str, array, object, Items, nil, cons, Reads, optional-Reads, bounded_string-Reads,
  is_bounded_string, is_progression, is_position, text_of, number_of, member,
}
use omnia_reader.Marks.Locator.{
  are_fragments, are_locations, is_text_part, is_locator_text, is_href, is_publication_locator,
  fragments_from, fragments_of, locations_of, locator_text_of, locator_of, every_fragment,
}

some-Reads {ℓ} : {A : Type ℓ} (a : A) → Reads (some a)
some-Reads a = (a, refl)

fragments_from-Reads : (items : Items) → every_fragment items ≡ true → Reads (fragments_from items)
unfolding is_bounded_string
fragments_from-Reads nil h = ([], refl)
fragments_from-Reads (cons (str s) vs) h =
    let (rest, e) = fragments_from-Reads vs (ground arith) in
    (s ∷ rest, rw (e, fragments_from) refl)
fragments_from-Reads (cons _ vs) h = absurd (cc)

fragments-Reads : (v : Option Json) → are_fragments v ≡ true → Reads (fragments_of v)
unfolding are_fragments fragments_of
fragments-Reads (some (array items)) h = fragments_from-Reads items (ground arith)
fragments-Reads _ h = absurd (cc)

progression-Reads : (v : Option Json) → is_progression v ≡ true → Reads (number_of v)
unfolding is_progression
progression-Reads (some (number n)) h = some-Reads n
progression-Reads _ h = absurd (cc)

position-Reads : (v : Option Json) → is_position v ≡ true → Reads (number_of v)
unfolding is_position
position-Reads (some (number n)) h = some-Reads n
position-Reads _ h = absurd (cc)

text_part-Reads : (v : Option Json) → is_text_part v ≡ true → Reads (text_of v)
unfolding is_text_part
text_part-Reads (some (str s)) h = some-Reads s
text_part-Reads _ h = absurd (cc)

href-Reads :
    (limit : Option ℕ) (v format : Option Json) → is_href limit v format ≡ true → Reads (text_of v)
unfolding is_href
href-Reads limit (some (str s)) format h = some-Reads s
href-Reads limit _ format h = absurd (cc)

locations-Reads : (v : Option Json) → are_locations v ≡ true → Reads (locations_of v)
unfolding are_locations locations_of
locations-Reads (some (object fields)) h =
    let (a, ea) =
      optional-Reads are_fragments fragments_of fragments-Reads (member "fragments" (object fields))
        (ground arith) in
    let (b, eb) =
      optional-Reads is_progression number_of progression-Reads
        (member "progression" (object fields)) (ground arith) in
    let (c, ec) =
      optional-Reads is_position number_of position-Reads (member "position" (object fields))
        (ground arith) in
    let (d, ed) =
      optional-Reads is_progression number_of progression-Reads
        (member "totalProgression" (object fields)) (ground arith) in
    (
      record { fragments = a; progression = b; position = c; total_progression = d },
      rw (ea, eb, ec, ed) refl,
    )
locations-Reads _ h = absurd (cc)

locator_text-Reads : (v : Option Json) → is_locator_text v ≡ true → Reads (locator_text_of v)
unfolding is_locator_text locator_text_of
locator_text-Reads (some (object fields)) h =
    let part = optional-Reads is_text_part text_of text_part-Reads in
    let (a, ea) = part (member "before" (object fields)) (ground arith) in
    let (b, eb) = part (member "highlight" (object fields)) (ground arith) in
    let (c, ec) = part (member "after" (object fields)) (ground arith) in
    (record { text_before = a; highlight = b; text_after = c }, rw (ea, eb, ec) refl)
locator_text-Reads _ h = absurd (cc)

pub publication_locator-Reads :
    (limit : Option ℕ) (v format : Option Json)
    → is_publication_locator limit v format ≡ true
    → Reads (locator_of v)
unfolding is_publication_locator locator_of
publication_locator-Reads limit (some (object fields)) format h =
    let (a, ea) = href-Reads limit (member "href" (object fields)) format (ground arith) in
    let (b, eb) = bounded_string-Reads (member "type" (object fields)) 256 (ground arith) in
    let (c, ec) =
      optional-Reads (λ v. is_bounded_string v 512) text_of (λ v. bounded_string-Reads v 512)
        (member "title" (object fields)) (ground arith) in
    let (d, ed) =
      optional-Reads are_locations locations_of locations-Reads (member "locations" (object fields))
        (ground arith) in
    let (t, et) =
      optional-Reads is_locator_text locator_text_of locator_text-Reads
        (member "text" (object fields)) (ground arith) in
    (
      record { href = a; media_type = b; title = c; locations = d; text = t },
      rw (ea, eb, ec, ed, et) refl,
    )
publication_locator-Reads limit _ format h = absurd (cc)
