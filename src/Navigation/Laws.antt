-- ===== src/Navigation/Laws.antt =====
-- What the handlers of the reader's input agree on.
use omnia_reader.Prelude.{
  ◌+◌, ◌*◌, ◌≤◌, ◌≡◌, ◌↔◌, ◌⊎◌, inl, inr, String, true, false, Option, none, some, arith, eq_iff,
}
use omnia_reader.Prelude.Int.{◌-ℤ◌, pos_part, neg_part, abs, -ℤ_parts, parts_apart, self_-ℤ}
use omnia_reader.Navigation.Events.{
  PublicationReadingDirection, ltr, rtl, ReaderNavigationDirection, next, KeyboardEvent, WheelEvent,
  PointerEvent, TouchNavigationGesture, is_touch,
}
use omnia_reader.Navigation.Keyboard.{keyboard_reader_command, keyboard_navigation_direction}
use omnia_reader.Navigation.Pointer.{
  wheel_navigation_direction, wheel_zoom_direction, start_touch_navigation_gesture,
  touch_navigation_direction, opposite,
}

-- No turn of the wheel both turns a page and changes the zoom.
pub wheel-exclusive :
    (event : WheelEvent)
    → (wheel_navigation_direction event ≡ none) ⊎ (wheel_zoom_direction event ≡ none)
unfolding wheel_navigation_direction wheel_zoom_direction
wheel-exclusive event = ground arith

abbrev pub opposite_of : Option ReaderNavigationDirection → Option ReaderNavigationDirection
opposite_of none = none
opposite_of (some direction) = some (opposite direction)

-- A swipe turns the page the other way in a right-to-left publication, and turns a page there
-- exactly when it does in a left-to-right one.
pub touch-mirrored :
    (gesture : TouchNavigationGesture) (event : PointerEvent)
    → touch_navigation_direction gesture event rtl
      ≡ opposite_of (touch_navigation_direction gesture event ltr)
unfolding touch_navigation_direction
touch-mirrored gesture event = ground arith

-- What a swipe to the left has to satisfy to turn to the next page of a left-to-right publication:
-- it goes 48 pixels at least to the left and 1.25 times as far as up or down, ends within 1.2
-- seconds, and is the swipe of the gesture's own finger.
pub record IsLeftSwipe (gesture : TouchNavigationGesture) (event : PointerEvent) : Type 0 where
  pub default_allowed : event.default_prevented ≡ false
  pub by_touch : is_touch event.pointer_type ≡ true
  pub same_finger : event.pointer_id ≡ gesture.pointer_id
  pub not_before : gesture.started_at ≤ event.time_stamp
  pub in_time : event.time_stamp ≤ gesture.started_at + 1200
  pub far_enough :
      pos_part event.client_x + neg_part gesture.start_x + 192
      ≤ pos_part gesture.start_x + neg_part event.client_x
  pub dominant :
      5 * abs (event.client_y -ℤ gesture.start_y) ≤ 4 * abs (event.client_x -ℤ gesture.start_x)

-- A swipe turns to the next page of a left-to-right publication exactly when it is a left swipe.
pub touch_next_iff :
    (gesture : TouchNavigationGesture) (event : PointerEvent)
    → (touch_navigation_direction gesture event ltr ≡ some next) ↔ IsLeftSwipe gesture event
unfolding touch_navigation_direction
touch_next_iff gesture event =
    let moved = event.client_x -ℤ gesture.start_x in
    (
      λ e. ground (arith, parts_apart moved, -ℤ_parts event.client_x gesture.start_x),
      λ h. ground (arith, parts_apart moved, -ℤ_parts event.client_x gesture.start_x),
    )

-- A touch that ends at the horizontal position where it began turns no page.
pub tap-turns_none :
    (start end : PointerEvent) (gesture : TouchNavigationGesture)
    (reading : PublicationReadingDirection)
    → start_touch_navigation_gesture start ≡ some gesture
    → end.client_x ≡ start.client_x
    → touch_navigation_direction gesture end reading ≡ none
unfolding start_touch_navigation_gesture touch_navigation_direction
tap-turns_none start end gesture reading began same = ground (arith, self_-ℤ start.client_x)

abbrev IsArrow : String → Type 0
IsArrow key =
    (key ≡ "ArrowLeft") ⊎ ((key ≡ "ArrowRight") ⊎ ((key ≡ "ArrowUp") ⊎ (key ≡ "ArrowDown")))

direction-IsArrow :
    (event : KeyboardEvent) (reading : PublicationReadingDirection)
    → (keyboard_navigation_direction reading event ≡ none) ⊎ IsArrow event.key
unfolding keyboard_navigation_direction
direction-IsArrow event reading = ground (
  arith,
  eq_iff event.key "ArrowLeft",
  eq_iff event.key "ArrowRight",
  eq_iff event.key "ArrowUp",
  eq_iff event.key "ArrowDown",
)

-- What lower case does to the names of the arrow keys.
pub record LowersArrows (lower : String → String) : Type 0 where
  pub left : lower "ArrowLeft" ≡ "arrowleft"
  pub right : lower "ArrowRight" ≡ "arrowright"
  pub up : lower "ArrowUp" ≡ "arrowup"
  pub down : lower "ArrowDown" ≡ "arrowdown"

arrow-no_command :
    (lower : String → String) (event : KeyboardEvent)
    → LowersArrows lower
    → IsArrow event.key
    → keyboard_reader_command lower event ≡ none
unfolding keyboard_reader_command
arrow-no_command lower event h (inl e) = rw (e, h.left) (ground arith)
arrow-no_command lower event h (inr (inl e)) = rw (e, h.right) (ground arith)
arrow-no_command lower event h (inr (inr (inl e))) = rw (e, h.up) (ground arith)
arrow-no_command lower event h (inr (inr (inr e))) = rw (e, h.down) (ground arith)

-- No key both runs a command and turns a page, when lower case keeps the letters of the arrow
-- keys' names.
pub keyboard-exclusive :
    (lower : String → String) (event : KeyboardEvent) (reading : PublicationReadingDirection)
    → LowersArrows lower
    → (keyboard_reader_command lower event ≡ none)
      ⊎ (keyboard_navigation_direction reading event ≡ none)
keyboard-exclusive lower event reading h = elim (direction-IsArrow event reading) [
  | inl still ↦ inr still
  | inr arrow ↦ inl (arrow-no_command lower event h arrow)
]
