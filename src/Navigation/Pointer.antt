-- ===== src/Navigation/Pointer.antt =====
-- The wheel, and swipes on a touch screen.
use omnia_reader.Prelude.{
  ℕ, ◌-◌, ◌*◌, Bool, true, not, Option, none, some, List, [], ◌∷◌, ltb, eqb, ◌||◌, if◌then◌else◌,
}
use omnia_reader.Prelude.Int.{ℤ, pos, ltb_ℤ, abs, ◌-ℤ◌}
use omnia_reader.Navigation.Events.{
  PublicationReadingDirection, ltr, rtl, ReaderNavigationDirection, previous, next,
  ReaderZoomDirection, zoom_in, zoom_out, WheelEvent, touch, is_touch, PointerEvent, Touch,
  TouchEvent, TouchNavigationGesture, no_target, is_editable_target, is_touch_navigation_control,
}

-- `value === 0`
abbrev pub is_zero : ℤ → Bool
is_zero z = eqb (abs z) 0

unfoldable pub wheel_navigation_direction : WheelEvent → Option ReaderNavigationDirection
wheel_navigation_direction event =
    if event.default_prevented
      || (event.alt_key
          || (event.ctrl_key
              || (event.meta_key
                  || (event.shift_key
                      || (is_editable_target event.target
                          || (is_zero event.delta_y
                              || ltb (abs event.delta_y) (abs event.delta_x)))))))
    then none
    else if ltb_ℤ (pos 0) event.delta_y
    then some next
    else some previous

unfoldable pub wheel_zoom_direction : WheelEvent → Option ReaderZoomDirection
wheel_zoom_direction event =
    if event.default_prevented
      || (event.alt_key
          || (not event.ctrl_key
              || (event.meta_key
                  || (event.shift_key
                      || (is_editable_target event.target
                          || (is_zero event.delta_y
                              || ltb (abs event.delta_y) (abs event.delta_x)))))))
    then none
    else if ltb_ℤ event.delta_y (pos 0)
    then some zoom_in
    else some zoom_out

unfoldable pub start_touch_navigation_gesture : PointerEvent → Option TouchNavigationGesture
start_touch_navigation_gesture event =
    if event.default_prevented
      || (not (is_touch event.pointer_type)
          || (not event.is_primary
              || (not (eqb event.button 0) || is_touch_navigation_control event.target)))
    then none
    else some (record {
      pointer_id = event.pointer_id;
      start_x = event.client_x;
      start_y = event.client_y;
      started_at = event.time_stamp;
    })

abbrev touch_started : TouchEvent → List Touch → Option TouchNavigationGesture
touch_started event (finger ∷ []) = start_touch_navigation_gesture (record {
  button = 0;
  client_x = finger.client_x;
  client_y = finger.client_y;
  default_prevented = event.default_prevented;
  is_primary = true;
  pointer_id = finger.identifier;
  pointer_type = touch;
  target = event.target;
  time_stamp = event.time_stamp;
})
touch_started event _ = none

unfoldable pub start_touch_event_navigation_gesture : TouchEvent → Option TouchNavigationGesture
unfolding start_touch_navigation_gesture
start_touch_event_navigation_gesture event = touch_started event event.touches

-- 48 CSS pixels, in quarters of a pixel
abbrev pub minimum_swipe_distance_px : ℕ
minimum_swipe_distance_px = 192

abbrev pub maximum_swipe_duration_ms : ℕ
maximum_swipe_duration_ms = 1200

abbrev pub opposite : ReaderNavigationDirection → ReaderNavigationDirection
opposite previous = next
opposite next = previous

abbrev pub read_in :
    PublicationReadingDirection → ReaderNavigationDirection → ReaderNavigationDirection
read_in ltr physical = physical
read_in rtl physical = opposite physical

-- The distance of a swipe along an axis: `clientX - startX`.
abbrev pub distance : ℤ → ℤ → ℤ
distance from to = to -ℤ from

unfoldable pub touch_navigation_direction :
    TouchNavigationGesture
    → PointerEvent
    → PublicationReadingDirection
    → Option ReaderNavigationDirection
touch_navigation_direction gesture event reading =
    let horizontal = distance gesture.start_x event.client_x in
    let vertical = distance gesture.start_y event.client_y in
    if event.default_prevented
      || (not (is_touch event.pointer_type)
          || (not (eqb event.pointer_id gesture.pointer_id)
              || (ltb event.time_stamp gesture.started_at
                  || (ltb maximum_swipe_duration_ms (event.time_stamp - gesture.started_at)
                      || (ltb (abs horizontal) minimum_swipe_distance_px
                          -- the factor 1.25 is 5 / 4
                          || ltb (4 * abs horizontal) (5 * abs vertical))))))
    then none
    else some (read_in reading (if ltb_ℤ horizontal (pos 0) then next else previous))

-- The loop over `changedTouches`.
unfoldable pub find_touch : ℕ → List Touch → Option Touch
find_touch id [] = none
find_touch id (finger ∷ fingers) =
    let rest = find_touch id fingers in if eqb finger.identifier id then some finger else rest

-- The source passes no `button`, `isPrimary` and `target` here, and the handler reads none.
abbrev ended_by : TouchEvent → Touch → PointerEvent
ended_by event finger = record {
  button = 0;
  client_x = finger.client_x;
  client_y = finger.client_y;
  default_prevented = event.default_prevented;
  is_primary = true;
  pointer_id = finger.identifier;
  pointer_type = touch;
  target = no_target;
  time_stamp = event.time_stamp;
}

abbrev touch_ended :
    TouchNavigationGesture
    → TouchEvent
    → PublicationReadingDirection
    → Option Touch
    → Option ReaderNavigationDirection
touch_ended gesture event reading none = none
touch_ended gesture event reading (some finger) =
    touch_navigation_direction gesture (ended_by event finger) reading

unfoldable pub touch_event_navigation_direction :
    TouchNavigationGesture
    → TouchEvent
    → PublicationReadingDirection
    → Option ReaderNavigationDirection
unfolding find_touch touch_navigation_direction
touch_event_navigation_direction gesture event reading =
    touch_ended gesture event reading (find_touch gesture.pointer_id event.changed_touches)
