-- ===== src/Navigation/Tests.antt =====
-- Swipes, keys and the wheel, at concrete events.
use omnia_reader.Prelude.{ℕ, ◌≡◌, ◌↔◌, String, true, false, some, ◌==◌, if◌then◌else◌}
use omnia_reader.Prelude.Int.{ℤ, pos}
use omnia_reader.Navigation.Events.{
  ltr, next, no_target, KeyboardEvent, WheelEvent, PointerEvent, TouchNavigationGesture, touch,
}
use omnia_reader.Navigation.Pointer.{touch_navigation_direction}
use omnia_reader.Navigation.Laws.{IsLeftSwipe, touch_next_iff}

abbrev zooming : WheelEvent
zooming = record {
  alt_key = false;
  ctrl_key = true;
  default_prevented = false;
  delta_x = pos 0;
  delta_y = pos 12;
  meta_key = false;
  shift_key = false;
  target = no_target;
}

abbrev finger_at : ℤ → ℕ → PointerEvent
finger_at x time = record {
  button = 0;
  client_x = x;
  client_y = pos 40;
  default_prevented = false;
  is_primary = true;
  pointer_id = 7;
  pointer_type = touch;
  target = no_target;
  time_stamp = time;
}

abbrev put_down : TouchNavigationGesture
put_down = record { pointer_id = 7; start_x = pos 400; start_y = pos 40; started_at = 1000 }

touch_next_iff_example :
    (touch_navigation_direction put_down (finger_at (pos 100) 1300) ltr ≡ some next)
    ↔ IsLeftSwipe put_down (finger_at (pos 100) 1300)
touch_next_iff_example = touch_next_iff put_down (finger_at (pos 100) 1300)

-- English lower case, on the names that the reader tests.
abbrev lower : String → String
lower key =
    if key == "ArrowLeft"
    then "arrowleft"
    else if key == "ArrowRight"
    then "arrowright"
    else if key == "ArrowUp"
    then "arrowup"
    else if key == "ArrowDown"
    then "arrowdown"
    else key

abbrev pressed : KeyboardEvent
pressed = record {
  alt_key = false;
  ctrl_key = false;
  default_prevented = false;
  key = "ArrowLeft";
  meta_key = false;
  repeat = false;
  shift_key = false;
  target = no_target;
}
