-- ===== src/Navigation/Events.antt =====
-- The events that the reader handles, with the fields that the handlers read, and the targets that
-- keep an event for themselves. A coordinate or a delta is a whole number of quarters of a CSS pixel,
-- so that the factor 1.25 of the swipe test is exact. A target's `closest` is a parameter.
use omnia_reader.Prelude.{ℕ, String, Bool, true, false, List}
use omnia_reader.Prelude.Int.{ℤ}

pub data PublicationReadingDirection : Type 0 where
  ltr rtl : PublicationReadingDirection

pub data ReaderNavigationDirection : Type 0 where
  previous next : ReaderNavigationDirection

pub data ReaderZoomDirection : Type 0 where
  zoom_in zoom_out : ReaderZoomDirection

pub data ReaderCommand : Type 0 where
  toc search toggle_bookmark bookmarks annotations settings : ReaderCommand
  fullscreen shortcuts dismiss : ReaderCommand

-- The target of an event: none, one without a `closest` method, or an element, whose `closest`
-- tells for a selector whether an element is found.
pub data EventTarget : Type 0 where
  no_target plain_target : EventTarget
  element_target : (closest : String → Bool) → EventTarget

abbrev finds_closest : EventTarget → String → Bool
finds_closest no_target selector = false
finds_closest plain_target selector = false
finds_closest (element_target closest) selector = closest selector

abbrev editable_selector : String
editable_selector = "input, textarea, select, [contenteditable]:not([contenteditable=\"false\"])"

abbrev control_selector : String
control_selector =
    "a, button, input, textarea, select, summary, label, [role=\"button\"], [role=\"link\"], [contenteditable]:not([contenteditable=\"false\"]), [data-omnia-annotation-id], [data-annotation-id]"

abbrev pub is_editable_target : EventTarget → Bool
is_editable_target target = finds_closest target editable_selector

abbrev pub is_touch_navigation_control : EventTarget → Bool
is_touch_navigation_control target = finds_closest target control_selector

pub record KeyboardEvent : Type 0 where
  pub alt_key : Bool
  pub ctrl_key : Bool
  pub default_prevented : Bool
  pub key : String
  pub meta_key : Bool
  pub repeat : Bool
  pub shift_key : Bool
  pub target : EventTarget

pub record WheelEvent : Type 0 where
  pub alt_key : Bool
  pub ctrl_key : Bool
  pub default_prevented : Bool
  pub delta_x : ℤ
  pub delta_y : ℤ
  pub meta_key : Bool
  pub shift_key : Bool
  pub target : EventTarget

-- `pointerType`
pub data PointerType : Type 0 where
  touch pen mouse : PointerType

abbrev pub is_touch : PointerType → Bool
is_touch touch = true
is_touch pen = false
is_touch mouse = false

pub record PointerEvent : Type 0 where
  pub button : ℕ
  pub client_x : ℤ
  pub client_y : ℤ
  pub default_prevented : Bool
  pub is_primary : Bool
  pub pointer_id : ℕ
  pub pointer_type : PointerType
  pub target : EventTarget
  pub time_stamp : ℕ

pub record Touch : Type 0 where
  pub identifier : ℕ
  pub client_x : ℤ
  pub client_y : ℤ

-- `touches` is read when a touch starts and `changedTouches` when it ends.
pub record TouchEvent : Type 0 where
  pub default_prevented : Bool
  pub target : EventTarget
  pub time_stamp : ℕ
  pub touches : List Touch
  pub changed_touches : List Touch

pub record TouchNavigationGesture : Type 0 where
  pub pointer_id : ℕ
  pub start_x : ℤ
  pub start_y : ℤ
  pub started_at : ℕ
