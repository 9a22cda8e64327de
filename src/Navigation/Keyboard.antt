-- ===== src/Navigation/Keyboard.antt =====
-- Keyboard commands and page turns. `toLocaleLowerCase` is a parameter.
use omnia_reader.Prelude.{String, not, Option, none, some, ◌==◌, ◌&&◌, ◌||◌, if◌then◌else◌}
use omnia_reader.Navigation.Events.{
  PublicationReadingDirection, ltr, rtl, ReaderNavigationDirection, previous, next, ReaderCommand,
  toc, search, toggle_bookmark, bookmarks, annotations, settings, fullscreen, shortcuts, dismiss,
  KeyboardEvent, is_editable_target,
}

-- The `switch` on the key.
abbrev plain_command : String → Option ReaderCommand
plain_command key =
    if key == "t"
    then some toc
    else if key == "/"
    then some search
    else if key == "m"
    then some toggle_bookmark
    else if key == "b"
    then some bookmarks
    else if key == "a"
    then some annotations
    else if key == "o"
    then some settings
    else if key == "f"
    then some fullscreen
    else none

unfoldable pub keyboard_reader_command : (String → String) → KeyboardEvent → Option ReaderCommand
keyboard_reader_command to_locale_lower_case event =
    let key = to_locale_lower_case event.key in
    if event.default_prevented || event.repeat
    then none
    else if event.key == "Escape"
    then some dismiss
    else if is_editable_target event.target || event.alt_key
    then none
    else if key == "f" && ((event.ctrl_key || event.meta_key) && not event.shift_key)
    then some search
    else if event.ctrl_key || event.meta_key
    then none
    else if event.key == "?" || (event.key == "/" && event.shift_key)
    then some shortcuts
    else if event.shift_key
    then none
    else plain_command key

abbrev pub left_of : PublicationReadingDirection → ReaderNavigationDirection
left_of ltr = previous
left_of rtl = next

abbrev pub right_of : PublicationReadingDirection → ReaderNavigationDirection
right_of ltr = next
right_of rtl = previous

unfoldable pub keyboard_navigation_direction :
    PublicationReadingDirection → KeyboardEvent → Option ReaderNavigationDirection
keyboard_navigation_direction reading event =
    if event.default_prevented
      || (event.alt_key
          || (event.ctrl_key
              || (event.meta_key || (event.shift_key || is_editable_target event.target))))
    then none
    else if event.key == "ArrowLeft"
    then some (left_of reading)
    else if event.key == "ArrowRight"
    then some (right_of reading)
    else if event.key == "ArrowUp"
    then some previous
    else if event.key == "ArrowDown"
    then some next
    else none
