-- ===== src/Main/Listeners.antt =====
-- The Wayland listeners of main.c and of the files it calls, by event.
use dewlock.Base.{ℕ, Bool, true, false, none, some, List, [], ◌∷◌, if◌then◌else◌}
use dewlock.Base.Int.{ℤ}
use dewlock.Keysym.{Keysym}
use dewlock.State.{State}
use dewlock.Seat.{
  Keymap, PointerEvent, wl_pointer, add_seat, keyboard_enter, seat_handle_name, keyboard_keymap,
  keyboard_leave, keyboard_key, keyboard_modifiers, keyboard_repeat_info, seat_handle_capabilities,
}
use dewlock.Outputs.{
  Entry, ext_session_lock_surface_v1_handle_configure, handle_wl_output_geometry,
  handle_wl_output_scale, handle_wl_output_mode, handle_wl_output_done, handle_wl_output_name,
  handle_wl_output_description, add_output, handle_global_remove, release_buffer, frame_done,
}

-- What the compositor sends.
pub data Event : Type 0 where
  keymap : ℕ → Keymap → Event
  keyboard_entered : ℕ → Event
  key : ℕ → (press : Bool) → Keysym → (codepoint : ℕ) → Event
  leave : ℕ → Event
  modifiers : (layout_same caps_lock control : Bool) → Event
  pointed : ℕ → PointerEvent → Event
  repeat_info : ℕ → (rate delay : ℤ) → Event
  capabilities : ℕ → (pointer keyboard : Bool) → Event
  seat_named : ℕ → List ℕ → Event
  configure : ℕ → (width height : ℕ) → Event
  geometry : ℕ → (subpixel : ℕ) → Event
  output_mode : ℕ → (width height : ℕ) → Event
  scaled : ℕ → (factor : ℕ) → Event
  done : ℕ → (objects_made : Bool) → Event
  named : ℕ → List ℕ → Event
  described : ℕ → List ℕ → Event
  seat_added : Event
  output_added : ℕ → Event
  global_removed : ℕ → Event
  released : ℕ → Entry → Event
  frame : ℕ → Event
  locked finished : Event

unfoldable pub ext_session_lock_v1_handle_locked : State → State
ext_session_lock_v1_handle_locked s = record s { locked = true }

unfoldable pub ext_session_lock_v1_handle_finished : State → State
ext_session_lock_v1_handle_finished s = record s { exited = some 2 }

-- The listeners, by event.
unfoldable pub handle_event : State → Event → State
handle_event s (keymap i k) = keyboard_keymap s k
handle_event s (keyboard_entered i) = keyboard_enter s
handle_event s (key i press sym codepoint) = keyboard_key s i press sym codepoint
handle_event s (leave i) = keyboard_leave s i
handle_event s (modifiers layout_same caps_lock control) =
    keyboard_modifiers s layout_same caps_lock control
handle_event s (pointed i e) = wl_pointer s e
handle_event s (repeat_info i rate delay) = keyboard_repeat_info s i rate delay
handle_event s (capabilities i pointer keyboard) = seat_handle_capabilities s i pointer keyboard
handle_event s (seat_named i text) = seat_handle_name s
handle_event s (configure name width height) =
    ext_session_lock_surface_v1_handle_configure s name width height
handle_event s (geometry name subpixel) = handle_wl_output_geometry s name subpixel
handle_event s (output_mode name width height) = handle_wl_output_mode s
handle_event s (scaled name factor) = handle_wl_output_scale s name factor
handle_event s (done name objects_made) = handle_wl_output_done s name objects_made
handle_event s (named name text) = handle_wl_output_name s name text
handle_event s (described name text) = handle_wl_output_description s
handle_event s seat_added = add_seat s
handle_event s (output_added name) = add_output s name
handle_event s (global_removed name) = handle_global_remove s name
handle_event s (released name entry) = release_buffer s name entry
handle_event s (frame name) = frame_done s name
handle_event s locked = ext_session_lock_v1_handle_locked s
handle_event s finished = ext_session_lock_v1_handle_finished s

abbrev pub has_exited : State → Bool
has_exited s = elim s.exited [ none ↦ false | some code ↦ true ]

-- `wl_display_dispatch`: the events in order, up to a call of `exit`.
unfoldable pub handle_events : State → List Event → State
handle_events s [] = s
handle_events s (e ∷ es) =
    let s' = handle_event s e in
    let rest = handle_events s' es in if has_exited s' then s' else rest
