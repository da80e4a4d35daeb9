-- ===== src/Main/Steps/Events.antt =====
-- The steps that the listeners of main.c and src/seat.c are made of.
use dewlock.Base.{
  ℕ, ◌≡◌, refl, sym, ap, ◌∙◌, subst, none, Bool, List, get_elem?, [], ◌∷◌, All, Option-cases, inl,
  inr, ◌&&◌,
}
use dewlock.Base.Int.{pos, ltb_ℤ}
use dewlock.Keysym.{Keysym}
use dewlock.Render.{View, Surface, Drawn}
use dewlock.Ctx.{Creation}
use dewlock.State.{State, Seat, remove_if_set}
use dewlock.Seat.{
  Keymap, no_keymap, unusable, compiled, keyboard_keymap, put_seat, stop_repeat_of, with_seat,
  stop_repeat, add_seat, keyboard_enter, wl_pointer, seat_handle_name, keyboard_leave, start_repeat,
  keyboard_key, keyboard_modifiers, keyboard_repeat_info, seat_handle_capabilities,
}
use dewlock.Outputs.{
  ext_session_lock_surface_v1_handle_configure, handle_wl_output_geometry, handle_wl_output_scale,
  handle_wl_output_mode, handle_wl_output_description, handle_wl_output_done, handle_wl_output_name,
  add_output, handle_global_remove, release_buffer, frame_done, on_surface,
}
use dewlock.Main.{
  Event, keymap, keyboard_entered, pointed, seat_named, output_mode, described, key, leave,
  modifiers, repeat_info, capabilities, configure, geometry, scaled, done, named, seat_added,
  output_added, global_removed, released, frame, locked, finished, handle_event, handle_events,
  has_exited, ext_session_lock_v1_handle_locked, ext_session_lock_v1_handle_finished,
}
use dewlock.Main.Steps.Core.{Moves, stays, tunes, adds, trans, same, Moves-if, repeat_of}
use dewlock.Main.Steps.Scheduling.{
  damage_state-Moves, repeat-drops, repeat-arms, with_seat-Moves, get_elem?-set, arm_repeat-put,
}
use dewlock.Main.Steps.Handlers.{pwd_handle_key-Moves}

-- A key types a code point with the property.
unfoldable pub KeyOk : (ℕ → Type 0) → Event → Type 0
KeyOk Ok (key i press k c) = Ok c
KeyOk Ok _ = Unit

-- Nothing is due to be repeated at the seat.
abbrev Unset : State → ℕ → Type 0
Unset s i = repeat_of (get_elem? s.seats i) ≡ none

stop_repeat-Unset : (s : State) (i : ℕ) → Unset (stop_repeat s i) i
unfolding stop_repeat stop_repeat_of remove_if_set
stop_repeat-Unset s i = elim (Option-cases (get_elem? s.seats i)) [
  | inl e ↦ rw (e, with_seat) (ap repeat_of e)
  | inr (seat, e) ↦
      rw (e, with_seat)
        (ap repeat_of (get_elem?-set s.seats i seat (record seat { repeat_timer = none }) e))
]

module _ {Ok : ℕ → Type 0} where
  keyboard_keymap-Moves : (k : Keymap) (s : State) → Moves Ok s (keyboard_keymap s k)
  unfolding keyboard_keymap
  keyboard_keymap-Moves no_keymap s = stays refl
  keyboard_keymap-Moves unusable s = stays refl
  keyboard_keymap-Moves compiled s = stays refl

  stop_repeat-Moves : (s : State) (i : ℕ) → Moves Ok s (stop_repeat s i)
  unfolding stop_repeat
  stop_repeat-Moves s i = with_seat-Moves s i _ (repeat-drops s i)

  start_repeat-Moves :
      (s : State) (i : ℕ) (press : Bool) (k : Keysym) (c : ℕ)
      → Ok c
      → Unset s i
      → Moves Ok s (start_repeat s i press k c)
  unfolding start_repeat
  start_repeat-Moves s i press k c ok unset = with_seat-Moves s i _ λ seat e.
      let seat' : Seat = record seat { repeat_sym = k; repeat_codepoint = c } in
      let u : State = put_seat s i seat' in
      Moves-if (press && ltb_ℤ (pos 0) seat.repeat_period_ms)
        (trans {t = u} (tunes i seat seat' e refl (λ old. ok) refl) (
          subst (Moves Ok u) (arm_repeat-put s i seat' seat' seat.repeat_delay_ms) (
            repeat-arms u i seat' seat.repeat_delay_ms (get_elem?-set s.seats i seat seat' e)
              (sym (ap repeat_of e) ∙ unset))))
        same

  keyboard_key-Moves :
      (s : State) (i : ℕ) (press : Bool) (k : Keysym) (c : ℕ)
      → Ok c
      → Moves Ok s (keyboard_key s i press k c)
  unfolding keyboard_key
  keyboard_key-Moves s i press k c ok =
      Moves-if s.xkb.keymap_loaded
        (trans (Moves-if press (pwd_handle_key-Moves s k c ok) same) (
          trans (stop_repeat-Moves _ i)
            (start_repeat-Moves _ i press k c ok (stop_repeat-Unset _ i))))
        same

  keyboard_modifiers-Moves :
      (s : State) (layout_same caps control : Bool)
      → Moves Ok s (keyboard_modifiers s layout_same caps control)
  unfolding keyboard_modifiers
  keyboard_modifiers-Moves s layout_same caps control =
      Moves-if s.xkb.keymap_loaded
        (trans (Moves-if _ (trans (stays refl) (damage_state-Moves _)) same) (stays refl)) same

  on_surface-Moves :
      (f : View → Surface → List Creation → ℕ → Drawn) (s : State) (name : ℕ)
      → Moves Ok s (on_surface f s name)
  unfolding on_surface
  on_surface-Moves f s name = stays refl

  pub handle_event-Moves : (e : Event) (s : State) → KeyOk Ok e → Moves Ok s (handle_event s e)
  unfolding KeyOk handle_event keyboard_enter wl_pointer seat_handle_name handle_wl_output_mode
      handle_wl_output_description keyboard_leave keyboard_repeat_info seat_handle_capabilities
      ext_session_lock_surface_v1_handle_configure handle_wl_output_geometry handle_wl_output_scale
      handle_wl_output_done handle_wl_output_name add_seat add_output handle_global_remove
      release_buffer frame_done ext_session_lock_v1_handle_locked
      ext_session_lock_v1_handle_finished
  handle_event-Moves (keymap i k) s ok = keyboard_keymap-Moves k s
  handle_event-Moves (keyboard_entered i) s ok = same
  handle_event-Moves (pointed i e) s ok = same
  handle_event-Moves (seat_named i text) s ok = same
  handle_event-Moves (output_mode name width height) s ok = same
  handle_event-Moves (described name text) s ok = same
  handle_event-Moves (key i press k c) s ok = keyboard_key-Moves s i press k c ok
  handle_event-Moves (leave i) s ok = stop_repeat-Moves s i
  handle_event-Moves (modifiers layout_same caps control) s ok =
      keyboard_modifiers-Moves s layout_same caps control
  handle_event-Moves (repeat_info i rate delay) s ok =
      with_seat-Moves s i _ λ seat e. tunes i seat _ e refl (λ old. old) refl
  handle_event-Moves (capabilities i pointer keyboard) s ok =
      with_seat-Moves s i _ λ seat e. tunes i seat _ e refl (λ old. old) refl
  handle_event-Moves (configure name width height) s ok = on_surface-Moves _ s name
  handle_event-Moves (geometry name subpixel) s ok = on_surface-Moves _ s name
  handle_event-Moves (scaled name factor) s ok = on_surface-Moves _ s name
  handle_event-Moves (done name objects_made) s ok =
      Moves-if _ (trans (on_surface-Moves _ s name) (stays refl)) (on_surface-Moves _ s name)
  handle_event-Moves (named name text) s ok = on_surface-Moves _ s name
  handle_event-Moves seat_added s ok = adds refl
  handle_event-Moves (output_added name) s ok = stays refl
  handle_event-Moves (global_removed name) s ok = stays refl
  handle_event-Moves (released name entry) s ok = on_surface-Moves _ s name
  handle_event-Moves (frame name) s ok = on_surface-Moves _ s name
  handle_event-Moves locked s ok = stays refl
  handle_event-Moves finished s ok = stays refl

  pub handle_events-Moves :
      (es : List Event) (s : State) → All (KeyOk Ok) es → Moves Ok s (handle_events s es)
  unfolding handle_events
  handle_events-Moves [] s ok = same
  handle_events-Moves (e ∷ es) s ok =
      Moves-if (has_exited (handle_event s e)) (handle_event-Moves e s ok.0)
        (trans (handle_event-Moves e s ok.0) (handle_events-Moves es (handle_event s e) ok.1))
