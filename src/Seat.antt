-- ===== src/Seat.antt =====
-- src/seat.c: the keyboard of a seat and its key repeat. A seat is the entry at its index among
-- those that `handle_global` allocated. What libxkbcommon answers (the keysym and the code point of a
-- key, whether modifiers are active) comes with the event. The handlers of the pointer but `enter`,
-- `keyboard_enter` and `seat_handle_name` do nothing.
pub mod Repeat
use dewlock.Base.{
  ℕ, Bool, true, false, ◌&&◌, ◌||◌, not, none, some, [], ◌∷◌, ◌++◌, xor, if◌then◌else◌, get_elem?,
  set,
}
use dewlock.Base.Int.{ℤ, pos, negsuc, ltb_ℤ, quot_by}
use dewlock.Loop.{Callback}
use dewlock.Keysym.{Keysym, other}
use dewlock.State.{State, Seat, damage_state, add_timer, remove_if_set}
use dewlock.Password.{pwd_handle_key}

-- What `keyboard_keymap` meets: no keymap or a format it does not know, a failure that makes it
-- exit, or a keymap that compiles.
pub data Keymap : Type 0 where
  no_keymap unusable compiled : Keymap

unfoldable pub keyboard_keymap : State → Keymap → State
keyboard_keymap s no_keymap = record s { xkb = record (s.xkb) { keymap_loaded = false } }
keyboard_keymap s unusable = record s { exited = some 1 }
keyboard_keymap s compiled = record s { xkb = record (s.xkb) { keymap_loaded = true } }

-- `calloc` of a seat: all zero.
abbrev pub new_seat : Seat
new_seat = record {
  pointer = false;
  keyboard = false;
  repeat_period_ms = pos 0;
  repeat_delay_ms = pos 0;
  repeat_sym = other 0;
  repeat_codepoint = 0;
  repeat_timer = none;
}

-- `handle_global` for a seat. Nothing lists the seats: the data of the listeners of each points to it.
unfoldable pub add_seat : State → State
add_seat s = record s { seats = s.seats ++ new_seat ∷ [] }

unfoldable pub keyboard_enter : State → State
keyboard_enter s = s

-- The calls of `pointer_listener`.
pub data PointerEvent : Type 0 where
  pointer_enter pointer_leave pointer_motion pointer_button pointer_axis pointer_frame :
      PointerEvent
  pointer_axis_source pointer_axis_stop pointer_axis_discrete : PointerEvent

-- `wl_pointer_enter` asks the compositor for no cursor; none of them changes the program's state.
unfoldable pub wl_pointer : State → PointerEvent → State
wl_pointer s e = s

-- `seat->… = …`
abbrev pub put_seat : State → ℕ → Seat → State
put_seat s i seat = record s { seats = set s.seats i seat }

unfoldable pub stop_repeat_of : State → ℕ → Seat → State
stop_repeat_of s i seat =
    put_seat (remove_if_set s seat.repeat_timer) i (record seat { repeat_timer = none })

-- `f` at the seat that the data pointer selects.
abbrev pub with_seat : State → ℕ → (Seat → State) → State
with_seat s i f = elim (get_elem? s.seats i) [ none ↦ s | some seat ↦ f seat ]

unfoldable pub stop_repeat : State → ℕ → State
stop_repeat s i = with_seat s i (λ seat. stop_repeat_of s i seat)

unfoldable pub keyboard_leave : State → ℕ → State
unfolding stop_repeat
keyboard_leave s i = stop_repeat s i

-- `seat->repeat_timer = loop_add_timer(…, ms, keyboard_repeat, seat)`
unfoldable pub arm_repeat : State → ℕ → Seat → ℤ → State
arm_repeat s i seat ms =
    let (s', timer) = add_timer s ms (Callback.keyboard_repeat i) in
    put_seat s' i (record seat { repeat_timer = timer })

unfoldable pub keyboard_repeat : State → ℕ → State
keyboard_repeat s i = with_seat s i (λ seat.
    pwd_handle_key (arm_repeat s i seat seat.repeat_period_ms) seat.repeat_sym
      seat.repeat_codepoint)

-- The end of `keyboard_key`: `press` says that the key went down.
unfoldable pub start_repeat : State → ℕ → Bool → Keysym → ℕ → State
start_repeat s i press sym codepoint = with_seat s i (λ seat.
    let armed =
      arm_repeat s i (record seat { repeat_sym = sym; repeat_codepoint = codepoint })
        seat.repeat_delay_ms in
    if press && ltb_ℤ (pos 0) seat.repeat_period_ms then armed else s)

unfoldable pub keyboard_key : State → ℕ → Bool → Keysym → ℕ → State
keyboard_key s i press sym codepoint =
    let s₁ = if press then pwd_handle_key s sym codepoint else s in
    if s.xkb.keymap_loaded then start_repeat (stop_repeat s₁ i) i press sym codepoint else s

-- What libxkbcommon says of the layout and the modifiers after the update.
unfoldable pub keyboard_modifiers : State → (layout_same caps_lock control : Bool) → State
keyboard_modifiers s layout_same caps_lock control =
    let changed = damage_state (record s { xkb = record (s.xkb) { caps_lock = caps_lock } }) in
    let s₁ = if xor caps_lock s.xkb.caps_lock || not layout_same then changed else s in
    if s.xkb.keymap_loaded then record s₁ { xkb = record (s₁.xkb) { control = control } } else s

-- `1000 / rate`
unfoldable pub keyboard_repeat_info : State → ℕ → (rate delay : ℤ) → State
keyboard_repeat_info s i rate delay = with_seat s i (λ seat. put_seat s i (record seat {
  repeat_period_ms = if ltb_ℤ (pos 0) rate then quot_by 1000 rate else negsuc 0;
  repeat_delay_ms = delay;
}))

-- The capabilities say whether the seat has a pointer and a keyboard now.
unfoldable pub seat_handle_capabilities : State → ℕ → (pointer keyboard : Bool) → State
seat_handle_capabilities s i pointer keyboard =
    with_seat s i (λ seat. put_seat s i (record seat { pointer = pointer; keyboard = keyboard }))

unfoldable pub seat_handle_name : State → State
seat_handle_name s = s
