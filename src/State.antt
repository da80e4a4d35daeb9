-- ===== src/State.antt =====
-- `dewlock_state_t` of src/dewlock.h, with what its handlers meet outside: the clock, `calloc`, the
-- pipes to the authentication child. `exited` is the code of a call of `exit`, behind which nothing
-- more runs.
use dewlock.Base.{ℕ, suc, Bool, true, false, Option, none, some, List, [], ◌∷◌}
use dewlock.Base.Int.{ℤ}
use dewlock.SafeBuf.{Sbuf}
use dewlock.Auth.{Answer}
use dewlock.Keysym.{Keysym}
use dewlock.Loop.{Loop, Timespec, Callback, loop_add_timer, loop_remove_timer}
use dewlock.Render.{AuthState, InputState, View, Screen, damage_loop}

-- The part of `dewlock_xkb_t` that the handlers read; `keymap_loaded` says that `xkb.state` is not
-- NULL.
pub record Xkb : Type 0 where
  pub caps_lock : Bool
  pub control : Bool
  pub keymap_loaded : Bool

-- `dewlock_seat_t`. A period of -1 disables key repeat.
pub record Seat : Type 0 where
  pub pointer : Bool
  pub keyboard : Bool
  pub repeat_period_ms : ℤ
  pub repeat_delay_ms : ℤ
  pub repeat_sym : Keysym
  pub repeat_codepoint : ℕ
  pub repeat_timer : Option ℕ

-- What `localtime` returns, as far as the clock shows it; `month` is the month's full name, which
-- `strftime` writes, and `year` counts from 1900.
pub record Tm : Type 0 where
  pub hour : ℕ
  pub min : ℕ
  pub mday : ℕ
  pub month : List ℕ
  pub year : ℕ

-- The readings of CLOCK_MONOTONIC in order, and how many were made; the same for the local time.
-- `allocations` has the outcomes of the `calloc` of timers to come, which then succeed.
-- `next_addr` is an address that was never handed out.
pub record Os : Type 0 where
  pub clock : ℕ → Timespec
  pub readings : ℕ
  pub local_time : ℕ → Tm
  pub local_readings : ℕ
  pub allocations : List Bool
  pub next_addr : ℕ
  pub writes : List Answer
  pub requests : List ℕ
  pub reads : List Answer
  pub replies : List ℕ

-- `dewlock_image_t`; the cairo surface is a number.
pub record Image : Type 0 where
  pub path : List ℕ
  pub output_name : Option (List ℕ)
  pub cairo_surface : ℕ

pub record State : Type 0 where
  pub eventloop : Loop
  pub input_idle_timer : Option ℕ
  pub auth_idle_timer : Option ℕ
  pub clear_password_timer : Option ℕ
  pub clock_timer : Option ℕ
  pub screen : Screen
  pub images : List Image
  pub password : Sbuf
  pub time : List ℕ
  pub date : List ℕ
  pub xkb : Xkb
  pub seats : List Seat
  pub auth_state : AuthState
  pub input_state : InputState
  pub failed_attempts : ℕ
  pub run_display : Bool
  pub locked : Bool
  pub max_stars : ℕ
  pub os : Os
  pub exited : Option ℕ

abbrev pub view : State → View
view s = record {
  auth_state = s.auth_state;
  input_state = s.input_state;
  password_len = s.password.len;
  caps_lock = s.xkb.caps_lock;
  max_stars = s.max_stars;
}

unfoldable pub damage_state : State → State
damage_state s = record s {
  screen = damage_loop (view s) s.screen.surfaces s.screen.creations s.screen.last_len;
}

abbrev pub address : Bool → ℕ → Option ℕ
address true a = some a
address false a = none

-- The address that the next `calloc` returns, if it succeeds.
abbrev pub next_timer : Os → Option ℕ
next_timer os = elim os.allocations [ [] ↦ some os.next_addr | b ∷ bs ↦ address b os.next_addr ]

abbrev pub used_allocation : List Bool → List Bool
used_allocation [] = []
used_allocation (b ∷ bs) = bs

-- The clock is read behind a `calloc` that succeeded.
abbrev pub readings_after : Option ℕ → ℕ → ℕ
readings_after none n = n
readings_after (some a) n = suc n

-- `loop_add_timer(state->eventloop, …)`, which allocates and reads the clock.
unfoldable pub add_timer : State → ℤ → Callback → State × Option ℕ
add_timer s ms callback =
    let (l, timer) =
      loop_add_timer s.eventloop (next_timer s.os) (s.os.clock s.os.readings) ms callback in
    (
      record s {
        eventloop = l;
        os = record (s.os) {
          readings = readings_after timer s.os.readings;
          allocations = used_allocation s.os.allocations;
          next_addr = suc (s.os.next_addr);
        };
      },
      timer,
    )

unfoldable pub without : Loop → Option ℕ → Loop
without l none = l
without l (some a) = (loop_remove_timer l a).0

-- `if (timer) loop_remove_timer(state->eventloop, timer);`
unfoldable pub remove_if_set : State → Option ℕ → State
remove_if_set s timer = record s { eventloop = without s.eventloop timer }
