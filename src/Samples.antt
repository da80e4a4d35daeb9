-- ===== src/Samples.antt =====
-- A small locker for the tests: one output, one seat, the three descriptors of main.c.
use dewlock.Base.{ℕ, true, false, none, [], ◌∷◌, replicate, codes, refl, arith}
use dewlock.Base.Int.{pos}
use dewlock.SafeBuf.{Sbuf}
use dewlock.Password.Text.{text, Holds}
use dewlock.Keysym.{other, key_u}
use dewlock.Loop.{Loop, FdCallback, Mask, no_events, Pollfd}
use dewlock.Render.{idle, pristine}
use dewlock.Outputs.{new_surface}
use dewlock.State.{Seat, Os, State}
use dewlock.Main.{Round, key, configure, frame}

abbrev pub input : Mask
input = record { pollin = true; hup = false }

abbrev pub descriptor : ℕ → Pollfd
descriptor n = record { fd = n; events = input; revents = no_events }

abbrev pub sample_loop : Loop
sample_loop = record {
  fds = descriptor 3 ∷ descriptor 4 ∷ descriptor 5 ∷ [];
  fd_length = 3;
  fd_capacity = 3;
  fd_events = FdCallback.display_in ∷ FdCallback.reply_in ∷ FdCallback.term_in ∷ [];
  timers = [];
}

-- Ten bytes, none in use.
abbrev pub empty_password : Sbuf
empty_password = record { buf = replicate 10 0; cap = 10; len = 0 }

pub empty-Holds : Holds empty_password []
unfolding text
empty-Holds = record {
  rest = replicate 9 0;
  contents = refl;
  len = refl;
  sized = refl;
  small = omega arith;
  chars = tt;
}

-- The n-th reading of the clock is n seconds.
abbrev pub sample_os : Os
sample_os = record {
  clock = λ n. record { tv_sec = pos n; tv_nsec = pos 0 };
  readings = 0;
  local_time = λ n. record { hour = 9; min = 5; mday = 3; month = codes "May"; year = 126 };
  local_readings = 0;
  allocations = [];
  next_addr = 100;
  writes = [];
  requests = [];
  reads = [];
  replies = 0 ∷ 0 ∷ [];
}

abbrev pub sample_seat : Seat
sample_seat = record {
  pointer = false;
  keyboard = true;
  repeat_period_ms = pos 40;
  repeat_delay_ms = pos 600;
  repeat_sym = other 0;
  repeat_codepoint = 0;
  repeat_timer = none;
}

abbrev pub sample_state : State
sample_state = record {
  eventloop = sample_loop;
  input_idle_timer = none;
  auth_idle_timer = none;
  clear_password_timer = none;
  clock_timer = none;
  screen = record { surfaces = new_surface 1 ∷ []; creations = []; last_len = 0 };
  images = [];
  password = empty_password;
  time = [];
  date = [];
  xkb = record { caps_lock = false; control = false; keymap_loaded = true };
  seats = sample_seat ∷ [];
  auth_state = idle;
  input_state = pristine;
  failed_attempts = 0;
  run_display = true;
  locked = true;
  max_stars = 20;
  os = sample_os;
  exited = none;
}

-- A key, the size of the output, a frame, and a reply has come.
abbrev pub sample_round : Round
sample_round = record {
  flush_fails = false;
  poll_fails = false;
  revents = input ∷ input ∷ no_events ∷ [];
  events = key 0 true key_u 0x75 ∷ configure 1 40 30 ∷ frame 1 ∷ [];
  dispatch_fails = false;
}
