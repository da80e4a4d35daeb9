-- ===== src/Main/Session/Examples.antt =====
-- The theorems on sessions at a small locker.
use dewlock.Base.{◌≡◌, refl, true, false, some, List, [], ◌∷◌, arith, All}
use dewlock.Keysym.{other, back_space, return}
use dewlock.Loop.{loop_create, loop_add_timer, expiry_after}
use dewlock.Render.{is_validating}
use dewlock.Strings.{c_string}
use dewlock.State.{State, add_timer, remove_if_set}
use dewlock.Password
use dewlock.Password.{submit_password, pwd_schedule_auth_idle}
use dewlock.Password.Text.{text}
use dewlock.Password.Keys.{after_key}
use dewlock.Unicode.Utf8.{bytes}
use dewlock.AuthPam.{authenticate, handle_conversation, auth_run}
use dewlock.AuthPam.Serving.{check_all}
use dewlock.AuthPam.Samples.{small_world, small_world-HasMemory}
use dewlock.Main.Steps.Core.{auth_idle}
use dewlock.Main.Pointers.Invariant.{Points}
use dewlock.Main.Pointers.Program.{IsTied, TiesBut-IsTied, no_timers}
use dewlock.Main.Pointers.Moves.{ties, TiesBut-IsInvariant}
use dewlock.Main.Steps.Handlers.{pwd_schedule_auth_idle-Moves}
use dewlock.Main.Session.{
  Input, press, denial, idle_timer, Form, step_form, steps_form, steps_state,
}
use dewlock.Main.Session.Refinement.{Shows, IsTypable, steps_state-Shows, auth_run-session}
use dewlock.Main.Session.Waiting.{submit_password-idle_timer}
use dewlock.Samples.{empty-Holds, sample_state}

-- `ac` is typed, sent and denied; then `ax`, the `x` is erased, and `ab` is sent.
abbrev two_attempts : List Input
two_attempts =
    press (other 0) 97
    ∷ press (other 0) 99
    ∷ press return 0
    ∷ press (other 0) 100
    ∷ denial
    ∷ press (other 0) 97
    ∷ press (other 0) 120
    ∷ idle_timer
    ∷ press back_space 0
    ∷ press (other 0) 98
    ∷ press return 0
    ∷ []

two_attempts-IsTypable : All IsTypable two_attempts
unfolding IsTypable
two_attempts-IsTypable = (
  omega arith,
  (
    omega arith,
    (
      omega arith,
      (
        omega arith,
        (tt, (omega arith, (omega arith, (tt, (omega arith, (omega arith, (omega arith, tt))))))),
      ),
    ),
  ),
)

abbrev empty_form : Form
empty_form = record { stack = []; closed = false; sent = [] }

empty-Shows : Shows false 10 empty_form sample_state
empty-Shows = record {
  holds = empty-Holds;
  waiting = refl;
  requests = refl;
  writes = tt;
  reads = tt;
  held = refl;
  room = refl;
  short = tt;
}

steps_state-Shows_example :
    Shows false 10
      (record { stack = []; closed = true; sent = (97 ∷ 99 ∷ []) ∷ (97 ∷ 98 ∷ []) ∷ [] })
      (steps_state two_attempts sample_state)
unfolding steps_form step_form after_key text bytes
steps_state-Shows_example =
    steps_state-Shows two_attempts empty_form sample_state two_attempts-IsTypable empty-Shows

-- The first password is wrong, the second right.
auth_run-session_example :
    auth_run true true 4 small_world [] [] (steps_state two_attempts sample_state).os.requests
    ≡ some (record { exit = 0; sent = 0 ∷ 1 ∷ [] })
unfolding steps_form step_form after_key text bytes check_all authenticate handle_conversation
    c_string
auth_run-session_example =
    auth_run-session two_attempts empty_form sample_state 4 small_world [] [] two_attempts-IsTypable
      empty-Shows small_world-HasMemory tt tt (omega arith)

-- No seat and no timer, and then the timer that a denial sets up.
abbrev quiet_state : State
quiet_state = record sample_state { seats = [] }

denied_state-IsTied : IsTied (pwd_schedule_auth_idle quiet_state)
unfolding loop_create
denied_state-IsTied =
    TiesBut-IsTied _
      (TiesBut-IsInvariant.moves (pwd_schedule_auth_idle-Moves quiet_state) (ties (no_timers 100)))

submit_password-idle_timer_example :
    (is_validating (submit_password (pwd_schedule_auth_idle quiet_state)).auth_state ≡ true)
    × Points auth_idle 100 (submit_password (pwd_schedule_auth_idle quiet_state)).eventloop.timers
    × (is_validating
          (Password.set_auth_idle (submit_password (pwd_schedule_auth_idle quiet_state))).auth_state
        ≡ false)
unfolding pwd_schedule_auth_idle add_timer remove_if_set expiry_after loop_add_timer
submit_password-idle_timer_example =
    submit_password-idle_timer (pwd_schedule_auth_idle quiet_state) 100 denied_state-IsTied
      empty-Holds tt tt refl refl
