-- ===== src/Main/Session.antt =====
-- A session of typing as a specification: a form that is filled in and sent, by what the user and the
-- timers do. The form has no buffer, no pipe and no timers of its own.
pub mod Frames
pub mod Turns
pub mod Refinement
pub mod Waiting
mod Examples
use dewlock.Base.{ℕ, Bool, true, false, List, [], ◌∷◌, ◌++◌, if◌then◌else◌, ◌||◌}
use dewlock.Keysym.{Keysym, kp_enter, return, key_m, key_d, key_j}
use dewlock.Loop.{Mask}
use dewlock.State.{State}
use dewlock.Password
use dewlock.Password.{pwd_handle_key}
use dewlock.Password.Text.{text}
use dewlock.Password.Keys.{after_key}
use dewlock.Main.{reply_in}
use dewlock.Main.Startup.{pollin}

-- What happens: a key, a reply that says no, and the two timers of the form.
pub data Input : Type 0 where
  press : Keysym → (codepoint : ℕ) → Input
  denial idle_timer clear_timer : Input

-- The characters, the last one on top; whether the form is closed, so that keys are ignored; the texts that
-- were sent. A form that was sent is closed until a reply that says no or a turn of the idle timer, whichever
-- comes first: the timer of an earlier attempt opens it while the answer is still to come.
pub record Form : Type 0 where
  pub stack : List ℕ
  pub closed : Bool
  pub sent : List (List ℕ)

-- The keys that send the form, by whether Control is held.
abbrev pub submits : Bool → Keysym → Bool
submits control kp_enter = true
submits control return = true
submits control key_m = control
submits control key_d = control
submits control key_j = control
submits control _ = false

-- The form after an input, with Control held or not, and this room for the text.
unfoldable pub step_form : (control : Bool) → (cap : ℕ) → Input → Form → Form
step_form control cap (press k c) f =
    if f.closed
    then f
    else (if submits control k
        then record { stack = []; closed = true; sent = f.sent ++ text f.stack ∷ [] }
        else record f { stack = after_key control cap k c f.stack })
step_form control cap denial f = record f { closed = false }
step_form control cap idle_timer f = record f { closed = false }
step_form control cap clear_timer f = record f { stack = [] }

unfoldable pub steps_form : (control : Bool) → (cap : ℕ) → List Input → Form → Form
steps_form control cap [] f = f
steps_form control cap (i ∷ is) f = steps_form control cap is (step_form control cap i f)

-- The same in the program. A reply that says no is a byte 0 in the pipe, which was empty.
unfoldable pub step_state : Input → State → State
step_state (press k c) s = pwd_handle_key s k c
step_state denial s = reply_in pollin (record s { os = record (s.os) { replies = 0 ∷ [] } })
step_state idle_timer s = Password.set_auth_idle s
step_state clear_timer s = Password.clear_password s

unfoldable pub steps_state : List Input → State → State
steps_state [] s = s
steps_state (i ∷ is) s = steps_state is (step_state i s)
