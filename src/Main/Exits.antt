-- ===== src/Main/Exits.antt =====
-- The callbacks of timers never call `exit`.
use dewlock.Base.{
  get_elem?, ℕ, ◌≡◌, refl, ap, ◌∙◌, List, [], ◌∷◌, Option-cases, inl, inr, if_both, if_cases,
}
use dewlock.Keysym.{Keysym}
use dewlock.Loop.{Callback, Timer, Timespec, set_auth_idle, clear_password, set_time}
use dewlock.Render.{is_validating}
use dewlock.State.{State, damage_state, add_timer, remove_if_set}
use dewlock.Clock
use dewlock.Clock.{clk_set_time, clk_schedule_timer}
use dewlock.Password
use dewlock.Password.{
  send_request, cancel_input_idle, cancel_password_clear, pwd_schedule_auth_idle, submit_password,
  dispatch, pwd_handle_key,
}
use dewlock.Seat
use dewlock.Seat.{arm_repeat, with_seat}
use dewlock.Main.{
  call_timer, find_timer, free_timer, visit_timer, visit_timers, dispatch_listed, dispatch_timers,
  has_exited,
}
use dewlock.Main.Session.{submits}
use dewlock.Main.Session.Frames.{frame_eq, dispatch-Frames}
use dewlock.Main.Session.Turns.{dispatch-submit_password}

submit_password-exited : (s : State) → (submit_password s).exited ≡ s.exited
unfolding submit_password send_request cancel_input_idle cancel_password_clear
    pwd_schedule_auth_idle add_timer remove_if_set damage_state
submit_password-exited s =
    if_both (λ (t : State). t.exited ≡ s.exited) (is_validating s.auth_state) _ _ refl
      (if_both (λ (t : State). (damage_state t).exited ≡ s.exited) _ _ _ refl refl)

pwd_handle_key-exited : (s : State) (k : Keysym) (c : ℕ) → (pwd_handle_key s k c).exited ≡ s.exited
unfolding pwd_handle_key
pwd_handle_key-exited s k c =
    if_both (λ (t : State). t.exited ≡ s.exited) (is_validating s.auth_state) _ _ refl
      (if_cases (λ b. (dispatch k s c).exited ≡ s.exited) (submits s.xkb.control k) s s
        (λ e.
          ap (λ (t : State). t.exited) (dispatch-submit_password k s c e)
          ∙ submit_password-exited s)
        λ e. ap (λ t. t.6) (frame_eq (dispatch-Frames k s c e)))

keyboard_repeat-exited : (s : State) (i : ℕ) → (Seat.keyboard_repeat s i).exited ≡ s.exited
unfolding Seat.keyboard_repeat arm_repeat add_timer
keyboard_repeat-exited s i = elim (Option-cases (get_elem? s.seats i)) [
  | inl e ↦ rw (e, with_seat) refl
  | inr (seat, e) ↦
      rw (e, with_seat)
        (pwd_handle_key-exited (arm_repeat s i seat seat.repeat_period_ms) seat.repeat_sym
          seat.repeat_codepoint)
]

pub call_timer-exited : (c : Callback) (s : State) → (call_timer c s).exited ≡ s.exited
unfolding call_timer Password.set_auth_idle Password.clear_password Clock.set_time clk_set_time
    clk_schedule_timer add_timer remove_if_set damage_state
call_timer-exited set_auth_idle s = refl
call_timer-exited clear_password s = refl
call_timer-exited set_time s = refl
call_timer-exited (Callback.keyboard_repeat i) s = keyboard_repeat-exited s i

visit_timer-exited : (now : Timespec) (a : ℕ) (s : State) → (visit_timer now a s).exited ≡ s.exited
unfolding visit_timer free_timer
visit_timer-exited now a s = elim (Option-cases (find_timer a s.eventloop.timers)) [
  | inl e ↦ rw (e, visit_timer) refl
  | inr (t, e) ↦
      rw (e, visit_timer)
        (if_both (λ (u : State). u.exited ≡ s.exited) t.removed _ _ refl
          (if_both (λ (u : State). u.exited ≡ s.exited) _ _ _ (call_timer-exited t.callback s)
            refl))
]

visit_timers-exited :
    (now : Timespec) (addrs : List ℕ) (s : State) → (visit_timers now addrs s).exited ≡ s.exited
unfolding visit_timers
visit_timers-exited now [] s = refl
visit_timers-exited now (a ∷ later) s =
    if_both (λ (u : State). u.exited ≡ s.exited) (has_exited (visit_timer now a s)) _ _
      (visit_timer-exited now a s) (visit_timers-exited now later _ ∙ visit_timer-exited now a s)

dispatch_listed-exited : (s : State) (ts : List Timer) → (dispatch_listed s ts).exited ≡ s.exited
unfolding dispatch_listed
dispatch_listed-exited s [] = refl
dispatch_listed-exited s (t ∷ ts) = visit_timers-exited _ _ _

pub dispatch_timers-exited : (s : State) → (dispatch_timers s).exited ≡ s.exited
unfolding dispatch_timers
dispatch_timers-exited s = dispatch_listed-exited s s.eventloop.timers
