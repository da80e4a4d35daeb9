-- ===== src/Main/Steps/Handlers.antt =====
-- The steps that keys and the callbacks of timers are made of.
use dewlock.Base.{ℕ, refl, ap, ◌==◌, if_cases, arith}
use dewlock.Base.Int.{pos}
use dewlock.Keysym.{
  Keysym, kp_enter, return, delete, back_space, escape, key_m, key_d, key_j, key_c, key_u, other,
}
use dewlock.Auth.Request.{auth_write_request-clears}
use dewlock.Render.{is_validating, is_invalid, pristine, validating}
use dewlock.State.{State, add_timer, remove_if_set}
use dewlock.Password.{
  cancel_input_idle, pwd_schedule_auth_idle, schedule_password_clear, cancel_password_clear,
  send_request, submit_password, type_key, erase_key, escape_key, modifier_key, discard_key,
  submit_key, dispatch, pwd_handle_key,
}
use dewlock.Clock.{clk_schedule_timer}
use dewlock.Main.Steps.Core.{Moves, stays, wipes, erases, types, trans, same, Moves-if, core}
use dewlock.Main.Steps.Scheduling.{
  damage_state-Moves, input_idle-drops, auth_idle-drops, clear-drops, clock-drops, auth_idle-arms,
  clear-arms, clock-arms,
}

module _ {Ok : ℕ → Type 0} where
  cancel_input_idle-Moves : (s : State) → Moves Ok s (cancel_input_idle s)
  unfolding cancel_input_idle
  cancel_input_idle-Moves s = input_idle-drops s

  cancel_password_clear-Moves : (s : State) → Moves Ok s (cancel_password_clear s)
  unfolding cancel_password_clear
  cancel_password_clear-Moves s = clear-drops s

  pub pwd_schedule_auth_idle-Moves : (s : State) → Moves Ok s (pwd_schedule_auth_idle s)
  unfolding pwd_schedule_auth_idle add_timer remove_if_set
  pwd_schedule_auth_idle-Moves s = trans (auth_idle-drops s) (auth_idle-arms _ (pos 3000) refl)

  schedule_password_clear-Moves : (s : State) → Moves Ok s (schedule_password_clear s)
  unfolding schedule_password_clear add_timer remove_if_set
  schedule_password_clear-Moves s = trans (clear-drops s) (clear-arms _ (pos 10000) refl)

  pub clk_schedule_timer-Moves : (s : State) → Moves Ok s (clk_schedule_timer s)
  unfolding clk_schedule_timer add_timer remove_if_set
  clk_schedule_timer-Moves s = trans (clock-drops s) (clock-arms _ (pos 1000) refl)

  send_request-Moves : (s : State) → Moves Ok s (send_request s).0
  unfolding send_request
  send_request-Moves s = wipes (
      ap (λ pw. record (core s) { password = pw })
        (auth_write_request-clears s.os.writes s.password s.os.requests))

  pub submit_password-Moves : (s : State) → Moves Ok s (submit_password s)
  unfolding submit_password
  submit_password-Moves s = Moves-if (is_validating s.auth_state) same (
      trans (Moves-if _ sent (trans sent (trans (stays refl) (pwd_schedule_auth_idle-Moves _))))
        (damage_state-Moves _))
    where
      s₁ : State
      s₁ = record s { input_state = pristine; auth_state = validating }

      sent : Moves Ok s (send_request (cancel_input_idle (cancel_password_clear s₁))).0
      sent = trans {t = s₁} (stays refl) (
          trans (cancel_password_clear-Moves s₁)
            (trans (cancel_input_idle-Moves _) (send_request-Moves _)))

  type_key-Moves : (s : State) (c : ℕ) → Ok c → Moves Ok s (type_key s c)
  unfolding type_key
  type_key-Moves s c ok =
      if_cases (Moves Ok s) (c == 0) _ _ (λ zero. same)
        λ typed. trans (Moves-if (is_invalid s.auth_state) (stays refl) same) (
          trans (types c (λ e. ground arith) ok refl)
            (trans (schedule_password_clear-Moves _) (damage_state-Moves _)))

  erase_key-Moves : (s : State) → Moves Ok s (erase_key s)
  unfolding erase_key
  erase_key-Moves s =
      trans
        (Moves-if s.xkb.control (trans (wipes refl) (cancel_password_clear-Moves _)) (
          trans (erases refl)
            (Moves-if _ (schedule_password_clear-Moves _) (cancel_password_clear-Moves _))))
        (damage_state-Moves _)

  escape_key-Moves : (s : State) → Moves Ok s (escape_key s)
  unfolding escape_key
  escape_key-Moves s =
      trans (wipes refl) (trans (cancel_password_clear-Moves _) (damage_state-Moves _))

  modifier_key-Moves : (s : State) → Moves Ok s (modifier_key s)
  unfolding modifier_key
  modifier_key-Moves s = trans (schedule_password_clear-Moves s) (damage_state-Moves _)

  discard_key-Moves : (s : State) (c : ℕ) → Ok c → Moves Ok s (discard_key s c)
  unfolding discard_key
  discard_key-Moves s c ok =
      Moves-if s.xkb.control
        (trans (wipes refl) (trans (cancel_password_clear-Moves _) (damage_state-Moves _)))
        (type_key-Moves s c ok)

  submit_key-Moves : (s : State) (c : ℕ) → Ok c → Moves Ok s (submit_key s c)
  unfolding submit_key
  submit_key-Moves s c ok =
      Moves-if s.xkb.control (submit_password-Moves s) (discard_key-Moves s c ok)

  dispatch-Moves : (k : Keysym) (s : State) (c : ℕ) → Ok c → Moves Ok s (dispatch k s c)
  unfolding dispatch
  dispatch-Moves kp_enter s c ok = submit_password-Moves s
  dispatch-Moves return s c ok = submit_password-Moves s
  dispatch-Moves delete s c ok = erase_key-Moves s
  dispatch-Moves back_space s c ok = erase_key-Moves s
  dispatch-Moves escape s c ok = escape_key-Moves s
  dispatch-Moves key_m s c ok = submit_key-Moves s c ok
  dispatch-Moves key_d s c ok = submit_key-Moves s c ok
  dispatch-Moves key_j s c ok = submit_key-Moves s c ok
  dispatch-Moves key_c s c ok = discard_key-Moves s c ok
  dispatch-Moves key_u s c ok = discard_key-Moves s c ok
  dispatch-Moves (other k) s c ok = type_key-Moves s c ok
  dispatch-Moves modifier s c ok = modifier_key-Moves s

  pub pwd_handle_key-Moves :
      (s : State) (k : Keysym) (c : ℕ) → Ok c → Moves Ok s (pwd_handle_key s k c)
  unfolding pwd_handle_key
  pwd_handle_key-Moves s k c ok =
      Moves-if (is_validating s.auth_state) same (dispatch-Moves k s c ok)
