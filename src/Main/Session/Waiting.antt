-- ===== src/Main/Session/Waiting.antt =====
-- The timer of a wrong attempt, while the next one is being checked.
use dewlock.Base.{ℕ, ◌≡◌, refl, ◌∙◌, some, true, false, List}
use dewlock.Auth.Complete.{NoFailure}
use dewlock.Render.{is_validating}
use dewlock.State.{State, damage_state}
use dewlock.Password
use dewlock.Password.{
  submit_password, send_request, cancel_input_idle, cancel_password_clear, pwd_handle_key, dispatch,
}
use dewlock.Password.Text.{Holds}
use dewlock.Main.Steps.Core.{auth_idle, pointer, Moves}
use dewlock.Main.Steps.Handlers.{submit_password-Moves}
use dewlock.Main.Unlock.Keeps.{Any}
use dewlock.Main.Pointers.Invariant.{Points}
use dewlock.Main.Pointers.Moves.{TiesBut-IsInvariant}
use dewlock.Main.Pointers.Program.{IsTied, TiesBut-IsTied, IsTied-TiesBut}
use dewlock.Main.Session.Turns.{submit_password-Turns, submit_password-auth_idle_timer}

-- If the timer that a wrong attempt has set up is still waiting when the next password is sent, then it
-- waits on while that password is being checked, and when its callback runs, the state says that no
-- password is being checked.
pub submit_password-idle_timer :
    (s : State) {cs : List ℕ} (a : ℕ)
    → IsTied s
    → Holds s.password cs
    → NoFailure s.os.writes
    → NoFailure s.os.reads
    → is_validating s.auth_state ≡ false
    → s.auth_idle_timer ≡ some a
    → (is_validating (submit_password s).auth_state ≡ true)
      × Points auth_idle a (submit_password s).eventloop.timers
      × (is_validating (Password.set_auth_idle (submit_password s)).auth_state ≡ false)
unfolding Password.set_auth_idle damage_state pointer
submit_password-idle_timer s {cs} a tied holds writes reads ready e =
    let t = submit_password-Turns s holds writes reads ready in
    let after = TiesBut-IsTied _ (TiesBut-IsInvariant.moves moved (IsTied-TiesBut s tied)) in
    (
      t.waiting,
      after.points auth_idle a (submit_password-auth_idle_timer s holds writes reads ready ∙ e),
      refl,
    )
  where
    moved : Moves Any s (submit_password s)
    moved = submit_password-Moves s
