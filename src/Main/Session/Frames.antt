-- ===== src/Main/Session/Frames.antt =====
-- What keys leave alone: the requests, the answers of the pipes, Control, that the program runs, and, but for those that
-- submit, whether a password is being checked.
use dewlock.Base.{
  ℕ, ◌≡◌, refl, ◌∙◌, Bool, true, false, List, Option, if◌then◌else◌, if_false, if_cases, ◌==◌,
}
use dewlock.Keysym.{
  Keysym, kp_enter, return, delete, back_space, escape, key_m, key_d, key_j, key_c, key_u, other,
}
use dewlock.Auth.{Answer}
use dewlock.Render.{is_validating, is_invalid, AuthState, idle, validating, invalid}
use dewlock.State.{State, damage_state, add_timer, remove_if_set}
use dewlock.Password.{
  backspace, cancel_input_idle, schedule_password_clear, cancel_password_clear, type_key, erase_key,
  escape_key, modifier_key, discard_key, submit_key, dispatch,
}
use dewlock.Main.Session.{submits}

-- The part of the state.
abbrev pub frame : State → Bool × List ℕ × List ℕ × List Answer × List Answer × Bool × Option ℕ
frame s = (
  is_validating s.auth_state,
  s.os.requests,
  s.os.replies,
  s.os.writes,
  s.os.reads,
  s.xkb.control,
  s.exited,
)

pub data Frames (s t : State) : Type 0 where
  frames : frame t ≡ frame s → Frames s t

pub same : {s : State} → Frames s s
same = frames refl

pub trans : {s t u : State} → Frames s t → Frames t u → Frames s u
trans (frames p) (frames q) = frames (q ∙ p)

pub frame_eq : {s t : State} → Frames s t → frame t ≡ frame s
frame_eq (frames p) = p

pub Frames-if : (b : Bool) {s t u : State} → Frames s t → Frames s u → Frames s (if b then t else u)
Frames-if true p q = p
Frames-if false p q = q

pub damage_state-Frames : (s : State) → Frames s (damage_state s)
unfolding damage_state
damage_state-Frames s = frames refl

schedule_password_clear-Frames : (s : State) → Frames s (schedule_password_clear s)
unfolding schedule_password_clear add_timer remove_if_set
schedule_password_clear-Frames s = frames refl

pub cancel_password_clear-Frames : (s : State) → Frames s (cancel_password_clear s)
unfolding cancel_password_clear remove_if_set
cancel_password_clear-Frames s = frames refl

pub cancel_input_idle-Frames : (s : State) → Frames s (cancel_input_idle s)
unfolding cancel_input_idle remove_if_set
cancel_input_idle-Frames s = frames refl

invalid_waits : (a : AuthState) → is_invalid a ≡ true → false ≡ is_validating a
invalid_waits idle e = refl
invalid_waits validating e = cc
invalid_waits invalid e = refl

type_key-Frames : (s : State) (c : ℕ) → Frames s (type_key s c)
unfolding type_key
type_key-Frames s c = Frames-if (c == 0) same (
    trans
      (if_cases (Frames s) (is_invalid s.auth_state) _ _
        (λ e. frames (λ i. (
          invalid_waits s.auth_state e i,
          s.os.requests,
          s.os.replies,
          s.os.writes,
          s.os.reads,
          s.xkb.control,
          s.exited,
        )))
        (λ e. same))
      (trans (frames refl) (trans (schedule_password_clear-Frames _) (damage_state-Frames _))))

erase_key-Frames : (s : State) → Frames s (erase_key s)
unfolding erase_key
erase_key-Frames s =
    trans
      (Frames-if s.xkb.control (trans (frames refl) (cancel_password_clear-Frames _)) (
        trans {t = record s { password = (backspace s.password).0 }} (frames refl)
          (Frames-if _ (schedule_password_clear-Frames _) (cancel_password_clear-Frames _))))
      (damage_state-Frames _)

escape_key-Frames : (s : State) → Frames s (escape_key s)
unfolding escape_key
escape_key-Frames s =
    trans (frames refl) (trans (cancel_password_clear-Frames _) (damage_state-Frames _))

modifier_key-Frames : (s : State) → Frames s (modifier_key s)
unfolding modifier_key
modifier_key-Frames s = trans (schedule_password_clear-Frames s) (damage_state-Frames _)

discard_key-Frames : (s : State) (c : ℕ) → Frames s (discard_key s c)
unfolding discard_key
discard_key-Frames s c =
    Frames-if s.xkb.control
      (trans (frames refl) (trans (cancel_password_clear-Frames _) (damage_state-Frames _)))
      (type_key-Frames s c)

submit_key-Frames : (s : State) (c : ℕ) → s.xkb.control ≡ false → Frames s (submit_key s c)
unfolding submit_key
submit_key-Frames s c e = if_false (Frames s) s.xkb.control _ _ e (discard_key-Frames s c)

-- The keys that do not submit.
pub dispatch-Frames :
    (k : Keysym) (s : State) (c : ℕ) → submits s.xkb.control k ≡ false → Frames s (dispatch k s c)
unfolding dispatch
dispatch-Frames kp_enter s c e = cc
dispatch-Frames return s c e = cc
dispatch-Frames delete s c e = erase_key-Frames s
dispatch-Frames back_space s c e = erase_key-Frames s
dispatch-Frames escape s c e = escape_key-Frames s
dispatch-Frames key_m s c e = submit_key-Frames s c e
dispatch-Frames key_d s c e = submit_key-Frames s c e
dispatch-Frames key_j s c e = submit_key-Frames s c e
dispatch-Frames key_c s c e = discard_key-Frames s c
dispatch-Frames key_u s c e = discard_key-Frames s c
dispatch-Frames (other k) s c e = type_key-Frames s c
dispatch-Frames modifier s c e = modifier_key-Frames s
