-- ===== src/Password/Keys.antt =====
-- What a key does to the password, by `pwd_handle_key` of src/password.c.
use dewlock.Base.{
  ℕ, ◌+◌, ◌<◌, ◌≡◌, refl, inl, inr, Bool, true, false, List, [], ◌∷◌, arith, ltb, ◌==◌,
  if◌then◌else◌, length, Bool-cases,
}
use dewlock.SafeBuf.{sbuf_clear}
use dewlock.Auth.Request.{auth_write_request-clears}
use dewlock.Unicode.Utf8.{bytes, max_char}
use dewlock.Keysym.{
  Keysym, kp_enter, return, delete, back_space, escape, key_m, key_d, key_j, key_c, key_u, other,
}
use dewlock.Render.{is_validating}
use dewlock.State.{State, damage_state, add_timer, remove_if_set}
use dewlock.Password.{
  backspace, append_ch, cancel_input_idle, pwd_schedule_auth_idle, schedule_password_clear,
  cancel_password_clear, send_request, submit_password, type_key, erase_key, escape_key,
  modifier_key, discard_key, submit_key, dispatch, pwd_handle_key,
}
use dewlock.Password.Text.{text, Holds, sbuf_clear-Holds}
use dewlock.Password.Buffer.{pop, append_ch-Holds, backspace-Holds}

-- The code point that a key types goes on top of the stack, if it is no 0 and there is room.
abbrev pub typed : ℕ → ℕ → List ℕ → List ℕ
typed cap c cs =
    if c == 0
    then cs
    else (if ltb (length (text cs) + length (bytes c) + 1) cap then c ∷ cs else cs)

-- The stack after a key, by whether Control is held.
unfoldable pub after_key : (control : Bool) → (cap : ℕ) → Keysym → ℕ → List ℕ → List ℕ
after_key control cap kp_enter c cs = []
after_key control cap return c cs = []
after_key control cap delete c cs = if control then [] else pop cs
after_key control cap back_space c cs = if control then [] else pop cs
after_key control cap escape c cs = []
after_key control cap key_m c cs = if control then [] else typed cap c cs
after_key control cap key_d c cs = if control then [] else typed cap c cs
after_key control cap key_j c cs = if control then [] else typed cap c cs
after_key control cap key_c c cs = if control then [] else typed cap c cs
after_key control cap key_u c cs = if control then [] else typed cap c cs
after_key control cap (other k) c cs = typed cap c cs
after_key control cap modifier c cs = cs

damage_state-password : (s : State) → (damage_state s).password ≡ s.password
unfolding damage_state
damage_state-password s = refl

schedule_password_clear-password : (s : State) → (schedule_password_clear s).password ≡ s.password
unfolding schedule_password_clear add_timer remove_if_set
schedule_password_clear-password s = refl

cancel_password_clear-password : (s : State) → (cancel_password_clear s).password ≡ s.password
unfolding cancel_password_clear remove_if_set
cancel_password_clear-password s = refl

cancel_input_idle-password : (s : State) → (cancel_input_idle s).password ≡ s.password
unfolding cancel_input_idle remove_if_set
cancel_input_idle-password s = refl

pwd_schedule_auth_idle-password : (s : State) → (pwd_schedule_auth_idle s).password ≡ s.password
unfolding pwd_schedule_auth_idle add_timer remove_if_set
pwd_schedule_auth_idle-password s = refl

send_request-password : (s : State) → (send_request s).0.password ≡ sbuf_clear s.password
unfolding send_request
send_request-password s = auth_write_request-clears s.os.writes s.password s.os.requests

if_password :
    (b : Bool) (s t : State)
    → (if b then s else t).password ≡ (if b then s.password else t.password)
if_password true s t = refl
if_password false s t = refl

if_same : {A : Type 0} (b : Bool) (a : A) → (if b then a else a) ≡ a
if_same true a = refl
if_same false a = refl

if_nested :
    {A : Type 0} (b : Bool) (x y z : A)
    → (if b then x else (if b then y else z)) ≡ (if b then x else z)
if_nested true x y z = refl
if_nested false x y z = refl

ruleset password_laws = (
  damage_state-password, schedule_password_clear-password, cancel_password_clear-password,
  cancel_input_idle-password, pwd_schedule_auth_idle-password, send_request-password, if_password,
  if_same,
)

-- Submitting clears the password, whether or not the request could be written.
pub submit_password-clears :
    (s : State)
    → is_validating s.auth_state ≡ false
    → (submit_password s).password ≡ sbuf_clear s.password
unfolding submit_password
submit_password-clears s ready = rw ready (simp password_laws)

type_key-password :
    (s : State) (c : ℕ)
    → (type_key s c).password ≡ (if c == 0 then s.password else append_ch s.password c)
unfolding type_key
type_key-password s c = simp password_laws

erase_key-password :
    (s : State)
    → (erase_key s).password
      ≡ (if s.xkb.control then sbuf_clear s.password else (backspace s.password).0)
unfolding erase_key
erase_key-password s = simp password_laws

escape_key-password : (s : State) → (escape_key s).password ≡ sbuf_clear s.password
unfolding escape_key
escape_key-password s = simp password_laws

modifier_key-password : (s : State) → (modifier_key s).password ≡ s.password
unfolding modifier_key
modifier_key-password s = simp password_laws

discard_key-password :
    (s : State) (c : ℕ)
    → (discard_key s c).password ≡ (
        if s.xkb.control
        then sbuf_clear s.password
        else (if c == 0 then s.password else append_ch s.password c))
unfolding discard_key
discard_key-password s c = simp (password_laws, type_key-password)

submit_key-password :
    (s : State) (c : ℕ)
    → is_validating s.auth_state ≡ false
    → (submit_key s c).password ≡ (
        if s.xkb.control
        then sbuf_clear s.password
        else (if c == 0 then s.password else append_ch s.password c))
unfolding submit_key
submit_key-password s c ready =
    simp (if_password, submit_password-clears s ready, discard_key-password, if_nested)

module _ (s : State) {cs : List ℕ} (h : Holds s.password cs) where
  -- The character that a key types, or none.
  Holds-typed :
      (c : ℕ)
      → c < max_char
      → Holds (if c == 0 then s.password else append_ch s.password c) (typed s.password.cap c cs)
  Holds-typed c small = elim (Bool-cases (c == 0)) [
    | inl none_typed ↦ rw none_typed h
    | inr some_typed ↦ rw some_typed (append_ch-Holds h c (ground arith) small)
  ]

  Holds-control :
      (c : ℕ)
      → c < max_char
      → Holds
          (if s.xkb.control
            then sbuf_clear s.password
            else (if c == 0 then s.password else append_ch s.password c))
          (if s.xkb.control then [] else typed s.password.cap c cs)
  Holds-control c small = elim (Bool-cases s.xkb.control) [
    | inl on ↦ rw on (sbuf_clear-Holds h)
    | inr off ↦ rw off (Holds-typed c small)
  ]

  Holds-erased :
      Holds
        (if s.xkb.control then sbuf_clear s.password else (backspace s.password).0)
        (if s.xkb.control then [] else pop cs)
  Holds-erased = elim (Bool-cases s.xkb.control) [
    | inl on ↦ rw on (sbuf_clear-Holds h)
    | inr off ↦ rw off ((backspace-Holds cs h).0)
  ]

  pub dispatch-Holds :
      (k : Keysym) (c : ℕ)
      → is_validating s.auth_state ≡ false
      → c < max_char
      → Holds (dispatch k s c).password (after_key s.xkb.control s.password.cap k c cs)
  unfolding dispatch after_key
  dispatch-Holds kp_enter c ready small = rw (submit_password-clears s ready) (sbuf_clear-Holds h)
  dispatch-Holds return c ready small = rw (submit_password-clears s ready) (sbuf_clear-Holds h)
  dispatch-Holds delete c ready small = rw (erase_key-password s) Holds-erased
  dispatch-Holds back_space c ready small = rw (erase_key-password s) Holds-erased
  dispatch-Holds escape c ready small = rw (escape_key-password s) (sbuf_clear-Holds h)
  dispatch-Holds key_m c ready small = rw (submit_key-password s c ready) (Holds-control c small)
  dispatch-Holds key_d c ready small = rw (submit_key-password s c ready) (Holds-control c small)
  dispatch-Holds key_j c ready small = rw (submit_key-password s c ready) (Holds-control c small)
  dispatch-Holds key_c c ready small = rw (discard_key-password s c) (Holds-control c small)
  dispatch-Holds key_u c ready small = rw (discard_key-password s c) (Holds-control c small)
  dispatch-Holds (other k) c ready small = rw (type_key-password s c) (Holds-typed c small)
  dispatch-Holds modifier c ready small = rw (modifier_key-password s) h

  -- From a buffer that holds a stack of characters, any key with any code point leaves a buffer that
  -- holds the stack of `after_key`, or the old one while a password is being checked.
  pub pwd_handle_key-Holds :
      (k : Keysym) (c : ℕ)
      → c < max_char
      → Holds
          (pwd_handle_key s k c).password
          (if is_validating s.auth_state then cs else after_key s.xkb.control s.password.cap k c cs)
  unfolding pwd_handle_key
  pwd_handle_key-Holds k c small = elim (Bool-cases (is_validating s.auth_state)) [
    | inl busy ↦ rw busy h
    | inr ready ↦ rw ready (dispatch-Holds k c ready small)
  ]
