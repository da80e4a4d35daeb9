-- ===== src/Password.antt =====
-- src/password.c: the password buffer's edits, the three timers, and what a key does.
pub mod Text
pub mod Keys
pub mod Buffer
mod Examples
use dewlock.Base.{
  ℕ, ◌+◌, ◌-◌, ◌%◌, ◌^◌, Bool, true, false, ◌&&◌, not, Option, none, some, List, [], ◌∷◌, leb, ◌==◌,
  if◌then◌else◌, set,
}
use dewlock.Base.Int.{pos}
use dewlock.Result.{is_ok}
use dewlock.Unicode.{utf8_chsize, utf8_encode, utf8_last_size}
use dewlock.SafeBuf.{Sbuf, sbuf_clear}
use dewlock.Auth.{auth_write_request}
use dewlock.Loop.{Callback}
use dewlock.Render.{idle, validating, invalid, pristine, dirtied, is_validating, is_invalid}
use dewlock.Keysym.{
  Keysym, kp_enter, return, delete, back_space, escape, caps_lock, shift_l, shift_r, control_l,
  control_r, meta_l, meta_r, alt_l, alt_r, super_l, super_r, key_m, key_d, key_j, key_c, key_u,
  other,
}
use dewlock.State.{State, damage_state, add_timer, remove_if_set}

-- The arithmetic is that of `size_t`.
unfoldable pub backspace : Sbuf → Sbuf × Bool
backspace pw =
    let len = (pw.len + 2 ^ 64 - utf8_last_size pw.buf) % 2 ^ 64 in
    if pw.len == 0 then (pw, false) else (record pw { buf = set pw.buf len 0; len = len }, true)

unfoldable pub append_ch : Sbuf → ℕ → Sbuf
append_ch pw codepoint =
    let utf8_size = utf8_chsize codepoint in
    let encoded = (utf8_encode pw.buf pw.len codepoint).0 in
    if leb pw.cap ((pw.len + utf8_size + 1) % 2 ^ 64)
    then pw
    else record pw { buf = set encoded (pw.len + utf8_size) 0; len = pw.len + utf8_size }

unfoldable pub set_auth_idle : State → State
set_auth_idle s = damage_state (record s { auth_idle_timer = none; auth_state = idle })

unfoldable pub cancel_input_idle : State → State
cancel_input_idle s = record (remove_if_set s s.input_idle_timer) { input_idle_timer = none }

unfoldable pub pwd_schedule_auth_idle : State → State
pwd_schedule_auth_idle s =
    let (s', timer) =
      add_timer (remove_if_set s s.auth_idle_timer) (pos 3000) Callback.set_auth_idle in
    record s' { auth_idle_timer = timer }

unfoldable pub clear_password : State → State
clear_password s = damage_state (record s {
  clear_password_timer = none;
  input_state = pristine;
  password = sbuf_clear s.password;
})

unfoldable pub schedule_password_clear : State → State
schedule_password_clear s =
    let (s', timer) =
      add_timer (remove_if_set s s.clear_password_timer) (pos 10000) Callback.clear_password in
    record s' { clear_password_timer = timer }

unfoldable pub cancel_password_clear : State → State
cancel_password_clear s = record (remove_if_set s s.clear_password_timer) {
  clear_password_timer = none;
}

-- `auth_write_request(&state->password)`, over the pipe and the answers of `write`.
unfoldable pub send_request : State → State × Bool
send_request s =
    let r = auth_write_request s.os.writes s.password s.os.requests in
    (
      record s { password = r.pw; os = record (s.os) { writes = r.script; requests = r.sent } },
      is_ok r.result,
    )

unfoldable pub submit_password : State → State
submit_password s =
    let s₁ = record s { input_state = pristine; auth_state = validating } in
    let (s₂, sent) = send_request (cancel_input_idle (cancel_password_clear s₁)) in
    let failed = pwd_schedule_auth_idle (record s₂ { auth_state = invalid }) in
    if is_validating s.auth_state then s else damage_state (if sent then s₂ else failed)

-- The label `default`.
unfoldable pub type_key : State → ℕ → State
type_key s codepoint =
    let s₁ = if is_invalid s.auth_state then record s { auth_state = idle } else s in
    let s₂ = record s₁ { password = append_ch s₁.password codepoint; input_state = dirtied } in
    if codepoint == 0 then s else damage_state (schedule_password_clear s₂)

-- The cases `Delete` and `BackSpace`.
unfoldable pub erase_key : State → State
erase_key s =
    let cleared = cancel_password_clear (record s { password = sbuf_clear s.password }) in
    let (pw, erased) = backspace s.password in
    let s' = record s { password = pw } in
    damage_state (
      if s.xkb.control
      then cleared
      else (if erased && not (pw.len == 0)
          then schedule_password_clear s'
          else cancel_password_clear s'))

unfoldable pub escape_key : State → State
escape_key s =
    damage_state (
      cancel_password_clear (record s { password = sbuf_clear s.password; input_state = pristine }))

unfoldable pub modifier_key : State → State
modifier_key s = damage_state (schedule_password_clear s)

-- The cases `c` and `u`, which fall through to `default`.
unfoldable pub discard_key : State → ℕ → State
discard_key s codepoint =
    let discarded = damage_state (
      cancel_password_clear
        (record s { input_state = dirtied; password = sbuf_clear s.password })) in
    if s.xkb.control then discarded else type_key s codepoint

-- The cases `m`, `d` and `j`, which fall through to the two above.
unfoldable pub submit_key : State → ℕ → State
submit_key s codepoint = if s.xkb.control then submit_password s else discard_key s codepoint

-- The `switch`.
unfoldable pub dispatch : Keysym → State → ℕ → State
dispatch kp_enter s codepoint = submit_password s
dispatch return s codepoint = submit_password s
dispatch delete s codepoint = erase_key s
dispatch back_space s codepoint = erase_key s
dispatch escape s codepoint = escape_key s
dispatch caps_lock s codepoint = modifier_key s
dispatch shift_l s codepoint = modifier_key s
dispatch shift_r s codepoint = modifier_key s
dispatch control_l s codepoint = modifier_key s
dispatch control_r s codepoint = modifier_key s
dispatch meta_l s codepoint = modifier_key s
dispatch meta_r s codepoint = modifier_key s
dispatch alt_l s codepoint = modifier_key s
dispatch alt_r s codepoint = modifier_key s
dispatch super_l s codepoint = modifier_key s
dispatch super_r s codepoint = modifier_key s
dispatch key_m s codepoint = submit_key s codepoint
dispatch key_d s codepoint = submit_key s codepoint
dispatch key_j s codepoint = submit_key s codepoint
dispatch key_c s codepoint = discard_key s codepoint
dispatch key_u s codepoint = discard_key s codepoint
dispatch (other k) s codepoint = type_key s codepoint

unfoldable pub pwd_handle_key : State → Keysym → ℕ → State
unfolding dispatch
pwd_handle_key s keysym codepoint =
    if is_validating s.auth_state then s else dispatch keysym s codepoint
