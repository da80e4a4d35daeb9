-- ===== src/Render/Pictures.antt =====
-- What the indicator shows of the password, by `set_password` and `draw_form` of src/render.c.
use dewlock.Base.{ℕ, ◌<◌, ◌≡◌, min, arith, if◌then◌else◌}
use dewlock.Render.{View, set_password, is_validating}

-- While nothing is being checked there is an asterisk for each byte of the password, up to the
-- number that fits and to 127, so the terminating NUL stays within the 128 characters. While a
-- password is being checked the number is that of the last frame, though the buffer is empty by then.
pub set_password-min :
    (v : View) (last_len : ℕ)
    → last_len < 128
    → (set_password v last_len ≡ (
        if is_validating v.auth_state then last_len else min v.password_len (min v.max_stars 127)))
      × (set_password v last_len < 128)
unfolding set_password
set_password-min v last_len h = ground (arith, h)
