-- ===== src/Keysym.antt =====
-- The `xkb_keysym_t` values that src/password.c names; `other` has the rest.
use dewlock.Base.{ℕ}

pub data Keysym : Type 0 where
  kp_enter return delete back_space escape : Keysym
  caps_lock shift_l shift_r control_l control_r meta_l meta_r alt_l alt_r super_l super_r : Keysym
  key_m key_d key_j key_c key_u : Keysym
  other : ℕ → Keysym
