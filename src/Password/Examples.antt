-- ===== src/Password/Examples.antt =====
-- The theorems on src/password.c at a small locker.
use dewlock.Base.{◌≡◌, refl, true, [], ◌∷◌, arith, replicate}
use dewlock.SafeBuf.{Sbuf}
use dewlock.Unicode.Utf8.{bytes}
use dewlock.Keysym.{key_u}
use dewlock.Password.{append_ch, backspace, pwd_handle_key}
use dewlock.Password.Text.{text, Holds}
use dewlock.Password.Buffer.{append_ch-Holds, backspace-Holds}
use dewlock.Password.Keys.{after_key, pwd_handle_key-Holds}
use dewlock.Samples.{empty-Holds, empty_password, sample_state}

pwd_handle_key-Holds_example : Holds (pwd_handle_key sample_state key_u 0x75).password (0x75 ∷ [])
unfolding after_key text bytes
pwd_handle_key-Holds_example =
    pwd_handle_key-Holds sample_state empty-Holds key_u 0x75 (omega arith)

append_ch-Holds_example : Holds (append_ch empty_password 0x20ac) (0x20ac ∷ [])
unfolding text bytes
append_ch-Holds_example = append_ch-Holds empty-Holds 0x20ac (omega arith) (omega arith)

abbrev euro_password : Sbuf
euro_password = record { buf = 0xe2 ∷ 0x82 ∷ 0xac ∷ replicate 7 0; cap = 10; len = 3 }

euro-Holds : Holds euro_password (0x20ac ∷ [])
unfolding text bytes
euro-Holds = record {
  rest = replicate 6 0;
  contents = refl;
  len = refl;
  sized = refl;
  small = omega arith;
  chars = ((omega arith, omega arith), tt);
}

backspace-Holds_example :
    Holds (backspace euro_password).0 [] × ((backspace euro_password).1 ≡ true)
backspace-Holds_example = backspace-Holds (0x20ac ∷ []) euro-Holds
