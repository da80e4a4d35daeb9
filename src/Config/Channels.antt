-- ===== src/Config/Channels.antt =====
-- Colours in the configuration file: `color_from_string` of src/color.h on hexadecimal digits.
use dewlock.Base.{
  ℕ, ◌+◌, ◌-◌, ◌*◌, ◌/◌, ◌%◌, ◌^◌, ◌<◌, ◌≡◌, refl, ap, ◌∙◌, Bool, true, false, ◌&&◌, List, [], ◌∷◌,
  arith, ltb, leb, lt→ltb, ◌==◌, if◌then◌else◌,
}
use dewlock.Strings.{
  digit_value, skip_spaces, take_sign, skip_prefix, read_digits, strtoul, is_space,
}
use dewlock.Config.{color_from_string}

-- `%X` of one digit.
unfoldable pub hex_digit : ℕ → ℕ
hex_digit d = if ltb d 10 then b'0' + d else b'A' + (d - 10)

-- `%02X`
abbrev pub hex_byte : ℕ → List ℕ → List ℕ
hex_byte n rest = hex_digit (n / 16) ∷ hex_digit (n % 16) ∷ rest

-- The colour with the given channels, as src/render.c takes it apart.
abbrev pub rgba : ℕ → ℕ → ℕ → ℕ → ℕ
rgba r g b a = ((r * 256 + g) * 256 + b) * 256 + a

digit_value-hex_digit : (d : ℕ) → d < 16 → digit_value (hex_digit d) ≡ d
unfolding hex_digit
digit_value-hex_digit d h = ground arith

-- No digit is a space, a sign or an x.
record IsPlain (c : ℕ) : Type 0 where
  no_space : is_space c ≡ false
  no_minus : (c == b'-') ≡ false
  no_plus : (c == b'+') ≡ false
  no_x : (c == b'x') ≡ false
  no_X : (c == b'X') ≡ false

hex_digit-IsPlain : (d : ℕ) → d < 16 → IsPlain (hex_digit d)
unfolding hex_digit
hex_digit-IsPlain d h = ground arith

read_digits-hex_byte :
    (n acc : ℕ) (rest : List ℕ)
    → n < 256
    → read_digits 16 acc (hex_byte n rest) ≡ read_digits 16 (acc * 256 + n) rest
unfolding read_digits
read_digits-hex_byte n acc rest h =
    let e : (acc * 16 + n / 16) * 16 + n % 16 ≡ acc * 256 + n = omega arith in
    rw
      (
        digit_value-hex_digit (n / 16) (omega arith),
        digit_value-hex_digit (n % 16) (omega arith),
        lt→ltb (n / 16) 16 (omega arith),
        lt→ltb (n % 16) 16 (omega arith),
        e,
      )
      refl

and_false : (b : Bool) → (b && false) ≡ false
and_false true = refl
and_false false = refl

strtoul-plain :
    (c d : ℕ) (cs : List ℕ) {v : ℕ}
    → IsPlain c
    → IsPlain d
    → read_digits 16 0 (c ∷ d ∷ cs) ≡ v
    → v < 2 ^ 64
    → strtoul (c ∷ d ∷ cs) ≡ (v, false)
unfolding strtoul skip_spaces take_sign skip_prefix
strtoul-plain c d cs {v} p q e small =
    rw (p.no_space)
      (rw (p.no_minus, p.no_plus) (rw (q.no_x, q.no_X, and_false (c == b'0'), e, big) refl))
  where
    big : leb (2 ^ 64) v ≡ false
    big = ground (arith, small)

strtoul-hex :
    (n : ℕ) (rest : List ℕ)
    → n < 256
    → read_digits 16 n rest < 2 ^ 64
    → strtoul (hex_byte n rest) ≡ (read_digits 16 n rest, false)
strtoul-hex n rest h small =
    strtoul-plain (hex_digit (n / 16)) (hex_digit (n % 16)) rest
      (hex_digit-IsPlain (n / 16) (omega arith)) (hex_digit-IsPlain (n % 16) (omega arith)) value
      small
  where
    value : read_digits 16 0 (hex_byte n rest) ≡ read_digits 16 n rest
    value = read_digits-hex_byte n 0 rest h ∙ ap (λ k. read_digits 16 k rest) (omega arith)

-- The eight digits that `cfg_debug` prints of a colour are read back as that colour.
pub color_from_string-rgba :
    (r g b a fallback : ℕ)
    → r < 256
    → g < 256
    → b < 256
    → a < 256
    → color_from_string (hex_byte r (hex_byte g (hex_byte b (hex_byte a [])))) fallback
      ≡ rgba r g b a
unfolding color_from_string read_digits
color_from_string-rgba r g b a fallback hr hg hb ha =
    rw (strtoul-hex r (hex_byte g (hex_byte b (hex_byte a []))) hr (omega (arith, four)), four)
      (omega arith)
  where
    four : read_digits 16 r (hex_byte g (hex_byte b (hex_byte a []))) ≡ rgba r g b a
    four =
        read_digits-hex_byte g r (hex_byte b (hex_byte a [])) hg
        ∙ (read_digits-hex_byte b (r * 256 + g) (hex_byte a []) hb
            ∙ read_digits-hex_byte a ((r * 256 + g) * 256 + b) [] ha)

-- Six digits are read as the three channels behind the first: what is meant as red, green and blue
-- becomes green, blue and alpha, with no red.
pub color_from_string-rgb :
    (r g b fallback : ℕ)
    → r < 256
    → g < 256
    → b < 256
    → color_from_string (hex_byte r (hex_byte g (hex_byte b []))) fallback ≡ rgba 0 r g b
unfolding color_from_string read_digits
color_from_string-rgb r g b fallback hr hg hb =
    rw (strtoul-hex r (hex_byte g (hex_byte b [])) hr (omega (arith, three)), three) (omega arith)
  where
    three : read_digits 16 r (hex_byte g (hex_byte b [])) ≡ (r * 256 + g) * 256 + b
    three = read_digits-hex_byte g r (hex_byte b []) hg ∙ read_digits-hex_byte b (r * 256 + g) [] hb
