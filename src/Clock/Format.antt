-- ===== src/Clock/Format.antt =====
-- The text of the clock by `clk_set_time` of src/clock.c.
use dewlock.Base.{ℕ, zero, suc, ◌+◌, ◌/◌, ◌%◌, ◌<◌, ◌≡◌, refl, List, [], ◌∷◌, ◌++◌, arith}
use dewlock.State.{Tm}
use dewlock.Clock.{decimal_loop, decimal, two_digits, clock_text}

-- The two decimal digits of a number.
abbrev pub digits : ℕ → List ℕ
digits n = (b'0' + n / 10) ∷ (b'0' + n % 10) ∷ []

two_digits-digits : (n : ℕ) → n < 100 → two_digits n ≡ digits n
unfolding two_digits decimal decimal_loop
two_digits-digits zero h = ground arith
two_digits-digits (suc n) h = ground arith

-- For a time of day the clock shows the two digits of the hour, a colon, and the two digits of the
-- minute; the buffer cuts nothing off.
pub clock_text-digits :
    (tm : Tm)
    → tm.hour < 24
    → tm.min < 60
    → clock_text tm ≡ digits tm.hour ++ (b':' ∷ digits tm.min)
unfolding clock_text
clock_text-digits tm h m =
    rw (two_digits-digits tm.hour (omega (arith, h)), two_digits-digits tm.min (omega (arith, m)))
      refl
