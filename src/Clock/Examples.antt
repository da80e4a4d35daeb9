-- ===== src/Clock/Examples.antt =====
-- The theorem on src/clock.c at a time of day.
use dewlock.Base.{◌≡◌, ◌∷◌, ◌++◌, arith, codes}
use dewlock.State.{Tm}
use dewlock.Clock.{clock_text}
use dewlock.Clock.Format.{digits, clock_text-digits}

abbrev morning : Tm
morning = record { hour = 9; min = 5; mday = 3; month = codes "May"; year = 126 }

clock_text-digits_example : clock_text morning ≡ digits 9 ++ (b':' ∷ digits 5)
clock_text-digits_example = clock_text-digits morning (omega arith) (omega arith)
