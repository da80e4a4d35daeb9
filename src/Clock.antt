-- ===== src/Clock.antt =====
-- src/clock.c: the text of the clock and the timer that renews it every second.
pub mod Format
pub mod Decimal
mod Examples
use Prim.Native.Nat.{ℕ}
use dewlock.Base.{zero, suc, ◌+◌, ◌/◌, ◌%◌, none, List, [], ◌∷◌, ◌++◌, ltb, if◌then◌else◌, take}
use dewlock.Base.Int.{pos}
use dewlock.Loop.{Callback}
use dewlock.State.{State, Tm, damage_state, add_timer, remove_if_set}

-- `%d` of a number that is not negative: the digits in front of `acc`, with fuel for them.
unfoldable pub decimal_loop : ℕ → ℕ → List ℕ → List ℕ
decimal_loop zero n acc = acc
decimal_loop (suc fuel) n acc =
    let more = decimal_loop fuel (n / 10) ((b'0' + n % 10) ∷ acc) in
    if ltb n 10 then (b'0' + n) ∷ acc else more

-- A number below 10 ^ k takes k rounds, so n + 1 rounds are enough.
unfoldable pub decimal : ℕ → List ℕ
unfolding decimal_loop
decimal n = decimal_loop (suc n) n []

-- `%02d`
pub two_digits : ℕ → List ℕ
unfolding decimal
two_digits n = if ltb n 10 then b'0' ∷ decimal n else decimal n

-- `snprintf` into `char clock[8]`
pub clock_text : Tm → List ℕ
unfolding two_digits
clock_text tm = take 7 (two_digits tm.hour ++ (b':' ∷ two_digits tm.min))

-- `snprintf` into `char date[256]`
pub date_text : Tm → List ℕ
unfolding decimal
date_text tm =
    take 255 (tm.month ++ (b' ' ∷ (decimal tm.mday ++ (b',' ∷ b' ' ∷ decimal (tm.year + 1900)))))

unfoldable pub clk_set_time : State → State
unfolding clock_text date_text
clk_set_time s =
    let tm = s.os.local_time s.os.local_readings in
    record s {
      time = clock_text tm;
      date = date_text tm;
      os = record (s.os) { local_readings = suc (s.os.local_readings) };
    }

unfoldable pub clk_schedule_timer : State → State
clk_schedule_timer s =
    let (s', timer) = add_timer (remove_if_set s s.clock_timer) (pos 1000) Callback.set_time in
    record s' { clock_timer = timer }

unfoldable pub set_time : State → State
set_time s = clk_schedule_timer (damage_state (clk_set_time s))

unfoldable pub clk_cancel_timer : State → State
clk_cancel_timer s = record (remove_if_set s s.clock_timer) { clock_timer = none }
