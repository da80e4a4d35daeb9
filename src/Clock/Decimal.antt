-- ===== src/Clock/Decimal.antt =====
-- `strtol` reads what `%d` prints.
use dewlock.Base.{
  ℕ, zero, suc, ◌+◌, ◌/◌, ◌%◌, ◌^◌, ◌≤◌, ◌<◌, ◌≡◌, refl, ap, true, false, List, [], ◌∷◌, arith, ltb,
  ◌==◌, Bool-cases, inl, inr, if_true, if_false,
}
use dewlock.Base.Int.{pos}
use dewlock.Strings.{is_space, skip_spaces, take_sign, read_digits, strtol}
use dewlock.Strings.Splitting.{free_of}
use dewlock.Clock.{decimal_loop, decimal}

read_digits-decimal_loop :
    (fuel n : ℕ) (acc : List ℕ)
    → n < fuel
    → read_digits 10 0 (decimal_loop fuel n acc) ≡ read_digits 10 n acc
unfolding decimal_loop read_digits
read_digits-decimal_loop zero n acc h = absurd (omega arith)
read_digits-decimal_loop (suc fuel) n acc h =
    ground (arith, read_digits-decimal_loop fuel (n / 10) ((b'0' + n % 10) ∷ acc))

-- A digit in front, and something behind it.
abbrev DigitFirst : List ℕ → Type 0
DigitFirst [] = ⊥
DigitFirst (c ∷ cs) = (b'0' ≤ c) × (c ≤ b'9')

decimal_loop-DigitFirst :
    (fuel n : ℕ) (acc : List ℕ) → n < fuel → DigitFirst (decimal_loop fuel n acc)
unfolding decimal_loop
decimal_loop-DigitFirst zero n acc h = absurd (omega arith)
decimal_loop-DigitFirst (suc fuel) n acc h = elim (Bool-cases (ltb n 10)) [
  | inl small ↦ if_true DigitFirst (ltb n 10) _ _ small (ground arith)
  | inr large ↦
      if_false DigitFirst (ltb n 10) _ _ large
        (decimal_loop-DigitFirst fuel (n / 10) _ (ground arith))
]

strtol-digits :
    (s : List ℕ) (n : ℕ) → DigitFirst s → read_digits 10 0 s ≡ n → n < 2 ^ 63 → strtol s ≡ pos n
unfolding strtol skip_spaces take_sign
strtol-digits [] n d e h = absurd d
strtol-digits (c ∷ cs) n d e h =
    rw (no_space) (rw (no_minus, no_plus, e) (ap pos (omega (arith, h))))
  where
    no_space : is_space c ≡ false
    no_space = ground (arith, d)

    no_minus : (c == b'-') ≡ false
    no_minus = ground (arith, d)

    no_plus : (c == b'+') ≡ false
    no_plus = ground (arith, d)

-- A number below 2 ^ 63 that was printed with `%d` is read back.
pub strtol-decimal : (n : ℕ) → n < 2 ^ 63 → strtol (decimal n) ≡ pos n
unfolding decimal read_digits
strtol-decimal n h =
    strtol-digits (decimal n) n (decimal_loop-DigitFirst (suc n) n [] (omega arith))
      (read_digits-decimal_loop (suc n) n [] (omega arith)) h

decimal_loop-free :
    (b fuel n : ℕ) (acc : List ℕ)
    → b < b'0'
    → free_of b acc ≡ true
    → free_of b (decimal_loop fuel n acc) ≡ true
unfolding decimal_loop free_of
decimal_loop-free b zero n acc h f = f
decimal_loop-free b (suc fuel) n acc h f =
    ground (arith, decimal_loop-free b fuel (n / 10) ((b'0' + n % 10) ∷ acc))

pub decimal-free : (b n : ℕ) → b < b'0' → free_of b (decimal n) ≡ true
unfolding decimal free_of
decimal-free b n h = decimal_loop-free b (suc n) n [] h refl
