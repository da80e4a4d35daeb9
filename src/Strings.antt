-- ===== src/Strings.antt =====
-- C strings: src/strcmp.h, and the functions of string.h and stdlib.h that the program calls. A
-- string is the list of its bytes without the NUL; NULL is none.
pub mod Equality
pub mod Splitting
use dewlock.Base.{
  ℕ, zero, suc, ◌+◌, ◌-◌, ◌*◌, ◌^◌, ◌%◌, min, Bool, true, false, ◌&&◌, ◌||◌, Option, none, some,
  List, [], ◌∷◌, ltb, leb, ◌==◌, if◌then◌else◌, get_or,
}
use dewlock.Base.Int.{ℤ, pos, negsuc}

-- The sign of `strcmp`.
unfoldable pub strcmp : List ℕ → List ℕ → ℤ
strcmp [] [] = pos 0
strcmp [] (b ∷ bs) = negsuc 0
strcmp (a ∷ more) [] = pos 1
strcmp (a ∷ more) (b ∷ bs) =
    let rest = strcmp more bs in if a == b then rest else (if ltb a b then negsuc 0 else pos 1)

-- NULL is none.
unfoldable pub lenient_strcmp : Option (List ℕ) → Option (List ℕ) → ℤ
unfolding strcmp
lenient_strcmp none none = pos 0
lenient_strcmp none (some b) = negsuc 0
lenient_strcmp (some a) none = pos 1
lenient_strcmp (some a) (some b) = strcmp a b

abbrev pub is_zero : ℤ → Bool
is_zero (pos n) = n == 0
is_zero (negsuc n) = false

-- The string that starts at the front of a buffer.
unfoldable pub c_string : List ℕ → List ℕ
c_string [] = []
c_string (b ∷ bs) = let rest = b ∷ c_string bs in if b == 0 then [] else rest

abbrev behind_byte : ℕ → Option (List ℕ × List ℕ) → Option (List ℕ × List ℕ)
behind_byte b none = none
behind_byte b (some (before, behind)) = some (b ∷ before, behind)

-- `strchr(s, c)`, with what stands before the first `c` and behind it.
unfoldable pub strchr : ℕ → List ℕ → Option (List ℕ × List ℕ)
strchr c [] = none
strchr c (b ∷ bs) =
    let further = behind_byte b (strchr c bs) in if b == c then some ([], bs) else further

-- `isspace`
abbrev pub is_space : ℕ → Bool
is_space c = c == b' ' || leb 9 c && leb c 13

unfoldable pub skip_spaces : List ℕ → List ℕ
skip_spaces [] = []
skip_spaces (c ∷ cs) = let rest = skip_spaces cs in if is_space c then rest else c ∷ cs

-- A digit of a base up to 36, in either case.
abbrev pub digit_value : ℕ → ℕ
digit_value c =
    if leb b'0' c && leb c b'9'
    then c - b'0'
    else (if leb b'a' c && leb c b'z'
        then c - b'a' + 10
        else (if leb b'A' c && leb c b'Z' then c - b'A' + 10 else 36))

-- The digits at the front, behind the value so far.
unfoldable pub read_digits : ℕ → ℕ → List ℕ → ℕ
read_digits base acc [] = acc
read_digits base acc (c ∷ cs) =
    let more = read_digits base (acc * base + digit_value c) cs in
    if ltb (digit_value c) base then more else acc

-- The optional sign: whether it is a minus, and what stands behind it.
unfoldable pub take_sign : List ℕ → Bool × List ℕ
take_sign [] = (false, [])
take_sign (c ∷ cs) =
    if c == b'-' then (true, cs) else (if c == b'+' then (false, cs) else (false, c ∷ cs))

-- The optional `0x` of base 16. With no digit behind it the number is the 0 in front of the x.
unfoldable pub skip_prefix : List ℕ → List ℕ
skip_prefix (zero_digit ∷ x ∷ cs) =
    if zero_digit == b'0' && (x == b'x' || x == b'X') then cs else zero_digit ∷ x ∷ cs
skip_prefix s = s

-- `strtoul(s, NULL, 16)`, and whether it sets `errno`.
unfoldable pub strtoul : List ℕ → ℕ × Bool
unfolding skip_spaces take_sign skip_prefix read_digits
strtoul s =
    let (minus, digits) = take_sign (skip_spaces s) in
    let n = read_digits 16 0 (skip_prefix digits) in
    if leb (2 ^ 64) n
    then (2 ^ 64 - 1, true)
    else (if minus then (2 ^ 64 - n) % 2 ^ 64 else n, false)

abbrev negative : ℕ → ℤ
negative zero = pos 0
negative (suc n) = negsuc n

-- `strtol(s, NULL, 10)`, which `atol` calls.
unfoldable pub strtol : List ℕ → ℤ
unfolding skip_spaces take_sign read_digits
strtol s =
    let (minus, digits) = take_sign (skip_spaces s) in
    let n = read_digits 10 0 digits in
    if minus then negative (min n (2 ^ 63)) else pos (min n (2 ^ 63 - 1))
