-- ===== src/Unicode/Utf8.antt =====
-- UTF-8 as RFC 3629 gives it, with no reference to the code: the bytes of a code point, and a
-- decoder for the first character of a byte list.
use dewlock.Base.{
  ℕ, zero, suc, ◌+◌, ◌-◌, ◌*◌, ◌/◌, ◌%◌, ◌^◌, ◌≤◌, ◌<◌, ◌≡◌, Option, none, some, List, [], ◌∷◌,
  ◌++◌, arith, ltb, leb, ◌&&◌, if◌then◌else◌, length, All,
}

-- The code points that four bytes hold; Unicode ends at 0x10ffff.
abbrev pub max_char : ℕ
max_char = 2 ^ 21

unfoldable pub bytes : ℕ → List ℕ
bytes ch =
    if ltb ch 0x80
    then ch ∷ []
    else (if ltb ch 0x800
        then (0xc0 + ch / 64) ∷ (0x80 + ch % 64) ∷ []
        else (if ltb ch 0x10000
            then (0xe0 + ch / 4096) ∷ (0x80 + ch / 64 % 64) ∷ (0x80 + ch % 64) ∷ []
            else (0xf0 + ch / 262144)
              ∷ (0x80 + ch / 4096 % 64)
              ∷ (0x80 + ch / 64 % 64)
              ∷ (0x80 + ch % 64)
              ∷ []))

-- `n` continuation bytes, six bits each.
decode_tails : ℕ → ℕ → List ℕ → Option (ℕ × List ℕ)
decode_tails zero acc s = some (acc, s)
decode_tails (suc n) acc [] = none
decode_tails (suc n) acc (b ∷ s) =
    let rest = decode_tails n (acc * 64 + (b - 0x80)) s in
    if leb 0x80 b && ltb b 0xc0 then rest else none

-- The first character and the bytes behind it.
unfoldable pub decode : List ℕ → Option (ℕ × List ℕ)
unfolding decode_tails
decode [] = none
decode (a ∷ s) =
    if ltb a 0x80
    then some (a, s)
    else (if ltb a 0xc0
        then none
        else (if ltb a 0xe0
            then decode_tails 1 (a - 0xc0) s
            else (if ltb a 0xf0
                then decode_tails 2 (a - 0xe0) s
                else (if ltb a 0xf8 then decode_tails 3 (a - 0xf0) s else none))))

pub decode-bytes : (ch : ℕ) (s : List ℕ) → ch < max_char → decode (bytes ch ++ s) ≡ some (ch, s)
unfolding bytes decode
decode-bytes ch s h = ground arith

-- Neither NUL nor out of range.
abbrev pub IsText : List ℕ → Type 0
IsText = All λ b. (0 < b) × (b < 256)

pub bytes-IsText : (ch : ℕ) → 0 < ch → ch < max_char → IsText (bytes ch)
unfolding bytes
bytes-IsText ch p h = ground arith

pub length-bytes_bounds : (ch : ℕ) → (1 ≤ length (bytes ch)) × (length (bytes ch) ≤ 4)
unfolding bytes
length-bytes_bounds ch = ground arith
