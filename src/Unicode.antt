-- ===== src/Unicode.antt =====
-- src/unicode.c: UTF-8 sizes, the encoder and the size of the last character of a C string. Memory
-- is a list of bytes and a pointer into it is an index. `utf8_decode` is declared in src/unicode.h
-- and defined nowhere, so the decoder that the proofs use (Unicode/Utf8.antt) is a specification.
mod Tables
pub mod Utf8
pub mod Encode
pub mod LastSize
mod Examples
use dewlock.Base.{
  ℕ, zero, suc, ◌+◌, ◌-◌, ◌/◌, ◌%◌, Bool, not, Option, none, some, List, [], ◌∷◌, bit_and, bit_or,
  ltb, ◌==◌, if◌then◌else◌, get_or, set,
}

-- `strchr(str, '\0') - str`. C reads past the end where no NUL stands; here that is the length.
unfoldable pub strlen : List ℕ → ℕ
strlen [] = 0
strlen (b ∷ bs) = let rest = suc (strlen bs) in if b == 0 then 0 else rest

-- `(b & 0xc0) == 0x80`
unfoldable pub is_continuation : ℕ → Bool
is_continuation b = bit_and b 0xc0 == 0x80

-- The `while (pos > str)` loop, `pos` as an index.
last_size_loop : List ℕ → ℕ → ℕ → ℕ
last_size_loop buf zero len = 0
last_size_loop buf (suc pos) len =
    let further = last_size_loop buf pos (len + 1) in
    if is_continuation (get_or buf pos 0) then further else len + 1

unfoldable pub utf8_last_size : List ℕ → ℕ
unfolding strlen last_size_loop is_continuation
utf8_last_size buf = last_size_loop buf (strlen buf) 0

unfoldable pub utf8_chsize : ℕ → ℕ
utf8_chsize ch =
    if ltb ch 0x80 then 1 else (if ltb ch 0x800 then 2 else (if ltb ch 0x10000 then 3 else 4))

-- The lead byte's tag, the variable `first`.
lead_tag : ℕ → ℕ
lead_tag ch =
    if ltb ch 0x80
    then 0
    else (if ltb ch 0x800 then 0xc0 else (if ltb ch 0x10000 then 0xe0 else 0xf0))

-- `for (i = len - 1; i > 0; --i)`, with `str` at index `at` of the buffer; returns what is left of
-- `ch`. `& 0x3f` is `% 64`, and `>>= 6` is `/ 64`.
encode_loop : ℕ → ℕ → ℕ → List ℕ → List ℕ × ℕ
encode_loop zero at ch buf = (buf, ch)
encode_loop (suc i) at ch buf =
    encode_loop i at (ch / 64) (set buf (at + suc i) (bit_or (ch % 64) 0x80))

-- The cast to `char` keeps the low byte. In the source `len` is set by the same ladder as `first`;
-- it is the number that `utf8_chsize` returns.
unfoldable pub utf8_encode : List ℕ → ℕ → ℕ → List ℕ × ℕ
unfolding lead_tag encode_loop utf8_chsize
utf8_encode buf at ch =
    let len = utf8_chsize ch in
    let (written, rest) = encode_loop (len - 1) at ch buf in
    (set written at (bit_or (rest % 256) (lead_tag ch)), len)

pub record SizeRow : Type 0 where
  pub mask : ℕ
  pub tag : ℕ
  pub octets : Option ℕ

abbrev row : ℕ → ℕ → Option ℕ → SizeRow
row m t o = record { mask = m; tag = t; octets = o }

-- The table `sizes`; `none` is -1.
abbrev pub sizes : List SizeRow
sizes =
    row 0x80 0x00 (some 1)
    ∷ row 0xe0 0xc0 (some 2)
    ∷ row 0xf0 0xe0 (some 3)
    ∷ row 0xf8 0xf0 (some 4)
    ∷ row 0xfc 0xf8 (some 5)
    ∷ row 0xfe 0xf8 (some 6)
    ∷ row 0x80 0x80 none
    ∷ []

size_loop : ℕ → List SizeRow → Option ℕ
size_loop c [] = none
size_loop c (r ∷ rows) =
    let rest = size_loop c rows in if bit_and c r.mask == r.tag then r.octets else rest

unfoldable pub utf8_size : ℕ → Option ℕ
unfolding size_loop
utf8_size c = size_loop c sizes
