-- ===== src/Unicode/Encode.antt =====
-- `utf8_encode`, `utf8_chsize` and `utf8_size` of src/unicode.c against the UTF-8 of Unicode/Utf8.
use native.Mathlib.Nat.{add_assoc, add-zero}
use dewlock.Base.{
  ℕ, zero, suc, ◌+◌, ◌-◌, ◌/◌, ◌%◌, ◌<◌, ◌≡◌, refl, some, List, [], ◌∷◌, ◌++◌, bit_or, arith,
  length, set, get_or, drop, set-append, drop_prefix,
}
use dewlock.Unicode.{utf8_chsize, utf8_encode, utf8_size, encode_loop}
use dewlock.Unicode.Tables.{
  bit_or-continuation, bit_or-lead₁, bit_or-lead₂, bit_or-lead₃, bit_or-lead₄, utf8_size-range,
}
use dewlock.Unicode.Utf8.{bytes, decode, max_char, decode-bytes}

pub length-bytes : (ch : ℕ) → length (bytes ch) ≡ utf8_chsize ch
unfolding bytes utf8_chsize
length-bytes ch = ground arith

-- The loop leaves what stands before `str` alone.
encode_loop-append :
    (i at ch : ℕ) (pre xs : List ℕ)
    → encode_loop i (length pre + at) ch (pre ++ xs)
      ≡ (pre ++ (encode_loop i at ch xs).0, (encode_loop i at ch xs).1)
unfolding encode_loop
encode_loop-append zero at ch pre xs = refl
encode_loop-append (suc i) at ch pre xs =
    rw (add_assoc (length pre) at (suc i), set-append pre xs (at + suc i) (bit_or (ch % 64) 0x80))
      (encode_loop-append i at (ch / 64) pre (set xs (at + suc i) (bit_or (ch % 64) 0x80)))

pub utf8_encode-append :
    (pre xs : List ℕ) (ch : ℕ)
    → utf8_encode (pre ++ xs) (length pre + 0) ch ≡ (pre ++ (utf8_encode xs 0 ch).0, utf8_chsize ch)
unfolding utf8_encode
utf8_encode-append pre xs ch =
    rw (encode_loop-append (utf8_chsize ch - 1) 0 ch pre xs)
      (rw (set-append pre (encode_loop (utf8_chsize ch - 1) 0 ch xs).0 0) refl)

-- Over the bytes that a character takes, with `str` at the front.
utf8_encode-front :
    (old post : List ℕ) (ch : ℕ)
    → ch < max_char
    → length old ≡ utf8_chsize ch
    → (utf8_encode (old ++ post) 0 ch).0 ≡ bytes ch ++ post
unfolding utf8_encode bytes
utf8_encode-front [] post ch h e = ground arith
utf8_encode-front (a ∷ []) post ch h e = ground (arith, bit_or-lead₁ ch)
utf8_encode-front (a ∷ b ∷ []) post ch h e =
    ground (arith, bit_or-lead₂ (ch / 64), bit_or-continuation (ch % 64))
utf8_encode-front (a ∷ b ∷ c ∷ []) post ch h e = ground (
  arith,
  bit_or-lead₃ (ch / 64 / 64),
  bit_or-continuation (ch % 64),
  bit_or-continuation (ch / 64 % 64),
)
utf8_encode-front (a ∷ b ∷ c ∷ d ∷ []) post ch h e = ground (
  arith,
  bit_or-lead₄ (ch / 64 / 64 / 64),
  bit_or-continuation (ch % 64),
  bit_or-continuation (ch / 64 % 64),
  bit_or-continuation (ch / 64 / 64 % 64),
)
utf8_encode-front (a ∷ b ∷ c ∷ d ∷ x ∷ old) post ch h e = ground arith

-- At index `n` of a buffer with room for the character, the code writes its UTF-8 bytes, changes
-- nothing else, and returns their number.
pub utf8_encode-bytes :
    (pre old post : List ℕ) (n ch : ℕ)
    → n ≡ length pre
    → length old ≡ utf8_chsize ch
    → ch < max_char
    → utf8_encode (pre ++ (old ++ post)) n ch ≡ (pre ++ (bytes ch ++ post), length (bytes ch))
utf8_encode-bytes pre old post n ch e room h =
    rw (length-bytes ch, ← utf8_encode-front old post ch h room)
      (rw (e, ← add-zero (length pre)) (utf8_encode-append pre (old ++ post) ch))

-- A decoder that starts where the code wrote a character reads that character, and goes on with the
-- bytes that stood behind it.
pub decode-utf8_encode :
    (pre old post : List ℕ) (n ch : ℕ)
    → n ≡ length pre
    → length old ≡ utf8_chsize ch
    → ch < max_char
    → decode (drop n (utf8_encode (pre ++ (old ++ post)) n ch).0) ≡ some (ch, post)
decode-utf8_encode pre old post n ch e room h =
    rw (utf8_encode-bytes pre old post n ch e room h, drop_prefix pre (bytes ch ++ post) n e)
      (decode-bytes ch post h)

-- The size that `utf8_size` reads off the first byte of a character is what `utf8_chsize` says.
utf8_size-bytes :
    (ch : ℕ) → ch < max_char → utf8_size (get_or (bytes ch) 0 0) ≡ some (utf8_chsize ch)
unfolding bytes utf8_chsize
utf8_size-bytes ch h = ground (arith, utf8_size-range (get_or (bytes ch) 0 0))
