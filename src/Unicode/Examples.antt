-- ===== src/Unicode/Examples.antt =====
-- The theorems on src/unicode.c at concrete characters, and tests.
use dewlock.Base.{◌≡◌, refl, some, [], ◌∷◌, arith, drop}
use dewlock.Unicode.{utf8_encode, utf8_last_size, utf8_chsize}
use dewlock.Unicode.Utf8.{decode}
use dewlock.Unicode.Encode.{decode-utf8_encode}

-- The euro sign behind an `a`.
euro_written : (utf8_encode (97 ∷ 0 ∷ 0 ∷ 0 ∷ 0 ∷ []) 1 0x20ac).0 ≡ 97 ∷ 0xe2 ∷ 0x82 ∷ 0xac ∷ 0 ∷ []
unfolding utf8_encode
euro_written = refl

euro_size : utf8_last_size (97 ∷ 0xe2 ∷ 0x82 ∷ 0xac ∷ 0 ∷ []) ≡ 3
unfolding utf8_last_size
euro_size = refl

decode-utf8_encode_example :
    decode (drop 1 (utf8_encode (97 ∷ 0 ∷ 0 ∷ 0 ∷ 0 ∷ []) 1 0x20ac).0) ≡ some (0x20ac, 0 ∷ [])
unfolding utf8_chsize
decode-utf8_encode_example =
    decode-utf8_encode (97 ∷ []) (0 ∷ 0 ∷ 0 ∷ []) (0 ∷ []) 1 0x20ac refl refl (omega arith)
