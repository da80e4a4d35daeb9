-- ===== src/Password/Buffer.antt =====
-- The edits of src/password.c against the stack of characters.
use dewlock.Base.{
  ℕ, ◌+◌, ◌-◌, ◌%◌, ◌^◌, ◌<◌, ◌≡◌, refl, sym, ◌∙◌, ap, Bool, true, false, not, List, [], ◌∷◌, ◌++◌,
  append_assoc, arith, ltb, leb, ◌==◌, if◌then◌else◌, length, length-append, set, set_prefix,
  length-set, take, drop, take-append-drop, ltb→lt, length-take, length-drop, drop-cons, get_or,
  Bool-cases, inl, inr,
}
use dewlock.SafeBuf.{Sbuf}
use dewlock.Unicode.{utf8_chsize, utf8_encode, utf8_last_size}
use dewlock.Unicode.Encode.{length-bytes, utf8_encode-bytes}
use dewlock.Unicode.LastSize.{utf8_last_size-bytes}
use dewlock.Unicode.Utf8.{bytes, max_char, length-bytes_bounds}
use dewlock.Password.{backspace, append_ch}
use dewlock.Password.Text.{text, length-text, text-IsText, Holds, Holds-cap}

-- Room for the character, its NUL, and one byte that the code keeps free.
abbrev pub fits : Sbuf → List ℕ → ℕ → Bool
fits pw cs c = ltb (length (text cs) + length (bytes c) + 1) pw.cap

-- The stack without its top.
abbrev pub pop : List ℕ → List ℕ
pop [] = []
pop (c ∷ cs) = cs

abbrev pub is_empty : List ℕ → Bool
is_empty [] = true
is_empty (c ∷ cs) = false

module _ {pw : Sbuf} {cs : List ℕ} (h : Holds pw cs) where
  open h use {rest, contents, len, sized, small, chars}

  -- Behind the text there are the bytes of the new character, a NUL and what follows.
  append_ch-contents :
      (c : ℕ)
      → c < max_char
      → length (text cs) + length (bytes c) + 1 < pw.cap
      → set (utf8_encode pw.buf pw.len c).0 (pw.len + utf8_chsize c) 0
        ≡ text (c ∷ cs) ++ 0 ∷ drop (length (bytes c)) rest
  unfolding text
  append_ch-contents c small_c room = rw (encoded) (
      rw (← append_assoc, drop-cons k (0 ∷ rest) 0 below)
        (set_prefix (text cs ++ bytes c) (get_or (0 ∷ rest) k 0) (drop k rest)
          (pw.len + utf8_chsize c) 0
          (omega (arith, length-append (text cs) (bytes c), length-bytes c))))
    where
      k : ℕ
      k = length (bytes c)

      below : k < length (0 ∷ rest)
      below = omega (arith, Holds-cap h)

      old : length (take k (0 ∷ rest)) ≡ utf8_chsize c
      old = omega (arith, length-take k (0 ∷ rest), length-bytes c, below)

      split : pw.buf ≡ text cs ++ (take k (0 ∷ rest) ++ drop k (0 ∷ rest))
      split = contents ∙ ap (◌++◌ (text cs)) (sym (take-append-drop k (0 ∷ rest)))

      encoded : (utf8_encode pw.buf pw.len c).0 ≡ text cs ++ (bytes c ++ drop k (0 ∷ rest))
      encoded = rw split (
          ap (λ r. r.0)
            (utf8_encode-bytes (text cs) (take k (0 ∷ rest)) (drop k (0 ∷ rest)) pw.len c len old
              small_c))

  -- The character goes on top of the stack if it fits; else the buffer stays as it was.
  pub append_ch-Holds :
      (c : ℕ) → 0 < c → c < max_char → Holds (append_ch pw c) (if fits pw cs c then c ∷ cs else cs)
  unfolding append_ch
  append_ch-Holds c positive small_c = elim (Bool-cases (fits pw cs c)) [
    | inl room ↦
        rw (room, guard room)
          (record {
            rest = drop (length (bytes c)) rest;
            contents = append_ch-contents c small_c (ltb→lt _ _ room);
            len = omega (arith, length-text c cs, length-bytes c);
            sized =
                ap length (append_ch-contents c small_c (ltb→lt _ _ room))
                ∙ omega (
                  arith,
                  length-append (text (c ∷ cs)) (0 ∷ drop (length (bytes c)) rest),
                  length-text c cs,
                  length-drop (length (bytes c)) rest,
                  Holds-cap h,
                  ltb→lt _ _ room,
                );
            small = small;
            chars = ((positive, small_c), chars);
          })
    | inr full ↦ rw (full, guard_full full) h
  ]
    where
      guard : fits pw cs c ≡ true → leb pw.cap ((pw.len + utf8_chsize c + 1) % 2 ^ 64) ≡ false
      guard room = ground (arith, length-bytes c)

      guard_full : fits pw cs c ≡ false → leb pw.cap ((pw.len + utf8_chsize c + 1) % 2 ^ 64) ≡ true
      guard_full full = ground (arith, length-bytes c, length-bytes_bounds c, Holds-cap h)

-- The top goes, and the result says whether there was one.
pub backspace-Holds :
    {pw : Sbuf} (cs : List ℕ)
    → Holds pw cs
    → Holds (backspace pw).0 (pop cs) × ((backspace pw).1 ≡ not (is_empty cs))
unfolding backspace text
backspace-Holds {pw} [] h =
    let empty : (pw.len == 0) ≡ true = ground (arith, h.len) in rw empty (h, refl)
backspace-Holds {pw} (c ∷ cs) h =
    rw (some_len, last, new_len)
      (
        record {
          rest = drop 1 (bytes c) ++ 0 ∷ rest;
          contents = rw split (set_prefix (text cs) _ _ (length (text cs)) 0 refl);
          len = refl;
          sized = rw (length-set pw.buf (length (text cs)) 0) sized;
          small = small;
          chars = chars.1;
        },
        refl,
      )
  where
    open h use {rest, contents, len, sized, small, chars}

    some_len : (pw.len == 0) ≡ false
    some_len = ground (arith, len, length-text c cs, length-bytes_bounds c)

    last : utf8_last_size pw.buf ≡ length (bytes c)
    last =
        rw (contents, append_assoc)
          (utf8_last_size-bytes (text cs) rest c (text-IsText cs chars.1) chars.0.0 chars.0.1)

    new_len : (pw.len + 2 ^ 64 - length (bytes c)) % 2 ^ 64 ≡ length (text cs)
    new_len = omega (arith, length-text c cs, Holds-cap h)

    split : pw.buf ≡ text cs ++ get_or (bytes c) 0 0 ∷ (drop 1 (bytes c) ++ 0 ∷ rest)
    split =
        contents
        ∙ (append_assoc (text cs) (bytes c) (0 ∷ rest)
            ∙ ap (λ w. text cs ++ (w ++ 0 ∷ rest))
                (drop-cons 0 (bytes c) 0 (omega (arith, length-bytes_bounds c))))
