-- ===== src/Unicode/LastSize.antt =====
-- `utf8_last_size` of src/unicode.c on the UTF-8 text of Unicode/Utf8.
use native.Mathlib.Nat.{zero-add, suc-add, add-suc}
use dewlock.Base.{
  ℕ, zero, suc, ◌+◌, ◌-◌, ◌<◌, ◌≡◌, refl, ◌∙◌, append_assoc, true, false, List, [], ◌∷◌, ◌++◌,
  arith, length, length-append, get_or, All-append,
}
use dewlock.Unicode.{strlen, is_continuation, utf8_last_size, last_size_loop}
use dewlock.Unicode.Tables.{is_continuation-range}
use dewlock.Unicode.Utf8.{bytes, max_char, IsText, bytes-IsText, length-bytes_bounds}

pub strlen-text : (s post : List ℕ) → IsText s → strlen (s ++ 0 ∷ post) ≡ length s
unfolding strlen
strlen-text [] post t = refl
strlen-text (b ∷ s) post t = ground (arith, strlen-text s post t.1)

pub get_or-append : (s t : List ℕ) (i d : ℕ) → get_or (s ++ t) (length s + i) d ≡ get_or t i d
get_or-append [] t i d = rw zero-add
get_or-append (x ∷ s) t i d = rw suc-add (get_or-append s t i d)

pub get_or-append_left :
    (s t : List ℕ) (i d : ℕ) → i < length s → get_or (s ++ t) i d ≡ get_or s i d
get_or-append_left [] t i d h = absurd (omega arith)
get_or-append_left (x ∷ s) t zero d h = refl
get_or-append_left (x ∷ s) t (suc i) d h = get_or-append_left s t i d (omega arith)

-- A lead byte and continuation bytes behind it.
pub record IsChar (w : List ℕ) : Type 0 where
  pub lead : is_continuation (get_or w 0 0) ≡ false
  pub tails : (i : ℕ) → 0 < i → i < length w → is_continuation (get_or w i 0) ≡ true

bytes-lead : (ch : ℕ) → ch < max_char → is_continuation (get_or (bytes ch) 0 0) ≡ false
unfolding bytes
bytes-lead ch h = ground (arith, is_continuation-range (get_or (bytes ch) 0 0))

bytes-tails :
    (ch i : ℕ)
    → ch < max_char
    → 0 < i
    → i < length (bytes ch)
    → is_continuation (get_or (bytes ch) i 0) ≡ true
unfolding bytes
bytes-tails ch zero h p lt = absurd (omega arith)
bytes-tails ch (suc zero) h p lt = ground (arith, is_continuation-range (get_or (bytes ch) 1 0))
bytes-tails ch (suc (suc zero)) h p lt =
    ground (arith, is_continuation-range (get_or (bytes ch) 2 0))
bytes-tails ch (suc (suc (suc zero))) h p lt =
    ground (arith, is_continuation-range (get_or (bytes ch) 3 0))
bytes-tails ch (suc (suc (suc (suc i)))) h p lt = ground arith

pub bytes-IsChar : (ch : ℕ) → ch < max_char → IsChar (bytes ch)
bytes-IsChar ch h = record { lead = bytes-lead ch h; tails = λ i p lt. bytes-tails ch i h p lt }

-- From inside a character the loop walks back over continuation bytes to the lead byte.
last_size_loop-char :
    (s w post : List ℕ) (k len : ℕ)
    → IsChar w
    → k < length w
    → last_size_loop (s ++ (w ++ post)) (suc (length s + k)) len ≡ len + suc k
unfolding last_size_loop
last_size_loop-char s w post zero len c lt =
    rw (get_or-append s (w ++ post) 0 0, get_or-append_left w post 0 0 lt, c.lead) refl
last_size_loop-char s w post (suc k) len c lt =
    rw
      (
        get_or-append s (w ++ post) (suc k) 0,
        get_or-append_left w post (suc k) 0 lt,
        c.tails (suc k) (omega arith) lt,
        add-suc (length s) k,
      )
      (last_size_loop-char s w post k (len + 1) c (omega arith) ∙ omega arith)

-- In a buffer that holds the string `s` and behind it one whole character, then NUL, the code
-- answers the size of that character.
pub utf8_last_size-bytes :
    (s post : List ℕ) (ch : ℕ)
    → IsText s
    → 0 < ch
    → ch < max_char
    → utf8_last_size (s ++ (bytes ch ++ 0 ∷ post)) ≡ length (bytes ch)
unfolding utf8_last_size
utf8_last_size-bytes s post ch t p h =
    rw (strlen-char, last_size_loop-char s (bytes ch) (0 ∷ post) k 0 (bytes-IsChar ch h) fits)
      (omega (arith, length-bytes_bounds ch))
  where
    k : ℕ
    k = length (bytes ch) - 1

    fits : k < length (bytes ch)
    fits = omega (arith, length-bytes_bounds ch)

    ends : IsText (s ++ bytes ch)
    ends = All-append _ s (bytes ch) t (bytes-IsText ch p h)

    strlen-char : strlen (s ++ (bytes ch ++ 0 ∷ post)) ≡ suc (length s + k)
    strlen-char =
        rw (← append_assoc, strlen-text (s ++ bytes ch) post ends)
          (omega (arith, length-append s (bytes ch), length-bytes_bounds ch))
