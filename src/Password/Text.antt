-- ===== src/Password/Text.antt =====
-- What a password buffer stands for: a stack of characters, the last one typed on top.
use dewlock.Base.{
  ℕ, suc, ◌+◌, ◌-◌, ◌^◌, ◌<◌, ◌≡◌, refl, sym, ◌∙◌, ap, List, [], ◌∷◌, ◌++◌, arith, All, All-append,
  length, length-append, replicate, length-replicate,
}
use dewlock.SafeBuf.{Sbuf, sbuf_clear}
use dewlock.SafeBuf.Contents.{zero_fill-length}
use dewlock.Unicode.Utf8.{bytes, max_char, IsText, bytes-IsText}

-- The UTF-8 text of the characters.
unfoldable pub text : List ℕ → List ℕ
text [] = []
text (c ∷ cs) = text cs ++ bytes c

abbrev pub AreChars : List ℕ → Type 0
AreChars = All λ c. (0 < c) × (c < max_char)

pub text-IsText : (cs : List ℕ) → AreChars cs → IsText (text cs)
unfolding text
text-IsText [] v = tt
text-IsText (c ∷ cs) v =
    All-append _ (text cs) (bytes c) (text-IsText cs v.1) (bytes-IsText c v.0.0 v.0.1)

pub length-text :
    (c : ℕ) (cs : List ℕ) → length (text (c ∷ cs)) ≡ length (text cs) + length (bytes c)
unfolding text
length-text c cs = length-append (text cs) (bytes c)

-- The buffer holds the text of the characters, NUL, and then anything.
pub record Holds (pw : Sbuf) (cs : List ℕ) : Type 0 where
  pub rest : List ℕ
  pub contents : pw.buf ≡ text cs ++ 0 ∷ rest
  pub len : pw.len ≡ length (text cs)
  pub sized : length pw.buf ≡ pw.cap
  pub small : pw.cap < 2 ^ 32
  pub chars : AreChars cs

module _ {pw : Sbuf} {cs : List ℕ} (h : Holds pw cs) where
  open h use {rest, contents, len, sized, small, chars}

  pub Holds-cap : length (text cs) + suc (length rest) ≡ pw.cap
  Holds-cap = sym (length-append (text cs) (0 ∷ rest)) ∙ (sym (ap length contents) ∙ sized)

  -- Clearing leaves the empty stack, and zeroes the whole memory.
  pub sbuf_clear-Holds : Holds (sbuf_clear pw) []
  unfolding text sbuf_clear
  sbuf_clear-Holds = record {
    rest = replicate (pw.cap - 1) 0;
    contents = zero_fill-length pw.cap pw.buf sized ∙ head_zero;
    len = refl;
    sized = rw (zero_fill-length pw.cap pw.buf sized) (length-replicate {A = ℕ} pw.cap 0);
    small = small;
    chars = tt;
  }
    where
      room : pw.cap ≡ suc (pw.cap - 1)
      room = omega (arith, Holds-cap)

      head_zero : replicate {A = ℕ} pw.cap 0 ≡ 0 ∷ replicate (pw.cap - 1) 0
      head_zero = ap (λ n. replicate {A = ℕ} n 0) room
