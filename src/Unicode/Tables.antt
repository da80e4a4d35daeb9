-- ===== src/Unicode/Tables.antt =====
-- The byte facts that the UTF-8 proofs need, each checked at every byte of its range.
use dewlock.Base.{
  ℕ, ◌+◌, ◌<◌, ◌≡◌, refl, Bool, true, false, not, ◌&&◌, ==_iff, Option, none, some, bit_or, arith,
  ltb, leb, ◌==◌, if◌then◌else◌, holds_under, holds_under-at,
}
use dewlock.Unicode.{is_continuation, utf8_size}

module _ (bound tag : ℕ) where
  abbrev or_is_add : ℕ → Bool
  or_is_add x = bit_or x tag == x + tag

  or_add_of_table :
      holds_under or_is_add bound ≡ true → (x : ℕ) → x < bound → bit_or x tag ≡ x + tag
  or_add_of_table table x h = (==_iff _ _).0 (holds_under-at or_is_add bound x table h)

-- A tag whose bits lie above the value is added by `|`.
pub bit_or-continuation : (x : ℕ) → x < 64 → bit_or x 0x80 ≡ x + 0x80
unfolding holds_under
bit_or-continuation = or_add_of_table 64 0x80 refl

pub bit_or-lead₁ : (x : ℕ) → x < 128 → bit_or x 0 ≡ x + 0
unfolding holds_under
bit_or-lead₁ = or_add_of_table 128 0 refl

pub bit_or-lead₂ : (x : ℕ) → x < 32 → bit_or x 0xc0 ≡ x + 0xc0
unfolding holds_under
bit_or-lead₂ = or_add_of_table 32 0xc0 refl

pub bit_or-lead₃ : (x : ℕ) → x < 16 → bit_or x 0xe0 ≡ x + 0xe0
unfolding holds_under
bit_or-lead₃ = or_add_of_table 16 0xe0 refl

pub bit_or-lead₄ : (x : ℕ) → x < 8 → bit_or x 0xf0 ≡ x + 0xf0
unfolding holds_under
bit_or-lead₄ = or_add_of_table 8 0xf0 refl

-- The continuation bytes are those from 0x80 to 0xbf.
abbrev in_range : ℕ → Bool
in_range b = leb 0x80 b && ltb b 0xc0

abbrev classified : ℕ → Bool
classified b = if is_continuation b then in_range b else not (in_range b)

pub is_continuation-range :
    (b : ℕ) → b < 256 → (if is_continuation b then in_range b else not (in_range b)) ≡ true
unfolding holds_under is_continuation
is_continuation-range b h = holds_under-at classified 256 b refl h

-- What `utf8_size` answers: the octets by range. No byte has the answer 6.
abbrev pub size_by_range : ℕ → Option ℕ
size_by_range c =
    if ltb c 0x80
    then some 1
    else (if ltb c 0xc0
        then none
        else (if ltb c 0xe0
            then some 2
            else (if ltb c 0xf0
                then some 3
                else (if ltb c 0xf8 then some 4 else (if ltb c 0xfc then some 5 else none)))))

abbrev same_size : Option ℕ → Option ℕ → Bool
same_size none none = true
same_size (some a) (some b) = a == b
same_size _ _ = false

same_size-eq : (a b : Option ℕ) → same_size a b ≡ true → a ≡ b
same_size-eq none none h = refl
same_size-eq none (some b) h = ground arith
same_size-eq (some a) none h = ground arith
same_size-eq (some a) (some b) h = ground arith

pub utf8_size-range : (c : ℕ) → c < 256 → utf8_size c ≡ size_by_range c
unfolding holds_under utf8_size
utf8_size-range c h =
    same_size-eq (utf8_size c) (size_by_range c)
      (holds_under-at (λ c. same_size (utf8_size c) (size_by_range c)) 256 c refl h)
