-- ===== src/Strings/Splitting.antt =====
-- Where `strchr` splits a string, and where a NUL ends one.
use dewlock.Base.{
  ℕ, ◌≡◌, refl, Bool, true, false, some, List, [], ◌∷◌, ◌++◌, arith, ◌==◌, if◌then◌else◌,
}
use dewlock.Strings.{c_string, strchr}

-- The byte does not occur.
unfoldable pub free_of : ℕ → List ℕ → Bool
free_of b [] = true
free_of b (x ∷ xs) = let rest = free_of b xs in if x == b then false else rest

pub free_of-append :
    (b : ℕ) (xs ys : List ℕ)
    → free_of b xs ≡ true
    → free_of b ys ≡ true
    → free_of b (xs ++ ys) ≡ true
unfolding free_of
free_of-append b [] ys h k = k
free_of-append b (x ∷ xs) ys h k = ground (arith, free_of-append b xs ys)

pub c_string-free : (s : List ℕ) → free_of 0 s ≡ true → c_string s ≡ s
unfolding free_of c_string
c_string-free [] h = refl
c_string-free (b ∷ s) h = ground (arith, c_string-free s)

pub strchr-free :
    (c : ℕ) (before behind : List ℕ)
    → free_of c before ≡ true
    → strchr c (before ++ c ∷ behind) ≡ some (before, behind)
unfolding free_of strchr
strchr-free c [] behind h = ground arith
strchr-free c (b ∷ before) behind h = let rest = strchr-free c before behind in ground (arith, rest)

pub free_of-first : (b x : ℕ) (xs : List ℕ) → free_of b (x ∷ xs) ≡ true → (x == b) ≡ false
unfolding free_of
free_of-first b x xs h = ground arith
