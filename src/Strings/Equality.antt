-- ===== src/Strings/Equality.antt =====
-- The comparisons of strings against equality.
use dewlock.Base.{
  ℕ, ◌≡◌, refl, Bool, true, false, Option, none, some, List, [], ◌∷◌, arith, if◌then◌else◌, ◌==◌,
}
use dewlock.Strings.{strcmp, lenient_strcmp, is_zero}

-- Equality of strings.
unfoldable pub same_text : List ℕ → List ℕ → Bool
same_text [] [] = true
same_text [] (b ∷ bs) = false
same_text (a ∷ more) [] = false
same_text (a ∷ more) (b ∷ bs) = let rest = same_text more bs in if a == b then rest else false

-- Equality of names, where none is the name of no output.
abbrev pub same_name : Option (List ℕ) → Option (List ℕ) → Bool
same_name none none = true
same_name none (some b) = false
same_name (some a) none = false
same_name (some a) (some b) = same_text a b

pub strcmp-zero : (a b : List ℕ) → is_zero (strcmp a b) ≡ same_text a b
unfolding strcmp same_text
strcmp-zero [] [] = refl
strcmp-zero [] (b ∷ bs) = refl
strcmp-zero (a ∷ more) [] = refl
strcmp-zero (a ∷ more) (b ∷ bs) = ground (arith, strcmp-zero more bs)

-- `lenient_strcmp` answers 0 for equal names only.
pub lenient_strcmp-zero : (a b : Option (List ℕ)) → is_zero (lenient_strcmp a b) ≡ same_name a b
unfolding lenient_strcmp
lenient_strcmp-zero none none = refl
lenient_strcmp-zero none (some b) = refl
lenient_strcmp-zero (some a) none = refl
lenient_strcmp-zero (some a) (some b) = strcmp-zero a b

pub same_text-eq : (a b : List ℕ) → same_text a b ≡ true → a ≡ b
unfolding same_text
same_text-eq [] [] h = refl
same_text-eq [] (y ∷ ys) h = ground arith
same_text-eq (x ∷ xs) [] h = ground arith
same_text-eq (x ∷ xs) (y ∷ ys) h = ground (arith, same_text-eq xs ys)
