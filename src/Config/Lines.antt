-- ===== src/Config/Lines.antt =====
-- The loop of `cfg_read` over lines that set an option.
use dewlock.Base.{
  ℕ, ◌≡◌, refl, ap, ◌∙◌, true, false, List, [], ◌∷◌, ◌++◌, arith, All, ◌==◌, if_false,
}
use dewlock.Strings.Splitting.{free_of, free_of-append, free_of-first, c_string-free, strchr-free}
use dewlock.Config.{Cfg, set_option, read_line, getlines, split_value, split_key}

-- Lines with a newline behind each.
unfoldable pub unlines : List (List ℕ) → List ℕ
unlines [] = []
unlines (line ∷ lines) = line ++ b'\n' ∷ unlines lines

getlines-line :
    (line rest : List ℕ)
    → free_of b'\n' line ≡ true
    → getlines (line ++ b'\n' ∷ rest) ≡ line ∷ getlines rest
unfolding getlines free_of
getlines-line [] rest h = refl
getlines-line (b ∷ line) rest h = ground (arith, getlines-line line rest)

pub getlines-unlines :
    (lines : List (List ℕ))
    → All (λ line. free_of b'\n' line ≡ true) lines
    → getlines (unlines lines) ≡ lines
unfolding unlines getlines
getlines-unlines [] h = refl
getlines-unlines (line ∷ lines) h =
    getlines-line line (unlines lines) h.0 ∙ ap (◌∷◌ line) (getlines-unlines lines h.1)

-- The parts of a name `<namespace>.<key>`.
pub record IsName (first : ℕ) (namespace key : List ℕ) : Type 0 where
  pub no_comment : (first == b'#') ≡ false
  pub no_nul : free_of 0 ((first ∷ namespace) ++ b'.' ∷ key) ≡ true
  pub no_equals : free_of b'=' ((first ∷ namespace) ++ b'.' ∷ key) ≡ true
  pub no_dot : free_of b'.' (first ∷ namespace) ≡ true

abbrev pub option_line : List ℕ → List ℕ → List ℕ → List ℕ
option_line namespace key value = (namespace ++ b'.' ∷ key) ++ b'=' ∷ value

-- A line `<namespace>.<key>=<value>` sets that option to that value.
pub read_line-option_line :
    (cfg : Cfg) (first : ℕ) (namespace key value : List ℕ)
    → IsName first namespace key
    → free_of 0 value ≡ true
    → read_line cfg (option_line (first ∷ namespace) key value)
      ≡ set_option cfg (first ∷ namespace) key value
unfolding read_line free_of
read_line-option_line cfg first namespace key value name no_nul =
    rw (c_string-free (option_line (first ∷ namespace) key value) whole) (
      if_false (λ c. c ≡ set_option cfg (first ∷ namespace) key value) (first == 0) _ _ nonzero
        (if_false (λ c. c ≡ set_option cfg (first ∷ namespace) key value) (first == b'#') _ _
          name.no_comment
          (ap (split_value cfg)
              (strchr-free b'=' ((first ∷ namespace) ++ b'.' ∷ key) value name.no_equals)
            ∙ ap (split_key cfg value) (strchr-free b'.' (first ∷ namespace) key name.no_dot))))
  where
    whole : free_of 0 (option_line (first ∷ namespace) key value) ≡ true
    whole = free_of-append 0 ((first ∷ namespace) ++ b'.' ∷ key) (b'=' ∷ value) name.no_nul no_nul

    nonzero : (first == 0) ≡ false
    nonzero = free_of-first 0 first (namespace ++ b'.' ∷ key) name.no_nul
