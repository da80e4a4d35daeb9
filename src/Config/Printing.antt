-- ===== src/Config/Printing.antt =====
-- A configuration printed as the lines of a file, and what a line can hold.
use dewlock.Base.{
  ℕ, ◌/◌, ◌%◌, ◌^◌, ◌<◌, ◌≡◌, ◌≢◌, refl, ◌∙◌, true, Option, none, some, List, [], ◌∷◌, ◌++◌, arith,
  All, All-append, codes,
}
use dewlock.Strings.Splitting.{free_of}
use dewlock.Clock.{decimal}
use dewlock.Clock.Decimal.{decimal-free}
use dewlock.Background.{BackgroundMode, invalid_mode, stretch, fill, fit, center, tile, solid_color}
use dewlock.Background.Modes.{mode_name}
use dewlock.Config.{Cfg, color_from_string}
use dewlock.Config.Channels.{hex_byte, hex_digit, color_from_string-rgba}
use dewlock.Config.Lines.{option_line}

-- The eight digits of a colour.
abbrev pub color_text : ℕ → List ℕ
color_text c =
    hex_byte (c / 256 / 256 / 256)
      (hex_byte (c / 256 / 256 % 256) (hex_byte (c / 256 % 256) (hex_byte (c % 256) [])))

pub color_from_string-color_text :
    (c fallback : ℕ) → c < 2 ^ 32 → color_from_string (color_text c) fallback ≡ c
color_from_string-color_text c fallback h =
    color_from_string-rgba (c / 256 / 256 / 256) (c / 256 / 256 % 256) (c / 256 % 256) (c % 256)
      fallback (omega (arith, h)) (omega arith) (omega arith) (omega arith)
    ∙ omega arith

abbrev pub path_lines : Option (List ℕ) → List (List ℕ)
path_lines none = []
path_lines (some path) = option_line (codes "background") (codes "path") path ∷ []

-- A text that a line can hold.
abbrev pub IsValue : List ℕ → Type 0
IsValue s = (free_of 0 s ≡ true) × (free_of b'\n' s ≡ true)

abbrev pub IsPath : Option (List ℕ) → Type 0
IsPath none = Unit
IsPath (some path) = IsValue path

pub record IsPrintable (cfg : Cfg) : Type 0 where
  pub path : IsPath cfg.path
  pub family : IsValue cfg.family
  pub mode : cfg.mode ≢ invalid_mode
  pub size : cfg.size < 2 ^ 32
  pub background : cfg.colors.background < 2 ^ 32
  pub overlay : cfg.colors.overlay < 2 ^ 32
  pub text : cfg.colors.text < 2 ^ 32
  pub warning : cfg.colors.warning < 2 ^ 32
  pub error : cfg.colors.error < 2 ^ 32

-- The texts of numbers and modes are values.
pub hex_byte-free :
    (b n : ℕ) (rest : List ℕ)
    → b < b'0'
    → n < 256
    → free_of b rest ≡ true
    → free_of b (hex_byte n rest) ≡ true
unfolding free_of hex_digit
hex_byte-free b n rest small h f = ground arith

pub color_text-free : (b c : ℕ) → b < b'0' → c < 2 ^ 32 → free_of b (color_text c) ≡ true
unfolding free_of
color_text-free b c small h =
    hex_byte-free b (c / 256 / 256 / 256) (hex_byte (c / 256 / 256 % 256) low) small
      (omega (arith, h))
      (hex_byte-free b (c / 256 / 256 % 256) low small (omega arith) (
        hex_byte-free b (c / 256 % 256) (hex_byte (c % 256) []) small (omega arith)
          (hex_byte-free b (c % 256) [] small (omega arith) refl)))
  where
    low : List ℕ
    low = hex_byte (c / 256 % 256) (hex_byte (c % 256) [])

pub color_text-IsValue : (c : ℕ) → c < 2 ^ 32 → IsValue (color_text c)
color_text-IsValue c h =
    (color_text-free 0 c (omega arith) h, color_text-free b'\n' c (omega arith) h)

pub decimal-IsValue : (n : ℕ) → IsValue (decimal n)
decimal-IsValue n = (decimal-free 0 n (omega arith), decimal-free b'\n' n (omega arith))

pub mode_name-IsValue : (m : BackgroundMode) → IsValue (mode_name m)
unfolding free_of
mode_name-IsValue stretch = (refl, refl)
mode_name-IsValue fill = (refl, refl)
mode_name-IsValue fit = (refl, refl)
mode_name-IsValue center = (refl, refl)
mode_name-IsValue tile = (refl, refl)
mode_name-IsValue solid_color = (refl, refl)
mode_name-IsValue invalid_mode = (refl, refl)

-- The lines behind the one of the path.
abbrev pub value_lines : Cfg → List (List ℕ)
value_lines cfg =
    option_line (codes "background") (codes "mode") (mode_name cfg.mode)
    ∷ option_line (codes "font") (codes "family") cfg.family
    ∷ option_line (codes "font") (codes "size") (decimal cfg.size)
    ∷ option_line (codes "color") (codes "background") (color_text cfg.colors.background)
    ∷ option_line (codes "color") (codes "overlay") (color_text cfg.colors.overlay)
    ∷ option_line (codes "color") (codes "text") (color_text cfg.colors.text)
    ∷ option_line (codes "color") (codes "warning") (color_text cfg.colors.warning)
    ∷ option_line (codes "color") (codes "error") (color_text cfg.colors.error)
    ∷ []

-- The lines that set every option.
abbrev pub option_lines : Cfg → List (List ℕ)
option_lines cfg = path_lines cfg.path ++ value_lines cfg

pub option_lines-no_newline :
    (cfg : Cfg) → IsPrintable cfg → All (λ line. free_of b'\n' line ≡ true) (option_lines cfg)
unfolding free_of
option_lines-no_newline cfg p =
    All-append _ (path_lines cfg.path) (value_lines cfg) (path_free cfg.path p.path) (
      (mode_name-IsValue cfg.mode).1,
      (
        p.family.1,
        (
          (decimal-IsValue cfg.size).1,
          (
            (color_text-IsValue cfg.colors.background p.background).1,
            (
              (color_text-IsValue cfg.colors.overlay p.overlay).1,
              (
                (color_text-IsValue cfg.colors.text p.text).1,
                (
                  (color_text-IsValue cfg.colors.warning p.warning).1,
                  ((color_text-IsValue cfg.colors.error p.error).1, tt),
                ),
              ),
            ),
          ),
        ),
      ),
    )
  where
    path_free :
        (path : Option (List ℕ))
        → IsPath path
        → All (λ line. free_of b'\n' line ≡ true) (path_lines path)
    path_free none h = tt
    path_free (some path) h = (h.1, tt)
