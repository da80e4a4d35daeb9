-- ===== src/Config/RoundTrip.antt =====
-- A configuration that is printed as a file is read back.
use dewlock.Base.{
  ℕ, ◌^◌, ◌<◌, ◌≡◌, ◌≢◌, refl, ap, ◌∙◌, true, Option, none, some, List, [], ◌∷◌, ◌++◌, arith, codes,
}
use dewlock.Strings.{strcmp}
use dewlock.Strings.Splitting.{free_of}
use dewlock.Clock.{decimal}
use dewlock.Clock.Decimal.{strtol-decimal}
use dewlock.Background.{BackgroundMode, invalid_mode}
use dewlock.Background.Modes.{mode_name, bg_parse_mode-mode_name}
use dewlock.Config.{
  Cfg, init, streql, set_option, set_background, set_font, set_color, read_line, read_lines,
  read_options,
}
use dewlock.Config.Lines.{unlines, getlines-unlines, option_line, read_line-option_line}
use dewlock.Config.Printing.{
  color_text, path_lines, IsPath, IsPrintable, color_text-IsValue, decimal-IsValue,
  mode_name-IsValue, color_from_string-color_text, value_lines, option_lines,
  option_lines-no_newline,
}

-- What a line does, by option.
module _ (cfg : Cfg) where
  set_mode :
      (m : BackgroundMode)
      → m ≢ invalid_mode
      → set_option cfg (codes "background") (codes "mode") (mode_name m) ≡ record cfg { mode = m }
  unfolding set_option set_background streql strcmp
  set_mode m ne = ap (λ k. record cfg { mode = k }) (bg_parse_mode-mode_name m ne)

  set_size :
      (n : ℕ)
      → n < 2 ^ 32
      → set_option cfg (codes "font") (codes "size") (decimal n) ≡ record cfg { size = n }
  unfolding set_option set_font streql strcmp
  set_size n h =
      rw (strtol-decimal n (omega (arith, h)))
        (ap (λ k. record cfg { size = k }) (omega (arith, h)))

-- Reading these lines takes one configuration to another.
data Reads : Cfg → List (List ℕ) → Cfg → Type 0 where
  stop : {a : Cfg} → Reads a [] a
  next :
      {a b c : Cfg} {line : List ℕ} {lines : List (List ℕ)}
      → read_line a line ≡ b
      → Reads b lines c
      → Reads a (line ∷ lines) c

read_lines-Reads : {a c : Cfg} {lines : List (List ℕ)} → Reads a lines c → read_lines a lines ≡ c
unfolding read_lines
read_lines-Reads stop = refl
read_lines-Reads (next {lines} e r) = ap (λ t. read_lines t lines) e ∙ read_lines-Reads r

read_path :
    (a : Cfg) (path : Option (List ℕ)) (lines : List (List ℕ))
    → a.path ≡ none
    → IsPath path
    → read_lines a (path_lines path ++ lines) ≡ read_lines (record a { path = path }) lines
unfolding read_lines set_option set_background streql strcmp free_of
read_path a none lines e h = ap (λ q. read_lines (record a { path = q }) lines) e
read_path a (some path) lines e h =
    ap (λ t. read_lines t lines)
      (read_line-option_line a b'b' (codes "ackground") (codes "path") path
        (record { no_comment = refl; no_nul = refl; no_equals = refl; no_dot = refl }) h.0)

module _ (cfg : Cfg) (p : IsPrintable cfg) where
  -- One line of each option.
  read_mode :
      (a : Cfg)
      → read_line a (option_line (codes "background") (codes "mode") (mode_name cfg.mode))
        ≡ record a { mode = cfg.mode }
  unfolding free_of
  read_mode a =
      read_line-option_line a b'b' (codes "ackground") (codes "mode") (mode_name cfg.mode)
        (record { no_comment = refl; no_nul = refl; no_equals = refl; no_dot = refl })
        ((mode_name-IsValue cfg.mode).0)
      ∙ set_mode a cfg.mode p.mode

  read_family :
      (a : Cfg)
      → read_line a (option_line (codes "font") (codes "family") cfg.family)
        ≡ record a { family = cfg.family }
  unfolding free_of set_option set_font streql strcmp
  read_family a =
      read_line-option_line a b'f' (codes "ont") (codes "family") cfg.family
        (record { no_comment = refl; no_nul = refl; no_equals = refl; no_dot = refl }) (p.family.0)

  read_size :
      (a : Cfg)
      → read_line a (option_line (codes "font") (codes "size") (decimal cfg.size))
        ≡ record a { size = cfg.size }
  unfolding free_of
  read_size a =
      read_line-option_line a b'f' (codes "ont") (codes "size") (decimal cfg.size)
        (record { no_comment = refl; no_nul = refl; no_equals = refl; no_dot = refl })
        ((decimal-IsValue cfg.size).0)
      ∙ set_size a cfg.size p.size

-- A line of a colour, up to its key.
read_color :
    (a : Cfg) (key : List ℕ) (c : ℕ)
    → free_of 0 key ≡ true
    → free_of b'=' key ≡ true
    → c < 2 ^ 32
    → read_line a (option_line (codes "color") key (color_text c))
      ≡ set_option a (codes "color") key (color_text c)
unfolding free_of
read_color a key c f g h =
    read_line-option_line a b'c' (codes "olor") key (color_text c)
      (record { no_comment = refl; no_nul = f; no_equals = g; no_dot = refl })
      ((color_text-IsValue c h).0)

read_color_background :
    (a : Cfg) (c : ℕ)
    → c < 2 ^ 32
    → read_line a (option_line (codes "color") (codes "background") (color_text c))
      ≡ record a { colors = record (a.colors) { background = c } }
unfolding free_of set_option set_color streql strcmp
read_color_background a c h =
    read_color a (codes "background") c refl refl h
    ∙ ap (λ v. record a { colors = record (a.colors) { background = v } })
        (color_from_string-color_text c a.colors.background h)

read_color_overlay :
    (a : Cfg) (c : ℕ)
    → c < 2 ^ 32
    → read_line a (option_line (codes "color") (codes "overlay") (color_text c))
      ≡ record a { colors = record (a.colors) { overlay = c } }
unfolding free_of set_option set_color streql strcmp
read_color_overlay a c h =
    read_color a (codes "overlay") c refl refl h
    ∙ ap (λ v. record a { colors = record (a.colors) { overlay = v } })
        (color_from_string-color_text c a.colors.overlay h)

read_color_text :
    (a : Cfg) (c : ℕ)
    → c < 2 ^ 32
    → read_line a (option_line (codes "color") (codes "text") (color_text c))
      ≡ record a { colors = record (a.colors) { text = c } }
unfolding free_of set_option set_color streql strcmp
read_color_text a c h =
    read_color a (codes "text") c refl refl h
    ∙ ap (λ v. record a { colors = record (a.colors) { text = v } })
        (color_from_string-color_text c a.colors.text h)

read_color_warning :
    (a : Cfg) (c : ℕ)
    → c < 2 ^ 32
    → read_line a (option_line (codes "color") (codes "warning") (color_text c))
      ≡ record a { colors = record (a.colors) { warning = c } }
unfolding free_of set_option set_color streql strcmp
read_color_warning a c h =
    read_color a (codes "warning") c refl refl h
    ∙ ap (λ v. record a { colors = record (a.colors) { warning = v } })
        (color_from_string-color_text c a.colors.warning h)

read_color_error :
    (a : Cfg) (c : ℕ)
    → c < 2 ^ 32
    → read_line a (option_line (codes "color") (codes "error") (color_text c))
      ≡ record a { colors = record (a.colors) { error = c } }
unfolding free_of set_option set_color streql strcmp
read_color_error a c h =
    read_color a (codes "error") c refl refl h
    ∙ ap (λ v. record a { colors = record (a.colors) { error = v } })
        (color_from_string-color_text c a.colors.error h)

module _ (cfg : Cfg) (p : IsPrintable cfg) (a : Cfg) where
  -- The configuration behind the lines of mode, family and size.
  abbrev before_colors : Cfg
  before_colors = record a { mode = cfg.mode; family = cfg.family; size = cfg.size }

  value_lines-Reads : Reads a (value_lines cfg) (record cfg { path = a.path })
  value_lines-Reads = next (read_mode cfg p a) (
      next (read_family cfg p _) (
        next (read_size cfg p _) (
          next (read_color_background before_colors cfg.colors.background p.background) (
            next (read_color_overlay _ cfg.colors.overlay p.overlay) (
              next (read_color_text _ cfg.colors.text p.text) (
                next (read_color_warning _ cfg.colors.warning p.warning)
                  (next (read_color_error _ cfg.colors.error p.error) stop)))))))

-- A configuration with a mode, numbers of 32 bits and texts that a line can hold is read back from
-- the file that sets its options, by a program that has no path yet.
pub read_options-option_lines :
    (start cfg : Cfg)
    → start.path ≡ none
    → IsPrintable cfg
    → read_options start (some (unlines (option_lines cfg))) ≡ cfg
unfolding read_options init
read_options-option_lines start cfg e p =
    ap (read_lines (init start))
      (getlines-unlines (option_lines cfg) (option_lines-no_newline cfg p))
    ∙ (read_path (init start) cfg.path (value_lines cfg) e p.path
        ∙ read_lines-Reads (value_lines-Reads cfg p (record (init start) { path = cfg.path })))
