-- ===== src/Config.antt =====
-- src/config.c and src/color.h: the lines of the configuration file and what they set. A file is the
-- list of its bytes.
pub mod Channels
pub mod Lines
pub mod Printing
pub mod RoundTrip
pub mod Load
pub mod Escaping
pub mod Images
mod Examples
use dewlock.Base.{
  ℕ, zero, suc, ◌+◌, ◌-◌, ◌%◌, ◌^◌, Bool, true, false, ◌&&◌, ◌||◌, not, Option, none, some, List,
  [], ◌∷◌, ◌++◌, ◌==◌, if◌then◌else◌, codes, length, get_or, set, replicate,
}
use dewlock.Base.Int.{ℤ, pos, negsuc}
use dewlock.Strings.{strcmp, lenient_strcmp, is_zero, c_string, strchr, strtoul, strtol}
use dewlock.State.{Image}
use dewlock.Background.{BackgroundMode, fill, bg_parse_mode}

-- `cfg_t`
pub record Colors : Type 0 where
  pub background : ℕ
  pub overlay : ℕ
  pub text : ℕ
  pub warning : ℕ
  pub error : ℕ

pub record Cfg : Type 0 where
  pub colors : Colors
  pub path : Option (List ℕ)
  pub mode : BackgroundMode
  pub family : List ℕ
  pub size : ℕ

-- `color_from_string`
unfoldable pub color_from_string : List ℕ → ℕ → ℕ
color_from_string str fallback =
    let (res, out_of_range) = strtoul str in
    if not (length str == 6) && not (length str == 8)
    then fallback
    else (if out_of_range then fallback else res % 2 ^ 32)

-- The path is the only field that `init` leaves.
unfoldable pub init : Cfg → Cfg
init cfg = record cfg {
  colors = record {
    background = 0xa3a3a3ff;
    overlay = 0x00000055;
    text = 0xffffffff;
    warning = 0xffdd00ff;
    error = 0xcc6566ff;
  };
  mode = fill;
  family = codes "sans-serif";
  size = 16;
}

unfoldable pub streql : List ℕ → List ℕ → Bool
streql a b = get_or a 0 0 == get_or b 0 0 && is_zero (strcmp a b)

-- The cast of a `long` to `uint32_t`.
abbrev to_uint32 : ℤ → ℕ
to_uint32 (pos n) = n % 2 ^ 32
to_uint32 (negsuc n) = 2 ^ 32 - 1 - n % 2 ^ 32

-- The three blocks of the loop's body, by key.
unfoldable pub set_background : Cfg → List ℕ → List ℕ → Cfg
set_background cfg key value =
    if streql key (codes "path")
    then record cfg { path = some value }
    else (if streql key (codes "mode") then record cfg { mode = bg_parse_mode value } else cfg)

unfoldable pub set_font : Cfg → List ℕ → List ℕ → Cfg
set_font cfg key value =
    if streql key (codes "family")
    then record cfg { family = value }
    else (if streql key (codes "size") then record cfg { size = to_uint32 (strtol value) } else cfg)

unfoldable pub set_color : Colors → List ℕ → List ℕ → Colors
set_color c key value =
    if streql key (codes "background")
    then record c { background = color_from_string value c.background }
    else (if streql key (codes "overlay")
        then record c { overlay = color_from_string value c.overlay }
        else (if streql key (codes "text")
            then record c { text = color_from_string value c.text }
            else (if streql key (codes "warning")
                then record c { warning = color_from_string value c.warning }
                else (if streql key (codes "error")
                    then record c { error = color_from_string value c.error }
                    else c))))

-- A key that its block does not know falls through to the blocks behind it, whose namespaces are
-- others.
unfoldable pub set_option : Cfg → List ℕ → List ℕ → List ℕ → Cfg
set_option cfg namespace key value =
    if streql namespace (codes "background")
    then set_background cfg key value
    else (if streql namespace (codes "font")
        then set_font cfg key value
        else (if streql namespace (codes "color")
            then record cfg { colors = set_color cfg.colors key value }
            else cfg))

abbrev split_key : Cfg → List ℕ → Option (List ℕ × List ℕ) → Cfg
split_key cfg value none = cfg
split_key cfg value (some (namespace, key)) = set_option cfg namespace key value

abbrev split_value : Cfg → Option (List ℕ × List ℕ) → Cfg
split_value cfg none = cfg
split_value cfg (some (name, value)) = split_key cfg value (strchr b'.' name)

-- The loop's body for a line, whose newline is gone. The line is a C string, so a NUL ends it.
unfoldable pub read_line : Cfg → List ℕ → Cfg
read_line cfg line =
    let str = c_string line in
    if get_or str 0 0 == 0
    then cfg
    else (if get_or str 0 0 == b'#' then cfg else split_value cfg (strchr b'=' str))

-- `getline`: the lines of a file without their newlines. What follows the last newline is a line if
-- it is not empty.
abbrev onto_line : ℕ → List (List ℕ) → List (List ℕ)
onto_line b [] = (b ∷ []) ∷ []
onto_line b (line ∷ lines) = (b ∷ line) ∷ lines

unfoldable pub getlines : List ℕ → List (List ℕ)
getlines [] = []
getlines (b ∷ bs) = let rest = getlines bs in if b == b'\n' then [] ∷ rest else onto_line b rest

unfoldable pub read_lines : Cfg → List (List ℕ) → Cfg
read_lines cfg [] = cfg
read_lines cfg (line ∷ lines) = read_lines (read_line cfg line) lines

-- `cfg_read` up to its call of `load_image`. The file is none if there is no path or if it cannot
-- be opened.
unfoldable pub read_options : Cfg → Option (List ℕ) → Cfg
read_options cfg none = init cfg
read_options cfg (some file) = read_lines (init cfg) (getlines file)
