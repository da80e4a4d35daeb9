-- ===== src/Background.antt =====
-- src/background.c and src/background.h: the names of the background modes; Scaling has the layout of
-- an image. Loading an image and painting it are cairo's.
pub mod Modes
pub mod Scaling
mod Examples
use dewlock.Base.{ℕ, List, codes, if◌then◌else◌}
use dewlock.Strings.{strcmp, is_zero}

-- `background_mode_t`; the last one is BACKGROUND_MODE_INVALID.
pub data BackgroundMode : Type 0 where
  stretch fill fit center tile solid_color invalid_mode : BackgroundMode

unfoldable pub bg_parse_mode : List ℕ → BackgroundMode
bg_parse_mode mode =
    if is_zero (strcmp mode (codes "stretch"))
    then stretch
    else (if is_zero (strcmp mode (codes "fill"))
        then fill
        else (if is_zero (strcmp mode (codes "fit"))
            then fit
            else (if is_zero (strcmp mode (codes "center"))
                then center
                else (if is_zero (strcmp mode (codes "tile"))
                    then tile
                    else (if is_zero (strcmp mode (codes "solid_color"))
                        then solid_color
                        else invalid_mode)))))
